-- ===== src/Store/Counterparty.antt =====
-- internal/store/store.go and store_counterparty.go: customers and suppliers, whose identity is
-- encrypted with the key of the company.
pub mod Identity
use pare.Common.{
  ℕ, Text, bytes, text_eq, is_empty, not, ◌&&◌, Bool, true, false, Option, none, some, List, [],
  ◌∷◌, ◌++◌, if◌then◌else◌,
}
use pare.Crypto.{Result, ok, err, encrypt_field, decrypt_field, unwrap_dek, new_dek_from}
use pare.Store.{
  CounterpartyRow, InvoiceRow, Db, find_row, any_row, update_rows, is_draft, StoreError, Outcome,
  failed, done, and_then, get_company, no_rows, foreign_company, dek_unusable, crypto_failed,
  name_required, counterparty_erased, retention_blocked,
}
use pare.Store.Env.{Env}
use pare.Store.Audit.{Actor}
use pare.Store.Act.{Act, pure, fail, lift, from, gets, guard, exec, log, ◌>>=◌, ◌>>◌}

pub record Counterparty : Type 0 where
  pub id : Text
  pub kind : Text
  pub name : Text
  pub org_nr : Text
  pub personnummer : Text
  pub address : Text
  pub iban : Text
  pub email : Text
  pub erased : Bool

abbrev pub of_crypto : {A : Type 0} → Result A → Outcome A
of_crypto (ok a) = done a
of_crypto (err e) = failed (crypto_failed e)

abbrev usable : Result Text → Outcome Text
usable (ok a) = done a
usable (err e) = failed dek_unusable

-- `known` keeps the fields in the order of the code.
pub record Fields : Type 0 where
  pub name : Text
  pub org_nr : Text
  pub personnummer : Text
  pub address : Text
  pub iban : Text
  pub email : Text

abbrev pub has_id : Text → CounterpartyRow → Bool
has_id id r = text_eq r.id id

-- `row.CompanyID == companyID`
abbrev pub is_of : Text → Text → Bool
is_of company id = text_eq company id

module _ (env : Env) where
  -- Store.dekFromWrapped
  unfoldable pub dek_from_wrapped : Text → Outcome Text
  unfolding unwrap_dek new_dek_from
  dek_from_wrapped wrapped =
      and_then (usable (unwrap_dek env.lib env.kek wrapped)) (λ raw. usable (new_dek_from raw))

  -- Store.companyDEK
  unfoldable pub company_dek : Text → Db → Outcome Text
  unfolding get_company dek_from_wrapped
  company_dek company db = elim (get_company company db.companies) [
    | none ↦ failed no_rows
    | some co ↦ dek_from_wrapped co.dek_wrapped
  ]

  -- The closure `enc`: nothing stays nothing.
  unfoldable pub enc : Text → Text → Text → Outcome Text
  unfolding encrypt_field
  enc dek nonce v = if is_empty v then done [] else of_crypto (encrypt_field env.lib dek nonce v)

  -- The closure `dec`
  unfoldable pub dec : Text → Text → Outcome Text
  unfolding decrypt_field
  dec dek v = if is_empty v then done [] else of_crypto (decrypt_field env.lib dek v)

  -- The loop that encrypts the six fields; `nonces` are the random bytes of each.
  unfoldable pub encrypted : Text → (ℕ → Text) → Counterparty → Outcome Fields
  unfolding enc
  encrypted dek nonces cp = and_then (enc dek (nonces 0) cp.name) (λ name.
      and_then (enc dek (nonces 1) cp.org_nr) (λ org_nr.
        and_then (enc dek (nonces 2) cp.personnummer) (λ personnummer.
          and_then (enc dek (nonces 3) cp.address) (λ address.
            and_then (enc dek (nonces 4) cp.iban) (λ iban.
              and_then (enc dek (nonces 5) cp.email) (λ email. done (record {
                name = name;
                org_nr = org_nr;
                personnummer = personnummer;
                address = address;
                iban = iban;
                email = email;
              })))))))

  -- The loop that decrypts the six columns.
  unfoldable pub decrypted : Text → CounterpartyRow → Outcome Counterparty
  unfolding dec
  decrypted dek row = and_then (dec dek row.name_enc) (λ name.
      and_then (dec dek row.orgnr_enc) (λ org_nr.
        and_then (dec dek row.personnummer_enc) (λ personnummer.
          and_then (dec dek row.address_enc) (λ address. and_then (dec dek row.iban_enc) (λ iban.
            and_then (dec dek row.email_enc) (λ email. done (record {
              id = row.id;
              kind = row.kind;
              name = name;
              org_nr = org_nr;
              personnummer = personnummer;
              address = address;
              iban = iban;
              email = email;
              erased = row.erased;
            })))))))

  -- Store.GetCounterparty
  unfoldable pub get_counterparty : Text → Text → Db → Outcome Counterparty
  unfolding text_eq company_dek decrypted
  get_counterparty company id db = elim (find_row (has_id id) db.counterparties) [
    | none ↦ failed no_rows
    | some row ↦
        if not (text_eq row.company_id company)
        then failed foreign_company
        else and_then (company_dek company db) (λ dek. decrypted dek row)
  ]

  -- InsertCounterparty
  abbrev row_with : Text → Text → Text → Fields → CounterpartyRow
  row_with new_id company kind f = record {
    id = new_id;
    company_id = company;
    kind = kind;
    name_enc = f.name;
    orgnr_enc = f.org_nr;
    personnummer_enc = f.personnummer;
    address_enc = f.address;
    iban_enc = f.iban;
    email_enc = f.email;
    erased = false;
  }

  -- Store.CreateCounterparty; the row gets `new_id`.
  unfoldable pub create_counterparty :
      Option Actor → Text → (ℕ → Text) → Text → Counterparty → Act Text
  unfolding company_dek encrypted ◌>>=◌
  create_counterparty actor new_id nonces company cp = do
    guard (not (is_empty cp.name)) name_required
    dek ← from (company_dek company)
    fields ← lift (encrypted dek nonces cp)
    exec (λ db. record db {
      counterparties = db.counterparties ++ row_with new_id company cp.kind fields ∷ [];
    })
    log env.mac actor company (bytes "create_counterparty") (bytes "counterparty") new_id cp.kind
    pure new_id

  abbrev is_live : Text → Text → CounterpartyRow → Bool
  is_live company id r = text_eq r.id id && text_eq r.company_id company && not r.erased

  -- Store.UpdateCounterparty
  unfoldable pub update_counterparty :
      Option Actor → (ℕ → Text) → Text → Text → Counterparty → Act (Unit {0})
  unfolding get_counterparty company_dek encrypted text_eq ◌>>=◌
  update_counterparty actor nonces company id cp = do
    guard (not (is_empty cp.name)) name_required
    existing ← from (get_counterparty company id)
    guard (not existing.erased) counterparty_erased
    dek ← from (company_dek company)
    fields ← lift (encrypted dek nonces cp)
    let kind = if text_eq cp.kind (bytes "supplier") then cp.kind else bytes "customer"
    exec (λ db. record db {
      counterparties =
          update_rows (is_live company id) (λ r. row_with r.id r.company_id kind fields)
            db.counterparties;
    })
    log env.mac actor company (bytes "update_counterparty") (bytes "counterparty") id cp.kind

  -- CountRetainedInvoices, compared with 0
  abbrev pub is_retained : Text → Text → InvoiceRow → Bool
  is_retained company id r =
      text_eq r.company_id company && text_eq r.counterparty_id id && not (is_draft r.status)

  abbrev pub tombstone : Text
  tombstone = bytes "[raderad enligt GDPR]"

  abbrev erased_row : Text → CounterpartyRow → CounterpartyRow
  erased_row tomb r = record r {
    name_enc = tomb;
    orgnr_enc = [];
    personnummer_enc = [];
    address_enc = [];
    iban_enc = [];
    email_enc = [];
    erased = true;
  }

  unfoldable erase_live : Option Actor → Text → Text → Text → Counterparty → Act (Unit {0})
  unfolding company_dek encrypt_field ◌>>=◌
  erase_live actor nonce company id cp = do
    retained ← gets (λ db. any_row (is_retained company id) db.invoices)
    guard (not retained) retention_blocked
    dek ← from (company_dek company)
    tomb ← lift (of_crypto (encrypt_field env.lib dek nonce tombstone))
    exec (λ db. record db {
      counterparties = update_rows (is_live company id) (erased_row tomb) db.counterparties;
    })
    exec (λ db. record db { shield_tokens = [] })
    log env.mac actor company (bytes "erase_counterparty") (bytes "counterparty") id cp.kind

  -- Store.EraseCounterparty
  unfoldable pub erase_counterparty : Option Actor → Text → Text → Text → Act (Unit {0})
  unfolding get_counterparty erase_live ◌>>=◌
  erase_counterparty actor nonce company id = do
    cp ← from (get_counterparty company id)
    if cp.erased then pure tt else erase_live actor nonce company id cp
