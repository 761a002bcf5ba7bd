-- ===== src/Store/Requests/Years.antt =====
-- An undone sale, a customer, a closed year and an imported file of internal/store.
use pare.Common.{
  ℕ, ◌+◌, ◌↔◌, true, ==_iff, length, Text, bytes, text_eq, false, none, some, [], ◌∷◌, ◌++◌, ◌≡◌,
  refl, arith, if◌then◌else◌,
}
use pare.Common.Int.{pos, negsuc, ◌+ℤ◌, ◌-ℤ◌}
use pare.Common.Int64.{add, wrap}
use pare.Crypto.RoundTrip.{IsLawful}
use pare.Ledger.Verification.{validate_lines}
use pare.Store.{no_profile, FiscalYearRow, Db, done, find_row, get_company}
use pare.Store.Audit.{has_prev, last_hash}
use pare.Store.Posting.{row_of, first_unknown, is_locked, next_verification_number}
use pare.Store.Act.{pure, lift, from, gets, transaction, guard, exec, post, log}
use pare.Store.Act.Steps.{up}
use pare.Store.Undo.{undo_verification}
use pare.Store.Undo.Possible.{undo_verification_succeeds}
use pare.Store.Counterparty.{Counterparty, create_counterparty, get_counterparty}
use pare.Store.Counterparty.Identity.{get_counterparty-create_counterparty}
use pare.Store.Close.{close_fiscal_year}
use pare.Store.Import.{Export, SieImportResult, count_verifications, import_sie}
use pare.Store.Import.Count.{HasOpening, import_sie-count}
use pare.Store.Examples.{company, open_books, sale, with_sale}
use pare.Store.Requests.{plain, env, keyed}

-- The sale of the first of January, undone a month later.
sale_is_found :
    find_row (λ v. text_eq v.id (bytes "v1")) with_sale.verifications
    ≡ some (row_of (bytes "v1") 1 sale)
unfolding text_eq
sale_is_found = refl

undo_verification_succeeds_example :
    (db' : Db) × (undo_verification env none up (bytes "v2") company (bytes "v1") 130 with_sale
      ≡ (done (bytes "v2"), db'))
unfolding text_eq wrap get_company next_verification_number has_prev last_hash validate_lines add
    ◌+ℤ◌ first_unknown is_locked
undo_verification_succeeds_example =
    undo_verification_succeeds env none (bytes "v2") (row_of (bytes "v1") 1 sale)
      (record { id = company; dek_wrapped = []; locked_through = none; profile = no_profile }) 1 130
      with_sale (bytes "v1") ((refl, refl), tt) sale_is_found refl refl refl refl

-- A customer of it.
abbrev customer : Counterparty
customer = record {
  id = [];
  kind = bytes "customer";
  name = bytes "Anna";
  org_nr = [];
  personnummer = bytes "19900101-1234";
  address = [];
  iban = [];
  email = bytes "anna@example.com";
  erased = false;
}

plain-IsLawful : IsLawful plain
plain-IsLawful = record {
  aes = λ key e. ground (arith, ==_iff (length key) 32);
  gcm = λ key n p. refl;
  base64 = λ s. refl;
  nonce = omega arith;
  empty = λ s e. e;
}

abbrev nonces : ℕ → Text
nonces i = bytes "nonce-nonce-"

abbrev with_customer : Db
with_customer = (create_counterparty env none (bytes "k1") nonces company customer keyed).1

customer_is_created :
    create_counterparty env none (bytes "k1") nonces company customer keyed
    ≡ (done (bytes "k1"), with_customer)
unfolding create_counterparty guard from lift exec log pure
customer_is_created = refl

get_counterparty-create_counterparty_example :
    get_counterparty env company (bytes "k1") with_customer
    ≡ done (record customer { id = bytes "k1"; erased = false })
get_counterparty-create_counterparty_example =
    get_counterparty-create_counterparty env plain-IsLawful none (bytes "k1") (bytes "k1") nonces
      company customer keyed with_customer (λ i. refl) refl customer_is_created

-- The year of the sale, closed.
abbrev year : FiscalYearRow
year = record {
  id = bytes "y1";
  company_id = company;
  label = bytes "2025";
  starts_on = 1;
  ends_on = 365;
  closed = false;
}

abbrev whole_year : Db
whole_year = record with_sale {
  accounts = with_sale.accounts ++ record { company_id = company; number = bytes "2099" } ∷ [];
  fiscal_years = year ∷ [];
}

abbrev closed_year : Db
closed_year = (close_fiscal_year env none up (bytes "v3") company (bytes "y1") whole_year).1

-- A file with one account, an opening balance of it and one that is there, and one voucher between them.
abbrev file : Export
file = record {
  year_start = 1;
  accounts = bytes "5010" ∷ [];
  opening_balances = (bytes "1930", pos 5000) ∷ (bytes "5010", negsuc 4999) ∷ [];
  vouchers =
      record {
        series = bytes "A";
        number = pos 1;
        date = 40;
        text = bytes "Hyra";
        lines =
            record { account = bytes "5010"; amount = pos 900; text = [] }
            ∷ record { account = bytes "1930"; amount = negsuc 899; text = [] }
            ∷ [];
      }
      ∷ [];
}

abbrev imported : SieImportResult
imported = record { accounts_seeded = 1; opening_posted = true; vouchers = 1 }

abbrev filled : Db
filled = (import_sie env none up (λ i. bytes "v") company file 200 open_books).1

file_is_imported :
    import_sie env none up (λ i. bytes "v") company file 200 open_books ≡ (done imported, filled)
unfolding import_sie wrap transaction gets guard exec post add ◌+ℤ◌ ◌-ℤ◌ log
file_is_imported = refl

import_sie-count_example :
    (count_verifications company filled.verifications
      ≡ imported.vouchers + (if imported.opening_posted then 1 else 0))
    × ((imported.opening_posted ≡ true) ↔ HasOpening file.opening_balances)
    × (imported.vouchers ≡ length file.vouchers)
    × (imported.accounts_seeded ≡ length file.accounts)
import_sie-count_example =
    import_sie-count env none up (λ i. bytes "v") company file 200 imported open_books filled
      file_is_imported
