-- ===== src/Store.antt =====
-- internal/store/store.go: the errors of the store, and its transactions.
mod Rows
pub use Rows.*
pub mod Audit
pub mod Posting
pub mod Period
pub mod Payment
pub mod FiscalYear
pub mod Act
pub mod Env
pub mod Counterparty
pub mod Invoices
pub mod Suppliers
pub mod Bank
pub mod Close
pub mod Undo
pub mod Import
pub mod Documents
pub mod Views
pub mod Command
pub mod Journal
pub mod Examples
pub mod Requests
use pare.Common.{
  ℕ, Text, bytes, text_eq, Option, none, some, List, [], ◌∷◌, if◌then◌else◌, ◌==◌, ◌≡◌, refl, arith,
  Option-cases, ◌⊎◌, inl, inr,
}
use pare.Crypto.{CryptoError}
use pare.Ledger.Verification.{Error}

pub data StoreError : Type 0 where
  invalid : Error → StoreError
  no_rows : StoreError
  period_closed : StoreError
  unknown_account : Text → StoreError
  out_of_range : StoreError
  not_unique : StoreError
  connection : StoreError
  foreign_company : StoreError
  not_finalized : StoreError
  payment_mismatch : StoreError
  not_draft : StoreError
  txn_not_open : StoreError
  year_closed : StoreError
  nothing_to_close : StoreError
  ledger_not_empty : StoreError
  invoice_not_found : StoreError
  unknown_vat_code : StoreError
  net_not_positive : StoreError
  dek_unusable : StoreError
  crypto_failed : CryptoError → StoreError
  name_required : StoreError
  counterparty_erased : StoreError
  retention_blocked : StoreError
  empty_document : StoreError
  document_attached : StoreError

pub data Outcome {ℓ} (A : Type ℓ) : Type ℓ where
  failed : StoreError → Outcome A
  done : A → Outcome A

-- `if err != nil { return err }`
abbrev pub and_then {ℓ κ} : {A : Type ℓ} {B : Type κ} → Outcome A → (A → Outcome B) → Outcome B
and_then (failed e) f = failed e
and_then (done a) f = f a

-- How the connection answers Begin and Commit.
pub record Pool : Type 0 where
  pub begin_error : Option StoreError
  pub commit_error : Option StoreError

-- Store.inTx: what the caller gets, and the database after it.
unfoldable pub in_tx {ℓ} : {A : Type ℓ} → Pool → Db → (Db → Outcome (A × Db)) → Outcome A × Db
in_tx pool db fn = elim pool.begin_error [
  | some e ↦ (failed e, db)
  | none ↦ elim (fn db) [
    | failed e ↦ (failed e, db)
    | done r ↦ elim pool.commit_error [ some e ↦ (failed e, db) | none ↦ (done r.0, r.1) ]
  ]
]

-- pgDateOrNull; the zero time is day 0.
unfoldable pub pg_date_or_null : ℕ → Option ℕ
pg_date_or_null t = if t == 0 then none else some t

-- uuidFromPg
unfoldable pub uuid_from_pg : Option Text → Text
uuid_from_pg none = nil_uuid
uuid_from_pg (some id) = id

-- pgUUID
unfoldable pub pg_uuid : Text → Option Text
unfolding text_eq
pg_uuid id = if text_eq id nil_uuid then none else some id

-- Queries.GetCompany
unfoldable pub get_company : Text → List Company → Option Company
unfolding text_eq
get_company id [] = none
get_company id (c ∷ cs) = if text_eq c.id id then some c else get_company id cs

pub Outcome-cases {ℓ} :
    {A : Type ℓ} (o : Outcome A) → ((e : StoreError) × (o ≡ failed e)) ⊎ ((a : A) × (o ≡ done a))
Outcome-cases (failed e) = inl (e, refl)
Outcome-cases (done a) = inr (a, refl)

pub and_then_done :
    {A B : Type 0} (o : Outcome A) (f : A → Outcome B) (b : B)
    → and_then o f ≡ done b
    → (a : A) × (o ≡ done a) × (f a ≡ done b)
and_then_done (done a) f b e = (a, refl, e)
and_then_done (failed x) f b e = absurd (cc)

-- A transaction that answers without an error has run to its end, and is committed.
pub in_tx_done {ℓ} :
    {A : Type ℓ} (pool : Pool) (db db' : Db) (fn : Db → Outcome (A × Db)) (a : A)
    → in_tx pool db fn ≡ (done a, db')
    → fn db ≡ done (a, db')
unfolding in_tx
in_tx_done pool db db' fn a e = elim (Option-cases pool.begin_error) [
  | inl b ↦ elim (Outcome-cases (fn db)) [
    | inl (x, f) ↦ absurd (ground arith)
    | inr (r, f) ↦ elim (Option-cases pool.commit_error) [
      | inl c ↦ ground arith
      | inr (x, c) ↦ absurd (ground arith)
    ]
  ]
  | inr (x, b) ↦ absurd (ground arith)
]
