-- ===== src/Store/Journal/Direct.antt =====
-- The operations that are written on Store.inTx itself, and the upsert of an account (internal/store).
use pare.Common.{
  ℕ, Text, bytes, Bool, true, false, Option, none, some, [], ◌∷◌, ◌++◌, Option-cases, ◌⊎◌, ◌≡◌,
  refl, inl, inr, ◌∙◌, ap, arith, if◌then◌else◌,
}
use pare.Store.{Db, Outcome, done, and_then, and_then_done, Outcome-cases, Pool, in_tx, any_row}
use pare.Store.Audit.{Actor, log_audit}
use pare.Common.Int.{pos}
use pare.Ledger.Money.{amount_string}
use pare.Store.Posting.{debit_total, Posting, post_verification, public_post_verification}
use pare.Store.Period.{set_lock, set_locked_through, lock_period, unlock_period}
use pare.Store.Import.{upsert_account, is_account}
use pare.Store.Act.{exec}
use pare.Store.Journal.{quiet, posted, logged, added, Evolves, still, further}
use pare.Store.Act.Keeps.{Keeps}

-- A transaction leaves the database alone, or has run to its end.
in_tx_cases :
    {A : Type 0} (pool : Pool) (db : Db) (fn : Db → Outcome (A × Db))
    → ((in_tx pool db fn).1 ≡ db) ⊎ ((a : A) × (fn db ≡ done (a, (in_tx pool db fn).1)))
unfolding in_tx
in_tx_cases pool db fn = elim (Option-cases pool.begin_error) [
  | inr (x, b) ↦ inl (ground arith)
  | inl b ↦ elim (Outcome-cases (fn db)) [
    | inl (x, f) ↦ inl (ground arith)
    | inr ((a, db'), f) ↦ elim (Option-cases pool.commit_error) [
      | inl c ↦ inr (a, ground arith)
      | inr (x, c) ↦ inl (ground arith)
    ]
  ]
]

module _ {A : Type 0} {mac : Text → Text} where
  in_tx-Evolves :
      (pool : Pool) (db : Db) (fn : Db → Outcome (A × Db))
      → ((a : A) (db' : Db) → fn db ≡ done (a, db') → Evolves mac db db')
      → Evolves mac db (in_tx pool db fn).1
  in_tx-Evolves pool db fn s = elim (in_tx_cases pool db fn) [
    | inl e ↦ rw e still
    | inr (a, e) ↦ s a (in_tx pool db fn).1 e
  ]

-- An entry in the log is the last step of each of them.
abbrev logging :
    {A : Type 0}
    → (Text → Text)
    → Option Actor
    → Text
    → Text
    → Text
    → Text
    → Text
    → A
    → Db
    → Outcome (A × Db)
logging {A = A} mac actor c a t i d x tx =
    and_then {B = A × Db} (log_audit mac actor c a t i d tx) (λ logged. done (x, logged))

logged_last :
    {A : Type 0} {mac : Text → Text} (actor : Option Actor) (c a t i d : Text) (x y : A)
    (db mid db' : Db)
    → Evolves mac db mid
    → logging mac actor c a t i d x mid ≡ done (y, db')
    → Evolves mac db db'
logged_last {A = A} {mac = mac} actor c a t i d x y db mid db' e h =
    let (end, f, g) =
      and_then_done {B = A × Db} (log_audit mac actor c a t i d mid) (λ l. done (x, l)) (y, db')
        h in
    further e (logged actor c a t i d (f ∙ ap (λ l. done l) (ground arith)))

module _ (mac : Text → Text) (actor : Option Actor) (pool : Pool) where
  pub Evolves-public_post_verification :
      (new_id : Text) (p : Posting)
      → Keeps (Evolves mac) (public_post_verification mac actor pool new_id p)
  unfolding public_post_verification
  Evolves-public_post_verification new_id p = record {
    at = λ db.
        let detail = p.series ++ b' ' ∷ amount_string (debit_total (pos 0) p.lines) in
        let rest : Db → Outcome (Text × Db) =
          logging mac actor p.company_id (bytes "post_verification") (bytes "verification") new_id
            detail new_id in
        in_tx-Evolves pool db (λ tx. and_then (post_verification new_id p tx) rest)
          (λ a db' e.
            let (mid, f, g) = and_then_done (post_verification new_id p db) rest (a, db') e in
            logged_last actor p.company_id (bytes "post_verification") (bytes "verification") new_id
              detail new_id a db mid db' (further still (posted new_id p f)) g);
  }

  set_lock-Evolves :
      (company : Text) (through : Option ℕ) (action target reason : Text) (db : Db)
      → Evolves mac db (set_lock mac (λ d. []) actor pool company through action target reason db).1
  unfolding set_lock
  set_lock-Evolves company through action target reason db =
      let locked : Db → Db =
        λ tx. record tx { companies = set_locked_through company through tx.companies } in
      in_tx-Evolves pool db
        (λ tx. logging mac actor company action (bytes "period") target reason tt (locked tx))
        (λ a db' e.
          logged_last actor company action (bytes "period") target reason tt a db (locked db) db'
            (further still (quiet refl refl refl)) e)

  pub Evolves-lock_period :
      (format_date : ℕ → Text) (company : Text) (through : ℕ) (reason : Text)
      → Keeps (Evolves mac) (lock_period mac format_date actor pool company through reason)
  unfolding lock_period
  Evolves-lock_period format_date company through reason = record {
    at = λ db.
        set_lock-Evolves company (some through) (bytes "lock_period") (format_date through) reason
          db;
  }

  pub Evolves-unlock_period :
      (format_date : ℕ → Text) (company reason : Text)
      → Keeps (Evolves mac) (unlock_period mac format_date actor pool company reason)
  unfolding unlock_period
  Evolves-unlock_period format_date company reason = record {
    at = λ db. set_lock-Evolves company none (bytes "unlock_period") [] reason db;
  }

upserted :
    (mac : Text → Text) (b : Bool) (company number : Text) (db : Db)
    → Evolves mac db (
        if b then db else record db {
          accounts = db.accounts ++ record { company_id = company; number = number } ∷ [];
        })
upserted mac true company number db = still
upserted mac false company number db =
    further still (added (record { company_id = company; number = number }) refl)

pub Evolves-upsert_account :
    (mac : Text → Text) (company number : Text)
    → Keeps (Evolves mac) (upsert_account company number)
unfolding exec
Evolves-upsert_account mac company number = record {
  at = λ db. upserted mac (any_row (is_account company number) db.accounts) company number db;
}
