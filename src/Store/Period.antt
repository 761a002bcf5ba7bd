-- ===== src/Store/Period.antt =====
-- internal/store/store_audit.go: the lock on past periods.
pub mod Lock
use pare.Common.{ℕ, Text, bytes, text_eq, Option, none, some, List, [], ◌∷◌, if◌then◌else◌}
use pare.Store.{
  Company, Db, StoreError, Outcome, failed, done, and_then, Pool, in_tx, get_company, no_rows,
}
use pare.Store.Audit.{Actor, log_audit}

-- Queries.SetLockedThrough
unfoldable pub set_locked_through : Text → Option ℕ → List Company → List Company
unfolding text_eq
set_locked_through id through [] = []
set_locked_through id through (c ∷ cs) =
    let rest = set_locked_through id through cs in
    if text_eq c.id id then (record c { locked_through = through }) ∷ rest else c ∷ rest

-- Store.LockedThrough: an error, or the boundary if it is valid.
unfoldable pub locked_through : Text → Db → Outcome (Option ℕ)
unfolding get_company
locked_through company db = elim (get_company company db.companies) [
  | none ↦ failed no_rows
  | some c ↦ done c.locked_through
]

-- `format_date` stands for the format 2006-01-02 of package time.
module _ (mac : Text → Text) (format_date : ℕ → Text) (actor : Option Actor) (pool : Pool) where
  unfoldable pub set_lock : Text → Option ℕ → Text → Text → Text → Db → Outcome {0} Unit × Db
  unfolding set_locked_through log_audit in_tx
  set_lock company through action target reason db = in_tx pool db (λ tx.
      and_then
        (log_audit mac actor company action (bytes "period") target reason
          (record tx { companies = set_locked_through company through tx.companies }))
        (λ logged. done (tt, logged)))

  -- Store.LockPeriod
  unfoldable pub lock_period : Text → ℕ → Text → Db → Outcome {0} Unit × Db
  unfolding set_lock
  lock_period company through reason =
      set_lock company (some through) (bytes "lock_period") (format_date through) reason

  -- Store.UnlockPeriod
  unfoldable pub unlock_period : Text → Text → Db → Outcome {0} Unit × Db
  unfolding set_lock
  unlock_period company reason = set_lock company none (bytes "unlock_period") [] reason
