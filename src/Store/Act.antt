-- ===== src/Store/Act.antt =====
-- The statements that the operations of internal/store are made of, with and without a transaction.
pub mod Keeps
pub mod Same
pub mod Steps
pub mod Undone
pub mod Operations
pub mod Failed
use pare.Common.{Bool, true, false, Text, Option, none, some, List, [], ◌∷◌, if◌then◌else◌}
use pare.Store.{Db, StoreError, Outcome, failed, done, Pool, in_tx}
use pare.Store.Posting.{Posting, post_verification}
use pare.Store.Audit.{Actor, log_audit}

-- What was written before an error stays written, unless a transaction is rolled back.
abbrev pub Act : Type 0 → Type 0
Act A = Db → Outcome A × Db

module _ {A : Type 0} where
  unfoldable pub pure : A → Act A
  pure a db = (done a, db)

  unfoldable pub fail : StoreError → Act A
  fail e db = (failed e, db)

  unfoldable pub lift : Outcome A → Act A
  lift r db = (r, db)

  -- What a computation on the database gives, or its error.
  unfoldable pub from : (Db → Outcome A) → Act A
  from f db = (f db, db)

  -- A SELECT that fails without a row.
  unfoldable pub read : (Db → Option A) → StoreError → Act A
  read f e db = elim (f db) [ none ↦ (failed e, db) | some a ↦ (done a, db) ]

  unfoldable pub gets : (Db → A) → Act A
  gets f db = (done (f db), db)

  abbrev pub joined : Outcome A × Db → Outcome (A × Db)
  joined (failed e, db) = failed e
  joined (done a, db) = done (a, db)

  -- Store.inTx of a sequence of statements.
  unfoldable pub transaction : Pool → Act A → Act A
  unfolding in_tx
  transaction pool m db = in_tx pool db (λ tx. joined (m tx))

module _ {A B : Type 0} where
  abbrev pub continue : Outcome A → (A → Act B) → Act B
  continue (done a) f db = f a db
  continue (failed e) f db = (failed e, db)

  infixl 10 ◌>>=◌ ◌>>◌
  unfoldable pub ◌>>=◌ : Act A → (A → Act B) → Act B
  ◌>>=◌ m f db = let (r, db') = m db in continue r f db'

  abbrev pub ◌>>◌ : Act A → Act B → Act B
  m >> n = m >>= λ _. n

-- `if !ok { return err }`
unfoldable pub guard : Bool → StoreError → Act (Unit {0})
guard b e db = if b then (done tt, db) else (failed e, db)

-- An INSERT or an UPDATE.
unfoldable pub exec : (Db → Db) → Act (Unit {0})
exec f db = (done tt, f db)

-- An UPDATE with `if n == 0 { return err }`: the test says whether there is a row to update.
unfoldable pub exec_rows : (Db → Bool) → StoreError → (Db → Db) → Act (Unit {0})
exec_rows test e f db = if test db then (done tt, f db) else (failed e, db)

abbrev pub written : Db → Outcome Db → Outcome (Unit {0}) × Db
written db (failed e) = (failed e, db)
written db (done db') = (done tt, db')

unfoldable pub post : Text → Posting → Act (Unit {0})
unfolding post_verification
post new_id p db = written db (post_verification new_id p db)

unfoldable pub log :
    (Text → Text) → Option Actor → Text → Text → Text → Text → Text → Act (Unit {0})
unfolding log_audit
log mac actor company action target_type target_id detail db =
    written db (log_audit mac actor company action target_type target_id detail db)

-- `for _, x := range xs { if err := ...; err != nil { return err } }`
unfoldable pub each : {A : Type 0} → (A → Act (Unit {0})) → List A → Act (Unit {0})
unfolding pure ◌>>=◌
each f [] = pure tt
each f (x ∷ xs) = f x >> each f xs

-- `_ = m`: what m writes stays, and its error is dropped.
unfoldable pub ignore_error : Act (Unit {0}) → Act (Unit {0})
ignore_error m db = (done tt, (m db).1)

abbrev pub cleaned : {A : Type 0} → Act (Unit {0}) → Outcome A × Db → Outcome A × Db
cleaned cleanup (done a, db) = (done a, db)
cleaned cleanup (failed e, db) = (failed e, (cleanup db).1)

-- `if err != nil { _, _ = cleanup; return err }`
unfoldable pub or_cleanup : {A : Type 0} → Act A → Act (Unit {0}) → Act A
or_cleanup m cleanup db = cleaned cleanup (m db)
