-- ===== src/Store/Act/Steps.antt =====
-- What a computation of the store (internal/store) gives, statement by statement: either the statement
-- fails, and so does the computation, with the database as it was, or the rest runs.
use pare.Common.{Text, Bool, true, false, Option, none, some, ◌≡◌, refl, ap, arith, if◌then◌else◌}
use pare.Store.{Db, StoreError, Outcome, failed, done, Pool, in_tx, in_tx_done}
use pare.Store.Posting.{Posting, post_verification}
use pare.Store.Act.{
  Act, post, written, lift, from, read, guard, exec_rows, transaction, joined, ◌>>=◌, continue,
}

module _ {A B : Type 0} (P : Outcome B × Db → Type 0) (db : Db)
    (stop : (e : StoreError) → P (failed e, db)) where
  read_of :
      (o : Option A) (e : StoreError) (k : A → Act B)
      → ((a : A) → o ≡ some a → P (k a db))
      → P (
          let (r, db') = elim o as (λ _. Outcome A × Db) [
            | none ↦ (failed e, db)
            | some a ↦ (done a, db)
          ] in
          continue r k db')
  read_of none e k h = stop e
  read_of (some a) e k h = h a refl

  pub after_read :
      (f : Db → Option A) (e : StoreError) (k : A → Act B)
      → ((a : A) → f db ≡ some a → P (k a db))
      → P ((read f e >>= k) db)
  unfolding read ◌>>=◌
  after_read f e k h = read_of (f db) e k h

  outcome_of :
      (o : Outcome A) (k : A → Act B) → ((a : A) → o ≡ done a → P (k a db)) → P (continue o k db)
  outcome_of (failed e) k h = stop e
  outcome_of (done a) k h = h a refl

  pub after_lift :
      (o : Outcome A) (k : A → Act B) → ((a : A) → o ≡ done a → P (k a db)) → P ((lift o >>= k) db)
  unfolding lift ◌>>=◌
  after_lift o k h = outcome_of o k h

  pub after_from :
      (f : Db → Outcome A) (k : A → Act B)
      → ((a : A) → f db ≡ done a → P (k a db))
      → P ((from f >>= k) db)
  unfolding from ◌>>=◌
  after_from f k h = outcome_of (f db) k h

module _ {B : Type 0} (P : Outcome B × Db → Type 0) (db : Db)
    (stop : (e : StoreError) → P (failed e, db)) where
  guard_of :
      (b : Bool) (e : StoreError) (k : Unit {0} → Act B) (db' : Db)
      → (b ≡ true → P (k tt db'))
      → P (
          let (r, d) =
            if◌then◌else◌ {A = Outcome (Unit {0}) × Db} b (done tt, db') (failed e, db) in
          continue r k d)
  guard_of true e k db' h = h refl
  guard_of false e k db' h = stop e

  pub after_guard :
      (b : Bool) (e : StoreError) (k : Unit {0} → Act B)
      → (b ≡ true → P (k tt db))
      → P ((guard b e >>= k) db)
  unfolding guard ◌>>=◌
  after_guard b e k h = guard_of b e k db h

  pub after_exec_rows :
      (test : Db → Bool) (e : StoreError) (f : Db → Db) (k : Unit {0} → Act B)
      → (test db ≡ true → P (k tt (f db)))
      → P ((exec_rows test e f >>= k) db)
  unfolding exec_rows ◌>>=◌
  after_exec_rows test e f k h = guard_of (test db) e k (f db) h

module _ {B : Type 0} (P : Outcome B × Db → Type 0) (db : Db)
    (stop : (e : StoreError) → P (failed e, db)) where
  post_of :
      (o : Outcome Db) (k : Unit {0} → Act B)
      → ((db' : Db) → o ≡ done db' → P (k tt db'))
      → P (continue (written db o).0 k (written db o).1)
  post_of (failed e) k h = stop e
  post_of (done db') k h = h db' refl

  pub after_post :
      (new_id : Text) (p : Posting) (k : Unit {0} → Act B)
      → ((db' : Db) → post_verification new_id p db ≡ done db' → P (k tt db'))
      → P ((post new_id p >>= k) db)
  unfolding post ◌>>=◌
  after_post new_id p k h = post_of (post_verification new_id p db) k h

module _ {A B : Type 0} (P : Outcome B × Db → Type 0)
    (stop : (at : Db) (e : StoreError) → P (failed e, at)) where
  done_of :
      (r : Outcome A × Db) (k : A → Act B)
      → ((a : A) (at : Db) → r ≡ (done a, at) → P (k a at))
      → P (continue r.0 k r.1)
  done_of (failed e, at) k h = stop at e
  done_of (done a, at) k h = h a at refl

  pub after_done :
      (m : Act A) (k : A → Act B) (db : Db)
      → ((a : A) (at : Db) → m db ≡ (done a, at) → P (k a at))
      → P ((m >>= k) db)
  unfolding ◌>>=◌
  after_done m k db h = done_of (m db) k h

-- A transaction that succeeds has run to its end.
joined_done :
    {A : Type 0} (r : Outcome A × Db) (a : A) (db' : Db)
    → joined r ≡ done (a, db')
    → r ≡ (done a, db')
joined_done (failed e, db) a db' h = absurd (cc)
joined_done (done x, db) a db' h = ground arith

pub transaction_ran :
    {A : Type 0} (pool : Pool) (m : Act A) (db db' : Db) (a : A)
    → transaction pool m db ≡ (done a, db')
    → m db ≡ (done a, db')
unfolding transaction
transaction_ran pool m db db' a h =
    joined_done (m db) a db' (in_tx_done pool db db' (λ tx. joined (m tx)) a h)

-- A guard that fails.
pub guard_failed :
    {B : Type 0} (k : Unit {0} → Act B) (db : Db) (b : Bool) (e : StoreError)
    → b ≡ false
    → (guard b e >>= k) db ≡ (failed e, db)
unfolding guard ◌>>=◌
guard_failed k db b e h = rw h refl

-- The statements that succeed.
module _ {A B : Type 0} (k : A → Act B) (db : Db) where
  pub bind_done : (m : Act A) (a : A) (db' : Db) → m db ≡ (done a, db') → (m >>= k) db ≡ k a db'
  unfolding ◌>>=◌
  bind_done m a db' h = ap (λ r. continue r.0 k r.1) h

  pub read_done :
      (f : Db → Option A) (e : StoreError) (a : A) → f db ≡ some a → (read f e >>= k) db ≡ k a db
  unfolding read
  read_done f e a h = bind_done (read f e) a db (ground arith)

pub guard_done :
    {B : Type 0} (k : Unit {0} → Act B) (db : Db) (b : Bool) (e : StoreError)
    → b ≡ true
    → (guard b e >>= k) db ≡ k tt db
unfolding guard ◌>>=◌
guard_done k db b e h = rw h refl

-- A connection that begins and commits.
abbrev pub up : Pool
up = record { begin_error = none; commit_error = none }

pub transaction_done :
    {A : Type 0} (m : Act A) (db db' : Db) (a : A)
    → m db ≡ (done a, db')
    → transaction up m db ≡ (done a, db')
unfolding transaction in_tx
transaction_done {A = A} m db db' a h = ap (λ (r : Outcome A × Db). in_tx up db (λ _. joined r)) h
