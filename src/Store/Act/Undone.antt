-- ===== src/Store/Act/Undone.antt =====
-- An operation of the store (internal/store) that fails has done nothing: the rules.
use pare.Common.{Bool, true, false, Option, none, some, ◌≡◌, refl, ◌∙◌, if◌then◌else◌}
use pare.Store.{Db, StoreError, Outcome, failed, done, Pool, in_tx}
use pare.Store.Act.{Act, transaction, joined, exec_rows, ◌>>=◌, continue}
use pare.Store.Act.Keeps.{Keeps}
use pare.Store.Act.Same.{Same, same_rules}

-- Where `m` fails, it leaves the database as it was.
pub record IsUndone {A : Type 0} (m : Act A) : Type 0 where
  pub at : (db : Db) (e : StoreError) → (m db).0 ≡ failed e → (m db).1 ≡ db

-- `m` writes nothing.
abbrev pub Reads : {A : Type 0} → Act A → Type 0
Reads m = Keeps (Same (λ db. db)) m

module _ {A : Type 0} where
  pub IsUndone-Reads : (m : Act A) → Reads m → IsUndone m
  IsUndone-Reads m k = record { at = λ db e h. (k.at db).same }

  pub undone_of :
      (db : Db) (r : Outcome (A × Db)) (b c : Option StoreError) (e : StoreError)
      → let answer = in_tx (record { begin_error = b; commit_error = c }) db (λ _. r) in
        answer.0 ≡ failed e → answer.1 ≡ db
  unfolding in_tx
  undone_of db r (some x) c e h = refl
  undone_of db (failed x) none c e h = refl
  undone_of db (done a) none (some x) e h = refl
  undone_of db (done a) none none e h = absurd (cc)

  pub in_tx_undone :
      (pool : Pool) (db : Db) (fn : Db → Outcome (A × Db)) (e : StoreError)
      → (in_tx pool db fn).0 ≡ failed e
      → (in_tx pool db fn).1 ≡ db
  unfolding in_tx
  in_tx_undone pool db fn e h = undone_of db (fn db) pool.begin_error pool.commit_error e h

  pub IsUndone-transaction : (pool : Pool) (m : Act A) → IsUndone (transaction pool m)
  unfolding transaction in_tx
  IsUndone-transaction pool m = record {
    at = λ db e h. in_tx_undone pool db (λ tx. joined (m tx)) e h;
  }

  pub IsUndone-if :
      (b : Bool) (m n : Act A) → IsUndone m → IsUndone n → IsUndone (if b then m else n)
  IsUndone-if true m n km kn = km
  IsUndone-if false m n km kn = kn

rows_of :
    (b : Bool) (x e : StoreError) (f : Db → Db) (db : Db)
    → let r = if◌then◌else◌ {A = Outcome (Unit {0}) × Db} b (done tt, f db) (failed x, db) in
      r.0 ≡ failed e → r.1 ≡ db
rows_of true x e f db h = absurd (cc)
rows_of false x e f db h = refl

pub IsUndone-exec_rows :
    (test : Db → Bool) (x : StoreError) (f : Db → Db) → IsUndone (exec_rows test x f)
unfolding exec_rows
IsUndone-exec_rows test x f = record { at = λ db e h. rows_of (test db) x e f db h }

module _ {A B : Type 0} where
  continued :
      (r : Outcome A) (f : A → Act B) (db : Db) (e : StoreError)
      → ((a : A) → IsUndone (f a))
      → (continue r f db).0 ≡ failed e
      → (continue r f db).1 ≡ db
  continued (done a) f db e k h = (k a).at db e h
  continued (failed x) f db e k h = refl

  pub IsUndone-bind :
      (m : Act A) (f : A → Act B) → Reads m → ((a : A) → IsUndone (f a)) → IsUndone (m >>= f)
  unfolding ◌>>=◌
  IsUndone-bind m f km kf = record {
    at = λ db e h. continued (m db).0 f (m db).1 e kf h ∙ (km.at db).same;
  }

pub ruleset undone_rules = (
  same_rules, IsUndone-transaction, IsUndone-if, IsUndone-exec_rows, IsUndone-bind, IsUndone-Reads,
)
