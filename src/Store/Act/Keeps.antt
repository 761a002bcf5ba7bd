-- ===== src/Store/Act/Keeps.antt =====
-- How a computation of the store (internal/store) relates the database before it to the one after it:
-- a rule for each kind of statement, for any relation that is reflexive and transitive.
use pare.Common.{Bool, true, false, Option, none, some, List, [], ◌∷◌, if◌then◌else◌}
use pare.Store.{Db, StoreError, Outcome, failed, done, Pool, in_tx}
use pare.Store.Act.{
  Act, pure, fail, lift, from, read, gets, transaction, joined, ◌>>=◌, continue, guard, each,
  ignore_error, or_cleanup, cleaned,
}

pub record IsPreorder (R : Db → Db → Type 0) : Type 0 where
  pub reflexive : (db : Db) → R db db
  pub transitive : (a b c : Db) → R a b → R b c → R a c

-- `m` relates the two, whether it fails or not.
pub record Keeps {A : Type 0} (R : Db → Db → Type 0) (m : Act A) : Type 0 where
  pub at : (db : Db) → R db (m db).1

module _ {A : Type 0} {R : Db → Db → Type 0} where
  pub Keeps-pure : (a : A) → IsPreorder R → Keeps R (pure a)
  unfolding pure
  Keeps-pure a pre = record { at = λ db. pre.reflexive db }

  pub Keeps-fail : (e : StoreError) → IsPreorder R → Keeps R (fail {A = A} e)
  unfolding fail
  Keeps-fail e pre = record { at = λ db. pre.reflexive db }

  pub Keeps-lift : (r : Outcome A) → IsPreorder R → Keeps R (lift r)
  unfolding lift
  Keeps-lift r pre = record { at = λ db. pre.reflexive db }

  pub Keeps-from : (f : Db → Outcome A) → IsPreorder R → Keeps R (from f)
  unfolding from
  Keeps-from f pre = record { at = λ db. pre.reflexive db }

  pub Keeps-gets : (f : Db → A) → IsPreorder R → Keeps R (gets f)
  unfolding gets
  Keeps-gets f pre = record { at = λ db. pre.reflexive db }

  read_of :
      (e : StoreError) (db : Db) (o : Option A)
      → IsPreorder R
      → R db (elim o as (λ _. Outcome A × Db) [ none ↦ (failed e, db) | some a ↦ (done a, db) ]).1
  read_of e db none pre = pre.reflexive db
  read_of e db (some a) pre = pre.reflexive db

  pub Keeps-read : (f : Db → Option A) (e : StoreError) → IsPreorder R → Keeps R (read f e)
  unfolding read
  Keeps-read f e pre = record { at = λ db. read_of e db (f db) pre }

  pub Keeps-if : (b : Bool) (m n : Act A) → Keeps R m → Keeps R n → Keeps R (if b then m else n)
  Keeps-if true m n km kn = km
  Keeps-if false m n km kn = kn

  commit_of :
      (db : Db) (r : Outcome A × Db) (c : Option StoreError)
      → IsPreorder R
      → R db r.1
      → R db
          (elim (joined r) as (λ _. Outcome A × Db) [
            | failed e ↦ (failed e, db)
            | done p ↦ elim c as (λ _. Outcome A × Db) [
              | some e ↦ (failed e, db)
              | none ↦ (done p.0, p.1)
            ]
          ]).1
  commit_of db (failed e, db') c pre k = pre.reflexive db
  commit_of db (done a, db') none pre k = k
  commit_of db (done a, db') (some e) pre k = pre.reflexive db

  begin_of :
      (db : Db) (r : Outcome A × Db) (b c : Option StoreError)
      → IsPreorder R
      → R db r.1
      → R db (in_tx (record { begin_error = b; commit_error = c }) db (λ _. joined r)).1
  unfolding in_tx
  begin_of db r (some e) c pre k = pre.reflexive db
  begin_of db r none c pre k = commit_of db r c pre k

  pub Keeps-transaction :
      (pool : Pool) (m : Act A) → IsPreorder R → Keeps R m → Keeps R (transaction pool m)
  unfolding transaction in_tx
  Keeps-transaction pool m pre k = record {
    at = λ db. begin_of db (m db) pool.begin_error pool.commit_error pre (k.at db);
  }

  cleaned_of :
      (db : Db) (cleanup : Act (Unit {0})) (r : Outcome A × Db)
      → IsPreorder R
      → Keeps R cleanup
      → R db r.1
      → R db (cleaned cleanup r).1
  cleaned_of db cleanup (done a, db') pre k e = e
  cleaned_of db cleanup (failed x, db') pre k e = pre.transitive db db' (cleanup db').1 e (k.at db')

  pub Keeps-or_cleanup :
      (m : Act A) (cleanup : Act (Unit {0}))
      → IsPreorder R
      → Keeps R m
      → Keeps R cleanup
      → Keeps R (or_cleanup m cleanup)
  unfolding or_cleanup
  Keeps-or_cleanup m cleanup pre km kc = record {
    at = λ db. cleaned_of db cleanup (m db) pre kc (km.at db);
  }

module _ {A B : Type 0} {R : Db → Db → Type 0} where
  continue_of :
      (r : Outcome A) (f : A → Act B) (db : Db)
      → IsPreorder R
      → ((a : A) → Keeps R (f a))
      → R db (continue r f db).1
  continue_of (done a) f db pre k = (k a).at db
  continue_of (failed e) f db pre k = pre.reflexive db

  pub Keeps-bind :
      (m : Act A) (f : A → Act B)
      → IsPreorder R
      → Keeps R m
      → ((a : A) → Keeps R (f a))
      → Keeps R (m >>= f)
  unfolding ◌>>=◌
  Keeps-bind m f pre km kf = record {
    at = λ db.
        let (r, db') = m db in
        pre.transitive db db' (continue r f db').1 (km.at db) (continue_of r f db' pre kf);
  }

module _ {R : Db → Db → Type 0} where
  pub Keeps-guard : (b : Bool) (e : StoreError) → IsPreorder R → Keeps R (guard b e)
  unfolding guard
  Keeps-guard true e pre = record { at = λ db. pre.reflexive db }
  Keeps-guard false e pre = record { at = λ db. pre.reflexive db }

  pub Keeps-each :
      {A : Type 0} (f : A → Act (Unit {0})) (xs : List A)
      → IsPreorder R
      → ((x : A) → Keeps R (f x))
      → Keeps R (each f xs)
  unfolding each
  Keeps-each f [] pre k = Keeps-pure tt pre
  Keeps-each f (x ∷ xs) pre k =
      Keeps-bind (f x) (λ _. each f xs) pre (k x) (λ _. Keeps-each f xs pre k)

  pub Keeps-ignore_error : (m : Act (Unit {0})) → Keeps R m → Keeps R (ignore_error m)
  unfolding ignore_error
  Keeps-ignore_error m k = record { at = λ db. k.at db }

pub ruleset keeps_rules = (
  Keeps-pure, Keeps-fail, Keeps-lift, Keeps-from, Keeps-gets, Keeps-read, Keeps-if,
  Keeps-transaction, Keeps-bind, Keeps-guard, Keeps-each, Keeps-ignore_error, Keeps-or_cleanup,
)
