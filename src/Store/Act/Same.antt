-- ===== src/Store/Act/Same.antt =====
-- What the statements of the store (internal/store) leave alone: the rules for a part of the database.
use pare.Common.{
  Text, Bool, true, false, Option, List, [], ◌∷◌, ◌++◌, ◌≡◌, refl, ◌∙◌, ap, arith, if◌then◌else◌,
}
use pare.Store.{VerificationRow, AuditRow, Db, StoreError, Outcome, failed, done}
use pare.Store.Posting.{Posting, row_of, post_verification}
use pare.Store.Posting.Done.{post_verification_done}
use pare.Store.Audit.{Actor, log_audit, insert_audit_log, entry_of, last_hash, actor_from}
use pare.Store.Act.{exec, exec_rows, post, log, written, pure, continue, ◌>>=◌}
use pare.Store.Act.Keeps.{IsPreorder, Keeps, keeps_rules}

-- The two databases agree in the part `part`.
pub record Same {B : Type 0} (part : Db → B) (db : Db) (db' : Db) : Type 0 where
  pub same : part db' ≡ part db

pub log_audit_eq :
    (mac : Text → Text) (actor : Option Actor) (c a t i d : Text) (db db' : Db)
    → log_audit mac actor c a t i d db ≡ done db'
    → db' ≡ record db {
      audit_log =
          db.audit_log
          ++ entry_of mac (last_hash c [] db.audit_log) (actor_from actor) c a t i d ∷ [];
    }
unfolding log_audit insert_audit_log
log_audit_eq mac actor c a t i d db db' e = ground arith

logged_of :
    {A : Type 0} (o : Outcome Db) (x v : A) (db db' : Db)
    → continue (written db o).0 (λ _. pure x) (written db o).1 ≡ (done v, db')
    → o ≡ done db'
unfolding pure
logged_of (failed e) x v db db' h = absurd (cc)
logged_of (done end) x v db db' h = ap (λ d. done d) (ap (λ r. r.1) h)

answered_of :
    {A : Type 0} (o : Outcome Db) (x v : A) (db db' : Db)
    → continue (written db o).0 (λ _. pure x) (written db o).1 ≡ (done v, db')
    → x ≡ v
unfolding pure
answered_of (failed e) x v db db' h = absurd (cc)
answered_of (done end) x v db db' h = ground arith

pub log_answer :
    {A : Type 0} (mac : Text → Text) (actor : Option Actor) (c a t i d : Text) (x v : A)
    (db db' : Db)
    → (log mac actor c a t i d >>= λ _. pure x) db ≡ (done v, db')
    → x ≡ v
unfolding log ◌>>=◌
log_answer mac actor c a t i d x v db db' h =
    answered_of (log_audit mac actor c a t i d db) x v db db' h

-- An entry of the log before the answer.
pub log_done :
    {A : Type 0} (mac : Text → Text) (actor : Option Actor) (c a t i d : Text) (x v : A)
    (db db' : Db)
    → (log mac actor c a t i d >>= λ _. pure x) db ≡ (done v, db')
    → db' ≡ record db {
      audit_log =
          db.audit_log
          ++ entry_of mac (last_hash c [] db.audit_log) (actor_from actor) c a t i d ∷ [];
    }
unfolding log ◌>>=◌
log_done mac actor c a t i d x v db db' h =
    log_audit_eq mac actor c a t i d db db'
      (logged_of (log_audit mac actor c a t i d db) x v db db' h)

module _ {B : Type 0} {part : Db → B} where
  pub Same-IsPreorder : IsPreorder (Same part)
  Same-IsPreorder = record {
    reflexive = λ db. record { same = refl };
    transitive = λ a b c p q. record { same = q.same ∙ p.same };
  }

  pub Same-exec : (f : Db → Db) → ((db : Db) → part (f db) ≡ part db) → Keeps (Same part) (exec f)
  unfolding exec
  Same-exec f q = record { at = λ db. record { same = q db } }

  rows_of :
      (b : Bool) (e : StoreError) (f : Db → Db) (db : Db)
      → part (f db) ≡ part db
      → Same part db
          (if◌then◌else◌ {A = Outcome (Unit {0}) × Db} b (done tt, f db) (failed e, db)).1
  rows_of true e f db q = record { same = q }
  rows_of false e f db q = record { same = refl }

  pub Same-exec_rows :
      (test : Db → Bool) (e : StoreError) (f : Db → Db)
      → ((db : Db) → part (f db) ≡ part db)
      → Keeps (Same part) (exec_rows test e f)
  unfolding exec_rows
  Same-exec_rows test e f q = record { at = λ db. rows_of (test db) e f db (q db) }

  post_of :
      (new_id : Text) (p : Posting) (db : Db) (o : Outcome Db)
      → ((db : Db) (vs : List VerificationRow) → part (record db { verifications = vs }) ≡ part db)
      → post_verification new_id p db ≡ o
      → Same part db (written db o).1
  post_of new_id p db (failed e) q eq = record { same = refl }
  post_of new_id p db (done db') q eq =
      let (_, _, _, (number, _, eq')) = post_verification_done new_id p db db' eq in
      record { same = ap part eq' ∙ q db (db.verifications ++ row_of new_id number p ∷ []) }

  pub Same-post :
      (new_id : Text) (p : Posting)
      → ((db : Db) (vs : List VerificationRow) → part (record db { verifications = vs }) ≡ part db)
      → Keeps (Same part) (post new_id p)
  unfolding post
  Same-post new_id p q = record {
    at = λ db. post_of new_id p db (post_verification new_id p db) q refl;
  }

  log_of :
      (mac : Text → Text) (actor : Option Actor) (c a t i d : Text) (db : Db) (o : Outcome Db)
      → ((db : Db) (rs : List AuditRow) → part (record db { audit_log = rs }) ≡ part db)
      → log_audit mac actor c a t i d db ≡ o
      → Same part db (written db o).1
  log_of mac actor c a t i d db (failed e) q eq = record { same = refl }
  log_of mac actor c a t i d db (done db') q eq = record {
    same = ap part (log_audit_eq mac actor c a t i d db db' eq) ∙ q db _;
  }

  pub Same-log :
      (mac : Text → Text) (actor : Option Actor) (c a t i d : Text)
      → ((db : Db) (rs : List AuditRow) → part (record db { audit_log = rs }) ≡ part db)
      → Keeps (Same part) (log mac actor c a t i d)
  unfolding log
  Same-log mac actor c a t i d q = record {
    at = λ db. log_of mac actor c a t i d db (log_audit mac actor c a t i d db) q refl;
  }

pub ruleset same_rules =
    (keeps_rules, Same-IsPreorder, Same-exec, Same-exec_rows, Same-post, Same-log)
