-- ===== src/Store/Journal/Rules.antt =====
-- A rule for each statement that writes (internal/store): what it does, the journal allows.
use pare.Common.{Text, Bool, true, false, Option, ◌≡◌, refl, if◌then◌else◌}
use pare.Store.{Db, StoreError, Outcome, failed, done}
use pare.Store.Posting.{Posting, post_verification}
use pare.Store.Audit.{Actor, log_audit}
use pare.Store.Act.{exec, exec_rows, post, log, written}
use pare.Store.Act.Keeps.{IsPreorder, Keeps, keeps_rules}
use pare.Store.Journal.{quiet, posted, logged, Evolves, still, further, Evolves-trans}

-- A change of other tables.
pub record IsQuiet (f : Db → Db) : Type 0 where
  pub same_verifications : (db : Db) → (f db).verifications ≡ db.verifications
  pub same_audit_log : (db : Db) → (f db).audit_log ≡ db.audit_log
  pub same_accounts : (db : Db) → (f db).accounts ≡ db.accounts

module _ {mac : Text → Text} where
  quiet_of : {f : Db → Db} (db : Db) → IsQuiet f → Evolves mac db (f db)
  quiet_of db q =
      further still (quiet (q.same_verifications db) (q.same_audit_log db) (q.same_accounts db))

  pub Evolves-IsPreorder : IsPreorder (Evolves mac)
  Evolves-IsPreorder = record {
    reflexive = λ db. still;
    transitive = λ a b c p q. Evolves-trans p q;
  }

  pub Evolves-exec : (f : Db → Db) → IsQuiet f → Keeps (Evolves mac) (exec f)
  unfolding exec
  Evolves-exec f q = record { at = λ db. quiet_of db q }

  rows_of :
      (b : Bool) (e : StoreError) (f : Db → Db) (db : Db)
      → IsQuiet f
      → Evolves mac db
          (if◌then◌else◌ {A = Outcome (Unit {0}) × Db} b (done tt, f db) (failed e, db)).1
  rows_of true e f db q = quiet_of db q
  rows_of false e f db q = still

  pub Evolves-exec_rows :
      (test : Db → Bool) (e : StoreError) (f : Db → Db)
      → IsQuiet f
      → Keeps (Evolves mac) (exec_rows test e f)
  unfolding exec_rows
  Evolves-exec_rows test e f q = record { at = λ db. rows_of (test db) e f db q }

  post_of :
      (new_id : Text) (p : Posting) (db : Db) (o : Outcome Db)
      → post_verification new_id p db ≡ o
      → Evolves mac db (written db o).1
  post_of new_id p db (failed e) eq = still
  post_of new_id p db (done db') eq = further still (posted new_id p eq)

  pub Evolves-post : (new_id : Text) (p : Posting) → Keeps (Evolves mac) (post new_id p)
  unfolding post
  Evolves-post new_id p = record {
    at = λ db. post_of new_id p db (post_verification new_id p db) refl;
  }

  log_of :
      (actor : Option Actor) (c a t i d : Text) (db : Db) (o : Outcome Db)
      → log_audit mac actor c a t i d db ≡ o
      → Evolves mac db (written db o).1
  log_of actor c a t i d db (failed e) eq = still
  log_of actor c a t i d db (done db') eq = further still (logged actor c a t i d eq)

  pub Evolves-log :
      (actor : Option Actor) (c a t i d : Text) → Keeps (Evolves mac) (log mac actor c a t i d)
  unfolding log
  Evolves-log actor c a t i d = record {
    at = λ db. log_of actor c a t i d db (log_audit mac actor c a t i d db) refl;
  }

pub ruleset journal_rules =
    (keeps_rules, Evolves-IsPreorder, Evolves-exec, Evolves-exec_rows, Evolves-post, Evolves-log)
