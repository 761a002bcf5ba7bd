-- ===== src/Store/Journal.antt =====
-- The journal behind internal/store: what any statement may do to verifikat, accounts and the log.
pub mod Rules
pub mod Direct
pub mod Operations
pub mod Served
pub mod Appends
use pare.Common.{Text, Bool, false, Option, List, [], ◌∷◌, ◌++◌, ◌≡◌}
use pare.Store.{AccountRow, Db, Outcome, done}
use pare.Store.Posting.{Posting, post_verification}
use pare.Store.Audit.{Actor, log_audit}

-- A verifikat is posted by postVerification, an entry is logged by logAudit, or an account is added;
-- whatever else a statement does touches none of the three tables.
pub data Change (mac : Text → Text) (db : Db) (db' : Db) : Type 0 where
  quiet :
      db'.verifications ≡ db.verifications
      → db'.audit_log ≡ db.audit_log
      → db'.accounts ≡ db.accounts
      → Change mac db db'
  posted :
      (new_id : Text) (p : Posting) → post_verification new_id p db ≡ done db' → Change mac db db'
  logged :
      (actor : Option Actor) (company action target_type target_id detail : Text)
      → log_audit mac actor company action target_type target_id detail db ≡ done db'
      → Change mac db db'
  added :
      (a : AccountRow) → db' ≡ record db { accounts = db.accounts ++ a ∷ [] } → Change mac db db'

-- Any number of changes.
pub data Evolves (mac : Text → Text) (db : Db) : Db → Type 0 where
  still : Evolves mac db db
  further : {mid db' : Db} → Evolves mac db mid → Change mac mid db' → Evolves mac db db'

pub Evolves-trans :
    {mac : Text → Text} {db mid db' : Db}
    → Evolves mac db mid
    → Evolves mac mid db'
    → Evolves mac db db'
Evolves-trans e still = e
Evolves-trans e (further f c) = further (Evolves-trans e f) c
