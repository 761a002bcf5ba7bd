-- ===== src/Store/Audit.antt =====
-- internal/store/store_audit.go: the audit log, a chain of keyed hashes.
--
-- `mac` stands for the hex encoding of the HMAC-SHA256 under the key of the store.
pub mod Chain
use pare.Common.{
  ℕ, zero, suc, Text, bytes, text_eq, is_empty, not, ◌||◌, Bool, false, Option, none, some, List,
  [], ◌∷◌, ◌++◌, if◌then◌else◌,
}
use pare.Store.{
  Company, AuditRow, Db, StoreError, Outcome, failed, done, no_rows, not_unique, get_company,
}

pub record Actor : Type 0 where
  pub kind : Text
  pub detail : Text

-- actorFrom, of what the context carries.
unfoldable pub actor_from : Option Actor → Actor
actor_from none = record { kind = bytes "system"; detail = [] }
actor_from (some a) =
    if not (is_empty a.kind) then a else record { kind = bytes "system"; detail = [] }

-- What is hashed: the previous hash, and each field behind a zero byte.
abbrev pub joined : Text → List Text → Text
joined prev [] = prev
joined prev (f ∷ fs) = joined (prev ++ 0 ∷ f) fs

-- Queries.GetLastAuditHash; `prev` is what it gives without a row.
unfoldable pub last_hash : Text → Text → List AuditRow → Text
unfolding text_eq
last_hash company prev [] = prev
last_hash company prev (r ∷ rs) =
    if text_eq r.company_id company
    then last_hash company r.entry_hash rs
    else last_hash company prev rs

-- The unique index on (company_id, prev_hash).
unfoldable pub has_prev : Text → Text → List AuditRow → Bool
unfolding text_eq
has_prev company prev [] = false
has_prev company prev (r ∷ rs) =
    if text_eq r.company_id company
    then text_eq r.prev_hash prev || has_prev company prev rs
    else has_prev company prev rs

-- Queries.InsertAuditLog: the company must exist, and its previous hash be new.
unfoldable pub insert_audit_log : AuditRow → Db → Outcome Db
unfolding get_company has_prev
insert_audit_log r db = elim (get_company r.company_id db.companies) [
  | none ↦ failed no_rows
  | some c ↦
      if has_prev r.company_id r.prev_hash db.audit_log
      then failed not_unique
      else done (record db { audit_log = db.audit_log ++ r ∷ [] })
]

module _ (mac : Text → Text) where
  -- Store.auditHash
  unfoldable pub audit_hash : Text → List Text → Text
  audit_hash prev fields = mac (joined prev fields)

  -- The entry of Store.logAudit.
  unfoldable pub entry_of : Text → Actor → Text → Text → Text → Text → Text → AuditRow
  unfolding audit_hash
  entry_of prev a company action target_type target_id detail = record {
    company_id = company;
    actor = a.kind;
    actor_detail = a.detail;
    action = action;
    target_type = target_type;
    target_id = target_id;
    detail = detail;
    prev_hash = prev;
    entry_hash =
        audit_hash prev (a.kind ∷ a.detail ∷ action ∷ target_type ∷ target_id ∷ detail ∷ []);
  }

  -- Store.logAudit
  unfoldable pub log_audit : Option Actor → Text → Text → Text → Text → Text → Db → Outcome Db
  unfolding actor_from last_hash entry_of insert_audit_log
  log_audit actor company action target_type target_id detail db =
      insert_audit_log
        (entry_of (last_hash company [] db.audit_log) (actor_from actor) company action target_type
          target_id detail)
        db

  -- The hash that the fields of a row should have after `prev`.
  unfoldable pub wanted_hash : Text → AuditRow → Text
  unfolding audit_hash
  wanted_hash prev r =
      audit_hash prev
        (r.actor ∷ r.actor_detail ∷ r.action ∷ r.target_type ∷ r.target_id ∷ r.detail ∷ [])

  -- The loop of Store.VerifyAuditChain over the rows of the company: the entry where the chain is
  -- broken, or none. The entry stands for its id.
  unfoldable pub broken_from : Text → Text → List AuditRow → Option AuditRow
  unfolding text_eq wanted_hash
  broken_from company prev [] = none
  broken_from company prev (r ∷ rs) =
      let rest = broken_from company r.entry_hash rs in
      let skipped = broken_from company prev rs in
      if not (text_eq r.company_id company)
      then skipped
      else if not (text_eq r.prev_hash prev) || not (text_eq r.entry_hash (wanted_hash prev r))
      then some r
      else rest

  unfoldable pub verify_audit_chain : Text → Db → Option AuditRow
  unfolding broken_from
  verify_audit_chain company db = broken_from company [] db.audit_log
