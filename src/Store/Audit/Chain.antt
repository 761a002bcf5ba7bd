-- ===== src/Store/Audit/Chain.antt =====
-- The audit log (internal/store/store_audit.go) stays an unbroken chain.
use pare.Common.{
  Text, text_eq, text_eq_refl, text_eq_iff, ap, Option, none, List, [], ◌∷◌, ◌++◌, ◌≡◌, true, arith,
}
use pare.Store.{AuditRow, Db, done}
use pare.Store.Audit.{
  Actor, insert_audit_log, actor_from, last_hash, entry_of, log_audit, wanted_hash, broken_from,
  verify_audit_chain,
}

module _ (mac : Text → Text) where
  broken_from_append :
      (company prev : Text) (rs : List AuditRow) (r : AuditRow)
      → broken_from mac company prev rs ≡ none
      → (text_eq r.company_id company ≡ true
          → (r.prev_hash ≡ last_hash company prev rs)
            × (r.entry_hash ≡ wanted_hash mac (last_hash company prev rs) r))
      → broken_from mac company prev (rs ++ r ∷ []) ≡ none
  unfolding broken_from last_hash
  broken_from_append company prev [] r h k =
      ground (arith, text_eq_refl prev, text_eq_refl (wanted_hash mac prev r))
  broken_from_append company prev (s ∷ rs) r h k =
      ground
        (arith, broken_from_append company s.entry_hash rs r, broken_from_append company prev rs r)

  pub log_audit_done :
      (actor : Option Actor) (company action target_type target_id detail : Text) (db db' : Db)
      → log_audit mac actor company action target_type target_id detail db ≡ done db'
      → (db'.audit_log
          ≡ db.audit_log
            ++ entry_of mac
                (last_hash company [] db.audit_log)
                (actor_from actor)
                company
                action
                target_type
                target_id
                detail
              ∷ [])
        × (db'.verifications ≡ db.verifications)
        × (db'.accounts ≡ db.accounts)
  unfolding log_audit insert_audit_log
  log_audit_done actor company action target_type target_id detail db db' e = ground arith

-- An entry that is logged for any company leaves the chain of every company unbroken, whatever
-- the keyed hash.
pub verify_audit_chain-log_audit :
    (mac : Text → Text) (actor : Option Actor)
    (company action target_type target_id detail other : Text) (db db' : Db)
    → log_audit mac actor company action target_type target_id detail db ≡ done db'
    → verify_audit_chain mac other db ≡ none
    → verify_audit_chain mac other db' ≡ none
unfolding verify_audit_chain entry_of wanted_hash
verify_audit_chain-log_audit mac actor company action target_type target_id detail other db db' e
      h =
    let last = last_hash company [] db.audit_log in
    let entry = entry_of mac last (actor_from actor) company action target_type target_id detail in
    let agree : text_eq company other ≡ true → last ≡ last_hash other [] db.audit_log =
      λ same. ap (λ c. last_hash c [] db.audit_log) ((text_eq_iff company other).0 same) in
    rw
      (
        verify_audit_chain,
        (log_audit_done mac actor company action target_type target_id detail db db' e).0,
      )
      (broken_from_append mac other [] db.audit_log entry h
        (λ same. (agree same, ap (λ prev. wanted_hash mac prev entry) (agree same))))
