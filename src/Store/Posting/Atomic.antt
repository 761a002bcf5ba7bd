-- ===== src/Store/Posting/Atomic.antt =====
-- PostVerification (internal/store/store.go) writes a verifikat with its audit entry, or nothing.
use pare.Common.{
  suc, ◌≡◌, refl, Text, bytes, Option, [], ◌∷◌, ◌++◌, length, arith, ◌⊎◌, inl, inr, length-append,
  ap, ◌∙◌,
}
use pare.Common.Int.{pos}
use pare.Ledger.Money.{amount_string}
use pare.Store.{Outcome-cases, Db, StoreError, failed, done, Pool, in_tx, StoreError}
use pare.Store.Audit.{Actor, log_audit, entry_of, last_hash, actor_from}
use pare.Store.Audit.Chain.{log_audit_done}
use pare.Store.Posting.{Posting, post_verification, public_post_verification, debit_total, row_of}
use pare.Store.Posting.Done.{post_verification_done}

-- One more verifikat and one more audit entry.
abbrev pub IsOneMore : Db → Db → Type 0
IsOneMore db db' =
    (length db'.verifications ≡ suc (length db.verifications))
    × (length db'.audit_log ≡ suc (length db.audit_log))

posted_lengths :
    (new_id : Text) (p : Posting) (db db' : Db)
    → post_verification new_id p db ≡ done db'
    → (length db'.verifications ≡ suc (length db.verifications)) × (db'.audit_log ≡ db.audit_log)
posted_lengths new_id p db db' e =
    let (_, _, _, (number, _, eq)) = post_verification_done new_id p db db' e in
    let row = row_of new_id number p ∷ [] in
    rw eq (length-append db.verifications row ∙ omega arith, refl)

logged_lengths :
    (mac : Text → Text) (actor : Option Actor) (company action target_type target_id detail : Text)
    (db db' : Db)
    → log_audit mac actor company action target_type target_id detail db ≡ done db'
    → (length db'.audit_log ≡ suc (length db.audit_log)) × (db'.verifications ≡ db.verifications)
logged_lengths mac actor company action target_type target_id detail db db' e =
    let (audit, verifications, _) =
      log_audit_done mac actor company action target_type target_id detail db db' e in
    let entry =
      entry_of mac (last_hash company [] db.audit_log) (actor_from actor) company action target_type
        target_id detail
      ∷ [] in
    (ap length audit ∙ length-append db.audit_log entry ∙ omega arith, verifications)

-- Whatever the arguments, the database and the answers of the connection: either PostVerification
-- returns an error and the database is as before, or it returns the id of the verifikat and the
-- database has one more verifikat and one more audit entry.
pub public_post_verification_atomic :
    (mac : Text → Text) (actor : Option Actor) (pool : Pool) (new_id : Text) (p : Posting) (db : Db)
    → let (answer, db') = public_post_verification mac actor pool new_id p db in
      ((e : StoreError) × (answer ≡ failed e) × (db' ≡ db))
      ⊎ ((answer ≡ done new_id) × IsOneMore db db')
unfolding public_post_verification in_tx
public_post_verification_atomic mac actor pool new_id p db =
    elim (Outcome-cases (post_verification new_id p db)) [
      | inl (e, eq) ↦ ground arith
      | inr (posted, eq) ↦
          let detail = p.series ++ b' ' ∷ amount_string (debit_total (pos 0) p.lines) in
          let action = bytes "post_verification" in
          let target = bytes "verification" in
          let a = posted_lengths new_id p db posted eq in
          elim (Outcome-cases
            (log_audit mac actor p.company_id action target new_id detail posted)) [
              | inl (e, el) ↦ ground arith
              | inr (logged, el) ↦
                  let b =
                    logged_lengths mac actor p.company_id action target new_id detail posted logged
                      el in
                  ground arith
            ]
    ]
