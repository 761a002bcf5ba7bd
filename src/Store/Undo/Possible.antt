-- ===== src/Store/Undo/Possible.antt =====
-- A verifikat that was accepted can be undone (internal/store/store_audit.go).
use pare.Common.{
  ℕ, Text, bytes, text_eq, text_eq_refl, Bool, false, Option, some, List, [], ◌∷◌, ◌++◌, map, ◌≡◌,
  refl, ◌∙◌, ap, arith, All, Bool-cases, inl, inr, sym,
}
use pare.Ledger.Verification.{Line, swap_sides, reverse, validate}
use pare.Ledger.Verification.Reversal.{validate-reverse}
use pare.Common.Int.{pos}
use pare.Store.Posting.Done.{post_verification_succeeds}
use pare.Store.{AccountRow, Company, VerificationRow, Db, done, get_company, find_row}
use pare.Store.Env.{Env}
use pare.Store.Audit.{Actor, log_audit, insert_audit_log, has_prev, last_hash, entry_of, actor_from}
use pare.Store.Posting.{first_unknown, is_locked, next_verification_number, row_of}
use pare.Store.Act.{Act, post, log, written, pure, ◌>>=◌}
use pare.Store.Act.Steps.{up, read_done, guard_done, bind_done, transaction_done}
use pare.Store.Journal.Appends.{IsAcceptedRow, IsAccepted}
use pare.Store.Undo.{original, correction_posting, undo_verification}

first_unknown-swap :
    (company : Text) (rows : List AccountRow) (ls : List Line)
    → first_unknown company rows (map swap_sides ls) ≡ first_unknown company rows ls
unfolding first_unknown swap_sides
first_unknown-swap company rows [] = refl
first_unknown-swap company rows (l ∷ ls) = ground (arith, first_unknown-swap company rows ls)

abbrev is_ver : Text → VerificationRow → Bool
is_ver id v = text_eq v.id id

accepted_row :
    (id : Text) (ver : VerificationRow) (rows : List AccountRow) (vs : List VerificationRow)
    → find_row (is_ver id) vs ≡ some ver
    → All (IsAcceptedRow rows) vs
    → IsAcceptedRow rows ver
accepted_row id ver rows [] e h = absurd (cc)
accepted_row id ver rows (v ∷ vs) e (a, h) = elim (Bool-cases (text_eq v.id id)) [
  | inl t ↦ let same : v ≡ ver = ground arith in rw (sym same) a
  | inr f ↦ accepted_row id ver rows vs (ground arith) h
]

log_audit_succeeds :
    (mac : Text → Text) (actor : Option Actor) (company a t i d : Text) (co : Company) (db : Db)
    → get_company company db.companies ≡ some co
    → has_prev company (last_hash company [] db.audit_log) db.audit_log ≡ false
    → (db' : Db) × (log_audit mac actor company a t i d db ≡ done db')
unfolding log_audit insert_audit_log
log_audit_succeeds mac actor company a t i d co db c p = (
  record db {
    audit_log =
        db.audit_log
        ++ entry_of mac (last_hash company [] db.audit_log) (actor_from actor) company a t i d ∷ [];
  },
  ground arith,
)

module _ (env : Env) (actor : Option Actor) (new_id : Text) (ver : VerificationRow) (co : Company)
    (number today : ℕ) (db : Db) where
  abbrev with_correction : Db
  with_correction = record db {
    verifications =
        db.verifications ++ row_of new_id number (correction_posting ver.company_id ver today) ∷ [];
  }

  post_verification-correction :
      IsAcceptedRow db.accounts ver
      → get_company ver.company_id db.companies ≡ some co
      → is_locked co.locked_through today ≡ false
      → next_verification_number ver.company_id (bytes "R") db.verifications ≡ some number
      → post new_id (correction_posting ver.company_id ver today) db ≡ (done tt, with_correction)
  unfolding post validate reverse
  post_verification-correction (valid, known) c l n =
      let p = correction_posting ver.company_id ver today in
      ap (λ r. written db r)
        (post_verification_succeeds new_id p co number db
          (validate-reverse (original ver) (bytes "R") (pos 0) today [] ∙ valid) c l
          (first_unknown-swap ver.company_id db.accounts ver.lines ∙ known) n)

  -- A verifikat of an accepted journal can be undone on any day that is not locked, as long as the
  -- connection works, the series R has a number left and the keyed hash of the last entry of the log
  -- does not stand in it a second time.
  pub undo_verification_succeeds :
      (id : Text)
      → IsAccepted db
      → find_row (is_ver id) db.verifications ≡ some ver
      → get_company ver.company_id db.companies ≡ some co
      → is_locked co.locked_through today ≡ false
      → next_verification_number ver.company_id (bytes "R") db.verifications ≡ some number
      → has_prev ver.company_id (last_hash ver.company_id [] db.audit_log) db.audit_log ≡ false
      → (db' : Db) × (undo_verification env actor up new_id ver.company_id id today db
          ≡ (done new_id, db'))
  unfolding undo_verification pure log
  undo_verification_succeeds id ok f c l n p =
      let accepted = accepted_row id ver db.accounts db.verifications f ok in
      let (db', logged) =
        log_audit_succeeds env.mac actor ver.company_id (bytes "undo") (bytes "verification") id
          (bytes "rättelse " ++ new_id) co with_correction c p in
      let entry : Act (Unit {0}) =
        log env.mac actor ver.company_id (bytes "undo") (bytes "verification") id
          (bytes "rättelse " ++ new_id) in
      let posting : Act (Unit {0}) = post new_id (correction_posting ver.company_id ver today) in
      let entered : entry with_correction ≡ (done tt, db') =
        ap (λ r. written with_correction r) logged in
      let both : (posting >>= λ _. entry >>= λ _. pure new_id) db ≡ (done new_id, db') =
        bind_done (λ _. entry >>= λ _. pure new_id) db posting tt with_correction
          (post_verification-correction accepted c l n)
        ∙ bind_done (λ _. pure new_id) with_correction entry tt db' entered in
      (
        db',
        read_done _ db _ _ ver f
            ∙ guard_done _ db _ _ (text_eq_refl ver.company_id)
            ∙ transaction_done (posting >>= λ _. entry >>= λ _. pure new_id) db db' new_id both,
      )
