-- ===== src/Store/Journal/Appends.antt =====
-- What holds of the tables after any changes that the journal (internal/store) allows.
use mathlib.Core.List.{append_assoc, append-nil}
use pare.Common.{
  Text, true, none, List, [], ◌∷◌, ◌++◌, ◌≡◌, refl, sym, ◌∙◌, ap, All, All-append, arith,
}
use pare.Ledger.Verification.{Line, validate, validate_lines}
use pare.Store.{AccountRow, VerificationRow, Db}
use pare.Store.Audit.{verify_audit_chain}
use pare.Store.Audit.Chain.{verify_audit_chain-log_audit, log_audit_done}
use pare.Store.Posting.{first_unknown, is_known, row_of}
use pare.Store.Posting.Done.{post_verification_done}
use pare.Store.Posting.Numbers.{IsNumbered, post_verification-IsNumbered}
use pare.Store.Journal.{Change, quiet, posted, logged, added, Evolves, still, further}

-- The verifikat of `db`, unchanged and in their order, with others after them.
abbrev pub Extends : Db → Db → Type 0
Extends db db' = (new : List VerificationRow) × (db'.verifications ≡ db.verifications ++ new)

-- A verifikat that Validate accepts, on accounts that the company has.
abbrev pub IsAcceptedRow : List AccountRow → VerificationRow → Type 0
IsAcceptedRow accounts r =
    (validate_lines r.lines ≡ none) × (first_unknown r.company_id accounts r.lines ≡ none)

abbrev pub IsAccepted : Db → Type 0
IsAccepted db = All (IsAcceptedRow db.accounts) db.verifications

Extends-refl : (db db' : Db) → db'.verifications ≡ db.verifications → Extends db db'
Extends-refl db db' e = ([], e ∙ sym (append-nil db.verifications))

module _ {mac : Text → Text} where
  Change-Extends : {db db' : Db} → Change mac db db' → Extends db db'
  Change-Extends {db = db} {db' = db'} (quiet v l a) = Extends-refl db db' v
  Change-Extends {db = db} {db' = db'} (posted new_id p e) =
      let (_, _, _, (number, _, eq)) = post_verification_done new_id p db db' e in
      (row_of new_id number p ∷ [], ap (λ d. d.verifications) eq)
  Change-Extends {db = db} {db' = db'} (logged actor c a t i d e) =
      Extends-refl db db' (log_audit_done mac actor c a t i d db db' e).1
  Change-Extends {db = db} {db' = db'} (added a e) =
      Extends-refl db db' (ap (λ d. d.verifications) e)

  -- What is in the journal stays: no change alters, removes or reorders a verifikat.
  pub Evolves-Extends : {db db' : Db} → Evolves mac db db' → Extends db db'
  Evolves-Extends {db = db} still = Extends-refl db db refl
  Evolves-Extends {db = db} (further {mid = mid} f c) =
      let (old, p) = Evolves-Extends f in
      let (new, q) = Change-Extends c in
      (old ++ new, q ∙ ap (λ vs. vs ++ new) p ∙ append_assoc db.verifications old new)

  Change-IsNumbered : {db db' : Db} → Change mac db db' → IsNumbered db → IsNumbered db'
  Change-IsNumbered (quiet v l a) h company series = rw v (h company series)
  Change-IsNumbered {db = db} {db' = db'} (posted new_id p e) h company series =
      post_verification-IsNumbered new_id p db db' e h company series
  Change-IsNumbered {db = db} {db' = db'} (logged actor c a t i d e) h company series =
      rw (log_audit_done mac actor c a t i d db db' e).1 (h company series)
  Change-IsNumbered {db = db} (added a e) h company series = rw e (h company series)

  pub Evolves-IsNumbered : {db db' : Db} → Evolves mac db db' → IsNumbered db → IsNumbered db'
  Evolves-IsNumbered still h = h
  Evolves-IsNumbered (further f c) h = Change-IsNumbered c (Evolves-IsNumbered f h)

  Change-chain :
      {db db' : Db} (company : Text)
      → Change mac db db'
      → verify_audit_chain mac company db ≡ none
      → verify_audit_chain mac company db' ≡ none
  unfolding verify_audit_chain
  Change-chain company (quiet v l a) h = rw l h
  Change-chain {db = db} {db' = db'} company (posted new_id p e) h =
      let (_, _, _, (number, _, eq)) = post_verification_done new_id p db db' e in rw eq h
  Change-chain {db = db} {db' = db'} company (logged actor c a t i d e) h =
      verify_audit_chain-log_audit mac actor c a t i d company db db' e h
  Change-chain company (added a e) h = rw e h

  pub Evolves-chain :
      {db db' : Db} (company : Text)
      → Evolves mac db db'
      → verify_audit_chain mac company db ≡ none
      → verify_audit_chain mac company db' ≡ none
  Evolves-chain company still h = h
  Evolves-chain company (further f c) h = Change-chain company c (Evolves-chain company f h)

is_known-append :
    (company number : Text) (rows : List AccountRow) (a : AccountRow)
    → is_known company number rows ≡ true
    → is_known company number (rows ++ a ∷ []) ≡ true
unfolding is_known
is_known-append company number (r ∷ rows) a h =
    ground (arith, is_known-append company number rows a)
is_known-append company number [] a h = cc

first_unknown-append :
    (company : Text) (rows : List AccountRow) (a : AccountRow) (ls : List Line)
    → first_unknown company rows ls ≡ none
    → first_unknown company (rows ++ a ∷ []) ls ≡ none
unfolding first_unknown
first_unknown-append company rows a [] h = refl
first_unknown-append company rows a (l ∷ ls) h =
    ground (arith, first_unknown-append company rows a ls, is_known-append company l.account rows a)

IsAcceptedRow-append :
    (rows : List AccountRow) (a : AccountRow) (vs : List VerificationRow)
    → All (IsAcceptedRow rows) vs
    → All (IsAcceptedRow (rows ++ a ∷ [])) vs
IsAcceptedRow-append rows a [] h = tt
IsAcceptedRow-append rows a (v ∷ vs) ((valid, known), h) = (
  (valid, first_unknown-append v.company_id rows a v.lines known),
  IsAcceptedRow-append rows a vs h,
)

module _ {mac : Text → Text} where
  Change-IsAccepted : {db db' : Db} → Change mac db db' → IsAccepted db → IsAccepted db'
  unfolding validate
  Change-IsAccepted (quiet v l a) h = rw (v, a) h
  Change-IsAccepted {db = db} {db' = db'} (posted new_id p e) h =
      let (valid, known, _, (number, _, eq)) = post_verification_done new_id p db db' e in
      rw eq (
        All-append (IsAcceptedRow db.accounts) db.verifications (row_of new_id number p ∷ []) h
          ((valid, known), tt))
  Change-IsAccepted {db = db} {db' = db'} (logged actor c a t i d e) h =
      let (_, v, k) = log_audit_done mac actor c a t i d db db' e in rw (v, k) h
  Change-IsAccepted {db = db} (added a e) h =
      rw e (IsAcceptedRow-append db.accounts a db.verifications h)

  pub Evolves-IsAccepted : {db db' : Db} → Evolves mac db db' → IsAccepted db → IsAccepted db'
  Evolves-IsAccepted still h = h
  Evolves-IsAccepted (further f c) h = Change-IsAccepted c (Evolves-IsAccepted f h)
