-- ===== src/Store/Posting/Sound.antt =====
-- What every row of the verifikat table satisfies (internal/store/store.go).
use pare.Common.{◌≡◌, Text, none, [], ◌∷◌, All, All-append}
use pare.Ledger.Verification.Postable.{HasInt64, IsPostable, validate_iff}
use pare.Store.{VerificationRow, Db, done}
use pare.Store.Posting.{Posting, first_unknown, row_of, verification_of, post_verification}
use pare.Store.Posting.Done.{post_verification_done}

-- A row that can be posted, on accounts that the company has.
abbrev pub IsSoundRow : Db → VerificationRow → Type 0
IsSoundRow db r = IsPostable r.lines × (first_unknown r.company_id db.accounts r.lines ≡ none)

abbrev pub IsSound : Db → Type 0
IsSound db = All (IsSoundRow db) db.verifications

-- A posting of int64 amounts keeps the table sound: each verifikat has two lines or more, each with
-- a positive amount on one side, equal sums in range, and known accounts only.
pub post_verification-IsSound :
    (new_id : Text) (p : Posting) (db db' : Db)
    → All HasInt64 p.lines
    → post_verification new_id p db ≡ done db'
    → IsSound db
    → IsSound db'
post_verification-IsSound new_id p db db' fits e h =
    let (valid, known, _, (number, _, eq)) = post_verification_done new_id p db db' e in
    let row = row_of new_id number p in
    rw eq (
      All-append (IsSoundRow db) db.verifications (row ∷ []) h
        (((validate_iff (verification_of p) fits).0 valid, known), tt))
