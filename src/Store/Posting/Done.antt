-- ===== src/Store/Posting/Done.antt =====
-- What a call of postVerification (internal/store/store.go) that succeeds has found and done.
use pare.Common.{ℕ, ◌≡◌, Text, false, none, some, [], ◌∷◌, ◌++◌, arith}
use pare.Ledger.Verification.{validate}
use pare.Store.{Company, Db, done, get_company}
use pare.Store.Posting.{
  Posting, first_unknown, next_verification_number, is_locked, row_of, insert_posting,
  verification_of, post_verification,
}

abbrev pub IsDone : Text → Posting → Db → Db → Type 0
IsDone new_id p db db' =
    (validate (verification_of p) ≡ none)
    × (first_unknown p.company_id db.accounts p.lines ≡ none)
    × ((co : Company) × (get_company p.company_id db.companies ≡ some co)
        × (is_locked co.locked_through p.date ≡ false))
    × ((number : ℕ) × (next_verification_number p.company_id p.series db.verifications
          ≡ some number)
        × (db' ≡ record db { verifications = db.verifications ++ row_of new_id number p ∷ [] }))

pub post_verification_done :
    (new_id : Text) (p : Posting) (db db' : Db)
    → post_verification new_id p db ≡ done db'
    → IsDone new_id p db db'
unfolding post_verification insert_posting
post_verification_done new_id p db db' e = ground arith

-- And a call that finds all this succeeds.
pub post_verification_succeeds :
    (new_id : Text) (p : Posting) (co : Company) (number : ℕ) (db : Db)
    → validate (verification_of p) ≡ none
    → get_company p.company_id db.companies ≡ some co
    → is_locked co.locked_through p.date ≡ false
    → first_unknown p.company_id db.accounts p.lines ≡ none
    → next_verification_number p.company_id p.series db.verifications ≡ some number
    → post_verification new_id p db
      ≡ done (record db { verifications = db.verifications ++ row_of new_id number p ∷ [] })
unfolding post_verification insert_posting
post_verification_succeeds new_id p co number db v c l k n = ground arith
