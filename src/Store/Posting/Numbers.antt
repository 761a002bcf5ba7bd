-- ===== src/Store/Posting/Numbers.antt =====
-- The numbers that postVerification (internal/store/store.go) gives in a series.
use pare.Common.{
  ℕ, suc, ◌+◌, ◌<◌, ◌⊎◌, inl, ◌≡◌, Text, text_eq, text_eq_iff, some, List, [], ◌∷◌, ◌++◌, refl,
  arith, if◌then◌else◌, true, false,
}
use pare.Store.{VerificationRow, Db, done}
use pare.Store.Posting.{Posting, max_number, next_verification_number, row_of, post_verification}
use pare.Store.Posting.Done.{post_verification_done}

-- The rows of a series of a company bear the numbers after `k`, one by one, in the order of insertion.
abbrev IsNumberedFrom : ℕ → Text → Text → List VerificationRow → Type 0
IsNumberedFrom k company series [] = Unit
IsNumberedFrom k company series (r ∷ rs) = elim (text_eq r.company_id company) [
  | true ↦ elim (text_eq r.series series) [
    | true ↦ (r.number ≡ suc k) × IsNumberedFrom (suc k) company series rs
    | false ↦ IsNumberedFrom k company series rs
  ]
  | false ↦ IsNumberedFrom k company series rs
]

count_of : Text → Text → List VerificationRow → ℕ
count_of company series [] = 0
count_of company series (r ∷ rs) =
    if text_eq r.company_id company
    then (if text_eq r.series series
        then suc (count_of company series rs)
        else count_of company series rs)
    else count_of company series rs

-- The greatest number so far, when it is `k` in front of the rows.
max_number-IsNumberedFrom :
    (k : ℕ) (company series : Text) (rs : List VerificationRow)
    → IsNumberedFrom k company series rs
    → ((max_number company series rs ≡ 0) × (count_of company series rs ≡ 0))
      ⊎ ((max_number company series rs ≡ k + count_of company series rs)
          × (0 < count_of company series rs))
unfolding max_number count_of
max_number-IsNumberedFrom k company series [] h = inl (refl, refl)
max_number-IsNumberedFrom k company series (r ∷ rs) h = ground (
  arith,
  max_number-IsNumberedFrom k company series rs,
  max_number-IsNumberedFrom (suc k) company series rs,
)

IsNumberedFrom-append :
    (k : ℕ) (company series : Text) (rs : List VerificationRow) (r : VerificationRow)
    → IsNumberedFrom k company series rs
    → (text_eq r.company_id company ≡ true
        → text_eq r.series series ≡ true
        → r.number ≡ suc (k + count_of company series rs))
    → IsNumberedFrom k company series (rs ++ r ∷ [])
unfolding count_of
IsNumberedFrom-append k company series [] r h n = ground arith
IsNumberedFrom-append k company series (s ∷ rs) r h n = ground (
  arith,
  IsNumberedFrom-append k company series rs r,
  IsNumberedFrom-append (suc k) company series rs r,
)

-- The number that is given next.
next_verification_number-IsNumberedFrom :
    (company series : Text) (rs : List VerificationRow) (number : ℕ)
    → IsNumberedFrom 0 company series rs
    → next_verification_number company series rs ≡ some number
    → number ≡ suc (count_of company series rs)
unfolding next_verification_number
next_verification_number-IsNumberedFrom company series rs number h e =
    ground (arith, max_number-IsNumberedFrom 0 company series rs h)

-- Every series of every company.
abbrev pub IsNumbered : Db → Type 0
IsNumbered db = (company series : Text) → IsNumberedFrom 0 company series db.verifications

-- If the numbers of every series of every company are 1, 2, 3 and so on in the order of insertion, a
-- posting that succeeds keeps it so: no gap and no number twice.
pub post_verification-IsNumbered :
    (new_id : Text) (p : Posting) (db db' : Db)
    → post_verification new_id p db ≡ done db'
    → IsNumbered db
    → IsNumbered db'
post_verification-IsNumbered new_id p db db' e h company series =
    let (_, _, _, (number, next, eq)) = post_verification_done new_id p db db' e in
    let given =
      next_verification_number-IsNumberedFrom p.company_id p.series db.verifications number
        (h p.company_id p.series) next in
    rw eq (
      IsNumberedFrom-append 0 company series db.verifications (row_of new_id number p)
        (h company series)
        (λ c s.
          ground (arith, given, text_eq_iff p.company_id company, text_eq_iff p.series series)))
