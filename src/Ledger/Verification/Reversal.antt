-- ===== src/Ledger/Verification/Reversal.antt =====
-- Reverse (internal/ledger/ledger.go): a correction is as valid as what it corrects.
use pare.Common.{◌≡◌, refl, Text, ℕ, List, [], ◌∷◌, map, arith}
use pare.Common.Int.{ℤ, pos}
use pare.Common.Int64.{add}
use pare.Ledger.Verification.{
  Line, Verification, swap_sides, reverse, validate_from, validate_lines, validate,
}

validate_from-swap :
    (d c : ℤ) (ls : List Line) → validate_from c d (map swap_sides ls) ≡ validate_from d c ls
unfolding validate_from swap_sides
validate_from-swap d c [] = ground arith
validate_from-swap d c (l ∷ ls) =
    ground (arith, validate_from-swap (add d l.debit) (add c l.credit) ls)

validate_lines-swap : (ls : List Line) → validate_lines (map swap_sides ls) ≡ validate_lines ls
unfolding validate_lines
validate_lines-swap [] = refl
validate_lines-swap (l ∷ []) = refl
validate_lines-swap (l ∷ k ∷ ls) = validate_from-swap (pos 0) (pos 0) (l ∷ k ∷ ls)

-- The correction of a verifikat passes Validate, or fails it with the same error, just as the
-- verifikat itself does.
pub validate-reverse :
    (v : Verification) (series : Text) (number : ℤ) (date : ℕ) (reason : Text)
    → validate (reverse v series number date reason) ≡ validate v
unfolding validate reverse
validate-reverse v series number date reason = validate_lines-swap v.lines
