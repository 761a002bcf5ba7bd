-- ===== src/Ledger/Verification.antt =====
-- internal/ledger/ledger.go: verifikat, their validation and their reversal. A date is a day
-- number; nothing here computes with it.
pub mod Postable
pub mod Reversal
mod Examples
use pare.Common.{
  ℕ, Text, bytes, Bool, not, ◌&&◌, ◌||◌, Option, none, some, List, [], ◌∷◌, ◌++◌, map, is_empty,
  if◌then◌else◌,
}
use pare.Common.Int.{ℤ, pos, eqb_ℤ}
use pare.Common.Int64.{add}
use pare.Common.Decimal.{fmt_d}
use pare.Ledger.Money.{Amount, is_neg}

-- The errors of Validate, in the order of the source.
pub data Error : Type 0 where
  unbalanced too_few_lines line_side no_account negative overflow : Error

pub record Line : Type 0 where
  pub account : Text
  pub debit : Amount
  pub credit : Amount
  pub vat_code : Text

pub record Verification : Type 0 where
  pub series : Text
  pub number : ℤ
  pub date : ℕ
  pub description : Text
  pub lines : List Line
  pub reversal_of : Text

-- Verification.ID
unfoldable pub id : Verification → Text
unfolding fmt_d
id v = v.series ++ fmt_d v.number

-- The loop of Totals, from the sums so far.
unfoldable pub totals_from : Amount → Amount → List Line → Amount × Amount
totals_from d c [] = (d, c)
totals_from d c (l ∷ ls) = totals_from (add d l.debit) (add c l.credit) ls

unfoldable pub totals : Verification → Amount × Amount
unfolding totals_from
totals v = totals_from (pos 0) (pos 0) v.lines

abbrev same : Bool → Bool → Bool
same a b = (a && b) || (not a && not b)

-- The loop of Validate over the lines, with the sums so far; the sums are compared at its end.
validate_from : Amount → Amount → List Line → Option Error
validate_from d c [] = if eqb_ℤ d c then none else some unbalanced
validate_from d c (l ∷ ls) =
    let rest = validate_from (add d l.debit) (add c l.credit) ls in
    if is_empty l.account
    then some no_account
    else if is_neg l.debit || is_neg l.credit
    then some negative
    else if same (eqb_ℤ l.debit (pos 0)) (eqb_ℤ l.credit (pos 0))
    then some line_side
    else if is_neg (add d l.debit) || is_neg (add c l.credit)
    then some overflow
    else rest

-- The test `len(v.Lines) < 2` and the loop.
unfoldable pub validate_lines : List Line → Option Error
unfolding validate_from
validate_lines [] = some too_few_lines
validate_lines (l ∷ []) = some too_few_lines
validate_lines (l ∷ k ∷ ls) = validate_from (pos 0) (pos 0) (l ∷ k ∷ ls)

-- Validate; `none` is the nil error.
unfoldable pub validate : Verification → Option Error
unfolding validate_lines
validate v = validate_lines v.lines

-- One line with its sides exchanged.
unfoldable pub swap_sides : Line → Line
swap_sides l = record {
  account = l.account;
  debit = l.credit;
  credit = l.debit;
  vat_code = l.vat_code;
}

-- Reverse
unfoldable pub reverse : Verification → Text → ℤ → ℕ → Text → Verification
unfolding swap_sides id
reverse orig series number date reason = record {
  series = series;
  number = number;
  date = date;
  description = if is_empty reason then bytes "Rättelse av " ++ id orig else reason;
  lines = map swap_sides orig.lines;
  reversal_of = id orig;
}
