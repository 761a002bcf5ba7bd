-- ===== src/Ledger/Verification/Examples.antt =====
-- Concrete verifikat, from internal/ledger/ledger_test.go, and the theorems at them.
use pare.Common.{bytes, ◌≡◌, refl, ◌↔◌, none, some, List, [], ◌∷◌, arith, Text}
use pare.Common.Int.{pos, negsuc, ◌+ℤ◌}
use pare.Common.Int64.{add, wrap}
use pare.Ledger.Money.{Amount, amount_string}
use pare.Ledger.Verification.{Line, Verification, validate, id, overflow, line_side, too_few_lines}
use pare.Ledger.Verification.Postable.{IsPostable, validate_iff}

abbrev line : Text → Amount → Amount → Line
line a d c = record { account = a; debit = d; credit = c; vat_code = [] }

abbrev entry : List Line → Verification
entry ls = record {
  series = bytes "A";
  number = pos 1;
  date = 0;
  description = bytes "Konsultarvode";
  lines = ls;
  reversal_of = [];
}

-- sale(): 12 500 kr in, 10 000 kr of sales, 2 500 kr of VAT.
abbrev sale : Verification
sale = entry (
    line (bytes "1930") (pos 1250000) (pos 0)
    ∷ line (bytes "3011") (pos 0) (pos 1000000)
    ∷ line (bytes "2610") (pos 0) (pos 250000)
    ∷ [])

abbrev huge : Amount
huge = pos 5000000000000000000

-- TestValidateRejectsOverflow
abbrev wrapping : Verification
wrapping = entry (
    line (bytes "1930") huge (pos 0)
    ∷ line (bytes "1930") huge (pos 0)
    ∷ line (bytes "3000") (pos 0) huge
    ∷ line (bytes "3000") (pos 0) huge
    ∷ [])

sale_passes : validate sale ≡ none
unfolding validate add wrap ◌+ℤ◌
sale_passes = refl

wrapping_fails : validate wrapping ≡ some overflow
unfolding validate add wrap ◌+ℤ◌
wrapping_fails = refl

one_line_fails : validate (entry (line (bytes "1930") (pos 1) (pos 0) ∷ [])) ≡ some too_few_lines
unfolding validate
one_line_fails = refl

zero_line_fails :
    validate
      (entry (line (bytes "1930") (pos 0) (pos 0) ∷ line (bytes "3001") (pos 0) (pos 1) ∷ []))
    ≡ some line_side
unfolding validate
zero_line_fails = refl

id_of_sale : id sale ≡ bytes "A1"
unfolding id
id_of_sale = refl

strings :
    (amount_string (pos 1250005) ≡ bytes "12500,05")
    × (amount_string (negsuc 49) ≡ bytes "-0,50")
    × (amount_string (negsuc 9223372036854775807) ≡ bytes "--92233720368547758,-8")
unfolding amount_string wrap
strings = (refl, refl, refl)

validate_iff_example : (validate sale ≡ none) ↔ IsPostable sale.lines
validate_iff_example = validate_iff sale (omega arith)
