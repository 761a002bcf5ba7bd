-- ===== src/Bank/Examples.antt =====
-- Amounts of a bank statement, and the theorem of internal/bank at one of them.
use pare.Common.{bytes, true, false, none, some, [], ◌∷◌, ◌≡◌, ◌+◌, ◌*◌, refl, is_empty}
use pare.Common.Int.{pos, negsuc, ◌+ℤ◌, ◌-ℤ◌, ◌*ℤ◌}
use pare.Common.Int64.{wrap}
use pare.Common.Decimal.{all_digits, value}
use pare.Bank.Amounts.{ore_from_parts, parse_amount_swedish, parse_amount_iso}
use pare.Bank.Amounts.Exact.{ore_from_parts_exact, with_sign, hundredths}
use pare.Bank.Csv.{Texts, parse_csv}

is_read : ore_from_parts (bytes "12500") (bytes "507") true ≡ some (negsuc 1250049)
unfolding ore_from_parts wrap ◌+ℤ◌ ◌-ℤ◌ ◌*ℤ◌
is_read = refl

ore_from_parts_exact_example :
    (is_empty (bytes "12500") ≡ false)
    × (all_digits (bytes "12500") ≡ true)
    × (all_digits (bytes "507") ≡ true)
    × (negsuc 1250049 ≡ with_sign true (value 0 (bytes "12500") * 100 + hundredths (bytes "507")))
ore_from_parts_exact_example =
    ore_from_parts_exact (bytes "12500") (bytes "507") true (negsuc 1250049) is_read

-- The point groups thousands in the Swedish notation, and is decimal in that of ISO 20022.
grouped : parse_amount_swedish (λ s. s) (bytes "SEK-12.500") ≡ some (negsuc 1249999)
unfolding parse_amount_swedish wrap ◌+ℤ◌ ◌-ℤ◌ ◌*ℤ◌
grouped = refl

decimal_point : parse_amount_iso (λ s. s) (bytes "12.500") ≡ some (pos 1250)
unfolding parse_amount_iso wrap ◌+ℤ◌ ◌-ℤ◌ ◌*ℤ◌
decimal_point = refl

ambiguous : parse_amount_swedish (λ s. s) (bytes "1,234") ≡ none
unfolding parse_amount_swedish wrap ◌+ℤ◌ ◌-ℤ◌ ◌*ℤ◌
ambiguous = refl

not_a_number : parse_amount_swedish (λ s. s) (bytes "05.03.2026") ≡ none
unfolding parse_amount_swedish wrap ◌+ℤ◌ ◌-ℤ◌ ◌*ℤ◌
not_a_number = refl

-- Every date is day 7.
abbrev texts : Texts
texts = record {
  trim_space = λ s. s;
  to_lower = λ s. s;
  spaceless = λ s. s;
  parse_date = λ s. some 7;
}

-- A file without a header: its first line is not read.
headless :
    parse_csv texts (bytes "d,1,a" ∷ bytes "d,2,b" ∷ [])
    ≡ record { date = 7; amount_ore = pos 200; text = bytes "b"; ref = [] } ∷ []
unfolding parse_csv wrap ◌+ℤ◌ ◌-ℤ◌ ◌*ℤ◌
headless = refl
