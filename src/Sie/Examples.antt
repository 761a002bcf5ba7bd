-- ===== src/Sie/Examples.antt =====
-- Concrete texts and amounts, from internal/sie/sie_test.go, and the theorems at them.
use pare.Common.{Text, bytes, ◌≡◌, ◌⊎◌, refl, false, some, List, [], ◌∷◌, arith}
use pare.Common.Int.{pos, negsuc, ◌-ℤ◌, ◌*ℤ◌}
use pare.Common.Int64.{wrap}
use pare.Sie.Fuel.{tokenize_ends}
use pare.Sie.{tokens, follow, valid_from, to_valid, amount, parse_amount, quote, tokenize}
use pare.Sie.RoundTrip.{cleaned, is_utf8, tokenize-quote}
use pare.Sie.Amounts.{parse_amount-amount}

written : (amount (negsuc 13199) ≡ bytes "-132.00") × (amount (pos 5) ≡ bytes "0.05")
unfolding amount wrap ◌-ℤ◌ ◌*ℤ◌
written = (refl, refl)

fields :
    tokenize (bytes "#TRANS 1930 {1 \"A\"} -132.00 20260709 \"Kaffe \\\"latte\\\"\"")
    ≡ some (
        bytes "#TRANS"
        ∷ bytes "1930"
        ∷ bytes "{1 \"A\"}"
        ∷ bytes "-132.00"
        ∷ bytes "20260709"
        ∷ bytes "Kaffe \"latte\""
        ∷ [])
unfolding tokenize
fields = refl

-- A text that ends in a backslash does not come back.
backslash_is_lost : tokenize (quote (bytes "C:\\")) ≡ some (bytes "C:\"" ∷ [])
unfolding tokenize quote follow
backslash_is_lost = refl

parse_amount-amount_example : parse_amount (amount (negsuc 13199)) ≡ negsuc 13199
parse_amount-amount_example = parse_amount-amount (negsuc 13199) (omega arith) (omega arith)

-- A byte that is no UTF-8, between two that are, and a letter of two bytes.
test_to_valid : to_valid (b'a' ∷ 255 ∷ bytes "å") ≡ b'a' ∷ 239 ∷ 191 ∷ 189 ∷ bytes "å"
unfolding valid_from follow
test_to_valid = refl

tokenize-quote_example :
    (tokenize (quote (bytes "Kaffe \"latte\""))
      ≡ some (cleaned (to_valid (bytes "Kaffe \"latte\"")) ∷ []))
    × ((to_valid (bytes "Kaffe \"latte\"") ≡ bytes "Kaffe \"latte\"")
        ⊎ (is_utf8 (bytes "Kaffe \"latte\"") ≡ false))
tokenize-quote_example = tokenize-quote (bytes "Kaffe \"latte\"") refl

tokenize_ends_example :
    (ts : List Text) × (tokenize (bytes "#KONTO {a} \"b\"") ≡ some ts)
    × (tokens 100 (bytes "#KONTO {a} \"b\"") ≡ some ts)
tokenize_ends_example = tokenize_ends (bytes "#KONTO {a} \"b\"") 100 (omega arith)
