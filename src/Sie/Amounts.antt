-- ===== src/Sie/Amounts.antt =====
-- The amounts of a SIE file (internal/sie/sie.go) are read back.
use pare.Common.{
  ℕ, suc, ◌+◌, ◌*◌, ◌/◌, ◌%◌, ◌^◌, ◌<◌, Text, has_prefix, leb, ◌≡◌, ◌≢◌, refl, ap, ◌∙◌, true, false,
  [], ◌∷◌, ◌++◌, if◌then◌else◌, arith, inl, inr, Bool-cases,
}
use pare.Common.Int.{ℤ, pos, negsuc, pos_part, neg_part, quot, ◌-ℤ◌, ◌*ℤ◌, eq_of_parts}
use pare.Common.Int64.{mul, neg, add_fits, wrap, wrap_of_IsInt64}
use pare.Common.Rounding.{mul_parts}
use pare.Common.Decimal.{
  all_digits, decimal, all_digits-decimal, fmt_d, value-decimal, decimal-ne-nil, parse_int,
  parse_int_of_digits, decimal_one, decimal_two, fmt_02d, value,
}
use pare.Ledger.Money.{is_neg}
use pare.Sie.{rem_100, render, trim_prefix, cut, amount, parse_amount, parse_unsigned}

-- Digits end at the point.
cut_digits : (s t : Text) → all_digits s ≡ true → cut (s ++ b'.' ∷ t) ≡ (s, t)
unfolding cut all_digits
cut_digits [] t h = refl
cut_digits (c ∷ s) t h = ground (arith, cut_digits s t)

-- The two digits of the öre.
fmt_02d_two : (r : ℕ) → r < 100 → fmt_02d (pos r) ≡ (b'0' + r / 10) ∷ (b'0' + r % 10) ∷ []
unfolding fmt_02d
fmt_02d_two r h = elim (Bool-cases (leb 10 r)) [
  | inl k ↦ let e = decimal_two r h (ground arith) in ground arith
  | inr k ↦ let e = decimal_one r (ground arith) in ground arith
]

parse_two : (r : ℕ) → r < 100 → parse_int ((b'0' + r / 10) ∷ (b'0' + r % 10) ∷ []) ≡ pos r
unfolding all_digits value
parse_two r h =
    parse_int_of_digits ((b'0' + r / 10) ∷ (b'0' + r % 10) ∷ []) (ground arith) (omega arith)
    ∙ ap pos (omega arith)

parse_decimal : (n : ℕ) → n < 2 ^ 63 → parse_int (decimal n) ≡ pos n
parse_decimal n h =
    let v = value-decimal n in
    parse_int_of_digits (decimal n) (all_digits-decimal n) (omega arith) ∙ ap pos v

mul_hundred : (k : ℕ) → k * 100 < 2 ^ 63 → mul (pos k) (pos 100) ≡ pos (k * 100)
mul_hundred k h =
    eq_of_parts (mul (pos k) (pos 100)) (pos (k * 100))
      (omega (arith, mul_parts (pos k) 100 (omega arith) (omega arith)))

parse_unsigned_of :
    (n : ℕ)
    → n < 2 ^ 63
    → parse_unsigned (decimal (n / 100) ++ b'.' ∷ fmt_02d (pos (n % 100))) ≡ pos n
unfolding parse_unsigned
parse_unsigned_of n h =
    let two = fmt_02d_two (n % 100) (omega arith) in
    let c =
      cut_digits (decimal (n / 100)) (fmt_02d (pos (n % 100))) (all_digits-decimal (n / 100)) in
    rw
      (
        parse_unsigned,
        c,
        two,
        parse_decimal (n / 100) (omega arith),
        parse_two (n % 100) (omega arith),
        mul_hundred (n / 100) (omega arith),
      )
      (add_fits (n / 100 * 100) (pos (n % 100)) refl (omega arith) ∙ ap pos (omega arith))

-- Digits have no sign.
no_sign :
    (s t : Text)
    → all_digits s ≡ true
    → s ≢ []
    → (trim_prefix b'-' (s ++ t) ≡ s ++ t)
      × (trim_prefix b'+' (s ++ t) ≡ s ++ t)
      × (has_prefix (s ++ t) (b'-' ∷ []) ≡ false)
unfolding all_digits
no_sign [] t h k = absurd (k refl)
no_sign (c ∷ s) t h k = ground arith

neg_negsuc : (m : ℕ) → suc m < 2 ^ 63 → neg (negsuc m) ≡ pos (suc m)
unfolding neg ◌-ℤ◌
neg_negsuc m h = ap wrap (ground arith) ∙ wrap_of_IsInt64 (pos (suc m)) (omega arith)

-- Kronor and öre of an amount that is not negative.
abbrev body : ℕ → Text
body n = decimal (n / 100) ++ b'.' ∷ fmt_02d (pos (n % 100))

kronor_of : (n : ℕ) → quot (pos n) 100 ≡ pos (n / 100)
unfolding quot
kronor_of n = ground arith

ore_of : (n : ℕ) → rem_100 (pos n) ≡ pos (n % 100)
unfolding rem_100 quot ◌-ℤ◌ ◌*ℤ◌
ore_of n = ground arith

render-body : (sign : Text) (n : ℕ) → render sign (pos n) ≡ sign ++ body n
unfolding render fmt_d
render-body sign n =
    ap (λ q. sign ++ (fmt_d q ++ b'.' ∷ fmt_02d (rem_100 (pos n)))) (kronor_of n)
    ∙ ap (λ r. sign ++ (decimal (n / 100) ++ b'.' ∷ fmt_02d r)) (ore_of n)

amount_pos : (n : ℕ) → amount (pos n) ≡ body n
unfolding amount
amount_pos n =
    let sign : is_neg (pos n) ≡ false = ground arith in
    ap (λ b. if b then render (b'-' ∷ []) (neg (pos n)) else render [] (pos n)) sign
    ∙ render-body [] n

amount_negsuc : (m : ℕ) → suc m < 2 ^ 63 → amount (negsuc m) ≡ b'-' ∷ body (suc m)
unfolding amount
amount_negsuc m h =
    let sign : is_neg (negsuc m) ≡ true = ground arith in
    ap (λ b. if b then render (b'-' ∷ []) (neg (negsuc m)) else render [] (negsuc m)) sign
    ∙ ap (render (b'-' ∷ [])) (neg_negsuc m h)
    ∙ render-body (b'-' ∷ []) (suc m)

body_unsigned :
    (n : ℕ)
    → (trim_prefix b'-' (body n) ≡ body n)
      × (trim_prefix b'+' (body n) ≡ body n)
      × (has_prefix (body n) (b'-' ∷ []) ≡ false)
body_unsigned n =
    no_sign (decimal (n / 100)) (b'.' ∷ fmt_02d (pos (n % 100))) (all_digits-decimal (n / 100))
      (decimal-ne-nil (n / 100))

neg_pos : (m : ℕ) → suc m < 2 ^ 63 → neg (pos (suc m)) ≡ negsuc m
unfolding neg ◌-ℤ◌
neg_pos m h = ap wrap (ground arith) ∙ wrap_of_IsInt64 (negsuc m) (omega arith)

parse_body : (n : ℕ) → n < 2 ^ 63 → parse_amount (body n) ≡ pos n
unfolding parse_amount
parse_body n h =
    let (minus, plus, prefix) = body_unsigned n in rw (prefix, minus, plus) (parse_unsigned_of n h)

parse_negative : (m : ℕ) → suc m < 2 ^ 63 → parse_amount (b'-' ∷ body (suc m)) ≡ negsuc m
unfolding parse_amount
parse_negative m h =
    let (minus, plus, prefix) = body_unsigned (suc m) in
    rw plus (ap neg (parse_unsigned_of (suc m) h) ∙ neg_pos m h)

-- An amount of int64 other than the least one is read back from its decimal notation.
pub parse_amount-amount :
    (ore : ℤ) → pos_part ore < 2 ^ 63 → neg_part ore < 2 ^ 63 → parse_amount (amount ore) ≡ ore
parse_amount-amount (pos n) h k = ap parse_amount (amount_pos n) ∙ parse_body n h
parse_amount-amount (negsuc m) h k = ap parse_amount (amount_negsuc m k) ∙ parse_negative m k
