-- ===== src/Bank/Amounts/Exact.antt =====
-- The amounts that internal/bank/bank.go reads are exact: nothing wraps around.
use pare.Common.{
  ℕ, ◌+◌, ◌*◌, ◌-◌, ◌≤◌, ◌<◌, ◌^◌, ◌≡◌, refl, ap, sym, ◌∙◌, Text, Bool, true, false, not, ◌||◌,
  is_empty, ltb, some, Option-cases, Bool-cases, [], ◌∷◌, inl, inr, arith, if◌then◌else◌,
}
use pare.Common.Int.{ℤ, pos, ◌-ℤ◌, ◌*ℤ◌}
use pare.Common.Int64.{add, mul, neg, neg_exact, add_fits, wrap, wrap_of_IsInt64}
use pare.Common.Decimal.{is_digit, all_digits, value}
use pare.Bank.Amounts.{whole_from, two_digits, with_fraction, of_whole, ore_from_parts}

mul_small : (n k : ℕ) → n * k < 2 ^ 63 → mul (pos n) (pos k) ≡ pos (n * k)
unfolding mul ◌*ℤ◌
mul_small n k h = ap wrap (ground arith) ∙ wrap_of_IsInt64 (pos (n * k)) (h, omega arith)

add_small : (n k : ℕ) → n + k < 2 ^ 63 → add (pos n) (pos k) ≡ pos (n + k)
add_small n k h = add_fits n (pos k) refl h

-- A digit more, while the guard of the loop lets it pass.
digit_small :
    (n c : ℕ)
    → n ≤ 922337203685477579
    → is_digit c ≡ true
    → add (mul (pos n) (pos 10)) (pos (c - b'0')) ≡ pos (n * 10 + (c - b'0'))
digit_small n c h d =
    let small : c - b'0' < 10 = ground arith in
    ap (λ a. add a (pos (c - b'0'))) (mul_small n 10 (omega arith))
    ∙ add_small (n * 10) (c - b'0') (omega arith)

whole_from_exact :
    (n : ℕ) (s : Text) (v : ℤ)
    → all_digits s ≡ true
    → whole_from (pos n) s ≡ some v
    → v ≡ pos (value n s)
unfolding whole_from value all_digits
whole_from_exact n [] v d h = ground arith
whole_from_exact n (c ∷ s) v d h = elim (Bool-cases (ltb 922337203685477579 n)) [
  | inl big ↦ absurd (ground arith)
  | inr small ↦
      let next = digit_small n c (ground arith) (ground arith) in
      let rest : whole_from (add (mul (pos n) (pos 10)) (pos (c - b'0'))) s ≡ some v =
        ground arith in
      whole_from_exact (n * 10 + (c - b'0')) s v (ground arith)
        (ap (λ a. whole_from a s) (sym next) ∙ rest)
]

-- The hundredths that the first two digits of a fraction stand for.
abbrev pub hundredths : Text → ℕ
hundredths frac = let (a, b) = two_digits frac in (a - b'0') * 10 + (b - b'0')

abbrev pub with_sign : Bool → ℕ → ℤ
with_sign negative n = if negative then pos 0 -ℤ pos n else pos n

two_digits_small :
    (frac : Text)
    → all_digits frac ≡ true
    → ((two_digits frac).0 - b'0' ≤ 9) × ((two_digits frac).1 - b'0' ≤ 9)
unfolding all_digits
two_digits_small [] d = (omega arith, omega arith)
two_digits_small (a ∷ []) d = (ground arith, omega arith)
two_digits_small (a ∷ b ∷ s) d = (ground arith, ground arith)

neg_small : (n : ℕ) → n < 2 ^ 63 → neg (pos n) ≡ pos 0 -ℤ pos n
unfolding ◌-ℤ◌
neg_small n h = neg_exact (pos n) (ground arith)

total_small :
    (n a b : ℕ)
    → n ≤ 92233720368547757
    → a ≤ 9
    → b ≤ 9
    → add (add (mul (pos n) (pos 100)) (mul (pos a) (pos 10))) (pos b)
      ≡ pos (n * 100 + (a * 10 + b))
total_small n a b h ha hb =
    rw
      (
        mul_small n 100 (omega arith),
        mul_small a 10 (omega arith),
        add_small (n * 100) (a * 10) (omega arith),
        add_small (n * 100 + a * 10) b (omega arith),
      )
      (ap pos (omega arith))

with_fraction_exact :
    (n a b : ℕ) (negative : Bool) (v : ℤ)
    → a - b'0' ≤ 9
    → b - b'0' ≤ 9
    → with_fraction (pos n) (a, b) negative ≡ some v
    → v ≡ with_sign negative (n * 100 + ((a - b'0') * 10 + (b - b'0')))
with_fraction_exact n a b negative v ha hb h = elim (Bool-cases (ltb 92233720368547757 n)) [
  | inl big ↦ absurd (ground arith)
  | inr small ↦
      let fits : n ≤ 92233720368547757 = ground arith in
      let t = total_small n (a - b'0') (b - b'0') fits ha hb in
      let m = neg_small (n * 100 + ((a - b'0') * 10 + (b - b'0'))) (omega arith) in ground arith
]

-- oreFromParts never wraps around: when it answers, both parts are digits only, the whole part is not
-- empty, and the answer is exactly the number of öre that they write, with the sign; the fraction is
-- cut to two digits.
pub ore_from_parts_exact :
    (whole frac : Text) (negative : Bool) (v : ℤ)
    → ore_from_parts whole frac negative ≡ some v
    → (is_empty whole ≡ false)
      × (all_digits whole ≡ true)
      × (all_digits frac ≡ true)
      × (v ≡ with_sign negative (value 0 whole * 100 + hundredths frac))
unfolding ore_from_parts
ore_from_parts_exact whole frac negative v h =
    elim (Bool-cases (is_empty whole || not (all_digits whole) || not (all_digits frac))) [
      | inl bad ↦ absurd (ground arith)
      | inr good ↦ elim (Option-cases (whole_from (pos 0) whole)) [
        | inl n ↦ absurd (ground arith)
        | inr (x, w) ↦
            let exact = whole_from_exact 0 whole x (ground arith) w in
            let (ha, hb) = two_digits_small frac (ground arith) in
            let run : of_whole (whole_from (pos 0) whole) frac negative ≡ some v = rw good at h in
            let run' : with_fraction (pos (value 0 whole)) (two_digits frac) negative ≡ some v =
              ap (λ y. with_fraction y (two_digits frac) negative) (sym exact)
              ∙ ap (λ o. of_whole o frac negative) (sym w)
              ∙ run in
            let f =
              with_fraction_exact (value 0 whole) (two_digits frac).0 (two_digits frac).1 negative v
                ha hb run' in
            (ground arith, ground arith, ground arith, f)
      ]
    ]
