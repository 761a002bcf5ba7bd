-- ===== src/Common/Decimal.antt =====
-- The decimal notation of numbers: the verbs %d and %02d of fmt, and strconv.ParseInt.
use mathlib.Core.Path.{◌≡◌, refl}
use mathlib.Core.Logic.{◌≢◌}
use pare.Common.Tests.{ltb, leb, ◌==◌, if◌then◌else◌}
use pare.Common.Strings.{Text}
use pare.Common.Int.{ℤ, pos, negsuc, sub_ℕ}
use pare.Common.Int64.{max_int64}
use Prim.Native.Nat.{ℕ, zero, suc, ◌+◌, ◌-◌, ◌*◌, ◌/◌, ◌%◌, ◌^◌, ◌≤◌, ◌<◌}
use mathlib.Core.Bool.{Bool, true, false, ◌&&◌}
use mathlib.Core.List.{[], ◌∷◌}
use native.Mathlib.Omega.{arith}

abbrev pub is_digit : ℕ → Bool
is_digit c = leb b'0' c && leb c b'9'

abbrev pub IsDigit : ℕ → Type 0
IsDigit c = (b'0' ≤ c) × (c ≤ b'9')

unfoldable pub all_digits : Text → Bool
all_digits [] = true
all_digits (c ∷ s) = is_digit c && all_digits s

-- The digits of `n` in front of `out`; the fuel is enough when it exceeds `n`.
emit : ℕ → ℕ → Text → Text
emit zero n out = out
emit (suc f) n out =
    let rest = emit f (n / 10) ((b'0' + n % 10) ∷ out) in
    if ltb n 10 then (b'0' + n) ∷ out else rest

-- %d of a number that is not negative.
unfoldable pub decimal : ℕ → Text
unfolding emit
decimal n = emit (suc n) n []

-- %d
unfoldable pub fmt_d : ℤ → Text
unfolding decimal
fmt_d (pos n) = decimal n
fmt_d (negsuc n) = b'-' ∷ decimal (suc n)

-- %02d: at least two characters, the sign among them.
unfoldable pub fmt_02d : ℤ → Text
unfolding decimal
fmt_02d (pos n) = if ltb n 10 then b'0' ∷ decimal n else decimal n
fmt_02d (negsuc n) = b'-' ∷ decimal (suc n)

-- The number that digits stand for, after digits worth `acc`.
unfoldable pub value : ℕ → Text → ℕ
value acc [] = acc
value acc (c ∷ s) = value (acc * 10 + (c - b'0')) s

value-emit : (f n : ℕ) (out : Text) → n < f → value 0 (emit f n out) ≡ value n out
unfolding value emit
value-emit zero n out h = elim h [ ]
value-emit (suc f) n out h = ground (arith, value-emit f (n / 10) ((b'0' + n % 10) ∷ out))

pub value-decimal : (n : ℕ) → value 0 (decimal n) ≡ n
unfolding decimal value
value-decimal n = value-emit (suc n) n [] (omega arith)

all_digits-emit : (f n : ℕ) (out : Text) → all_digits out ≡ true → all_digits (emit f n out) ≡ true
unfolding all_digits emit
all_digits-emit zero n out h = h
all_digits-emit (suc f) n out h = ground (arith, all_digits-emit f (n / 10) ((b'0' + n % 10) ∷ out))

pub all_digits-decimal : (n : ℕ) → all_digits (decimal n) ≡ true
unfolding decimal all_digits
all_digits-decimal n = all_digits-emit (suc n) n [] refl

emit-ne-nil : (f n : ℕ) (c : ℕ) (out : Text) → emit f n (c ∷ out) ≢ []
unfolding emit
emit-ne-nil zero n c out h = cc
emit-ne-nil (suc f) n c out h = ground (arith, emit-ne-nil f (n / 10) (b'0' + n % 10) (c ∷ out))

pub decimal-ne-nil : (n : ℕ) → decimal n ≢ []
unfolding decimal emit
decimal-ne-nil n h = ground (arith, emit-ne-nil n (n / 10) (b'0' + n % 10) [])

-- A number below ten has one digit, and one below a hundred has two.
pub decimal_two : (n : ℕ) → n < 100 → 10 ≤ n → decimal n ≡ (b'0' + n / 10) ∷ (b'0' + n % 10) ∷ []
unfolding decimal emit
decimal_two (suc (suc n)) h k = ground arith
decimal_two (suc zero) h k = absurd (omega arith)
decimal_two zero h k = absurd (omega arith)

pub decimal_one : (n : ℕ) → n < 10 → decimal n ≡ (b'0' + n) ∷ []
unfolding decimal emit
decimal_one n h = ground arith

-- The digits of strconv.ParseInt(s, 10, 64) after the sign: the value that the call returns
-- beside its error, 0 for bad syntax and the nearer bound when out of range.
parse_digits : Bool → Text → ℤ
unfolding all_digits value
parse_digits negative [] = pos 0
parse_digits negative (c ∷ s) =
    if all_digits (c ∷ s)
    then (let n = value 0 (c ∷ s) in
        if negative
        then (if ltb (2 ^ 63) n then negsuc max_int64 else sub_ℕ 0 n)
        else if ltb max_int64 n
        then pos max_int64
        else pos n)
    else pos 0

-- `v, _ := strconv.ParseInt(s, 10, 64)`
unfoldable pub parse_int : Text → ℤ
unfolding parse_digits
parse_int [] = pos 0
parse_int (c ∷ s) =
    if c == b'+'
    then parse_digits false s
    else if c == b'-'
    then parse_digits true s
    else parse_digits false (c ∷ s)

-- A digit string in range is read back as its value.
parse_digits_of_digits :
    (s : Text)
    → all_digits s ≡ true
    → value 0 s ≤ max_int64
    → parse_digits false s ≡ pos (value 0 s)
unfolding parse_digits value all_digits
parse_digits_of_digits [] d h = refl
parse_digits_of_digits (c ∷ s) d h = ground arith

pub parse_int_of_digits :
    (s : Text) → all_digits s ≡ true → value 0 s ≤ max_int64 → parse_int s ≡ pos (value 0 s)
unfolding parse_int value all_digits
parse_int_of_digits [] d h = refl
parse_int_of_digits (c ∷ s) d h = ground (arith, parse_digits_of_digits (c ∷ s) d h)
