-- ===== src/Common/Int64.antt =====
-- Go's int64: an integer in range, with sums, differences and products that wrap around modulo
-- 2 ^ 64 as Go defines them.
use Prim.Native.Nat.{ℕ, ◌+◌, ◌-◌, ◌%◌, ◌^◌, ◌≤◌, ◌<◌}
use mathlib.Core.Path.{◌≡◌, ap, ◌∙◌}
use native.Mathlib.Omega.{arith}
use mathlib.Core.Bool.{Bool, ◌&&◌}
use pare.Common.Tests.{ltb, leb, if◌then◌else◌}
use pare.Common.Int.{
  ℤ, pos, negsuc, pos_part, neg_part, ◌+ℤ◌, ◌-ℤ◌, ◌*ℤ◌, int_laws, +ℤ_parts, -ℤ_parts,
}

abbrev pub modulus : ℕ
modulus = 2 ^ 64

-- math.MaxInt64
abbrev pub max_int64 : ℕ
max_int64 = 2 ^ 63 - 1

-- The bit pattern of an integer, as an unsigned number.
unfoldable pub residue : ℤ → ℕ
residue a = (pos_part a % modulus + (modulus - neg_part a % modulus)) % modulus

-- The integer that a bit pattern stands for.
unfoldable pub signed : ℕ → ℤ
signed r = if ltb r (2 ^ 63) then pos r else negsuc (modulus - 1 - r)

unfoldable pub wrap : ℤ → ℤ
unfolding residue signed
wrap a = signed (residue a)

abbrev pub IsInt64 : ℤ → Type 0
IsInt64 a = (pos_part a < 2 ^ 63) × (neg_part a ≤ 2 ^ 63)

-- The test of the range.
abbrev pub in_int64 : ℤ → Bool
in_int64 a = ltb (pos_part a) (2 ^ 63) && leb (neg_part a) (2 ^ 63)

unfoldable pub add : ℤ → ℤ → ℤ
add a b = wrap (a +ℤ b)

unfoldable pub sub : ℤ → ℤ → ℤ
sub a b = wrap (a -ℤ b)

unfoldable pub mul : ℤ → ℤ → ℤ
mul a b = wrap (a *ℤ b)

unfoldable pub neg : ℤ → ℤ
neg a = wrap (pos 0 -ℤ a)

residue-lt : (a : ℤ) → residue a < modulus
unfolding residue
residue-lt a = omega arith

residue-signed : (r : ℕ) → r < modulus → residue (signed r) ≡ r
unfolding residue signed
residue-signed r h = ground arith

residue-wrap : (a : ℤ) → residue (wrap a) ≡ residue a
unfolding wrap
residue-wrap a = residue-signed (residue a) (residue-lt a)

residue-+ℤ : (a b : ℤ) → residue (a +ℤ b) ≡ (residue a + residue b) % modulus
unfolding residue
residue-+ℤ a b = omega (arith, +ℤ_parts a b)

residue--ℤ : (a b : ℤ) → residue (a -ℤ b) ≡ (residue a + (modulus - residue b)) % modulus
unfolding residue
residue--ℤ a b = omega (arith, -ℤ_parts a b)

-- Two integers with the same bit pattern wrap to the same value.
wrap_eq : (a b : ℤ) → residue a ≡ residue b → wrap a ≡ wrap b
unfolding wrap
wrap_eq a b h = ap signed h

pub wrap-IsInt64 : (a : ℤ) → IsInt64 (wrap a)
unfolding wrap signed residue
wrap-IsInt64 a = ground arith

-- A value in range is not changed.
pub wrap_of_IsInt64 : (a : ℤ) → IsInt64 a → wrap a ≡ a
unfolding wrap signed residue
wrap_of_IsInt64 a h = ground arith

pub wrap-wrap : (a : ℤ) → wrap (wrap a) ≡ wrap a
wrap-wrap a = wrap_eq (wrap a) a (residue-wrap a)

pub wrap-add_left : (a b : ℤ) → wrap (wrap a +ℤ b) ≡ wrap (a +ℤ b)
wrap-add_left a b =
    wrap_eq (wrap a +ℤ b) (a +ℤ b)
      (omega (arith, residue-+ℤ (wrap a) b, residue-+ℤ a b, residue-wrap a))

pub wrap-add_right : (a b : ℤ) → wrap (a +ℤ wrap b) ≡ wrap (a +ℤ b)
wrap-add_right a b =
    wrap_eq (a +ℤ wrap b) (a +ℤ b)
      (omega (arith, residue-+ℤ a (wrap b), residue-+ℤ a b, residue-wrap b))

pub wrap-sub_left : (a b : ℤ) → wrap (wrap a -ℤ b) ≡ wrap (a -ℤ b)
wrap-sub_left a b =
    wrap_eq (wrap a -ℤ b) (a -ℤ b)
      (omega (arith, residue--ℤ (wrap a) b, residue--ℤ a b, residue-wrap a))

pub wrap-sub_right : (a b : ℤ) → wrap (a -ℤ wrap b) ≡ wrap (a -ℤ b)
wrap-sub_right a b =
    wrap_eq (a -ℤ wrap b) (a -ℤ b)
      (omega (arith, residue--ℤ a (wrap b), residue--ℤ a b, residue-wrap b))

pub add_exact : (a b : ℤ) → IsInt64 (a +ℤ b) → add a b ≡ a +ℤ b
unfolding add
add_exact a b h = wrap_of_IsInt64 (a +ℤ b) h

pub sub_exact : (a b : ℤ) → IsInt64 (a -ℤ b) → sub a b ≡ a -ℤ b
unfolding sub
sub_exact a b h = wrap_of_IsInt64 (a -ℤ b) h

pub neg_exact : (a : ℤ) → IsInt64 (pos 0 -ℤ a) → neg a ≡ pos 0 -ℤ a
unfolding neg
neg_exact a h = wrap_of_IsInt64 (pos 0 -ℤ a) h

pub mul_exact : (a b : ℤ) → IsInt64 (a *ℤ b) → mul a b ≡ a *ℤ b
unfolding mul
mul_exact a b h = wrap_of_IsInt64 (a *ℤ b) h

-- The wrapped operations, collected under one wrap: sums in any grouping agree as int64.
pub ruleset wrap_laws = (wrap-add_left, wrap-add_right, wrap-sub_left, wrap-sub_right, wrap-wrap)

-- A sum of amounts that are not negative is exact while it is in range.
pub add_fits :
    (d : ℕ) (a : ℤ)
    → neg_part a ≡ 0
    → d + pos_part a < 2 ^ 63
    → add (pos d) a ≡ pos (d + pos_part a)
unfolding add wrap residue signed ◌+ℤ◌
add_fits d a h b = ground arith

-- Past the range it goes below zero.
pub add_overflows :
    (d : ℕ) (a : ℤ)
    → d < 2 ^ 63
    → IsInt64 a
    → 2 ^ 63 ≤ d + pos_part a
    → (pos_part (add (pos d) a) ≡ 0) × (0 < neg_part (add (pos d) a))
unfolding add wrap residue signed ◌+ℤ◌
add_overflows d a hd ha b = ground arith

pub add_comm : (a b : ℤ) → add a b ≡ add b a
unfolding add
add_comm a b = ap wrap (omega int_laws)

pub add_assoc : (a b c : ℤ) → add (add a b) c ≡ add a (add b c)
unfolding add
add_assoc a b c = simp wrap_laws (ap wrap (omega int_laws))

pub add_left_comm : (a b c : ℤ) → add a (add b c) ≡ add b (add a c)
unfolding add
add_left_comm a b c = simp wrap_laws (ap wrap (omega int_laws))

pub add-IsInt64 : (a b : ℤ) → IsInt64 (add a b)
unfolding add
add-IsInt64 a b = wrap-IsInt64 (a +ℤ b)

pub sub-IsInt64 : (a b : ℤ) → IsInt64 (sub a b)
unfolding sub
sub-IsInt64 a b = wrap-IsInt64 (a -ℤ b)

pub sub-eq-add-neg : (a b : ℤ) → sub a b ≡ add a (neg b)
unfolding add sub neg
sub-eq-add-neg a b = simp wrap_laws (ap wrap (omega int_laws))

pub neg-add : (a b : ℤ) → neg (add a b) ≡ add (neg a) (neg b)
unfolding add neg
neg-add a b = simp wrap_laws (ap wrap (omega int_laws))

pub add_zero : (a : ℤ) → IsInt64 a → add a (pos 0) ≡ a
unfolding add
add_zero a h = (ap wrap (omega int_laws)) ∙ wrap_of_IsInt64 a h

pub add-neg : (a : ℤ) → add a (neg a) ≡ pos 0
unfolding add neg
add-neg a = simp wrap_laws ((ap wrap (omega int_laws)) ∙ wrap_of_IsInt64 (pos 0) (omega arith))
