-- ===== src/Common/Rounding.antt =====
-- Division of an int64 with rounding, half away from zero: the shape that VAT, Net and convertToSEK
-- share, `if n >= 0 { (n + half) / whole } else { (n - half) / whole }`.
use Prim.Native.Nat.{ℕ, suc, ◌+◌, ◌*◌, ◌/◌, ◌^◌, ◌<◌, ◌≤◌}
use mathlib.Core.Path.{◌≡◌}
use native.Mathlib.Omega.{arith}
use pare.Common.Tests.{if◌then◌else◌}
use pare.Common.Int.{ℤ, pos, negsuc, pos_part, neg_part, ◌-ℤ◌, ◌*ℤ◌, leb_ℤ, quot}
use pare.Common.Int64.{
  add-IsInt64, sub-IsInt64, IsInt64, add, sub, mul, wrap, residue, signed, add_fits,
}

unfoldable pub round_div : ℤ → ℕ → ℕ → ℤ
unfolding add sub quot
round_div n half whole =
    if leb_ℤ (pos 0) n then quot (add n (pos half)) whole else quot (sub n (pos half)) whole

add_half : (n half : ℕ) → n + half < 2 ^ 63 → add (pos n) (pos half) ≡ pos (n + half)
add_half n half h = add_fits n (pos half) (omega arith) h

sub_half : (n half : ℕ) → suc n + half < 2 ^ 63 → sub (negsuc n) (pos half) ≡ negsuc (n + half)
unfolding sub wrap residue signed ◌-ℤ◌
sub_half n half h = ground arith

div_small : (a b : ℕ) → a < b → a / b ≡ 0
div_small a b h = grind arith

-- Away from the ends of the range each part is divided on its own.
pub round_div_parts :
    (n : ℤ) (half whole : ℕ)
    → pos_part n + half < 2 ^ 63
    → neg_part n + half < 2 ^ 63
    → half < whole
    → (pos_part (round_div n half whole) ≡ (pos_part n + half) / whole)
      × (neg_part (round_div n half whole) ≡ (neg_part n + half) / whole)
unfolding round_div
round_div_parts (pos n) half whole hp hn hw =
    ground (arith, add_half n half, div_small half whole, div_small 0 whole)
round_div_parts (negsuc n) half whole hp hn hw =
    ground (arith, sub_half n half, div_small half whole, div_small 0 whole)

-- The product with a number, while it is in range.
pub mul_parts :
    (a : ℤ) (k : ℕ)
    → pos_part a * k < 2 ^ 63
    → neg_part a * k < 2 ^ 63
    → (pos_part (mul a (pos k)) ≡ pos_part a * k) × (neg_part (mul a (pos k)) ≡ neg_part a * k)
unfolding mul wrap residue signed ◌*ℤ◌
mul_parts (pos n) k hp hn = ground arith
mul_parts (negsuc n) k hp hn = ground arith

div-le : (n k : ℕ) → n / k ≤ n
div-le n k = grind arith

-- The quotient of a value in range is in range.
pub quot-IsInt64 : (a : ℤ) (k : ℕ) → IsInt64 a → IsInt64 (quot a k)
unfolding quot
quot-IsInt64 (pos n) k h = let e : n / k ≤ n = div-le n k in ground (arith, e)
quot-IsInt64 (negsuc n) k h = let e : suc n / k ≤ suc n = div-le (suc n) k in ground (arith, e)

pub round_div-IsInt64 : (n : ℤ) (half whole : ℕ) → IsInt64 (round_div n half whole)
unfolding round_div
round_div-IsInt64 n half whole = ground (
  arith,
  quot-IsInt64 (add n (pos half)) whole (add-IsInt64 n (pos half)),
  quot-IsInt64 (sub n (pos half)) whole (sub-IsInt64 n (pos half)),
)
