-- ===== src/Moms/Rounding.antt =====
-- VAT (internal/moms/moms.go) rounds to the nearest öre.
use pare.Common.{ℕ, ◌+◌, ◌*◌, ◌/◌, ◌≤◌, ◌<◌, ◌^◌, ◌≡◌, arith}
use pare.Common.Int.{ℤ, pos, pos_part, neg_part, quot}
use pare.Common.Int64.{IsInt64, mul, add-IsInt64, sub-IsInt64}
use pare.Common.Rounding.{round_div, round_div_parts, mul_parts}
use pare.Moms.{vat}

-- The exact product leaves room for the rounding.
abbrev pub FitsRate : ℤ → ℕ → Type 0
FitsRate net r = (pos_part net * r + 50 < 2 ^ 63) × (neg_part net * r + 50 < 2 ^ 63)

-- The parts of the VAT at a rate of `r` percent.
pub vat_parts :
    (net : ℤ) (r : ℕ)
    → FitsRate net r
    → (pos_part (vat net (pos r)) ≡ (pos_part net * r + 50) / 100)
      × (neg_part (vat net (pos r)) ≡ (neg_part net * r + 50) / 100)
unfolding vat
vat_parts net r h =
    let (p, n) = mul_parts net r (omega arith) (omega arith) in
    omega (arith, round_div_parts (mul net (pos r)) 50 100)

-- While the product is in range, a hundred times the VAT lies within 50 of the net times the rate;
-- at a tie it is the value that is further from zero.
pub vat_nearest :
    (net : ℤ) (r : ℕ)
    → FitsRate net r
    → (pos_part (vat net (pos r)) * 100 ≤ pos_part net * r + 50)
      × (pos_part net * r < pos_part (vat net (pos r)) * 100 + 50)
      × (neg_part (vat net (pos r)) * 100 ≤ neg_part net * r + 50)
      × (neg_part net * r < neg_part (vat net (pos r)) * 100 + 50)
vat_nearest net r h = omega (arith, vat_parts net r h)

pub vat-IsInt64 : (net r : ℤ) → IsInt64 (vat net r)
unfolding vat round_div quot
vat-IsInt64 net r =
    ground (arith, add-IsInt64 (mul net r) (pos 50), sub-IsInt64 (mul net r) (pos 50))
