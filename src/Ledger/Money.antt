-- ===== src/Ledger/Money.antt =====
-- internal/ledger/money.go: amounts in öre, an int64.
use pare.Common.{◌++◌, [], ◌∷◌, Text, Bool, if◌then◌else◌}
use pare.Common.Int.{ℤ, pos, ltb_ℤ, quot, ◌-ℤ◌, ◌*ℤ◌}
use pare.Common.Int64.{add, mul, neg}
use pare.Common.Decimal.{fmt_d, fmt_02d}

-- type Amount int64
abbrev pub Amount : Type 0
Amount = ℤ

unfoldable pub sek : ℤ → ℤ → Amount
unfolding add mul
sek kronor ore = add (mul kronor (pos 100)) ore

-- v % 100, with the sign of v as in Go.
abbrev rem_100 : ℤ → ℤ
rem_100 v = v -ℤ quot v 100 *ℤ pos 100

-- The rendering of `v` behind `sign`.
abbrev render : Text → ℤ → Text
render sign v = sign ++ (fmt_d (quot v 100) ++ (b',' ∷ fmt_02d (rem_100 v)))

-- Amount.String
unfoldable pub amount_string : Amount → Text
unfolding neg quot ◌-ℤ◌ ◌*ℤ◌ fmt_d fmt_02d
amount_string a = if ltb_ℤ a (pos 0) then render (b'-' ∷ []) (neg a) else render [] a

-- `a > 0`
abbrev pub is_pos : Amount → Bool
is_pos a = ltb_ℤ (pos 0) a

-- `a < 0`
abbrev pub is_neg : Amount → Bool
is_neg a = ltb_ℤ a (pos 0)
