-- ===== src/Invoice/Rounding.antt =====
-- Line.Net and convertToSEK (internal/invoice/invoice.go) round to the nearest öre.
use pare.Common.{ℕ, ◌+◌, ◌*◌, ◌≤◌, ◌<◌, ◌^◌, ◌≡◌, arith}
use pare.Common.Int.{ℤ, pos, pos_part, neg_part, eq_of_parts}
use pare.Common.Int64.{mul}
use pare.Common.Rounding.{round_div, round_div_parts, mul_parts}
use pare.Invoice.{Line, line_net, convert_to_sek}

-- A price times a quantity that is not negative, while the product is in range: a thousand times
-- the net lies within 500 of it, at a tie further from zero, and the sign is that of the price.
pub line_net_nearest :
    (l : Line) (q : ℕ)
    → l.quantity_milli ≡ pos q
    → pos_part l.unit_price_ore * q + 500 < 2 ^ 63
    → neg_part l.unit_price_ore * q + 500 < 2 ^ 63
    → (pos_part (line_net l) * 1000 ≤ pos_part l.unit_price_ore * q + 500)
      × (pos_part l.unit_price_ore * q < pos_part (line_net l) * 1000 + 500)
      × (neg_part (line_net l) * 1000 ≤ neg_part l.unit_price_ore * q + 500)
      × (neg_part l.unit_price_ore * q < neg_part (line_net l) * 1000 + 500)
unfolding line_net
line_net_nearest l q e p n =
    let parts = mul_parts l.unit_price_ore q (omega arith) (omega arith) in
    rw e (omega (arith, parts, round_div_parts (mul l.unit_price_ore (pos q)) 500 1000))

convert_million :
    (x : ℤ)
    → pos_part x * 1000000 + 500000 < 2 ^ 63
    → neg_part x * 1000000 + 500000 < 2 ^ 63
    → round_div (mul x (pos 1000000)) 500000 1000000 ≡ x
convert_million x p n =
    let parts = mul_parts x 1000000 (omega arith) (omega arith) in
    eq_of_parts (round_div (mul x (pos 1000000)) 500000 1000000) x
      (omega (arith, parts, round_div_parts (mul x (pos 1000000)) 500000 1000000))

-- At the identity rate, given as 1 000 000 or as 0, an amount is its own value in SEK, while a million
-- times the amount leaves room in an int64 for the rounding.
pub convert_to_sek_identity :
    (x : ℤ)
    → pos_part x * 1000000 + 500000 < 2 ^ 63
    → neg_part x * 1000000 + 500000 < 2 ^ 63
    → (convert_to_sek x (pos 1000000) ≡ x) × (convert_to_sek x (pos 0) ≡ x)
unfolding convert_to_sek
convert_to_sek_identity x p n = let e = convert_million x p n in (e, e)
