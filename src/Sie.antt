-- ===== src/Sie.antt =====
-- internal/sie/sie.go: the amounts, texts and fields of a SIE file.
pub mod RoundTrip
pub mod Amounts
pub mod Fuel
mod Examples
use pare.Common.{
  ℕ, zero, suc, ◌+◌, ◌-◌, length, Text, is_empty, has_prefix, bytes, ◌==◌, ◌||◌, ◌&&◌, not, Bool,
  true, false, ltb, leb, Option, none, some, List, [], ◌∷◌, ◌++◌, if◌then◌else◌,
}
use pare.Common.Int.{ℤ, pos, quot, eqb_ℤ, ◌-ℤ◌, ◌*ℤ◌}
use pare.Common.Int64.{add, mul, neg}
use pare.Common.Decimal.{fmt_d, fmt_02d, parse_int}
use pare.Ledger.Money.{is_neg}

pub record Line : Type 0 where
  pub account : Text
  pub amount : ℤ
  pub text : Text

pub record Voucher : Type 0 where
  pub series : Text
  pub number : ℤ
  pub date : ℕ
  pub text : Text
  pub lines : List Line

-- The sum that Balances forms of one voucher.
unfoldable pub sum_from : ℤ → List Line → ℤ
unfolding add
sum_from sum [] = sum
sum_from sum (l ∷ ls) = sum_from (add sum l.amount) ls

-- Export.Balances over the vouchers: the first that does not balance, with its sum, or nil.
unfoldable pub unbalanced : List Voucher → Option (Voucher × ℤ)
unfolding sum_from
unbalanced [] = none
unbalanced (v ∷ vs) =
    if not (eqb_ℤ (sum_from (pos 0) v.lines) (pos 0))
    then some (v, sum_from (pos 0) v.lines)
    else unbalanced vs

-- ore%100, with the sign of ore.
unfoldable pub rem_100 : ℤ → ℤ
unfolding quot ◌-ℤ◌ ◌*ℤ◌
rem_100 v = v -ℤ quot v 100 *ℤ pos 100

unfoldable pub render : Text → ℤ → Text
unfolding quot rem_100 fmt_d fmt_02d
render sign ore = sign ++ (fmt_d (quot ore 100) ++ (b'.' ∷ fmt_02d (rem_100 ore)))

-- amount
unfoldable pub amount : ℤ → Text
unfolding neg render
amount ore = if is_neg ore then render (b'-' ∷ []) (neg ore) else render [] ore

-- strings.TrimPrefix of one byte
abbrev pub trim_prefix : ℕ → Text → Text
trim_prefix p [] = []
trim_prefix p (c ∷ s) = if c == p then s else c ∷ s

-- strings.Cut at a point: what stands before it, and after it.
unfoldable pub cut : Text → Text × Text
cut [] = ([], [])
cut (c ∷ s) = let (whole, frac) = cut s in if c == b'.' then ([], s) else (c ∷ whole, frac)

-- `(frac + "00")[:2]`, unless `frac` is empty
abbrev pub two_digits : Text → Text
two_digits [] = []
two_digits (a ∷ []) = a ∷ b'0' ∷ []
two_digits (a ∷ b ∷ s) = a ∷ b ∷ []

-- The value of what follows the sign.
unfoldable pub parse_unsigned : Text → ℤ
unfolding cut parse_int mul add
parse_unsigned s =
    let (whole, frac) = cut s in
    let ore = if is_empty frac then pos 0 else parse_int (two_digits frac) in
    add (mul (parse_int whole) (pos 100)) ore

-- parseAmount
unfoldable pub parse_amount : Text → ℤ
unfolding parse_unsigned neg
parse_amount s =
    let v = parse_unsigned (trim_prefix b'+' (trim_prefix b'-' s)) in
    if has_prefix s (b'-' ∷ []) then neg v else v

-- A control character of ASCII.
abbrev pub is_control : ℕ → Bool
is_control c = ltb c 32 || c == 127

abbrev is_in : ℕ → ℕ → ℕ → Bool
is_in low high c = leb low c && leb c high

-- The next bytes continue a sequence, the first of them between two bounds.
unfoldable continues : ℕ → ℕ → ℕ → Text → Bool
continues zero low high s = true
continues (suc n) low high [] = false
continues (suc n) low high (c ∷ s) = is_in low high c && continues n 128 191 s

abbrev continued : ℕ → ℕ → ℕ → Text → Option ℕ
continued n low high s = elim (continues n low high s) [ true ↦ some n | false ↦ none ]

-- utf8.DecodeRune: how many bytes of a sequence follow its first one; nothing if there is none.
unfoldable pub follow : ℕ → Text → Option ℕ
unfolding continues
follow c s =
    if ltb c 128
    then some 0
    else if is_in 194 223 c
    then continued 1 128 191 s
    else if c == 224
    then continued 2 160 191 s
    else if c == 237
    then continued 2 128 159 s
    else if is_in 225 239 c
    then continued 2 128 191 s
    else if c == 240
    then continued 3 144 191 s
    else if is_in 241 243 c
    then continued 3 128 191 s
    else if c == 244
    then continued 3 128 143 s
    else none

-- What strings.Map does to bytes that are no UTF-8: each becomes U+FFFD. `n` bytes of a sequence are
-- still to come.
unfoldable pub valid_from : ℕ → Text → Text
valid_from zero [] = []
valid_from (suc n) [] = []
valid_from (suc n) (c ∷ s) = c ∷ valid_from n s
valid_from zero (c ∷ s) = elim (follow c s) [
  | none ↦ 239 ∷ 191 ∷ 189 ∷ valid_from zero s
  | some n ↦ c ∷ valid_from n s
]

abbrev pub to_valid : Text → Text
to_valid s = valid_from 0 s

-- The bytes between the quotation marks: control characters become spaces, and quotation marks are
-- escaped. The bytes of longer sequences are above 127 and stay.
unfoldable pub quoted : Text → Text
quoted [] = []
quoted (c ∷ s) =
    if is_control c
    then b' ' ∷ quoted s
    else if c == b'"'
    then b'\\' ∷ b'"' ∷ quoted s
    else c ∷ quoted s

-- quote
unfoldable pub quote : Text → Text
unfolding quoted valid_from
quote s = b'"' ∷ quoted (to_valid s) ++ b'"' ∷ []

-- verSeries
unfoldable pub ver_series : Text → Text
ver_series s = if is_empty s then bytes "\"\"" else s

-- tokenize's loop over a quoted field after its opening mark: the field, and what follows it.
unfoldable pub read_quoted : Text → Text × Text
read_quoted [] = ([], [])
read_quoted (c ∷ []) = if c == b'"' then ([], []) else (c ∷ [], [])
read_quoted (c ∷ d ∷ s) =
    let escaped = read_quoted s in
    let next = read_quoted (d ∷ s) in
    if (c == b'\\') && (d == b'"')
    then (b'"' ∷ escaped.0, escaped.1)
    else if c == b'"'
    then ([], d ∷ s)
    else (c ∷ next.0, next.1)

-- The loop over an object list, at nesting `depth`: its bytes, and what follows.
unfoldable pub read_braced : ℕ → Text → Text × Text
read_braced depth [] = ([], [])
read_braced depth (c ∷ s) =
    let deeper = read_braced (suc depth) s in
    let same = read_braced depth s in
    let shallower = read_braced (depth - 1) s in
    if c == b'{'
    then (c ∷ deeper.0, deeper.1)
    else if c == b'}'
    then (if depth == 1 then (c ∷ [], s) else (c ∷ shallower.0, shallower.1))
    else (c ∷ same.0, same.1)

-- A space or a tab.
abbrev pub is_blank : ℕ → Bool
is_blank c = c == b' ' || c == b'\t'

-- The loop over a bare field.
unfoldable pub read_bare : Text → Text × Text
read_bare [] = ([], [])
read_bare (c ∷ s) =
    let rest = read_bare s in if is_blank c then ([], c ∷ s) else (c ∷ rest.0, rest.1)

abbrev pub push : Text → Option (List Text) → Option (List Text)
push t none = none
push t (some ts) = some (t ∷ ts)

-- The outer loop, with fuel for its rounds; nothing if the fuel runs out before the line ends.
unfoldable pub tokens : ℕ → Text → Option (List Text)
unfolding read_quoted read_braced read_bare
tokens zero [] = some []
tokens zero (c ∷ s) = none
tokens (suc f) [] = some []
tokens (suc f) (c ∷ s) =
    let skipped = tokens f s in
    let after_quoted = tokens f (read_quoted s).1 in
    let after_braced = tokens f (read_braced 0 (c ∷ s)).1 in
    let after_bare = tokens f (read_bare (c ∷ s)).1 in
    if is_blank c
    then skipped
    else if c == b'"'
    then push (read_quoted s).0 after_quoted
    else if c == b'{'
    then push (read_braced 0 (c ∷ s)).0 after_braced
    else push (read_bare (c ∷ s)).0 after_bare

-- tokenize, with the length of the line as its fuel.
unfoldable pub tokenize : Text → Option (List Text)
unfolding tokens
tokenize line = tokens (length line) line
