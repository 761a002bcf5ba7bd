-- ===== src/Bank/Amounts.antt =====
-- internal/bank/bank.go: how an amount is read, in the notation of ISO 20022 and in the Swedish one.
--
-- A rune that is not of ASCII has bytes from 128 on only, so trimming by runes is trimming by bytes.
pub mod Exact
use pare.Common.{
  ℕ, zero, suc, ◌+◌, ◌-◌, ◌==◌, ltb, Text, bytes, Bool, true, false, not, ◌&&◌, ◌||◌, Option, none,
  some, List, [], ◌∷◌, ◌++◌, length, is_empty, has_prefix, if◌then◌else◌,
}
use pare.Common.Int.{ℤ, pos, ltb_ℤ}
use pare.Common.Int64.{add, mul, neg}
use pare.Common.Decimal.{is_digit, all_digits}

-- isAmountRune and isSignRune
abbrev pub is_amount_byte : ℕ → Bool
is_amount_byte c = is_digit c || c == b'.' || c == b','

abbrev pub is_sign_byte : ℕ → Bool
is_sign_byte c = c == b'-' || c == b'+' || c == b'(' || c == b')'

-- strings.Split by one byte.
unfoldable pub split : ℕ → Text → List Text
split sep [] = [] ∷ []
split sep (c ∷ s) =
    let rest = split sep s in
    if c == sep then [] ∷ rest else elim rest [ [] ↦ (c ∷ []) ∷ [] | p ∷ ps ↦ (c ∷ p) ∷ ps ]

abbrev starts_with_zero : Text → Bool
starts_with_zero [] = false
starts_with_zero (c ∷ s) = c == b'0'

unfoldable pub all_groups : List Text → Bool
unfolding all_digits
all_groups [] = true
all_groups (p ∷ ps) = length p == 3 && all_digits p && all_groups ps

abbrev is_first_group : Text → Bool
is_first_group p =
    not (is_empty p) && not (ltb 3 (length p)) && all_digits p && not (starts_with_zero p)

abbrev grouped_parts : List Text → Bool
grouped_parts [] = false
grouped_parts (p ∷ []) = false
grouped_parts (p ∷ q ∷ ps) = is_first_group p && all_groups (q ∷ ps)

-- isGrouped
unfoldable pub is_grouped : Text → ℕ → Bool
unfolding split all_groups all_digits
is_grouped s sep = grouped_parts (split sep s)

-- The loop over the digits of the whole part; no value is an amount that is refused.
unfoldable pub whole_from : ℤ → Text → Option ℤ
unfolding mul add
whole_from ore [] = some ore
whole_from ore (c ∷ s) =
    let next = add (mul ore (pos 10)) (pos (c - b'0')) in
    if ltb_ℤ (pos 922337203685477579) ore then none else whole_from next s

-- `(frac + "00")[:2]`
abbrev pub two_digits : Text → ℕ × ℕ
two_digits [] = (b'0', b'0')
two_digits (a ∷ []) = (a, b'0')
two_digits (a ∷ b ∷ s) = (a, b)

abbrev with_fraction : ℤ → ℕ × ℕ → Bool → Option ℤ
with_fraction ore (a, b) negative =
    let total = add (add (mul ore (pos 100)) (mul (pos (a - b'0')) (pos 10))) (pos (b - b'0')) in
    if ltb_ℤ (pos 92233720368547757) ore then none else some (if negative then neg total else total)

abbrev of_whole : Option ℤ → Text → Bool → Option ℤ
of_whole none frac negative = none
of_whole (some ore) frac negative = with_fraction ore (two_digits frac) negative

-- oreFromParts
unfoldable pub ore_from_parts : Text → Text → Bool → Option ℤ
unfolding all_digits whole_from mul add neg
ore_from_parts whole frac negative =
    if is_empty whole || not (all_digits whole) || not (all_digits frac)
    then none
    else of_whole (whole_from (pos 0) whole) frac negative

abbrev is_kept : ℕ → Bool
is_kept c = is_amount_byte c || is_sign_byte c

-- strings.TrimFunc from the left, and from the right.
unfoldable pub trim_left : Text → Text
trim_left [] = []
trim_left (c ∷ s) = let rest = trim_left s in if is_kept c then c ∷ s else rest

unfoldable pub trim_right : Text → Text
trim_right [] = []
trim_right (c ∷ s) =
    let rest = trim_right s in if is_empty rest && not (is_kept c) then [] else c ∷ rest

abbrev pub last_is : ℕ → Text → Bool
last_is b [] = false
last_is b (c ∷ []) = c == b
last_is b (c ∷ d ∷ s) = last_is b (d ∷ s)

abbrev pub without_last : Text → Text
without_last [] = []
without_last (c ∷ []) = []
without_last (c ∷ d ∷ s) = c ∷ without_last (d ∷ s)

abbrev without_first : Text → Text
without_first [] = []
without_first (c ∷ s) = s

unfoldable pub all_amount : Text → Bool
all_amount [] = true
all_amount (c ∷ s) = is_amount_byte c && all_amount s

abbrev first_is_digit : Text → Bool
first_is_digit [] = false
first_is_digit (c ∷ s) = is_digit c

abbrev last_is_digit : Text → Bool
last_is_digit [] = false
last_is_digit (c ∷ []) = is_digit c
last_is_digit (c ∷ d ∷ s) = last_is_digit (d ∷ s)

-- The three rules for signs: parentheses, a sign in front, a minus at the end.
abbrev parenthesised : Text → Text × Bool
parenthesised s =
    if has_prefix s (b'(' ∷ []) && last_is b')' s
    then (without_first (without_last s), true)
    else (s, false)

abbrev signed : Text × Bool → Text × Bool
signed (s, negative) =
    if has_prefix s (b'-' ∷ [])
    then (without_first s, true)
    else if has_prefix s (b'+' ∷ [])
    then (without_first s, negative)
    else (s, negative)

abbrev suffixed : Text × Bool → Text × Bool
suffixed (s, negative) = if last_is b'-' s then (without_last s, true) else (s, negative)

abbrev checked : Text × Bool → Option (Text × Bool)
checked (s, negative) =
    if is_empty s || not (all_amount s) || not (first_is_digit s && last_is_digit s)
    then none
    else some (s, negative)

unfoldable pub count : ℕ → Text → ℕ
count b [] = 0
count b (c ∷ s) = let rest = count b s in if c == b then suc rest else rest

-- strings.Cut at one byte, and strings.IndexAny with the two parts.
unfoldable pub cut : (ℕ → Bool) → Text → Text × Text
cut p [] = ([], [])
cut p (c ∷ s) = let (whole, frac) = cut p s in if p c then ([], s) else (c ∷ whole, frac)

-- strings.ReplaceAll of one byte by nothing.
unfoldable pub remove : ℕ → Text → Text
remove b [] = []
remove b (c ∷ s) = let rest = remove b s in if c == b then rest else c ∷ rest

-- `strings.LastIndex(tok, ".") > strings.LastIndex(tok, ",")`, where there are both.
unfoldable pub ends_with_dot : Text → Bool
unfolding count
ends_with_dot [] = false
ends_with_dot (c ∷ s) =
    let rest = ends_with_dot s in if c == b'.' && count b',' s == 0 then true else rest

-- The cases of parseAmountISO and parseAmountSwedish after normalizeAmount.
unfoldable pub iso_amount : Text × Bool → Option ℤ
unfolding count is_grouped cut ore_from_parts
iso_amount (tok, negative) =
    let (whole, frac) = cut (λ c. c == b'.' || c == b',') tok in
    if ltb 1 (count b'.' tok + count b',' tok)
    then none
    else if not (count b',' tok == 0) && is_grouped tok b','
    then none
    else ore_from_parts whole frac negative

abbrev both_separators : Text → Bool → ℕ → ℕ → Option ℤ
both_separators tok negative dec grp =
    let (whole, frac) = cut (λ c. c == dec) tok in
    if not (count dec tok == 1)
    then none
    else if not (is_grouped whole grp)
    then none
    else ore_from_parts (remove grp whole) frac negative

abbrev one_comma : Text → Bool → Option ℤ
one_comma tok negative =
    let (whole, frac) = cut (λ c. c == b',') tok in
    if is_grouped tok b',' then none else ore_from_parts whole frac negative

abbrev one_dot : Text → Bool → Option ℤ
one_dot tok negative =
    let (whole, frac) = cut (λ c. c == b'.') tok in
    if is_grouped tok b'.'
    then ore_from_parts (remove b'.' tok) [] negative
    else ore_from_parts whole frac negative

abbrev only_groups : Text → Bool → ℕ → Option ℤ
only_groups tok negative sep =
    if not (is_grouped tok sep) then none else ore_from_parts (remove sep tok) [] negative

unfoldable pub swedish_amount : Text × Bool → Option ℤ
unfolding count is_grouped cut remove ends_with_dot ore_from_parts
swedish_amount (tok, negative) =
    let dots = count b'.' tok in
    let commas = count b',' tok in
    if dots == 0 && commas == 0
    then ore_from_parts tok [] negative
    else if ltb 0 dots && ltb 0 commas
    then (if ends_with_dot tok
        then both_separators tok negative b'.' b','
        else both_separators tok negative b',' b'.')
    else if commas == 1
    then one_comma tok negative
    else if dots == 1
    then one_dot tok negative
    else if ltb 1 commas
    then only_groups tok negative b','
    else only_groups tok negative b'.'

-- `spaceless` drops the runes that unicode.IsSpace knows.
module _ (spaceless : Text → Text) where
  -- normalizeAmount
  unfoldable pub normalize_amount : Text → Option (Text × Bool)
  unfolding trim_left trim_right all_amount
  normalize_amount s =
      checked (suffixed (signed (parenthesised (trim_right (trim_left (spaceless s))))))

  unfoldable pub parse_amount_iso : Text → Option ℤ
  unfolding normalize_amount iso_amount
  parse_amount_iso s = elim (normalize_amount s) [ none ↦ none | some t ↦ iso_amount t ]

  unfoldable pub parse_amount_swedish : Text → Option ℤ
  unfolding normalize_amount swedish_amount
  parse_amount_swedish s = elim (normalize_amount s) [ none ↦ none | some t ↦ swedish_amount t ]
