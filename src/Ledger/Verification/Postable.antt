-- ===== src/Ledger/Verification/Postable.antt =====
-- Validate (internal/ledger/ledger.go) accepts exactly the verifikat that can be posted.
use pare.Common.{ℕ, ◌+◌, ◌≤◌, ◌<◌, ◌^◌, ◌≡◌, ◌≢◌, ◌⊎◌, ◌↔◌, none, List, [], ◌∷◌, length, All, arith}
use pare.Common.Int.{pos, pos_part}
use pare.Common.Int64.{IsInt64, add_fits, add_overflows}
use pare.Ledger.Verification.{Line, Verification, validate_from, validate_lines, validate}

-- A line of an account with an amount on exactly one side.
abbrev pub IsOneSided : Line → Type 0
IsOneSided l =
    (l.account ≢ [])
    × ((l.debit ≡ pos 0) × (0 < pos_part l.credit) ⊎ (l.credit ≡ pos 0) × (0 < pos_part l.debit))

-- The sums of the sides, which do not wrap.
abbrev pub debit_sum : List Line → ℕ
debit_sum [] = 0
debit_sum (l ∷ ls) = pos_part l.debit + debit_sum ls

abbrev pub credit_sum : List Line → ℕ
credit_sum [] = 0
credit_sum (l ∷ ls) = pos_part l.credit + credit_sum ls

abbrev pub HasInt64 : Line → Type 0
HasInt64 l = IsInt64 l.debit × IsInt64 l.credit

-- What a posted verifikat must be: two lines or more, each on one side, and equal sums in range.
abbrev pub IsPostable : List Line → Type 0
IsPostable ls =
    (2 ≤ length ls) × All IsOneSided ls × (debit_sum ls ≡ credit_sum ls) × (debit_sum ls < 2 ^ 63)

validate_from_complete :
    (d c : ℕ) (ls : List Line)
    → All IsOneSided ls
    → d + debit_sum ls ≡ c + credit_sum ls
    → d + debit_sum ls < 2 ^ 63
    → validate_from (pos d) (pos c) ls ≡ none
unfolding validate_from
validate_from_complete d c [] hs e b = ground arith
validate_from_complete d c (l ∷ ls) hs e b = ground (
  arith,
  add_fits d l.debit,
  add_fits c l.credit,
  validate_from_complete (d + pos_part l.debit) (c + pos_part l.credit) ls hs.1,
)

validate_from_sound :
    (d c : ℕ) (ls : List Line)
    → d < 2 ^ 63
    → c < 2 ^ 63
    → All HasInt64 ls
    → validate_from (pos d) (pos c) ls ≡ none
    → All IsOneSided ls × (d + debit_sum ls ≡ c + credit_sum ls) × (d + debit_sum ls < 2 ^ 63)
unfolding validate_from
validate_from_sound d c [] hd hc hs e = ground arith
validate_from_sound d c (l ∷ ls) hd hc hs e = ground (
  arith,
  add_fits d l.debit,
  add_fits c l.credit,
  add_overflows d l.debit,
  add_overflows c l.credit,
  validate_from_sound (d + pos_part l.debit) (c + pos_part l.credit) ls,
)

pub validate_lines_iff :
    (ls : List Line) → All HasInt64 ls → (validate_lines ls ≡ none) ↔ IsPostable ls
unfolding validate_lines
validate_lines_iff [] h = ground arith
validate_lines_iff (l ∷ []) h = ground arith
validate_lines_iff (l ∷ k ∷ ls) h =
    let all = l ∷ k ∷ ls in
    (
      (λ e.
          let (lines, sums, bound) = validate_from_sound 0 0 all (omega arith) (omega arith) h e in
          (omega arith, lines, omega arith, omega arith)),
      (λ p. validate_from_complete 0 0 all p.1 (omega arith) (omega arith)),
    )

-- On amounts of the type int64, Validate returns nil exactly for a postable verifikat: at least two
-- lines, each with an account and a positive amount on exactly one side, whose sides add up,
-- without wrapping, to equal sums that an int64 holds.
pub validate_iff :
    (v : Verification) → All HasInt64 v.lines → (validate v ≡ none) ↔ IsPostable v.lines
unfolding validate
validate_iff v h = validate_lines_iff v.lines h
