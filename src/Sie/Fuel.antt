-- ===== src/Sie/Fuel.antt =====
-- The fuel of tokenize (internal/sie/sie.go) is enough.
use pare.Common.{
  ℕ, zero, suc, ◌-◌, ◌≤◌, length, Text, ◌≡◌, refl, ◌∙◌, ◌≢◌, Option-cases, none, inl, inr, Option,
  some, false, List, [], ◌∷◌, arith,
}
use pare.Sie.{read_quoted, read_braced, read_bare, is_blank, push, tokens, tokenize}

read_quoted_shorter : (s : Text) → length (read_quoted s).1 ≤ length s
unfolding read_quoted
read_quoted_shorter [] = omega arith
read_quoted_shorter (c ∷ []) = ground arith
read_quoted_shorter (c ∷ d ∷ s) = ground (arith, read_quoted_shorter s, read_quoted_shorter (d ∷ s))

read_braced_shorter : (depth : ℕ) (s : Text) → length (read_braced depth s).1 ≤ length s
unfolding read_braced
read_braced_shorter depth [] = omega arith
read_braced_shorter depth (c ∷ s) = ground (
  arith,
  read_braced_shorter depth s,
  read_braced_shorter (suc depth) s,
  read_braced_shorter (depth - 1) s,
)

read_bare_shorter : (s : Text) → length (read_bare s).1 ≤ length s
unfolding read_bare
read_bare_shorter [] = omega arith
read_bare_shorter (c ∷ s) = ground (arith, read_bare_shorter s)

-- What follows a field that starts with an opening brace, or with another byte that is not blank.
after_brace : (s : Text) → length (read_braced 0 (b'{' ∷ s)).1 ≤ length s
unfolding read_braced
after_brace s = read_braced_shorter 1 s

after_bare : (c : ℕ) (s : Text) → is_blank c ≡ false → length (read_bare (c ∷ s)).1 ≤ length s
unfolding read_bare
after_bare c s h = ground (arith, read_bare_shorter s)

push-none : (t : Text) (o : Option (List Text)) → push t o ≡ none → o ≡ none
push-none t none e = refl
push-none t (some ts) e = absurd (cc)

-- A fuel that is not below the length of the line does not run out.
tokens-ne-none : (f : ℕ) (s : Text) → length s ≤ f → tokens f s ≢ none
unfolding tokens
tokens-ne-none zero [] h e = absurd (cc)
tokens-ne-none zero (c ∷ s) h e = absurd (omega arith)
tokens-ne-none (suc f) [] h e = absurd (cc)
tokens-ne-none (suc f) (c ∷ s) h e = ground (
  arith,
  tokens-ne-none f s,
  tokens-ne-none f (read_quoted s).1,
  tokens-ne-none f (read_braced 0 (c ∷ s)).1,
  tokens-ne-none f (read_bare (c ∷ s)).1,
  push-none (read_quoted s).0 (tokens f (read_quoted s).1),
  push-none (read_braced 0 (c ∷ s)).0 (tokens f (read_braced 0 (c ∷ s)).1),
  push-none (read_bare (c ∷ s)).0 (tokens f (read_bare (c ∷ s)).1),
  read_quoted_shorter s,
  after_brace s,
  after_bare c s,
)

-- The fields are the same for every fuel that is not below the length of the line.
tokens_of_fuel : (f g : ℕ) (s : Text) → length s ≤ f → length s ≤ g → tokens f s ≡ tokens g s
unfolding tokens
tokens_of_fuel zero zero s h k = refl
tokens_of_fuel zero (suc g) [] h k = refl
tokens_of_fuel zero (suc g) (c ∷ s) h k = absurd (omega arith)
tokens_of_fuel (suc f) zero [] h k = refl
tokens_of_fuel (suc f) zero (c ∷ s) h k = absurd (omega arith)
tokens_of_fuel (suc f) (suc g) [] h k = refl
tokens_of_fuel (suc f) (suc g) (c ∷ s) h k = ground (
  arith,
  tokens_of_fuel f g s,
  tokens_of_fuel f g (read_quoted s).1,
  tokens_of_fuel f g (read_braced 0 (c ∷ s)).1,
  tokens_of_fuel f g (read_bare (c ∷ s)).1,
  read_quoted_shorter s,
  after_brace s,
  after_bare c s,
)

-- The loop of tokenize ends: on every line tokenize gives its fields, within as many rounds as the
-- line has bytes, and more rounds give no others.
pub tokenize_ends :
    (s : Text) (f : ℕ)
    → length s ≤ f
    → (ts : List Text) × (tokenize s ≡ some ts) × (tokens f s ≡ some ts)
unfolding tokenize
tokenize_ends s f h = elim (Option-cases (tokens (length s) s)) [
  | inl e ↦ absurd (tokens-ne-none (length s) s (omega arith) e)
  | inr (ts, e) ↦ (ts, e, tokens_of_fuel f (length s) s h (omega arith) ∙ e)
]
