-- ===== src/Sie/RoundTrip.antt =====
-- What is written to a SIE file (internal/sie/sie.go) is read back.
use pare.Common.{
  ℕ, zero, suc, length, Text, ◌==◌, ◌≡◌, refl, ap, sym, Bool, false, [], ◌∷◌, ◌++◌, if◌then◌else◌,
  arith, ◌⊎◌, inl, inr, Bool-cases, Option-cases, none, some, true, is_empty, ◌∙◌,
}
use pare.Sie.{
  is_control, follow, valid_from, to_valid, quoted, quote, read_quoted, push, tokens, tokenize,
}

-- A text as it is kept: each control character is a space.
abbrev pub cleaned : Text → Text
cleaned [] = []
cleaned (c ∷ s) = (if is_control c then b' ' else c) ∷ cleaned s

abbrev pub ends_in_backslash : Text → Bool
ends_in_backslash [] = false
ends_in_backslash (c ∷ []) = c == b'\\'
ends_in_backslash (c ∷ d ∷ s) = ends_in_backslash (d ∷ s)

-- A byte that starts no escape and is no mark is read as it is.
read_quoted_plain :
    (c : ℕ) (d : ℕ) (t : Text)
    → (c == b'"') ≡ false
    → ((c == b'\\') ≡ false) ⊎ ((d == b'"') ≡ false)
    → read_quoted (c ∷ d ∷ t) ≡ (c ∷ (read_quoted (d ∷ t)).0, (read_quoted (d ∷ t)).1)
unfolding read_quoted
read_quoted_plain c d t h k = ground arith

abbrev closed : Text → Text → Text
closed s rest = quoted s ++ b'"' ∷ rest

read_quoted_end : (rest : Text) → read_quoted (b'"' ∷ rest) ≡ ([], rest)
unfolding read_quoted
read_quoted_end [] = refl
read_quoted_end (r ∷ rest) = refl

read_quoted_mark :
    (t : Text) → read_quoted (b'\\' ∷ b'"' ∷ t) ≡ (b'"' ∷ (read_quoted t).0, (read_quoted t).1)
unfolding read_quoted
read_quoted_mark t = refl

-- A text that goes on starts with no mark once it is quoted.
closed_head :
    (d : ℕ) (s rest : Text)
    → (e : ℕ) × (u : Text) × (closed (d ∷ s) rest ≡ e ∷ u) × ((e == b'"') ≡ false)
unfolding quoted
closed_head d s rest = elim (Bool-cases (is_control d)) [
  | inl k ↦ (b' ', closed s rest, ground arith, refl)
  | inr k ↦ elim (Bool-cases (d == b'"')) [
    | inl m ↦ (b'\\', b'"' ∷ closed s rest, ground arith, refl)
    | inr m ↦ (d, closed s rest, ground arith, m)
  ]
]

-- One byte in front of a quoted text.
read_quoted_step :
    (c : ℕ) (s rest : Text) (e : ℕ) (u : Text)
    → closed s rest ≡ e ∷ u
    → ((c == b'\\') ≡ false) ⊎ ((e == b'"') ≡ false)
    → read_quoted (closed s rest) ≡ (cleaned s, rest)
    → read_quoted (closed (c ∷ s) rest) ≡ (cleaned (c ∷ s), rest)
unfolding quoted
read_quoted_step c s rest e u eq k h = elim (Bool-cases (is_control c)) [
  | inl b ↦ ground (arith, read_quoted_plain b' ' e u)
  | inr b ↦ elim (Bool-cases (c == b'"')) [
    | inl m ↦ ground (arith, read_quoted_mark (closed s rest))
    | inr m ↦ ground (arith, read_quoted_plain c e u m k)
  ]
]

read_quoted-quoted :
    (s rest : Text) → ends_in_backslash s ≡ false → read_quoted (closed s rest) ≡ (cleaned s, rest)
unfolding quoted
read_quoted-quoted [] rest h = read_quoted_end rest
read_quoted-quoted (c ∷ []) rest h =
    read_quoted_step c [] rest b'"' rest refl (inl h) (read_quoted_end rest)
read_quoted-quoted (c ∷ d ∷ s) rest h =
    let (e, u, eq, m) = closed_head d s rest in
    read_quoted_step c (d ∷ s) rest e u eq (inr m) (read_quoted-quoted (d ∷ s) rest h)

tokens_nil : (f : ℕ) → tokens f [] ≡ some []
unfolding tokens
tokens_nil zero = refl
tokens_nil (suc f) = refl

-- The bytes are UTF-8.
unfoldable pub is_utf8_from : ℕ → Text → Bool
is_utf8_from zero [] = true
is_utf8_from (suc n) [] = true
is_utf8_from (suc n) (c ∷ s) = is_utf8_from n s
is_utf8_from zero (c ∷ s) = elim (follow c s) [ none ↦ false | some n ↦ is_utf8_from n s ]

abbrev pub is_utf8 : Text → Bool
is_utf8 s = is_utf8_from 0 s

module _ (c : ℕ) (s : Text) where
  valid_none : follow c s ≡ none → valid_from 0 (c ∷ s) ≡ 239 ∷ 191 ∷ 189 ∷ valid_from 0 s
  unfolding valid_from
  valid_none e = rw (valid_from, e) refl

  valid_some : (n : ℕ) → follow c s ≡ some n → valid_from 0 (c ∷ s) ≡ c ∷ valid_from n s
  unfolding valid_from
  valid_some n e = rw (valid_from, e) refl

  utf8_none : follow c s ≡ none → is_utf8_from 0 (c ∷ s) ≡ false
  unfolding is_utf8_from
  utf8_none e = rw (is_utf8_from, e) refl

  utf8_some : (n : ℕ) → follow c s ≡ some n → is_utf8_from 0 (c ∷ s) ≡ is_utf8_from n s
  unfolding is_utf8_from
  utf8_some n e = rw (is_utf8_from, e) refl

valid_of_is_utf8 : (n : ℕ) (s : Text) → is_utf8_from n s ≡ true → valid_from n s ≡ s
unfolding is_utf8_from valid_from
valid_of_is_utf8 zero [] h = refl
valid_of_is_utf8 (suc n) [] h = refl
valid_of_is_utf8 (suc n) (c ∷ s) h = ap (λ t. c ∷ t) (valid_of_is_utf8 n s h)
valid_of_is_utf8 zero (c ∷ s) h = elim (Option-cases (follow c s)) [
  | inl e ↦ absurd (cc (utf8_none c s e))
  | inr (n, e) ↦
      valid_some c s n e ∙ ap (λ t. c ∷ t) (valid_of_is_utf8 n s (sym (utf8_some c s n e) ∙ h))
]

-- The first byte of a sequence of more than one is above 127.
follow-none : (c : ℕ) (s : Text) → follow c s ≡ none → (c == b'\\') ≡ false
unfolding follow
follow-none c s h = ground arith

-- Making a text valid does not change whether it ends in a backslash.
ends_step :
    (c : ℕ) (s t : Text)
    → (is_empty t ≡ is_empty s)
    → ends_in_backslash t ≡ ends_in_backslash s
    → ends_in_backslash (c ∷ t) ≡ ends_in_backslash (c ∷ s)
ends_step c [] [] m e = refl
ends_step c [] (b ∷ t) m e = absurd (cc)
ends_step c (a ∷ s) [] m e = absurd (cc)
ends_step c (a ∷ s) (b ∷ t) m e = e

replaced :
    (c : ℕ) (s t : Text)
    → (is_empty t ≡ is_empty s)
    → ends_in_backslash t ≡ ends_in_backslash s
    → (c == b'\\') ≡ false
    → ends_in_backslash (239 ∷ 191 ∷ 189 ∷ t) ≡ ends_in_backslash (c ∷ s)
replaced c [] [] m e h = sym h
replaced c [] (b ∷ t) m e h = absurd (cc)
replaced c (a ∷ s) [] m e h = absurd (cc)
replaced c (a ∷ s) (b ∷ t) m e h = e

valid-ends :
    (n : ℕ) (s : Text)
    → (is_empty (valid_from n s) ≡ is_empty s)
      × (ends_in_backslash (valid_from n s) ≡ ends_in_backslash s)
unfolding valid_from
valid-ends zero [] = (refl, refl)
valid-ends (suc n) [] = (refl, refl)
valid-ends (suc n) (c ∷ s) =
    let (m, e) = valid-ends n s in (refl, ends_step c s (valid_from n s) m e)
valid-ends zero (c ∷ s) = elim (Option-cases (follow c s)) [
  | inl e ↦
      let (m, k) = valid-ends zero s in
      rw (valid_none c s e) (refl, replaced c s (valid_from 0 s) m k (follow-none c s e))
  | inr (n, e) ↦
      let (m, k) = valid-ends n s in
      rw (valid_some c s n e) (refl, ends_step c s (valid_from n s) m k)
]

-- A text that does not end in a backslash is read back from its quoted form as one field, with its
-- control characters turned into spaces, and each byte that is no UTF-8 into U+FFFD; a text of UTF-8 has
-- none of these.
pub tokenize-quote :
    (s : Text)
    → ends_in_backslash s ≡ false
    → (tokenize (quote s) ≡ some (cleaned (to_valid s) ∷ []))
      × ((to_valid s ≡ s) ⊎ (is_utf8 s ≡ false))
unfolding tokenize tokens quote
tokenize-quote s h = (
  rw (read_quoted-quoted (to_valid s) [] ((valid-ends 0 s).1 ∙ h))
      (ap (push (cleaned (to_valid s))) (tokens_nil (length (closed (to_valid s) [])))),
  elim (Bool-cases (is_utf8 s)) [ inl u ↦ inl (valid_of_is_utf8 0 s u) | inr u ↦ inr u ],
)
