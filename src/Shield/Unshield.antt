-- ===== src/Shield/Unshield.antt =====
-- internal/shield/session.go: UnshieldString, which puts the plaintext back for every marker.
--
-- The one regular expression, of shield.go, is written out: regexp is Go's. A match is the leftmost, and
-- each part of it ends at the first byte that cannot belong to it.
use mathlib.Core.List.{append_assoc}
use pare.Common.{
  ℕ, zero, suc, ◌≤◌, ◌≡◌, ◌≢◌, refl, ap, ◌∙◌, Text, bytes, is_empty, leb, Bool, true, false, ◌&&◌,
  ◌||◌, Option, none, some, [], ◌∷◌, ◌++◌, length, length-append, All, ◌==◌, if◌then◌else◌, arith,
}
use pare.Shield.{ShieldError, Answer, failed, done, Vault, Source, Session, marker, resolve}

-- [a-z] and [0-9a-f]
abbrev pub is_lower : ℕ → Bool
is_lower c = leb b'a' c && leb c b'z'

abbrev pub is_hex : ℕ → Bool
is_hex c = leb b'0' c && leb c b'9' || leb b'a' c && leb c b'f'

-- The longest run of bytes of a class, and what follows it.
unfoldable pub span : (ℕ → Bool) → Text → Text × Text
span p [] = ([], [])
span p (c ∷ s) = let (run, rest) = span p s in if p c then (c ∷ run, rest) else ([], c ∷ s)

abbrev pub strip : Text → Text → Option Text
strip [] s = some s
strip (a ∷ p) [] = none
strip (a ∷ p) (c ∷ s) = if a == c then strip p s else none

pub record Found : Type 0 where
  pub kind : Text
  pub token : Text
  pub rest : Text

abbrev closed : Text → Text × Text → Option Found
closed kind (h, r) = if is_empty h then none else elim (strip (bytes "]") r) [
  | none ↦ none
  | some rest ↦ some (record { kind = kind; token = bytes "tok_" ++ h; rest = rest })
]

abbrev named : Text × Text → Option Found
named (k, r) =
    if is_empty k
    then none
    else elim (strip (bytes ":tok_") r) [ none ↦ none | some r' ↦ closed k (span is_hex r') ]

-- markerRe at the start of a text.
unfoldable pub match_marker : Text → Option Found
unfolding span
match_marker s = elim (strip (bytes "[shield:") s) [
  | none ↦ none
  | some r ↦ named (span is_lower r)
]

abbrev or_first : Option ShieldError → Option ShieldError → Option ShieldError
or_first none e = e
or_first (some e) _ = some e

-- What stands in the place of a match, and the error.
abbrev put_back : Found → Answer Text → Text × Option ShieldError
put_back f (failed e) = (marker f.kind f.token, some e)
put_back f (done p) = (if is_empty p then marker f.kind f.token else p, none)

abbrev joined : Text × Option ShieldError → Text × Option ShieldError → Text × Option ShieldError
joined (a, e) (b, f) = (a ++ b, or_first e f)

module _ (src : Source) {S : Type 0} (v : Vault S) (s : Session) (x : S) where
  -- ReplaceAllStringFunc; the fuel is enough when it is the length of the text.
  unfoldable pub replace_all : ℕ → Text → Text × Option ShieldError
  unfolding match_marker resolve
  replace_all zero t = (t, none)
  replace_all (suc f) [] = ([], none)
  replace_all (suc f) (c ∷ t) = elim (match_marker (c ∷ t)) [
    | none ↦ joined (c ∷ [], none) (replace_all f t)
    | some m ↦ joined (put_back m (resolve src v s m.token x)) (replace_all f m.rest)
  ]

  -- Session.UnshieldString
  unfoldable pub unshield_string : Text → Text × Option ShieldError
  unfolding replace_all
  unshield_string t = replace_all (length t) t

abbrev pub HasNoBracket : Text → Type 0
HasNoBracket = All (λ (c : ℕ). c ≢ b'[')

span-append :
    (p : ℕ → Bool) (run : Text) (c : ℕ) (t : Text)
    → All (λ b. p b ≡ true) run
    → p c ≡ false
    → span p (run ++ c ∷ t) ≡ (run, c ∷ t)
unfolding span
span-append p [] c t h e = rw e refl
span-append p (a ∷ run) c t h e = rw (span-append p run c t h.1 e, h.0) refl

is_empty_of_ne : (s : Text) → s ≢ [] → is_empty s ≡ false
is_empty_of_ne [] ne = absurd (ne refl)
is_empty_of_ne (c ∷ s) ne = refl

named_lem :
    (kind hex rest : Text)
    → kind ≢ []
    → All (λ b. is_hex b ≡ true) hex
    → hex ≢ []
    → named (kind, bytes ":tok_" ++ (hex ++ b']' ∷ rest))
      ≡ some (record { kind = kind; token = bytes "tok_" ++ hex; rest = rest })
named_lem kind hex rest nk digits nh = rw (is_empty_of_ne kind nk) (
    ap (closed kind) (span-append is_hex hex b']' rest digits refl)
    ∙ rw (is_empty_of_ne hex nh) refl)

-- What marker writes, the expression matches.
pub match_marker-marker :
    (kind hex rest : Text)
    → All (λ b. is_lower b ≡ true) kind
    → kind ≢ []
    → All (λ b. is_hex b ≡ true) hex
    → hex ≢ []
    → match_marker (marker kind (bytes "tok_" ++ hex) ++ rest)
      ≡ some (record { kind = kind; token = bytes "tok_" ++ hex; rest = rest })
unfolding match_marker marker
match_marker-marker kind hex rest lower nk digits nh =
    ap named (ap (span is_lower) aligned ∙ span-append is_lower kind b':' tail lower refl)
    ∙ named_lem kind hex rest nk digits nh
  where
    tail : Text
    tail = bytes "tok_" ++ (hex ++ b']' ∷ rest)

    aligned : (kind ++ (b':' ∷ ((bytes "tok_" ++ hex) ++ b']' ∷ []))) ++ rest ≡ kind ++ b':' ∷ tail
    aligned = simp append_assoc

match_marker_other : (c : ℕ) (t : Text) → c ≢ b'[' → match_marker (c ∷ t) ≡ none
unfolding match_marker
match_marker_other c t ne = ground arith

module _ (src : Source) {S : Type 0} (v : Vault S) (s : Session) (x : S) where
  -- A text without a bracket is left alone.
  replace_all_plain :
      (f : ℕ) (t : Text) → length t ≤ f → HasNoBracket t → replace_all src v s x f t ≡ (t, none)
  unfolding replace_all
  replace_all_plain zero t h n = refl
  replace_all_plain (suc f) [] h n = refl
  replace_all_plain (suc f) (c ∷ t) h n =
      ground (arith, match_marker_other c t n.0, replace_all_plain f t)

  replace_all_found :
      (f c : ℕ) (t : Text) (m : Found)
      → match_marker (c ∷ t) ≡ some m
      → replace_all src v s x (suc f) (c ∷ t)
        ≡ joined (put_back m (resolve src v s m.token x)) (replace_all src v s x f m.rest)
  unfolding replace_all
  replace_all_found f c t m e = rw (e, replace_all) refl

  module _ (kind hex after p : Text) (na : HasNoBracket after)
      (lower : All (λ b. is_lower b ≡ true) kind) (nk : kind ≢ [])
      (digits : All (λ b. is_hex b ≡ true) hex) (nh : hex ≢ []) (np : p ≢ [])
      (r : resolve src v s (bytes "tok_" ++ hex) x ≡ done p) where
    abbrev marked : Text
    marked = marker kind (bytes "tok_" ++ hex) ++ after

    replace_all_marker :
        (f : ℕ) → length marked ≤ f → replace_all src v s x f marked ≡ (p ++ after, none)
    unfolding marker
    replace_all_marker zero h = absurd (omega arith)
    replace_all_marker (suc f) h =
        replace_all_found f b'[' _ _ (match_marker-marker kind hex after lower nk digits nh) ∙ both
      where
        short : length after ≤ f
        short = omega (
          arith,
          length-append (marker kind (bytes "tok_" ++ hex)) after,
          length-append (bytes "[shield:") (kind ++ (b':' ∷ ((bytes "tok_" ++ hex) ++ b']' ∷ []))),
        )

        both :
            joined
              (put_back
                (record { kind = kind; token = bytes "tok_" ++ hex; rest = after })
                (resolve src v s (bytes "tok_" ++ hex) x))
              (replace_all src v s x f after)
            ≡ (p ++ after, none)
        both = rw r (rw (is_empty_of_ne p np) (rw (replace_all_plain f after short na) refl))

    -- One marker between two such texts.
    replace_all_one :
        (f : ℕ) (before : Text)
        → length (before ++ marked) ≤ f
        → HasNoBracket before
        → replace_all src v s x f (before ++ marked) ≡ (before ++ (p ++ after), none)
    unfolding replace_all
    replace_all_one f [] h nb = replace_all_marker f h
    replace_all_one zero (c ∷ before) h nb = absurd (omega arith)
    replace_all_one (suc f) (c ∷ before) h nb =
        ground (arith, match_marker_other c (before ++ marked) nb.0, replace_all_one f before)

  -- UnshieldString puts the plaintext in the place of a marker, and leaves the text around it alone.
  pub unshield_string-marker :
      (kind hex before after p : Text)
      → HasNoBracket before
      → HasNoBracket after
      → All (λ b. is_lower b ≡ true) kind
      → kind ≢ []
      → All (λ b. is_hex b ≡ true) hex
      → hex ≢ []
      → p ≢ []
      → resolve src v s (bytes "tok_" ++ hex) x ≡ done p
      → unshield_string src v s x (before ++ (marker kind (bytes "tok_" ++ hex) ++ after))
        ≡ (before ++ (p ++ after), none)
  unfolding unshield_string
  unshield_string-marker kind hex before after p nb na lower nk digits nh np r =
      replace_all_one kind hex after p na lower nk digits nh np r _ before (omega arith) nb
