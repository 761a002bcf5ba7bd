-- ===== src/Shield/Vaults.antt =====
-- internal/shield/store_pg.go and MemStore of session.go: what a vault of tokens promises.
use mathlib.Core.Path.{subst}
use pare.Common.{
  ℕ, Text, All, All-append, text_eq, text_eq_iff, text_eq_refl, Bool, Bool-cases, true, false, ◌&&◌,
  ◌≡◌, ◌≢◌, ◌⊎◌, inl, inr, refl, Option, none, some, List, [], ◌∷◌, ◌++◌, if◌then◌else◌, arith,
}
use pare.Store.{ShieldTokenRow, find_row, any_row}
use pare.Shield.{done, Vault}

-- What the sessions rely on: a token that was put reads back as what it was put as or already stood
-- for, and no other token is disturbed. `IsClean` is what the vault maintains.
pub record IsVault {S : Type 0} (v : Vault S) (IsToken : Text → Type 0) (IsClean : S → Type 0)
    : Type 0 where
  pub total : (s t k c : Text) (x : S) → (y : S) × (v.put s t k c x ≡ done y)
  pub readable : (s t : Text) (x : S) → (c : Text) × (v.get s t x ≡ done c)
  pub clean : (s t k c : Text) (x y : S) → c ≢ [] → IsClean x → v.put s t k c x ≡ done y → IsClean y
  pub same :
      (s t k c : Text) (x y : S)
      → IsClean x
      → v.put s t k c x ≡ done y
      → (v.get s t y ≡ done c)
        ⊎ ((old : Text) × (old ≢ []) × (v.get s t x ≡ done old) × (v.get s t y ≡ done old))
  pub other :
      (s t k c s' t' : Text) (x y : S)
      → IsToken t
      → IsToken t'
      → v.put s t k c x ≡ done y
      → (s ≡ s' → t ≢ t')
      → v.get s' t' y ≡ v.get s' t' x

abbrev is_token_of : Text → Text → ShieldTokenRow → Bool
is_token_of s t r = text_eq r.session_id s && text_eq r.token t

abbrev ciphertext_of : Option ShieldTokenRow → Text
ciphertext_of none = []
ciphertext_of (some r) = r.ciphertext

abbrev token_row : Text → Text → Text → Text → ℕ → ShieldTokenRow
token_row s t k c now = record {
  session_id = s;
  token = t;
  kind = k;
  ciphertext = c;
  created_at = now;
}

-- PgStore.Put is an INSERT that does nothing on conflict, and PgStore.Get a SELECT.
unfoldable pub put_row : ℕ → Text → Text → Text → Text → List ShieldTokenRow → List ShieldTokenRow
unfolding text_eq
put_row now s t k c rows =
    if any_row (is_token_of s t) rows then rows else rows ++ token_row s t k c now ∷ []

unfoldable pub get_row : Text → Text → List ShieldTokenRow → Text
unfolding text_eq
get_row s t rows = ciphertext_of (find_row (is_token_of s t) rows)

abbrev pub pg_store : ℕ → Vault (List ShieldTokenRow)
pg_store now = record {
  put = λ s t k c rows. done (put_row now s t k c rows);
  get = λ s t rows. done (get_row s t rows);
}

-- MemStore: a Go map under the key session|token.
abbrev Entries : Type 0
Entries = List (Text × Text)

unfoldable pub value_at : Text → Entries → Text
unfolding text_eq
value_at k [] = []
value_at k ((j, c) ∷ m) = if text_eq j k then c else value_at k m

unfoldable pub set_at : Text → Text → Entries → Entries
unfolding text_eq
set_at k c [] = (k, c) ∷ []
set_at k c ((j, d) ∷ m) = if text_eq j k then (k, c) ∷ m else (j, d) ∷ set_at k c m

abbrev mem_key : Text → Text → Text
mem_key s t = s ++ b'|' ∷ t

abbrev pub mem_store : Vault Entries
mem_store = record {
  put = λ s t k c m. done (set_at (mem_key s t) c m);
  get = λ s t m. done (value_at (mem_key s t) m);
}

module _ (s t : Text) (r : ShieldTokenRow) where
  get_row-append :
      (rows : List ShieldTokenRow)
      → get_row s t (rows ++ r ∷ []) ≡ (
          if any_row (is_token_of s t) rows
          then get_row s t rows
          else if is_token_of s t r
          then r.ciphertext
          else [])
  unfolding get_row
  get_row-append [] = ground arith
  get_row-append (q ∷ rows) = ground (arith, get_row-append rows)

-- No ciphertext is empty.
abbrev pub NoneEmpty : List ShieldTokenRow → Type 0
NoneEmpty = All (λ r. r.ciphertext ≢ [])

get_row_present :
    (s t : Text) (rows : List ShieldTokenRow)
    → NoneEmpty rows
    → any_row (is_token_of s t) rows ≡ true
    → get_row s t rows ≢ []
unfolding get_row
get_row_present s t [] n p = cc
get_row_present s t (r ∷ rows) n p = ground (arith, get_row_present s t rows n.1)

get_row_absent :
    (s t : Text) (rows : List ShieldTokenRow)
    → any_row (is_token_of s t) rows ≡ false
    → get_row s t rows ≡ []
unfolding get_row
get_row_absent s t [] p = refl
get_row_absent s t (r ∷ rows) p = ground (arith, get_row_absent s t rows)

is_token_of_self : (s t k c : Text) (now : ℕ) → is_token_of s t (token_row s t k c now) ≡ true
is_token_of_self s t k c now = rw (text_eq_refl s, text_eq_refl t) refl

module _ (now : ℕ) (s t k c : Text) (rows : List ShieldTokenRow) where
  get_row-put_row :
      NoneEmpty rows
      → (get_row s t (put_row now s t k c rows) ≡ c)
        ⊎ ((get_row s t rows ≢ []) × (put_row now s t k c rows ≡ rows))
  unfolding put_row
  get_row-put_row n = elim (Bool-cases (any_row (is_token_of s t) rows)) [
    | inl present ↦ inr (get_row_present s t rows n present, rw present refl)
    | inr absent ↦ inl (
        rw (absent, get_row-append s t (token_row s t k c now) rows, absent)
          (rw (is_token_of_self s t k c now) refl))
  ]

  get_row-put_row_other :
      (s' t' : Text)
      → (s ≡ s' → t ≢ t')
      → get_row s' t' (put_row now s t k c rows) ≡ get_row s' t' rows
  unfolding put_row
  get_row-put_row_other s' t' ne = ground (
    arith,
    get_row-append s' t' (token_row s t k c now) rows,
    get_row_absent s' t' rows,
    text_eq_iff s s',
    text_eq_iff t t',
  )

  put_row-NoneEmpty : c ≢ [] → NoneEmpty rows → NoneEmpty (put_row now s t k c rows)
  unfolding put_row
  put_row-NoneEmpty ne n = elim (Bool-cases (any_row (is_token_of s t) rows)) [
    | inl present ↦ rw present n
    | inr absent ↦
        rw absent (All-append (λ (r : ShieldTokenRow). r.ciphertext ≢ []) rows _ n (ne, tt))
  ]

pub pg_store-IsVault : (now : ℕ) → IsVault (pg_store now) (λ t. Unit {0}) NoneEmpty
pg_store-IsVault now = record {
  total = λ s t k c x. (put_row now s t k c x, refl);
  readable = λ s t x. (get_row s t x, refl);
  clean = λ s t k c x y ne n e.
      let f : put_row now s t k c x ≡ y = cc in
      subst NoneEmpty f (put_row-NoneEmpty now s t k c x ne n);
  same = λ s t k c x y n e. elim (get_row-put_row now s t k c x n) [
    | inl first ↦ inl (cc)
    | inr (ne, kept) ↦ inr (get_row s t x, ne, refl, cc)
  ];
  other = λ s t k c s' t' x y _ _ e ne. cc (get_row-put_row_other now s t k c x s' t' ne);
}

module _ (c : Text) (k j : Text) where
  value_at-set_at :
      (m : Entries) → value_at j (set_at k c m) ≡ (if text_eq k j then c else value_at j m)
  unfolding value_at set_at
  value_at-set_at [] = refl
  value_at-set_at ((i, d) ∷ m) =
      ground (arith, text_eq_iff i k, text_eq_iff k j, text_eq_iff i j, value_at-set_at m)

abbrev pub HasNoBar : Text → Type 0
HasNoBar = All (λ (c : ℕ). c ≢ b'|')

bar_inside : (s t : Text) → ¬ HasNoBar (s ++ b'|' ∷ t)
bar_inside [] t h = h.0 refl
bar_inside (c ∷ s) t h = bar_inside s t h.1

-- The last bar of a key ends the session.
mem_key_injective :
    (s s' t t' : Text)
    → HasNoBar t
    → HasNoBar t'
    → mem_key s t ≡ mem_key s' t'
    → (s ≡ s') × (t ≡ t')
mem_key_injective [] [] t t' h h' e = (refl, cc)
mem_key_injective [] (c ∷ s') t t' h h' e =
    let f : t ≡ s' ++ b'|' ∷ t' = cc in absurd (bar_inside s' t' (rw (← f) h))
mem_key_injective (c ∷ s) [] t t' h h' e =
    let f : t' ≡ s ++ b'|' ∷ t = cc in absurd (bar_inside s t (rw (← f) h'))
mem_key_injective (c ∷ s) (d ∷ s') t t' h h' e =
    let (p, q) = mem_key_injective s s' t t' h h' (cc) in (cc, q)

mem_key_other :
    (s s' t t' : Text)
    → HasNoBar t
    → HasNoBar t'
    → (s ≡ s' → t ≢ t')
    → text_eq (mem_key s t) (mem_key s' t') ≡ false
mem_key_other s s' t t' h h' ne = elim (Bool-cases (text_eq (mem_key s t) (mem_key s' t'))) [
  | inl same ↦
      let (p, q) = mem_key_injective s s' t t' h h' ((text_eq_iff _ _).0 same) in absurd (ne p q)
  | inr other ↦ other
]

pub mem_store-IsVault : IsVault mem_store HasNoBar (λ m. Unit {0})
mem_store-IsVault = record {
  total = λ s t k c x. (set_at (mem_key s t) c x, refl);
  readable = λ s t x. (value_at (mem_key s t) x, refl);
  clean = λ s t k c x y ne n e. tt;
  same = λ s t k c x y n e.
      inl (cc (value_at-set_at c (mem_key s t) (mem_key s t) x, text_eq_refl (mem_key s t)));
  other = λ s t k c s' t' x y h h' e ne.
      cc (value_at-set_at c (mem_key s t) (mem_key s' t') x, mem_key_other s s' t t' h h' ne);
}

-- Both stores keep what the sessions rely on: PgStore for any tokens, as long as it holds no empty
-- ciphertext, and MemStore for tokens without a bar.
pub stores-IsVault :
    (now : ℕ)
    → IsVault (pg_store now) (λ t. Unit {0}) NoneEmpty × IsVault mem_store HasNoBar (λ m. Unit {0})
stores-IsVault now = (pg_store-IsVault now, mem_store-IsVault)
