-- ===== src/Auth/Sessions.antt =====
-- The sessions that Auth.Login opens and Auth.Logout deletes (internal/auth/auth.go).
use pare.Common.{
  ℕ, ◌+◌, ltb, ◌≡◌, ◌≢◌, refl, ap, ◌∙◌, Text, text_eq_iff, text_eq_refl, is_empty, Bool, Bool-cases,
  Option-cases, true, false, inl, inr, Option, none, some, List, [], ◌∷◌, ◌++◌, if◌then◌else◌,
  arith,
}
use pare.Store.{find_row, any_row, without}
use pare.Auth.{
  UserRow, SessionRow, Accounts, Bcrypt, done, session_ttl, has_email, has_user_id, has_token,
  info_of, live, login, logout, validate,
}

module _ {A : Type 0} (p : A → Bool) where
  -- No row is found where there is none.
  find_row-++ :
      (rs : List A) (r : A)
      → any_row p rs ≡ false
      → find_row p (rs ++ r ∷ []) ≡ (if p r then some r else none)
  find_row-++ [] r n = refl
  find_row-++ (x ∷ rs) r n = elim (Bool-cases (p x)) [
    | inl h ↦ absurd (ground arith)
    | inr h ↦ rw (h, find_row) (find_row-++ rs r (ground arith))
  ]

  find_row-without : (rs : List A) → find_row p (without p rs) ≡ none
  find_row-without [] = refl
  find_row-without (x ∷ rs) = elim (Bool-cases (p x)) [
    | inl h ↦ rw (h, without) (find_row-without rs)
    | inr h ↦ rw (h, without, find_row, h) (find_row-without rs)
  ]

  -- A row that does not answer changes nothing for a search.
  find_row-other : (rs : List A) (r : A) → p r ≡ false → find_row p (rs ++ r ∷ []) ≡ find_row p rs
  find_row-other [] r n = rw n refl
  find_row-other (x ∷ rs) r n = elim (Bool-cases (p x)) [
    | inl h ↦ rw h refl
    | inr h ↦ rw h (find_row-other rs r n)
  ]

module _ (token other : Text) (h : other ≢ token) where
  token_other : (s : SessionRow) → has_token token s ≡ true → has_token other s ≡ false
  token_other s e = elim (Bool-cases (has_token other s)) [
    | inl k ↦ absurd (ground (arith, text_eq_iff s.token token, text_eq_iff s.token other))
    | inr n ↦ n
  ]

  find_other :
      (rs : List SessionRow)
      → find_row (has_token other) (without (has_token token) rs) ≡ find_row (has_token other) rs
  find_other [] = refl
  find_other (x ∷ rs) = elim (Bool-cases (has_token token x)) [
    | inl k ↦ rw (k, without, find_row, token_other x k) (find_other rs)
    | inr n ↦ elim (Bool-cases (has_token other x)) [
      | inl k ↦ rw (n, without, find_row, k) refl
      | inr m ↦ rw (n, without, find_row, m) (find_other rs)
    ]
  ]

module _ (later : ℕ) where
  -- What a token validates to is what its row is, if any.
  validate_at :
      (token : Text) (a : Accounts) (o : Option SessionRow)
      → is_empty token ≡ false
      → find_row (has_token token) a.sessions ≡ o
      → validate token later a ≡ live later a.users o
  unfolding validate
  validate_at token a o real f = rw (real, if◌then◌else◌, f) refl

  validate_same :
      (token : Text) (a b : Accounts)
      → a.users ≡ b.users
      → find_row (has_token token) a.sessions ≡ find_row (has_token token) b.sessions
      → validate token later a ≡ validate token later b
  unfolding validate
  validate_same token a b us f = rw (us, f) refl

-- The accounts after a login of `u`.
abbrev with_session : Text → ℕ → UserRow → Accounts → Accounts
with_session token now u a = record a {
  sessions =
      a.sessions ++ record { token = token; user_id = u.id; expires_at = now + session_ttl } ∷ [];
}

module _ (crypt : Bcrypt) (token : Text) (now : ℕ) (email password : Text) (a : Accounts) where
  -- What a login that succeeds has done.
  login_done :
      (a' : Accounts) (t : Text)
      → login crypt token now email password a ≡ (done t, a')
      → (u : UserRow) × (find_row (has_email email) a.users ≡ some u)
        × (crypt.matches u.password_hash password ≡ true)
        × (any_row (has_token token) a.sessions ≡ false)
        × (t ≡ token)
        × (a' ≡ with_session token now u a)
  unfolding login
  login_done a' t e = elim (Option-cases (find_row (has_email email) a.users)) [
    | inl n ↦ absurd (ground arith)
    | inr (u, f) ↦ elim (Bool-cases (crypt.matches u.password_hash password)) [
      | inr m ↦ absurd (ground arith)
      | inl m ↦ elim (Bool-cases (any_row (has_token token) a.sessions)) [
        | inl k ↦ absurd (ground arith)
        | inr k ↦ (u, f, m, k, ground arith, ground arith)
      ]
    ]
  ]

  module _ (a' : Accounts) (t : Text) where
    -- A login that succeeds is that of a user with the email, whose hash the password matches. When the
    -- drawn token is not empty, it is the answer, and it validates to the user that has this user's id for
    -- exactly 12 hours, its end included; once logged out, it validates to nothing. Neither the login nor
    -- the logout changes what any other token validates to.
    pub login-validate :
        (later : ℕ) (other : Text)
        → is_empty token ≡ false
        → other ≢ token
        → login crypt token now email password a ≡ (done t, a')
        → (u : UserRow) × (find_row (has_email email) a.users ≡ some u)
          × (crypt.matches u.password_hash password ≡ true)
          × (t ≡ token)
          × (validate token later a' ≡ (
              if ltb (now + 43200) later
              then none
              else info_of (find_row (has_user_id u.id) a.users)))
          × (validate token later (logout token a') ≡ none)
          × (validate other later a' ≡ validate other later a)
          × (validate other later (logout token a') ≡ validate other later a)
    unfolding logout
    login-validate later other real h e =
        let (u, f, m, k, same, left) = login_done a' t e in
        let row : SessionRow = record {
          token = token;
          user_id = u.id;
          expires_at = now + session_ttl;
        } in
        let own = find_row-++ (has_token token) a.sessions row k in
        let apart =
          find_row-other (has_token other) a.sessions row
            (token_other token other h row (text_eq_refl token)) in
        let kept : validate other later a' ≡ validate other later a =
          validate_same later other a' a (ap (λ (x : Accounts). x.users) left)
            (ap (λ (x : Accounts). find_row (has_token other) x.sessions) left ∙ apart) in
        (
          u,
          f,
          m,
          same,
          ap (validate token later) left
              ∙ validate_at later token (with_session token now u a) (some row) real
                  (own ∙ ap (λ (b : Bool). if b then some row else none) (text_eq_refl token)),
          validate_at later token (logout token a') none real
              (find_row-without (has_token token) a'.sessions),
          kept,
          validate_same later other (logout token a') a' refl (find_other token other h a'.sessions)
              ∙ kept,
        )
