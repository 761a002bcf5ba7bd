-- ===== src/Handler/Gate.antt =====
-- What stands before a handler of a page of a company (internal/handler/csrf.go and web.go).
use pare.Common.{
  ℕ, ◌≡◌, refl, Text, bytes, text_eq, text_eq_iff, is_empty, Bool-cases, Option-cases, true, false,
  inl, inr, ◌⊎◌, some, arith,
}
use pare.Store.{Db}
use pare.Store.Views.{default_company}
use pare.Auth.{Accounts, is_owner, validate}
use pare.Handler.{
  Request, Context, handled, safe_method, from_cookie, csrf_protect, require_session,
  block_viewer_writes, page,
}

module _ {A : Type 0} (accounts : Accounts) (db : Db) (now : ℕ) (fresh : Text)
    (handler : Context → Request → A) (r : Request) where
  -- A request that changes nothing, or that carries the token of its browser.
  abbrev pub IsOwnForm : Type 0
  IsOwnForm =
      (safe_method r.method ≡ true)
      ⊎ ((is_empty r.csrf_field ≡ false) × (r.csrf_field ≡ from_cookie fresh r.csrf_cookie))

  -- A session, a company, and a user who may do what is asked.
  abbrev pub IsAllowed : Context → Type 0
  IsAllowed ctx =
      (cookie : Text) × (r.session_cookie ≡ some cookie)
      × (validate cookie now accounts ≡ some ctx.session)
      × (default_company db ≡ some ctx.company)
      × (ctx.actor.kind ≡ bytes "user")
      × (ctx.actor.detail ≡ ctx.session.email)
      × (ctx.csrf ≡ from_cookie fresh r.csrf_cookie)
      × ((safe_method r.method ≡ true) ⊎ (is_owner ctx.session ≡ true))

  -- Past the token: the rest of the middleware for a token `csrf`.
  past_token :
      (x : A)
      → require_session accounts db now fresh
          (block_viewer_writes accounts db now fresh (λ ctx r. handled (handler ctx r)))
          (from_cookie fresh r.csrf_cookie)
          r
        ≡ handled x
      → (ctx : Context) × IsAllowed ctx × (x ≡ handler ctx r)
  unfolding require_session block_viewer_writes
  past_token x e = elim (Option-cases r.session_cookie) [
    | inl n ↦ absurd (ground arith)
    | inr (c, f) ↦ elim (Option-cases (validate c now accounts)) [
      | inl n ↦ absurd (ground arith)
      | inr (info, v) ↦ elim (Option-cases (default_company db)) [
        | inl n ↦ absurd (ground arith)
        | inr (co, d) ↦
            let ctx : Context = record {
              csrf = from_cookie fresh r.csrf_cookie;
              session = info;
              company = co;
              actor = record { kind = bytes "user"; detail = info.email };
            } in
            elim (Bool-cases (safe_method r.method)) [
              | inl s ↦ (ctx, (c, f, v, d, refl, refl, refl, inl s), ground arith)
              | inr u ↦ elim (Bool-cases (is_owner info)) [
                | inl o ↦ (ctx, (c, f, v, d, refl, refl, refl, inr o), ground arith)
                | inr viewer ↦ absurd (ground arith)
              ]
            ]
      ]
    ]
  ]

  -- A handler of a page answers only when the method changes nothing or the form carries the browser's
  -- token, the session cookie validates, there is a company, and the method changes nothing or the user
  -- is an owner. The answer is then the handler's, in the context of that session, that company and
  -- that token, and what it writes is logged as that user's.
  pub page_handled :
      (x : A)
      → page accounts db now fresh handler r ≡ handled x
      → IsOwnForm × ((ctx : Context) × IsAllowed ctx × (x ≡ handler ctx r))
  unfolding page csrf_protect
  page_handled x e = elim (Bool-cases (safe_method r.method)) [
    | inl s ↦ (inl s, past_token x (ground arith))
    | inr u ↦ elim (Bool-cases (is_empty r.csrf_field)) [
      | inl m ↦ absurd (ground arith)
      | inr m ↦ elim (Bool-cases (text_eq r.csrf_field (from_cookie fresh r.csrf_cookie))) [
        | inr ne ↦ absurd (ground arith)
        | inl eq ↦ (
          inr (m, (text_eq_iff r.csrf_field (from_cookie fresh r.csrf_cookie)).0 eq),
          past_token x (ground arith),
        )
      ]
    ]
  ]
