-- ===== src/Mcp/Serve/Effects.antt =====
-- What a request of the assistant (internal/mcp) may do to the database.
use mathlib.Core.Path.{subst}
use pare.Common.{
  ℕ, ◌≡◌, ◌≢◌, ◌↔◌, refl, ap, sym, ◌∙◌, ◌⊎◌, inl, inr, Text, bytes, text_eq, text_eq_iff, is_empty,
  ◌||◌, Bool-cases, Option-cases, true, false, Option, none, some, [], ◌∷◌, arith,
}
use pare.Common.Int.{ℤ, pos}
use pare.Store.{Db, Outcome}
use pare.Store.Posting.{Posting, debit_total, public_post_verification}
use pare.Store.Invoices.Payments.{record_payment_by_number}
use pare.Store.Views.{default_company}
use pare.Store.Command.{
  Command, execute, answered as settled, to_post_verification, to_record_payment_by_number,
}
use pare.Shield.{Session, session}
use pare.Shield.Walk.{Value}
use pare.Mcp.{
  ToolError, Tool, overview, unpaid, trial_balance, moms_report, export_sie, recent_activity,
  post_verification, match_payment, record_payment, registered, is_write, find_tool, Request,
  HttpRequest, PostArgs, PaymentArgs, Server, Moment, assistant, authed, session_id, Response,
  Reply, unauthorized, presented,
}
use pare.Mcp.Tools.{
  Ran, refused, gave, check_ceiling, posting_of, post_within, pay_within, post_dated, paid_dated,
  posted, paid_by, account_of, post_result, payment_result, written, run_post_verification,
  run_record_payment, run,
}
use pare.Mcp.Serve.{decoded, replied, read_request, delivered, called, call_tool, dispatch, handle}

-- The same but for the pseudonyms in the vault.
abbrev pub IsSameBooks : Db → Db → Type 0
IsSameBooks db db' = db' ≡ record db { shield_tokens = db'.shield_tokens }

IsSameBooks-trans : (a b c : Db) → IsSameBooks a b → IsSameBooks b c → IsSameBooks a c
IsSameBooks-trans a b c p q =
    q ∙ ap {A = Db} {B = Db} (λ d. record d { shield_tokens = c.shield_tokens }) p

IsSameBooks-of_eq : (a b : Db) → a ≡ b → IsSameBooks a b
IsSameBooks-of_eq a b e =
    sym e ∙ ap {A = Db} {B = Db} (λ d. record a { shield_tokens = d.shield_tokens }) e

empty_of : (s : Text) → is_empty s ≡ true → s ≡ []
empty_of [] e = refl
empty_of (c ∷ s) e = cc

module _ (srv : Server) (r : HttpRequest) where
  authed_not : authed srv r ≡ true → ¬ ((srv.api_key ≡ []) ⊎ (presented r ≢ srv.api_key))
  unfolding authed
  authed_not ok (inl e) = ground arith
  authed_not ok (inr ne) = ground (arith, text_eq_iff (presented r) srv.api_key)

  authed-false : authed srv r ≡ false → (srv.api_key ≡ []) ⊎ (presented r ≢ srv.api_key)
  unfolding authed
  authed-false h = elim (Bool-cases (is_empty srv.api_key)) [
    | inl e ↦ inl (empty_of srv.api_key e)
    | inr e ↦ inr (λ same. ground (arith, text_eq_iff (presented r) srv.api_key))
  ]

module _ (srv : Server) (now : Moment) (db : Db) where
  -- The database after a command of the store that the assistant gives.
  abbrev pub after : Command → Db
  after c = (execute srv.env (some assistant) now.pool c db).1

  -- One verifikat was asked for, below the ceiling.
  abbrev pub IsPosted : Db → Type 0
  IsPosted db' =
      (p : Posting) × (check_ceiling srv.max_write_ore (debit_total (pos 0) p.lines) ≡ none)
      × IsSameBooks (after (to_post_verification now.new_id p)) db'

  -- One payment was, below the ceiling.
  abbrev pub IsPaid : Db → Type 0
  IsPaid db' =
      (company : Text) × (a : PaymentArgs) × (date : ℕ) × (account : Text) × (check_ceiling
          srv.max_write_ore a.received_sek_ore
        ≡ none)
      × IsSameBooks
          (after (
            to_record_payment_by_number now.new_id company a.invoice_number date account
              a.received_sek_ore))
          db'

  abbrev pub Effect : Db → Type 0
  Effect db' = IsSameBooks db db' ⊎ IsPosted db' ⊎ IsPaid db'

  Effect-trans : (db' db'' : Db) → Effect db' → IsSameBooks db' db'' → Effect db''
  Effect-trans db' db'' (inl s) t = inl (IsSameBooks-trans db db' db'' s t)
  Effect-trans db' db'' (inr (inl (p, c, s))) t =
      inr (inl (p, c, IsSameBooks-trans (after (to_post_verification now.new_id p)) db' db'' s t))
  Effect-trans db' db'' (inr (inr (co, a, d, acc, c, s))) t = inr (
      inr (
        co,
        a,
        d,
        acc,
        c,
        IsSameBooks-trans
            (after
              (to_record_payment_by_number now.new_id co a.invoice_number d acc a.received_sek_ore))
            db' db'' s t,
      ))

  module _ (company : Text) where
    written-settled :
        (f : Text → Value) (r : Outcome Text × Db) → (written srv now company f r).1 ≡ (settled r).1
    written-settled f (Outcome.failed e, d) = refl
    written-settled f (Outcome.done a, d) = refl

    execute_posting :
        (p : Posting)
        → after (to_post_verification now.new_id p)
          ≡ (settled
              (public_post_verification srv.env.mac (some assistant) now.pool now.new_id p db)).1
    unfolding execute
    execute_posting p = refl

    execute_payment :
        (number : Text) (date : ℕ) (account : Text) (amount : ℤ)
        → after (to_record_payment_by_number now.new_id company number date account amount)
          ≡ (settled (
              record_payment_by_number srv.env
                (some assistant)
                now.pool
                now.new_id
                company
                number
                date
                account
                amount
                db)).1
    unfolding execute
    execute_payment number date account amount = refl

    post_within-Effect :
        (a : PostArgs) (date : ℕ) (o : Option ToolError)
        → check_ceiling srv.max_write_ore (debit_total (pos 0) a.lines) ≡ o
        → Effect (post_within srv now company a date o db).1
    post_within-Effect a date (some e) c = inl refl
    post_within-Effect a date none c = elim (Bool-cases a.dry_run) [
      | inl dry ↦ rw dry (inl refl)
      | inr real ↦
          let p = posting_of srv now company a date in
          rw real (
            inr (
              inl (
                p,
                c,
                IsSameBooks-of_eq _ _ (
                    execute_posting p
                    ∙ sym (
                        written-settled (λ id. post_result srv now company id true false [])
                          (public_post_verification srv.env.mac (some assistant) now.pool now.new_id
                            p db))),
              )))
    ]

    pay_within-Effect :
        (a : PaymentArgs) (date : ℕ) (o : Option ToolError)
        → check_ceiling srv.max_write_ore a.received_sek_ore ≡ o
        → Effect (pay_within srv now company a date o db).1
    pay_within-Effect a date (some e) c = inl refl
    pay_within-Effect a date none c = elim (Bool-cases a.dry_run) [
      | inl dry ↦ rw dry (inl refl)
      | inr real ↦
          let account = account_of srv now company a in
          rw real (
            inr (
              inr (
                company,
                a,
                date,
                account,
                c,
                IsSameBooks-of_eq _ _ (
                    execute_payment a.invoice_number date account a.received_sek_ore
                    ∙ sym (
                        written-settled
                          (λ id. payment_result srv now company id a.invoice_number true false [])
                          (record_payment_by_number srv.env (some assistant) now.pool now.new_id
                            company a.invoice_number date account a.received_sek_ore db))),
              )))
    ]

    run-Effect : (t : Tool) (args : Text) → Effect (run srv now company t args db).1
    unfolding run run_post_verification run_record_payment
    run-Effect overview args = inl refl
    run-Effect unpaid args = inl refl
    run-Effect trial_balance args = inl refl
    run-Effect moms_report args = inl refl
    run-Effect export_sie args = inl refl
    run-Effect recent_activity args = inl refl
    run-Effect match_payment args = inl refl
    run-Effect post_verification args = posted_effect (srv.codec.decode_post args)
      where
        dated : (a : PostArgs) (d : Option ℕ) → Effect (post_dated srv now company a d db).1
        dated a none = inl refl
        dated a (some date) = post_within-Effect a date _ refl

        posted_effect : (o : Option PostArgs) → Effect (posted srv now company o db).1
        posted_effect none = inl refl
        posted_effect (some a) = dated a (srv.codec.parse_date a.date)
    run-Effect record_payment args = paid_effect (srv.codec.decode_payment args)
      where
        dated : (a : PaymentArgs) (d : Option ℕ) → Effect (paid_dated srv now company a d db).1
        dated a none = inl refl
        dated a (some date) = pay_within-Effect a date _ refl

        paid_effect : (o : Option PaymentArgs) → Effect (paid_by srv now company o db).1
        paid_effect none = inl refl
        paid_effect (some a) = dated a (srv.codec.parse_date a.date)

  delivered-IsSameBooks : (s : Session) (r : Ran × Db) → IsSameBooks r.1 (delivered srv now s r).1
  delivered-IsSameBooks s (refused e, d) = refl
  delivered-IsSameBooks s (gave v, d) = refl

  -- Only a call of a tool does anything.
  module _ (P : Db → Type 0) (same : P db) where
    dispatch_kept :
        (r : HttpRequest) (req : Request)
        → (text_eq req.method (bytes "tools/call") ≡ true → P (call_tool srv now r req db).1)
        → P (dispatch srv now r req db).1
    unfolding dispatch
    dispatch_kept r req k = elim (Bool-cases (text_eq req.method (bytes "initialize"))) [
      | inl e ↦ rw e same
      | inr n ↦
          rw n
            (elim (Bool-cases (
              text_eq req.method (bytes "notifications/initialized")
              || text_eq req.method (bytes "notifications/cancelled"))) [
                | inl e ↦ rw e same
                | inr m ↦ rw m (elim (Bool-cases (text_eq req.method (bytes "tools/list"))) [
                  | inl e ↦ rw e same
                  | inr l ↦ rw l (elim (Bool-cases (text_eq req.method (bytes "tools/call"))) [
                    | inl e ↦ rw e (k e)
                    | inr o ↦ rw o same
                  ])
                ])
              ])
    ]

    called_kept :
        (r : HttpRequest) (req : Request) (o : Option Tool) (name args : Text)
        → ((t : Tool) (company : Text)
            → o ≡ some t
            → P
                (delivered srv now
                  (session srv.source srv.shield (session_id r))
                  (run srv now company t args db)).1)
        → P (called srv now r req o name args db).1
    called_kept r req none name args k = same
    called_kept r req (some t) name args k = elim (Option-cases (default_company db)) [
      | inl n ↦ rw (n, called) same
      | inr (company, c) ↦ rw (c, called) (k t company refl)
    ]

    handle_kept :
        (r : HttpRequest)
        → ((req : Request)
            → authed srv r ≡ true
            → srv.codec.decode_request r.body ≡ some req
            → P (dispatch srv now r req db).1)
        → P (handle srv now r db).1
    unfolding handle
    handle_kept r k = elim (Bool-cases (authed srv r)) [
      | inr denied ↦ rw denied same
      | inl ok ↦ rw ok (elim (Option-cases (srv.codec.decode_request r.body)) [
        | inl n ↦ rw (n, read_request) same
        | inr (req, e) ↦
            rw (e, read_request) (replied_kept (dispatch srv now r req db) (k req ok e))
      ])
    ]
      where
        replied_kept : (x : Option Response × Db) → P x.1 → P (replied srv now x).1
        replied_kept (none, d) h = h
        replied_kept (some resp, d) h = h

  call_tool_kept :
      (P : Db → Type 0)
      → P db
      → (r : HttpRequest) (req : Request)
      → ((name args : Text)
          → srv.codec.decode_call req.params ≡ some (name, args)
          → P (called srv now r req (find_tool name registered) name args db).1)
      → P (call_tool srv now r req db).1
  unfolding call_tool
  call_tool_kept P same r req k = elim (Option-cases (srv.codec.decode_call req.params)) [
    | inl n ↦ rw (n, decoded) same
    | inr ((name, args), e) ↦ rw (e, decoded) (k name args e)
  ]

  delivered-Effect :
      (r : HttpRequest) (t : Tool) (company args : Text)
      → Effect
          (delivered srv now
            (session srv.source srv.shield (session_id r))
            (run srv now company t args db)).1
  delivered-Effect r t company args =
      let ran = run srv now company t args db in
      let s = session srv.source srv.shield (session_id r) in
      Effect-trans ran.1 (delivered srv now s ran).1 (run-Effect company t args)
        (delivered-IsSameBooks s ran)

  -- Whatever is sent to the server, the database after it is the one before it but for pseudonyms in
  -- the vault, or that after one command that the store carries out for the actor "ai": to post one
  -- verifikat, or to record one payment, whose amount is not above the ceiling as checkCeiling sees it.
  pub handle-Effect : (r : HttpRequest) → Effect (handle srv now r db).1
  handle-Effect r = handle_kept Effect (inl refl) r λ req ok e.
      dispatch_kept Effect (inl refl) r req λ m.
        call_tool_kept Effect (inl refl) r req λ name args d.
          called_kept Effect (inl refl) r req (find_tool name registered) name args
            λ t company f. delivered-Effect r t company args

  run_quiet :
      (t : Tool) (company args : Text) → is_write t ≡ false → (run srv now company t args db).1 ≡ db
  unfolding run is_write
  run_quiet overview company args h = refl
  run_quiet unpaid company args h = refl
  run_quiet trial_balance company args h = refl
  run_quiet moms_report company args h = refl
  run_quiet export_sie company args h = refl
  run_quiet recent_activity company args h = refl
  run_quiet match_payment company args h = refl
  run_quiet post_verification company args h = absurd (cc)
  run_quiet record_payment company args h = absurd (cc)

  -- A request that does not call one of the two writing tools leaves the books alone: nothing but
  -- pseudonyms in the vault is written, whether or not the key is right and the arguments are good.
  pub handle-IsSameBooks :
      (r : HttpRequest)
      → ((req : Request) (name args : Text) (t : Tool)
          → srv.codec.decode_request r.body ≡ some req
          → srv.codec.decode_call req.params ≡ some (name, args)
          → find_tool name registered ≡ some t
          → is_write t ≡ false)
      → IsSameBooks db (handle srv now r db).1
  handle-IsSameBooks r reads = handle_kept (IsSameBooks db) refl r λ req ok e.
      dispatch_kept (IsSameBooks db) refl r req λ m.
        call_tool_kept (IsSameBooks db) refl r req λ name args d.
          called_kept (IsSameBooks db) refl r req (find_tool name registered) name args
            λ t company f.
              let ran = run srv now company t args db in
              let s = session srv.source srv.shield (session_id r) in
              subst (λ d. IsSameBooks d (delivered srv now s ran).1)
                (run_quiet t company args (reads req name args t e d f))
                (delivered-IsSameBooks s ran)

  read_request-ne-unauthorized :
      (r : HttpRequest) (o : Option Request) → (read_request srv now r o db).0 ≢ unauthorized
  read_request-ne-unauthorized r none = cc
  read_request-ne-unauthorized r (some req) = served (dispatch srv now r req db)
    where
      served : (x : Option Response × Db) → (replied srv now x).0 ≢ unauthorized
      served (none, d) = cc
      served (some resp, d) = cc

  -- A request without the key changes nothing, is told so and nothing else; without a key of the server
  -- every request is one.
  pub handle-unauthorized_iff :
      (r : HttpRequest)
      → ((handle srv now r db ≡ (unauthorized, db))
          ↔ ((srv.api_key ≡ []) ⊎ (presented r ≢ srv.api_key)))
  unfolding handle
  handle-unauthorized_iff r = elim (Bool-cases (authed srv r)) [
    | inl ok ↦ (
      λ e. absurd (
          read_request-ne-unauthorized r (srv.codec.decode_request r.body)
            (ap (λ (x : Reply × Db). x.0) (rw (ok, handle) at e))),
      λ h. absurd (authed_not srv r ok h),
    )
    | inr denied ↦ (λ e. authed-false srv r denied, λ h. rw denied refl)
  ]
