-- ===== src/Mcp/Ceiling.antt =====
-- The ceiling on what the assistant may write (internal/mcp/tools.go).
use pare.Common.{
  ℕ, ltb, ◌+◌, ◌≤◌, ◌<◌, ◌^◌, ◌≡◌, ◌≢◌, refl, sym, ap, ◌∙◌, Text, bytes, Bool-cases, Option-cases,
  true, false, inl, inr, Option, none, some, List, [], ◌∷◌, All, if◌then◌else◌, arith,
}
use pare.Common.Int.{pos, pos_part}
use pare.Common.Int64.{add_fits}
use pare.Ledger.Money.{Amount}
use pare.Ledger.Verification.{Line, validate}
use pare.Ledger.Verification.Postable.{HasInt64, IsOneSided, IsPostable, debit_sum, validate_iff}
use pare.Store.{Db, Outcome, failed, done, in_tx}
use pare.Store.Posting.{Posting, verification_of, debit_total, public_post_verification}
use pare.Shield.Walk.{Value}
use pare.Mcp.{PostArgs, Server, Moment, ToolError, assistant, over_ceiling, scrub_error}
use pare.Mcp.Tools.{
  Ran, refused, gave, check_ceiling, posting_of, post_within, post_dated, posted, written,
  post_result, run_post_verification,
}

debit_total_exact :
    (d : ℕ) (ls : List Line)
    → All IsOneSided ls
    → d + debit_sum ls < 2 ^ 63
    → debit_total (pos d) ls ≡ pos (d + debit_sum ls)
unfolding debit_total
debit_total_exact d [] h b = ap pos (omega arith)
debit_total_exact d (l ∷ ls) h b =
    ground (arith, add_fits d l.debit, debit_total_exact (d + pos_part l.debit) ls h.1)

debit_total_of_IsPostable :
    (ls : List Line) → IsPostable ls → debit_total (pos 0) ls ≡ pos (debit_sum ls)
debit_total_of_IsPostable ls p = debit_total_exact 0 ls p.1 (omega arith) ∙ ap pos (omega arith)

check_ceiling_lem :
    (c n : ℕ)
    → 0 < c
    → (check_ceiling (pos c) (pos n) ≡ (if ltb c n then some over_ceiling else none))
unfolding check_ceiling
check_ceiling_lem c n h = ground arith

module _ (srv : Server) (now : Moment) (company : Text) (db : Db) where
  -- A posting that succeeded was validated.
  posted_valid :
      (p : Posting) (id : Text)
      → (public_post_verification srv.env.mac (some assistant) now.pool now.new_id p db).0 ≡ done id
      → validate (verification_of p) ≡ none
  unfolding public_post_verification in_tx
  posted_valid p id e = elim (Option-cases (validate (verification_of p))) [
    | inl v ↦ v
    | inr (x, v) ↦ elim (Option-cases now.pool.begin_error) [
      | inl b ↦ absurd (ground arith)
      | inr (y, b) ↦ absurd (ground arith)
    ]
  ]

  written_gave :
      (f : Text → Value) (r : Outcome Text × Db) (v : Value)
      → (written srv now company f r).0 ≡ gave v
      → (id : Text) × (r.0 ≡ done id)
  written_gave f (failed e, d) v h = absurd (cc)
  written_gave f (done id, d) v h = (id, refl)

  -- A result, of a dry run too, is given for lines that Validate accepts.
  post_within_valid :
      (a : PostArgs) (date : ℕ) (v : Value)
      → (post_within srv now company a date none db).0 ≡ gave v
      → validate (verification_of (posting_of srv now company a date)) ≡ none
  post_within_valid a date v h = elim (Bool-cases a.dry_run) [
    | inl dry ↦
        elim (Option-cases (validate (verification_of (posting_of srv now company a date)))) [
          | inl ok ↦ ok
          | inr (x, e) ↦ absurd (ground arith)
        ]
    | inr real ↦
        let p = posting_of srv now company a date in
        let (id, e) =
          written_gave (λ id. post_result srv now company id true false [])
            (public_post_verification srv.env.mac (some assistant) now.pool now.new_id p db) v
            (ground arith) in
        posted_valid p id e
  ]

  module _ (c : ℕ) (enabled : 0 < c) (ceiling : srv.max_write_ore ≡ pos c) (args : Text)
      (a : PostArgs) (date : ℕ) (decoded : srv.codec.decode_post args ≡ some a)
      (dated : srv.codec.parse_date a.date ≡ some date) (fits : All HasInt64 a.lines) where
    total : Amount
    total = debit_total (pos 0) a.lines

    run_eq :
        (o : Option ToolError)
        → check_ceiling srv.max_write_ore total ≡ o
        → run_post_verification srv now company args db ≡ post_within srv now company a date o db
    unfolding run_post_verification total
    run_eq o k = rw (decoded, posted) (rw (dated, post_dated) (rw k refl))

    checked :
        IsPostable a.lines
        → check_ceiling srv.max_write_ore total
          ≡ (if ltb c (debit_sum a.lines) then some over_ceiling else none)
    unfolding total
    checked p =
        rw (ceiling, debit_total_of_IsPostable a.lines p)
          (check_ceiling_lem c (debit_sum a.lines) enabled)

    refused_ne :
        (e : ToolError) (v : Value)
        → run_post_verification srv now company args db ≡ (refused e, db)
        → (run_post_verification srv now company args db).0 ≢ gave v
    refused_ne e v q h = cc

    -- With a ceiling, pare_post_verification gives a result, of a dry run too, only for lines that can be
    -- posted and whose debits sum, without wrapping, to the ceiling at most.
    pub run_post_verification_ceiling :
        (v : Value)
        → (run_post_verification srv now company args db).0 ≡ gave v
        → IsPostable a.lines × (debit_sum a.lines ≤ c)
    run_post_verification_ceiling v h =
        elim (Option-cases (check_ceiling srv.max_write_ore total)) [
          | inr (e, k) ↦ absurd (refused_ne e v (run_eq (some e) k) h)
          | inl k ↦
              let valid =
                post_within_valid a date v (ap (λ (r : Ran × Db). r.0) (sym (run_eq none k)) ∙ h) in
              let p =
                (validate_iff (verification_of (posting_of srv now company a date)) fits).0 valid in
              (p, ground (arith, checked p))
        ]

    -- With a ceiling, lines that can be posted and whose debits sum to more are refused by
    -- pare_post_verification with errCeiling, nothing is written, and what scrubError makes of that error
    -- is "internal error".
    pub run_post_verification_refused :
        IsPostable a.lines
        → c < debit_sum a.lines
        → (run_post_verification srv now company args db ≡ (refused over_ceiling, db))
          × (scrub_error srv.codec.message over_ceiling ≡ bytes "internal error")
    unfolding scrub_error
    run_post_verification_refused p over =
        (run_eq (some over_ceiling) (ground (arith, checked p)), refl)
