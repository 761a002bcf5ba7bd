-- ===== src/Mcp/Serve/Shielded.antt =====
-- What of a tool's result (internal/mcp) crosses to the assistant.
use pare.Common.{
  ◌≡◌, refl, ap, ◌∙◌, Text, bytes, text_eq, is_empty, true, false, Option, some, List, [], ◌∷◌,
  if◌then◌else◌,
}
use pare.Crypto.{ok}
use pare.Ledger.Money.{Amount}
use pare.Store.{Db}
use pare.Store.Views.{default_company, InvoiceSummary}
use pare.Shield.{new, session, Session, parse_tag}
use pare.Shield.Vaults.{pg_store, pg_store-IsVault}
use pare.Shield.Resolved.{IsSource}
use pare.Shield.Walk.{pointer, slice, struct, Items, cons, masked, masked_items, alias, end}
use pare.Shield.Masked.{shield_struct-masked}
use pare.Mcp.{
  Tool, Request, HttpRequest, Result, Response, result, json, Server, Moment, registered, find_tool,
  scrub_error, authed, session_id,
}
use pare.Mcp.Tools.{Ran, refused, gave, run, plain, rows, items, unpaid_row, match_row}
use pare.Mcp.Serve.{
  tool_error, encoded, shown, vault_of, delivered, call_tool, dispatch, handle, read_request,
  decoded, called, answered, replied,
}

-- The identities of a summary replaced.
abbrev pub hidden_identity : (Text → Text → Text) → InvoiceSummary → InvoiceSummary
hidden_identity pseudonym u = record u {
  customer_name =
      if is_empty u.customer_name
      then u.customer_name
      else pseudonym (bytes "name") u.customer_name;
  customer_org_nr =
      if is_empty u.customer_org_nr
      then u.customer_org_nr
      else pseudonym (bytes "orgnr") u.customer_org_nr;
}

module _ (pseudonym : Text → Text → Text) where
  unpaid_hidden :
      (us : List InvoiceSummary)
      → masked_items pseudonym true false (items unpaid_row us)
        ≡ items (λ u. unpaid_row (hidden_identity pseudonym u)) us
  unfolding masked parse_tag
  unpaid_hidden [] = refl
  unpaid_hidden (u ∷ us) =
      ap (cons (struct (unpaid_row (hidden_identity pseudonym u)))) (unpaid_hidden us)

  matches_hidden :
      (received : Amount) (ms : List InvoiceSummary)
      → masked_items pseudonym true false (items (match_row received) ms)
        ≡ items (λ m. match_row received (hidden_identity pseudonym m)) ms
  unfolding masked parse_tag
  matches_hidden received [] = refl
  matches_hidden received (m ∷ ms) =
      ap (cons (struct (match_row received (hidden_identity pseudonym m))))
        (matches_hidden received ms)

  -- The lists of unpaid invoices and of matches are masked to what they would be if every customer bore
  -- the pseudonym for a name, and the one for a number as its org number: the assistant learns of the
  -- customers no more than their pseudonyms, and of the amounts, numbers and dates everything.
  pub masked-rows :
      (received : Amount) (us ms : List InvoiceSummary)
      → (masked pseudonym false false (pointer (struct (rows unpaid_row us end)))
          ≡ pointer (struct (rows (λ u. unpaid_row (hidden_identity pseudonym u)) us end)))
        × (masked pseudonym false false (pointer (struct (rows (match_row received) ms end)))
            ≡ pointer
                (struct (rows (λ m. match_row received (hidden_identity pseudonym m)) ms end)))
  unfolding masked parse_tag
  masked-rows received us ms = (
    ap (λ (is : Items). pointer (struct (plain (slice is) end))) (unpaid_hidden us),
    ap (λ (is : Items). pointer (struct (plain (slice is) end))) (matches_hidden received ms),
  )

module _ (srv : Server) (now : Moment) where
  -- What a tool's answer comes to: a result is masked and encoded, an error scrubbed.
  abbrev pub crossing : Session → Ran → Result
  crossing s (refused e) = tool_error srv now (scrub_error srv.codec.message e)
  crossing s (gave v) =
      encoded srv now (srv.codec.encode (masked (alias srv.source s) false false v))

  dispatch_call :
      (r : HttpRequest) (req : Request) (db : Db)
      → req.method ≡ bytes "tools/call"
      → dispatch srv now r req db ≡ call_tool srv now r req db
  unfolding dispatch text_eq
  dispatch_call r req db m =
      let method = λ (w : Text). ap (λ s. text_eq s w) m in
      rw (method (bytes "initialize")) (
        rw (method (bytes "notifications/initialized")) (
          rw (method (bytes "notifications/cancelled"))
            (rw (method (bytes "tools/list")) (rw (method (bytes "tools/call")) refl))))

  replied_json :
      (id : Text) (x : Option Response × Db) (y : Result × Db)
      → x ≡ answered srv now id y
      → (replied srv now x).0 ≡ json (result id y.0)
  replied_json id x (y, d) e = ap (λ z. (replied srv now z).0) e

  module _ (real : IsSource srv.source) (keyed : new srv.shield.master ≡ ok srv.shield) where
    delivered-crossing :
        (id : Text) (x : Ran × Db)
        → (delivered srv now (session srv.source srv.shield id) x).0
          ≡ crossing (session srv.source srv.shield id) x.0
    delivered-crossing id (refused e, db) = refl
    delivered-crossing id (gave v, db) = ap (shown srv now) (
        shield_struct-masked srv.source real (pg_store now.now) (pg_store-IsVault now.now)
          (λ h d. tt) keyed id v (vault_of srv now db))

    -- A call of a tool by a request with the key is answered with the tool's error, scrubbed, or with
    -- the encoding of its result, in which every tagged string is replaced by its pseudonym in the
    -- session and nothing else is changed.
    pub handle-crossing :
        (r : HttpRequest) (req : Request) (name args company : Text) (t : Tool) (db : Db)
        → authed srv r ≡ true
        → srv.codec.decode_request r.body ≡ some req
        → req.method ≡ bytes "tools/call"
        → srv.codec.decode_call req.params ≡ some (name, args)
        → find_tool name registered ≡ some t
        → default_company db ≡ some company
        → (handle srv now r db).0
          ≡ json (
              result req.id (
                crossing
                  (session srv.source srv.shield (session_id r))
                  (run srv now company t args db).0))
    unfolding handle call_tool
    handle-crossing r req name args company t db ok_ d m c f co = rw ok_ (
        rw (d, read_request)
          (replied_json req.id (dispatch srv now r req db) (delivered srv now s ran)
              (dispatch_call r req db m ∙ rw (c, decoded) (rw (f, called) (rw (co, called) refl)))
            ∙ ap (λ x. json (result req.id x)) (delivered-crossing (session_id r) ran)))
      where
        s : Session
        s = session srv.source srv.shield (session_id r)

        ran : Ran × Db
        ran = run srv now company t args db
