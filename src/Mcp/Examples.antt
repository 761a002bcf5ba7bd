-- ===== src/Mcp/Examples.antt =====
-- Concrete requests of the assistant to internal/mcp, and the theorems about them.
use pare.Common.{
  ℕ, ◌≤◌, ◌≡◌, ◌≢◌, ◌⊎◌, ◌↔◌, refl, sym, ap, ◌∙◌, Text, bytes, true, false, Option, none, some, [],
  ◌∷◌, arith,
}
use pare.Common.Int.{pos, ◌+ℤ◌}
use pare.Common.Int64.{wrap}
use pare.Ledger.Verification.Postable.{IsPostable, debit_sum}
use pare.Store.{finalized}
use pare.Store.Act.Steps.{up}
use pare.Store.Journal.Served.{IsIntact}
use pare.Store.Payment.{debit_line, credit_line}
use pare.Store.Views.{default_company, InvoiceSummary}
use pare.Store.Examples.{company, open_books, with_sale}
use pare.Store.Requests.{env, books_IsIntact}
use pare.Shield.{session}
use pare.Shield.Examples.{src, sh, src-IsSource, sh_new}
use pare.Shield.Walk.{pointer, struct, end, masked}
use pare.Mcp.{
  over_ceiling, Tool, trial_balance, Request, HttpRequest, PostArgs, Codec, Server, Moment, result,
  unauthorized, json, registered, is_write, find_tool, presented, authed, session_id, scrub_error,
}
use pare.Store.Posting.{debit_total, public_post_verification}
use pare.Mcp.Tools.{
  check_ceiling, refused, gave, rows, unpaid_row, match_row, post_result, run_post_verification,
  run,
}
use pare.Mcp.Serve.{handle}
use pare.Mcp.Serve.Effects.{
  IsSameBooks, Effect, handle-Effect, handle-IsSameBooks, handle-unauthorized_iff,
}
use pare.Mcp.Serve.Intact.{handles, handles-IsIntact}
use pare.Mcp.Serve.Shielded.{hidden_identity, masked-rows, crossing, handle-crossing}
use pare.Mcp.Ceiling.{run_post_verification_ceiling, run_post_verification_refused}

abbrev sale_args : PostArgs
sale_args = record {
  series = bytes "A";
  date = bytes "2025-04-10";
  description = bytes "Kontantförsäljning";
  dry_run = false;
  lines = debit_line (bytes "1930") (pos 500) ∷ credit_line (bytes "3001") (pos 500) ∷ [];
}

abbrev call_of : Text → Option Request
call_of body = some (record { id = bytes "1"; method = bytes "tools/call"; params = body })

-- A stand-in for encoding/json, under which the body of a request is the name of its tool.
abbrev codec : Codec
codec = record {
  decode_request = call_of;
  decode_call = λ params. some (params, []);
  decode_period = λ args. ([], []);
  decode_post = λ args. some sale_args;
  decode_match = λ args. none;
  decode_payment = λ args. none;
  encode = λ v. some (bytes "{}");
  parse_date = λ s. some 100;
  trim_space = λ s. s;
  message = λ e. bytes "invalid arguments";
  entry_time = λ e. bytes "2025-04-10T12:00:00Z";
}

abbrev server : ℕ → Server
server ceiling = record {
  env = env;
  source = src;
  codec = codec;
  shield = sh;
  api_key = bytes "secret";
  max_write_ore = pos ceiling;
}

abbrev moment : Moment
moment = record { pool = up; new_id = bytes "v1"; now = 110; draws = 0 }

abbrev asking : Text → HttpRequest
asking tool = record {
  api_key = bytes "secret";
  authorization = [];
  session_id = bytes "chat-1";
  body = tool;
}

abbrev poster : HttpRequest
poster = asking (bytes "pare_post_verification")

abbrev reader : HttpRequest
reader = asking (bytes "pare_trial_balance")

handle-Effect_example :
    Effect (server 1000) moment open_books (handle (server 1000) moment poster open_books).1
handle-Effect_example = handle-Effect (server 1000) moment open_books poster

reader_found : find_tool reader.body registered ≡ some trial_balance
unfolding find_tool
reader_found = refl

reader_reads :
    (req : Request) (name args : Text) (t : Tool)
    → call_of reader.body ≡ some req
    → ◌≡◌ {A = Option (Text × Text)} (some (req.params, [])) (some (name, args))
    → find_tool name registered ≡ some t
    → is_write t ≡ false
unfolding is_write
reader_reads req name args t d c f =
    let name_is : name ≡ reader.body = cc in
    let t_is : some t ≡ some trial_balance =
      sym f ∙ ap (λ s. find_tool s registered) name_is ∙ reader_found in
    let e : t ≡ trial_balance = cc in rw e refl

handle-IsSameBooks_example :
    IsSameBooks open_books (handle (server 1000) moment reader open_books).1
handle-IsSameBooks_example = handle-IsSameBooks (server 1000) moment open_books reader reader_reads

abbrev stranger : HttpRequest
stranger = record reader { api_key = bytes "guess" }

handle-unauthorized_iff_example :
    (handle (server 1000) moment stranger open_books ≡ (unauthorized, open_books))
    ↔ (((server 1000).api_key ≡ []) ⊎ (presented stranger ≢ (server 1000).api_key))
handle-unauthorized_iff_example = handle-unauthorized_iff (server 1000) moment open_books stranger

handles-IsIntact_example : IsIntact env (
    handles
      (server 1000)
      ((moment, reader) ∷ (moment, poster) ∷ (moment, stranger) ∷ [])
      open_books)
handles-IsIntact_example =
    handles-IsIntact (server 1000) ((moment, reader) ∷ (moment, poster) ∷ (moment, stranger) ∷ [])
      open_books books_IsIntact

abbrev owing : InvoiceSummary
owing = record {
  id = bytes "i1";
  number = bytes "2025-0001";
  customer_name = bytes "Anna AB";
  customer_org_nr = bytes "556677-8899";
  total = pos 100000;
  currency = bytes "SEK";
  total_sek = pos 100000;
  amount_paid = pos 40000;
  due_date = bytes "2025-05-10";
  status = finalized;
  overdue = false;
  is_credit = false;
}

-- A pseudonym that names the kind.
abbrev kind_only : Text → Text → Text
kind_only kind value = kind

masked-rows_example :
    (masked kind_only false false (pointer (struct (rows unpaid_row (owing ∷ []) end)))
      ≡ pointer (struct (rows (λ u. unpaid_row (hidden_identity kind_only u)) (owing ∷ []) end)))
    × (masked kind_only false false
          (pointer (struct (rows (match_row (pos 60000)) (owing ∷ []) end)))
        ≡ pointer (
            struct
              (rows (λ m. match_row (pos 60000) (hidden_identity kind_only m)) (owing ∷ []) end)))
masked-rows_example = masked-rows kind_only (pos 60000) (owing ∷ []) (owing ∷ [])

handle-crossing_example :
    (handle (server 1000) moment reader with_sale).0
    ≡ json (
        result (bytes "1") (
          crossing
            (server 1000)
            moment
            (session src sh (session_id reader))
            (run (server 1000) moment company trial_balance [] with_sale).0))
unfolding authed find_tool default_company
handle-crossing_example =
    handle-crossing (server 1000) moment src-IsSource sh_new reader
      (record { id = bytes "1"; method = bytes "tools/call"; params = reader.body })
      (bytes "pare_trial_balance") [] company trial_balance with_sale refl refl refl refl refl refl

test_run_post_verification :
    (run_post_verification (server 600) moment company [] open_books).0
    ≡ gave (post_result (server 600) moment company (bytes "v1") true false [])
unfolding run_post_verification check_ceiling debit_total wrap ◌+ℤ◌ public_post_verification
test_run_post_verification = refl

run_post_verification_ceiling_example :
    IsPostable sale_args.lines × (debit_sum sale_args.lines ≤ 600)
run_post_verification_ceiling_example =
    run_post_verification_ceiling (server 600) moment company open_books 600 (omega arith) refl []
      sale_args 100 refl refl (omega arith)
      (post_result (server 600) moment company (bytes "v1") true false [])
      test_run_post_verification

run_post_verification_refused_example :
    (run_post_verification (server 400) moment company [] open_books
      ≡ (refused over_ceiling, open_books))
    × (scrub_error codec.message over_ceiling ≡ bytes "internal error")
run_post_verification_refused_example =
    run_post_verification_refused (server 400) moment company open_books 400 (omega arith) refl []
      sale_args 100 refl refl (omega arith) (ground arith) (omega arith)
