-- ===== src/Mcp.antt =====
-- internal/mcp: the books over the Model Context Protocol, for an AI assistant.
--
-- Mcp here is the data of mcp.go: who may ask, what is asked, and how it is answered; Mcp.Tools the tools
-- of tools.go, Mcp.Serve a request from its headers to its reply, Mcp.Ceiling what a posting may sum to.
-- encoding/json, net/http and time.Parse are Go's: a record of functions. A JSON-RPC reply is the data
-- that it is encoded from.
pub mod Tools
pub mod Serve
pub mod Ceiling
mod Examples
use pare.Common.{
  ℕ, zero, suc, ltb, Text, bytes, text_eq, is_empty, has_prefix, length, Bool, true, false, not,
  ◌&&◌, Option, none, some, List, [], ◌∷◌, ◌++◌, map, if◌then◌else◌,
}
use pare.Common.Int.{ℤ, pos, negsuc}
use pare.Crypto.{drop}
use pare.Ledger.Verification.{
  Error, unbalanced, too_few_lines, line_side, no_account, negative, overflow, Line,
}
use pare.Store.{
  AuditRow, StoreError, invalid, period_closed, unknown_account, foreign_company, not_draft, Db,
  Pool, ShieldTokenRow,
}
use pare.Store.Env.{Env}
use pare.Store.Audit.{Actor}
use pare.Store.Views.{default_company}
use pare.Shield.{Shield, Session, State, Source, Answer, failed, done, session}
use pare.Shield.Vaults.{pg_store}
use pare.Shield.Walk.{Value, shield_struct}

-- An error of a tool: one of the store, or one of its own.
pub data ToolError : Type 0 where
  of_store : StoreError → ToolError
  invalid_args bad_date over_ceiling : ToolError

-- The errors that scrubError lets through.
unfoldable pub is_public : ToolError → Bool
is_public (of_store (invalid overflow)) = false
is_public (of_store (invalid e)) = true
is_public (of_store period_closed) = true
is_public (of_store (unknown_account a)) = true
is_public (of_store foreign_company) = true
is_public (of_store not_draft) = true
is_public (of_store e) = false
is_public invalid_args = true
is_public bad_date = true
is_public over_ceiling = false

-- scrubError; `message` is the text of an error.
unfoldable pub scrub_error : (ToolError → Text) → ToolError → Text
unfolding is_public
scrub_error message e = if is_public e then message e else bytes "internal error"

-- The tools that register adds, in their order.
pub data Tool : Type 0 where
  overview unpaid trial_balance moms_report export_sie recent_activity post_verification
        match_payment record_payment :
      Tool

abbrev pub registered : List Tool
registered =
    overview ∷ unpaid ∷ trial_balance ∷ moms_report ∷ export_sie ∷ recent_activity
    ∷ post_verification ∷ match_payment ∷ record_payment ∷ []

unfoldable pub tool_name : Tool → Text
tool_name overview = bytes "pare_financial_overview"
tool_name unpaid = bytes "pare_unpaid_invoices"
tool_name trial_balance = bytes "pare_trial_balance"
tool_name moms_report = bytes "pare_moms_report"
tool_name export_sie = bytes "pare_export_sie"
tool_name recent_activity = bytes "pare_recent_activity"
tool_name post_verification = bytes "pare_post_verification"
tool_name match_payment = bytes "pare_match_payment"
tool_name record_payment = bytes "pare_record_payment"

unfoldable pub is_write : Tool → Bool
is_write post_verification = true
is_write record_payment = true
is_write _ = false

-- The map of tools by their names.
unfoldable pub find_tool : Text → List Tool → Option Tool
unfolding tool_name text_eq
find_tool name [] = none
find_tool name (t ∷ ts) = if text_eq (tool_name t) name then some t else find_tool name ts

pub record Request : Type 0 where
  pub id : Text
  pub method : Text
  pub params : Text

-- The headers that are read, and the body.
pub record HttpRequest : Type 0 where
  pub api_key : Text
  pub authorization : Text
  pub session_id : Text
  pub body : Text

-- A result of a call: the answer to initialize, the list of tools with their read-only hints, and the
-- text of a call with its isError flag.
pub data Result : Type 0 where
  initialized : Result
  tool_list : List (Text × Bool) → Result
  content : Bool → Text → Result

pub data Response : Type 0 where
  result : Text → Result → Response
  protocol_error : Text → ℤ → Text → Response

pub data Reply : Type 0 where
  unauthorized : Reply
  no_content : Reply
  json : Response → Reply

-- What one line of pare_post_verification says.
pub record PostArgs : Type 0 where
  pub series : Text
  pub date : Text
  pub description : Text
  pub dry_run : Bool
  pub lines : List Line

pub record PaymentArgs : Type 0 where
  pub invoice_number : Text
  pub date : Text
  pub received_sek_ore : ℤ
  pub account : Text
  pub dry_run : Bool

-- json.Unmarshal into each struct, json.MarshalIndent, time.Parse, strings.TrimSpace, the texts of
-- errors, and the time that the database gave an entry of the log, as RFC3339.
pub record Codec : Type 0 where
  pub decode_request : Text → Option Request
  pub decode_call : Text → Option (Text × Text)
  -- The two dates, as far as they could be read.
  pub decode_period : Text → Text × Text
  pub decode_post : Text → Option PostArgs
  pub decode_match : Text → Option ℤ
  pub decode_payment : Text → Option PaymentArgs
  pub encode : Value → Option Text
  pub parse_date : Text → Option ℕ
  pub trim_space : Text → Text
  pub message : ToolError → Text
  pub entry_time : AuditRow → Text

-- Server, with what its store is made of.
pub record Server : Type 0 where
  pub env : Env
  pub source : Source
  pub codec : Codec
  pub shield : Shield
  pub api_key : Text
  pub max_write_ore : ℤ

-- What is fixed while a request is served: the connection, the id of a new row, the time, and the
-- number of nonces drawn before.
pub record Moment : Type 0 where
  pub pool : Pool
  pub new_id : Text
  pub now : ℕ
  pub draws : ℕ

-- The key that is presented.
abbrev pub presented : HttpRequest → Text
presented r =
    if not (is_empty r.api_key)
    then r.api_key
    else if ltb (length (bytes "Bearer ")) (length r.authorization)
        && has_prefix r.authorization (bytes "Bearer ")
    then drop (length (bytes "Bearer ")) r.authorization
    else []

-- Server.authed
unfoldable pub authed : Server → HttpRequest → Bool
unfolding text_eq
authed srv r = if is_empty srv.api_key then false else text_eq (presented r) srv.api_key

-- sessionID
unfoldable pub session_id : HttpRequest → Text
session_id r = if is_empty r.session_id then bytes "default" else r.session_id

-- Server.toolList
unfoldable pub tools_listed : List Tool → List (Text × Bool)
unfolding tool_name is_write
tools_listed ts = map (λ t. (tool_name t, not (is_write t))) ts

-- The actor of every write.
abbrev pub assistant : Actor
assistant = record { kind = bytes "ai"; detail = bytes "mcp" }
