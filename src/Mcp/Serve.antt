-- ===== src/Mcp/Serve.antt =====
-- internal/mcp/mcp.go: a request from its headers to its reply, and the database after it.
pub mod Effects
pub mod Intact
pub mod Shielded
use pare.Common.{
  ℕ, Text, bytes, text_eq, Bool, true, false, ◌||◌, Option, none, some, List, [], ◌∷◌, ◌++◌,
  if◌then◌else◌,
}
use pare.Common.Int.{negsuc}
use pare.Store.{Db, ShieldTokenRow}
use pare.Store.Views.{default_company}
use pare.Shield.{State, Session, Answer, failed, done, session}
use pare.Shield.Vaults.{pg_store}
use pare.Shield.Walk.{Value, shield_struct}
use pare.Mcp.{
  ToolError, Tool, Request, HttpRequest, Result, initialized, tool_list, content, Response, result,
  protocol_error, Reply, unauthorized, no_content, json, Server, Moment, registered, find_tool,
  scrub_error, authed, session_id, tools_listed,
}
use pare.Mcp.Tools.{Ran, refused, gave, run}

module _ (srv : Server) (now : Moment) where
  -- toolError
  abbrev pub tool_error : Text → Result
  tool_error message = content true message

  abbrev pub encoded : Option Text → Result
  encoded none = tool_error (bytes "encode error")
  encoded (some body) = content false body

  abbrev pub shown : Answer Value → Result
  shown (failed e) = tool_error (bytes "shield error")
  shown (done v) = encoded (srv.codec.encode v)

  -- The vault is the table shield_tokens.
  abbrev pub vault_of : Db → State (List ShieldTokenRow)
  vault_of db = record { vault = db.shield_tokens; draws = now.draws }

  abbrev pub with_vault : Db → Answer Value × State (List ShieldTokenRow) → Result × Db
  with_vault db (a, x) = (shown a, record db { shield_tokens = x.vault })

  -- callTool after the tool has run: its result is shielded before it is encoded.
  abbrev pub delivered : Session → Ran × Db → Result × Db
  delivered s (refused e, db) = (tool_error (scrub_error srv.codec.message e), db)
  delivered s (gave v, db) =
      with_vault db (shield_struct srv.source (pg_store now.now) s v (vault_of db))

  abbrev pub answered : Text → Result × Db → Option Response × Db
  answered id (r, db) = (some (result id r), db)

  abbrev pub called : HttpRequest → Request → Option Tool → Text → Text → Db → Option Response × Db
  called r req none name args db =
      (some (protocol_error req.id (negsuc 32601) (bytes "unknown tool: " ++ name)), db)
  called r req (some t) name args db = elim (default_company db) [
    | none ↦ answered req.id (tool_error (bytes "no company configured yet"), db)
    | some company ↦
        answered req.id
          (delivered (session srv.source srv.shield (session_id r)) (run srv now company t args db))
  ]

  abbrev pub decoded : HttpRequest → Request → Option (Text × Text) → Db → Option Response × Db
  decoded r req none db = (some (protocol_error req.id (negsuc 32601) (bytes "invalid params")), db)
  decoded r req (some (name, args)) db = called r req (find_tool name registered) name args db

  -- Server.callTool
  unfoldable pub call_tool : HttpRequest → Request → Db → Option Response × Db
  call_tool r req db = decoded r req (srv.codec.decode_call req.params) db

  -- Server.dispatch; a notification has no response.
  unfoldable pub dispatch : HttpRequest → Request → Db → Option Response × Db
  dispatch r req db =
      if text_eq req.method (bytes "initialize")
      then (some (result req.id initialized), db)
      else if text_eq req.method (bytes "notifications/initialized")
          || text_eq req.method (bytes "notifications/cancelled")
      then (none, db)
      else if text_eq req.method (bytes "tools/list")
      then (some (result req.id (tool_list (tools_listed registered))), db)
      else if text_eq req.method (bytes "tools/call")
      then call_tool r req db
      else (
        some (protocol_error req.id (negsuc 32600) (bytes "method not found: " ++ req.method)),
        db,
      )

  abbrev pub replied : Option Response × Db → Reply × Db
  replied (none, db) = (no_content, db)
  replied (some resp, db) = (json resp, db)

  abbrev pub read_request : HttpRequest → Option Request → Db → Reply × Db
  read_request r none db = (json (protocol_error [] (negsuc 32699) (bytes "parse error")), db)
  read_request r (some req) db = replied (dispatch r req db)

  -- Server.Handler
  unfoldable pub handle : HttpRequest → Db → Reply × Db
  handle r db =
      if authed srv r
      then read_request r (srv.codec.decode_request r.body) db
      else (unauthorized, db)
