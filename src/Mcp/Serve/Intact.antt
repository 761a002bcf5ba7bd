-- ===== src/Mcp/Serve/Intact.antt =====
-- The books after any requests of the assistant (internal/mcp).
use mathlib.Core.Path.{subst}
use pare.Common.{sym, inl, inr, some, List, [], ◌∷◌}
use pare.Store.{Db, ShieldTokenRow}
use pare.Store.Audit.{verify_audit_chain}
use pare.Store.Command.{Command, served}
use pare.Store.Journal.Served.{IsIntact, served-IsIntact}
use pare.Mcp.{HttpRequest, Server, Moment, assistant}
use pare.Mcp.Serve.{handle}
use pare.Mcp.Serve.Effects.{IsSameBooks, after, handle-Effect}

-- The requests of a sequence, each at its moment.
unfoldable pub handles : Server → List (Moment × HttpRequest) → Db → Db
handles srv [] db = db
handles srv ((now, r) ∷ rs) db = handles srv rs (handle srv now r db).1

module _ (srv : Server) where
  with_tokens :
      (db : Db) (tokens : List ShieldTokenRow)
      → IsIntact srv.env db
      → IsIntact srv.env (record db { shield_tokens = tokens })
  unfolding verify_audit_chain
  with_tokens db tokens h = h

  same_books : (db db' : Db) → IsSameBooks db db' → IsIntact srv.env db → IsIntact srv.env db'
  same_books db db' e h = subst (IsIntact srv.env) (sym e) (with_tokens db db'.shield_tokens h)

  after-IsIntact :
      (now : Moment) (c : Command) (db : Db)
      → IsIntact srv.env db
      → IsIntact srv.env (after srv now db c)
  unfolding served
  after-IsIntact now c db h =
      served-IsIntact srv.env (record { actor = some assistant; pool = now.pool; command = c } ∷ [])
        db h

  handle-IsIntact :
      (now : Moment) (r : HttpRequest) (db : Db)
      → IsIntact srv.env db
      → IsIntact srv.env (handle srv now r db).1
  handle-IsIntact now r db h = elim (handle-Effect srv now db r) [
    | inl s ↦ same_books db _ s h
    | inr (inl (p, c, s)) ↦ same_books _ _ s (after-IsIntact now _ db h)
    | inr (inr (co, a, d, acc, c, s)) ↦ same_books _ _ s (after-IsIntact now _ db h)
  ]

  -- However often and with whatever requests the assistant calls, books that are in order stay in order.
  pub handles-IsIntact :
      (rs : List (Moment × HttpRequest)) (db : Db)
      → IsIntact srv.env db
      → IsIntact srv.env (handles srv rs db)
  unfolding handles
  handles-IsIntact [] db h = h
  handles-IsIntact ((now, r) ∷ rs) db h =
      handles-IsIntact rs (handle srv now r db).1 (handle-IsIntact now r db h)
