-- ===== src/Handler.antt =====
-- internal/handler: which requests of the web pages reach a handler (csrf.go, and the middleware of
-- web.go that server.go mounts in front of the pages of a company). A handler is a function; routing,
-- rate limits, headers, cookies and the text of the pages are of Go's libraries or I/O.
pub mod Gate
mod Examples
use pare.Common.{
  ℕ, Text, bytes, text_eq, is_empty, not, ◌&&◌, ◌||◌, Bool, true, false, Option, none, some, List,
  [], ◌∷◌, ◌++◌, if◌then◌else◌,
}
use pare.Store.{Db}
use pare.Store.Audit.{Actor}
use pare.Store.Views.{default_company}
use pare.Auth.{Accounts, SessionInfo, is_owner, validate}

-- What the middleware reads of a request: the method, the two cookies if there are any, and the field
-- "csrf" of the form.
pub record Request : Type 0 where
  pub method : Text
  pub csrf_cookie : Option Text
  pub session_cookie : Option Text
  pub csrf_field : Text

-- The context that a handler gets.
pub record Context : Type 0 where
  pub csrf : Text
  pub session : SessionInfo
  pub company : Text
  pub actor : Actor

-- An answer of the middleware, or of the handler.
pub data Answer (A : Type 0) : Type 0 where
  invalid_csrf_token to_login to_setup read_only : Answer A
  handled : A → Answer A

-- safeMethod
unfoldable pub safe_method : Text → Bool
unfolding text_eq
safe_method m =
    text_eq m (bytes "GET")
    || text_eq m (bytes "HEAD")
    || text_eq m (bytes "OPTIONS")
    || text_eq m (bytes "TRACE")

abbrev from_cookie : Text → Option Text → Text
from_cookie fresh none = fresh
from_cookie fresh (some c) = if is_empty c then fresh else c

module _ {A : Type 0} (accounts : Accounts) (db : Db) (now : ℕ) (fresh : Text) where
  -- Server.csrfProtect; `fresh` is what randToken gives.
  unfoldable pub csrf_protect : (Text → Request → Answer A) → Request → Answer A
  unfolding text_eq
  csrf_protect next r =
      let token = from_cookie fresh r.csrf_cookie in
      if not (safe_method r.method) && (is_empty r.csrf_field || not (text_eq r.csrf_field token))
      then invalid_csrf_token
      else next token r

  abbrev in_company :
      (Context → Request → Answer A) → Text → SessionInfo → Option Text → Request → Answer A
  in_company next csrf info none r = to_setup
  in_company next csrf info (some company) r =
      next
        (record {
          csrf = csrf;
          session = info;
          company = company;
          actor = record { kind = bytes "user"; detail = info.email };
        })
        r

  abbrev in_session :
      (Context → Request → Answer A) → Text → Option SessionInfo → Request → Answer A
  in_session next csrf none r = to_login
  in_session next csrf (some info) r = in_company next csrf info (default_company db) r

  abbrev with_cookie : (Context → Request → Answer A) → Text → Option Text → Request → Answer A
  with_cookie next csrf none r = to_login
  with_cookie next csrf (some c) r = in_session next csrf (validate c now accounts) r

  -- Server.requireSession
  unfoldable pub require_session : (Context → Request → Answer A) → Text → Request → Answer A
  require_session next csrf r = with_cookie next csrf r.session_cookie r

  -- Server.blockViewerWrites
  unfoldable pub block_viewer_writes : (Context → Request → Answer A) → Context → Request → Answer A
  block_viewer_writes next ctx r =
      if not (safe_method r.method) && not (is_owner ctx.session) then read_only else next ctx r

  -- The middleware of the inner group of Server.Routes, in its order, in front of a handler.
  unfoldable pub page : (Context → Request → A) → Request → Answer A
  page handler =
      csrf_protect (require_session (block_viewer_writes (λ ctx r. handled (handler ctx r))))
