-- ===== src/Handler/Examples.antt =====
-- Requests to a page that answers with the email of its user.
use pare.Common.{ℕ, ◌≡◌, refl, Text, bytes, text_eq, none, some, []}
use pare.Store.Views.{default_company}
use pare.Store.Examples.{open_books}
use pare.Auth.{validate, is_owner}
use pare.Auth.Examples.{logged_in}
use pare.Handler.{
  Request, Context, Answer, handled, invalid_csrf_token, to_login, read_only, safe_method,
  csrf_protect, require_session, block_viewer_writes, page,
}
use pare.Handler.Gate.{IsOwnForm, IsAllowed, page_handled}

abbrev email_of : Context → Request → Text
email_of ctx r = ctx.session.email

abbrev reading : Request
reading = record {
  method = bytes "GET";
  csrf_cookie = none;
  session_cookie = some (bytes "t0");
  csrf_field = [];
}

abbrev writing : Request
writing = record reading {
  method = bytes "POST";
  csrf_cookie = some (bytes "f1");
  csrf_field = bytes "f1";
}

abbrev by_owner : Request
by_owner = record writing { session_cookie = some (bytes "t1") }

abbrev served : Request → ℕ → Answer Text
served r now = page logged_in open_books now (bytes "f2") email_of r

test_reading : served reading 600 ≡ handled (bytes "revisor@exempel.se")
unfolding page csrf_protect require_session block_viewer_writes safe_method text_eq validate
    default_company is_owner
test_reading = refl

test_expired : served reading 901 ≡ to_login
unfolding page csrf_protect require_session block_viewer_writes safe_method text_eq validate
    default_company is_owner
test_expired = refl

test_viewer_writes : served writing 600 ≡ read_only
unfolding page csrf_protect require_session block_viewer_writes safe_method text_eq validate
    default_company is_owner
test_viewer_writes = refl

test_forged : served (record writing { csrf_field = bytes "f3" }) 600 ≡ invalid_csrf_token
unfolding page csrf_protect require_session block_viewer_writes safe_method text_eq validate
    default_company is_owner
test_forged = refl

test_owner_writes : served by_owner 600 ≡ handled (bytes "anna@exempel.se")
unfolding page csrf_protect require_session block_viewer_writes safe_method text_eq validate
    default_company is_owner
test_owner_writes = refl

page_handled_example :
    IsOwnForm logged_in open_books 600 (bytes "f2") email_of by_owner
    × ((ctx : Context) × IsAllowed logged_in open_books 600 (bytes "f2") email_of by_owner ctx
        × (bytes "anna@exempel.se" ≡ ctx.session.email))
page_handled_example =
    page_handled logged_in open_books 600 (bytes "f2") email_of by_owner (bytes "anna@exempel.se")
      test_owner_writes
