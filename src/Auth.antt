-- ===== src/Auth.antt =====
-- internal/auth/auth.go: the operators and their sessions. bcrypt, the random token and the time are of
-- Go: functions and arguments. The cookies themselves are I/O.
pub mod Sessions
pub mod Examples
use pare.Common.{
  ℕ, ◌+◌, ◌*◌, ltb, Text, bytes, text_eq, is_empty, not, Bool, true, false, Option, none, some,
  List, [], ◌∷◌, ◌++◌, length, ◌==◌, if◌then◌else◌,
}
use pare.Store.{find_row, any_row, without}

pub record UserRow : Type 0 where
  pub id : Text
  pub email : Text
  pub password_hash : Text
  pub role : Text

-- sessions; a time is a number of seconds.
pub record SessionRow : Type 0 where
  pub token : Text
  pub user_id : Text
  pub expires_at : ℕ

pub record Accounts : Type 0 where
  pub users : List UserRow
  pub sessions : List SessionRow

pub record Bcrypt : Type 0 where
  -- GenerateFromPassword with its salt, and whether CompareHashAndPassword answers nil.
  pub generate : Text → Text → Option Text
  pub matches : Text → Text → Bool

pub data AuthError : Type 0 where
  invalid_credentials hash_failed user_exists session_exists : AuthError

pub data Answer (A : Type 0) : Type 0 where
  failed : AuthError → Answer A
  done : A → Answer A

-- sessionTTL, 12 hours
abbrev pub session_ttl : ℕ
session_ttl = 43200

pub record SessionInfo : Type 0 where
  pub user_id : Text
  pub email : Text
  pub role : Text

-- SessionInfo.IsOwner
unfoldable pub is_owner : SessionInfo → Bool
unfolding text_eq
is_owner info = not (text_eq info.role (bytes "viewer"))

-- Auth.HasUsers
unfoldable pub has_users : Accounts → Bool
has_users a = ltb 0 (length a.users)

abbrev pub has_email : Text → UserRow → Bool
has_email email u = text_eq u.email email

abbrev pub has_user_id : Text → UserRow → Bool
has_user_id id u = text_eq u.id id

abbrev pub has_token : Text → SessionRow → Bool
has_token token s = text_eq s.token token

module _ (crypt : Bcrypt) where
  -- InsertUser: an email is unique.
  abbrev inserted : Text → Text → Text → Option Text → Accounts → Answer (Unit {0}) × Accounts
  inserted id email role none a = (failed hash_failed, a)
  inserted id email role (some hash) a =
      if any_row (has_email email) a.users then (failed user_exists, a) else (
        done tt,
        record a {
          users =
              a.users ++ record { id = id; email = email; password_hash = hash; role = role } ∷ [];
        },
      )

  -- Auth.CreateUser; the row gets `id`.
  unfoldable pub create_user :
      Text → Text → Text → Text → Text → Accounts → Answer (Unit {0}) × Accounts
  unfolding text_eq
  create_user id salt email password role a =
      let granted = if text_eq role (bytes "viewer") then role else bytes "owner" in
      inserted id email granted (crypt.generate salt password) a

  abbrev opened : Text → ℕ → UserRow → Accounts → Answer Text × Accounts
  opened token now u a =
      if any_row (has_token token) a.sessions then (failed session_exists, a) else (
        done token,
        record a {
          sessions =
              a.sessions
              ++ record { token = token; user_id = u.id; expires_at = now + session_ttl } ∷ [];
        },
      )

  abbrev checked : Text → Text → ℕ → Option UserRow → Accounts → Answer Text × Accounts
  checked token password now none a = (failed invalid_credentials, a)
  checked token password now (some u) a =
      if crypt.matches u.password_hash password
      then opened token now u a
      else (failed invalid_credentials, a)

  -- Auth.Login; `token` is what randToken gives.
  unfoldable pub login : Text → ℕ → Text → Text → Accounts → Answer Text × Accounts
  unfolding text_eq
  login token now email password a =
      checked token password now (find_row (has_email email) a.users) a

-- Auth.Logout
unfoldable pub logout : Text → Accounts → Accounts
unfolding text_eq
logout token a = record a { sessions = without (has_token token) a.sessions }

abbrev info_of : Option UserRow → Option SessionInfo
info_of none = none
info_of (some u) = some (record { user_id = u.id; email = u.email; role = u.role })

abbrev live : ℕ → List UserRow → Option SessionRow → Option SessionInfo
live now users none = none
live now users (some s) =
    if ltb s.expires_at now then none else info_of (find_row (has_user_id s.user_id) users)

-- Auth.Validate
unfoldable pub validate : Text → ℕ → Accounts → Option SessionInfo
unfolding text_eq
validate token now a =
    if is_empty token then none else live now a.users (find_row (has_token token) a.sessions)

-- DeleteExpiredSessions of Store.Sweep
unfoldable pub sweep_sessions : ℕ → Accounts → Accounts
sweep_sessions now a = record a {
  sessions = without (λ (s : SessionRow). ltb s.expires_at now) a.sessions;
}
