-- ===== src/Auth/Examples.antt =====
-- A user who logs in, on a stand-in for bcrypt that keeps passwords as they are.
use pare.Common.{◌≡◌, refl, bytes, text_eq, true, none, some, [], ◌∷◌, arith}
use pare.Store.{find_row}
use pare.Auth.{
  UserRow, Accounts, Bcrypt, failed, done, invalid_credentials, create_user, login, logout,
  validate, sweep_sessions, has_email, has_user_id, info_of,
}
use pare.Auth.Sessions.{login-validate}

abbrev crypt : Bcrypt
crypt = record { generate = λ salt password. some password; matches = text_eq }

abbrev no_accounts : Accounts
no_accounts = record { users = []; sessions = [] }

abbrev pub auditor : UserRow
auditor = record {
  id = bytes "u2";
  email = bytes "revisor@exempel.se";
  password_hash = bytes "hemlig";
  role = bytes "viewer";
}

abbrev pub owner : UserRow
owner = record {
  id = bytes "u1";
  email = bytes "anna@exempel.se";
  password_hash = bytes "lösen";
  role = bytes "owner";
}

abbrev pub accounts : Accounts
accounts = record {
  users = owner ∷ auditor ∷ [];
  sessions = record { token = bytes "t0"; user_id = bytes "u2"; expires_at = 900 } ∷ [];
}

abbrev pub logged_in : Accounts
logged_in = record accounts {
  sessions =
      record { token = bytes "t0"; user_id = bytes "u2"; expires_at = 900 }
      ∷ record { token = bytes "t1"; user_id = bytes "u1"; expires_at = 43700 }
      ∷ [];
}

-- A role other than viewer becomes owner.
test_create_user :
    (create_user crypt
      (bytes "u1")
      []
      (bytes "anna@exempel.se")
      (bytes "lösen")
      (bytes "admin")
      no_accounts).1.users
    ≡ owner ∷ []
unfolding create_user text_eq
test_create_user = refl

test_login :
    login crypt (bytes "t1") 500 (bytes "anna@exempel.se") (bytes "lösen") accounts
    ≡ (done (bytes "t1"), logged_in)
unfolding login text_eq
test_login = refl

test_login_wrong :
    login crypt (bytes "t1") 500 (bytes "anna@exempel.se") (bytes "losen") accounts
    ≡ (failed invalid_credentials, accounts)
unfolding login text_eq
test_login_wrong = refl

test_sweep_sessions : (sweep_sessions 901 accounts).sessions ≡ []
unfolding sweep_sessions
test_sweep_sessions = refl

login-validate_example :
    (u : UserRow) × (find_row (has_email (bytes "anna@exempel.se")) accounts.users ≡ some u)
    × (text_eq u.password_hash (bytes "lösen") ≡ true)
    × (bytes "t1" ≡ bytes "t1")
    × (validate (bytes "t1") 43700 logged_in ≡ info_of (find_row (has_user_id u.id) accounts.users))
    × (validate (bytes "t1") 43700 (logout (bytes "t1") logged_in) ≡ none)
    × (validate (bytes "t0") 43700 logged_in ≡ validate (bytes "t0") 43700 accounts)
    × (validate (bytes "t0") 43700 (logout (bytes "t1") logged_in)
        ≡ validate (bytes "t0") 43700 accounts)
login-validate_example =
    login-validate crypt (bytes "t1") 500 (bytes "anna@exempel.se") (bytes "lösen") accounts
      logged_in (bytes "t1") 43700 (bytes "t0") refl (λ e. absurd (ground arith)) test_login
