-- ===== src/Auth/Login.antt =====
-- `AuthService.login` (backend/app/services/auth_service.py): the lock, the password and the tokens.
use kaasb.Common.{
  ℕ, suc, ◌+◌, Bool, true, false, Option, none, some, List, select, if◌then◌else◌, ltb, leb, Text,
  text_eq,
}
use kaasb.Db.{
  Db, Action, ◌>>=◌, ◌>>◌, raise, raise_if, find_one, ◌is◌, unauthorized, too_many_requests,
  forbidden, User, UserStatus, user_coded,
}
use kaasb.Auth.Tokens.{Security, TokenResponse, issue_tokens, set_user}

abbrev pub users_by_email : Text → Db → List User
users_by_email email db = select (λ u. text_eq u.email email) db.users

-- `t and t > now`
abbrev pub is_after : ℕ → Option ℕ → Bool
is_after now none = false
is_after now (some t) = ltb now t

-- A wrong password: the tenth in a row locks the account for half an hour.
abbrev pub fail_attempt : ℕ → User → User
fail_attempt now u = record u {
  failed_login_attempts = suc u.failed_login_attempts;
  locked_until =
      if leb 10 (suc u.failed_login_attempts) then some (now + 1_800) else u.locked_until;
}

abbrev pub log_in : ℕ → User → User
log_in now u = record u { last_login = some now; is_online = true }

abbrev pub clear_attempts : User → User
clear_attempts u = record u { failed_login_attempts = 0; locked_until = none }

unfoldable pub login_verified : Security → ℕ → User → Action TokenResponse
login_verified s now u = do
  raise_if (u.status is UserStatus.suspended) forbidden
  set_user u.id (λ x. log_in now (clear_attempts x))
  issue_tokens s now u

-- The count is flushed, and the exception that follows rolls the request back.
abbrev pub login_refused : ℕ → User → Action TokenResponse
login_refused now u = set_user u.id (fail_attempt now) >> raise unauthorized

-- An account of a social login has no password.
abbrev pub login_with : Security → ℕ → User → Text → Option Text → Action TokenResponse
login_with s now u password none = raise unauthorized
login_with s now u password (some hashed) =
    if s.verify_password password hashed then login_verified s now u else login_refused now u

abbrev pub login_found : Security → ℕ → Text → Option User → Action TokenResponse
login_found s now password none = raise unauthorized
login_found s now password (some u) = do
  raise_if (is_after now u.locked_until) too_many_requests
  login_with s now u password u.hashed_password

unfoldable pub login : Security → ℕ → Text → Text → Action TokenResponse
login s now email password = find_one (users_by_email email) >>= login_found s now password
