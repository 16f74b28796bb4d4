-- ===== src/Auth/Sessions.antt =====
-- The sessions of `AuthService` (backend/app/services/auth_service.py): reading an access token,
-- rotating a refresh token, and the ways to end a session.
use kaasb.Common.{
  ℕ, suc, ◌-◌, Bool, true, false, Option, none, some, List, [], ◌∷◌, select, map, length,
  if◌then◌else◌, ltb, ◌==◌, ◌&&◌, not, Text, text_eq,
}
use kaasb.Db.{
  Db, Action, ◌>>=◌, ◌>>◌, pure, raise, gets, modify, raise_if, or_raise, find_one, ◌is◌, not_found,
  unauthorized, forbidden, value_error, User, UserStatus, RefreshToken, user_coded,
}
use kaasb.Auth.Tokens.{
  Security, Payload, Subject, TokenType, missing, malformed, of_user, TokenResponse, issue_tokens,
  set_user,
}

abbrev pub users_by_id : ℕ → Db → List User
users_by_id k db = select (λ u. u.id == k) db.users

abbrev pub is_access : TokenType → Bool
is_access TokenType.access = true
is_access _ = false

abbrev pub is_refresh : TokenType → Bool
is_refresh TokenType.refresh = true
is_refresh _ = false

abbrev pub current_found : Payload → Option User → Action User
current_found p none = raise not_found
current_found p (some u) = do
  raise_if (not (u.status is UserStatus.active)) forbidden
  raise_if (not (p.tv == u.token_version)) unauthorized
  pure u

abbrev pub current_subject : Payload → Subject → Action User
current_subject p missing = raise unauthorized
current_subject p malformed = raise value_error
current_subject p (of_user k) = find_one (users_by_id k) >>= current_found p

abbrev pub current_of : Option Payload → Action User
current_of none = raise unauthorized
current_of (some p) = do
  raise_if (not (is_access p.token_type)) unauthorized
  current_subject p p.sub

unfoldable pub get_current_user : Security → ℕ → Text → Action User
get_current_user s now token = current_of (s.decode now token)

-- A token that has been rotated or ended less than a minute ago.
abbrev pub rotation_grace_seconds : ℕ
rotation_grace_seconds = 60

abbrev pub stored_rows : Security → ℕ → Text → Db → List RefreshToken
stored_rows s now token db =
    select (λ t. text_eq t.token_hash (s.sha256 token) && ltb now t.expires_at) db.refresh_tokens

abbrev pub is_live : ℕ → ℕ → RefreshToken → Bool
is_live user now t = (t.user_id == user) && (not t.revoked && ltb now t.expires_at)

abbrev pub live_rows : ℕ → ℕ → Db → List RefreshToken
live_rows user now db = select (is_live user now) db.refresh_tokens

-- `ORDER BY created_at DESC LIMIT 1`
abbrev pub newer : RefreshToken → Option RefreshToken → RefreshToken
newer t none = t
newer t (some r) = if ltb t.created_at r.created_at then r else t

abbrev pub newest : List RefreshToken → Option RefreshToken
newest [] = none
newest (t ∷ ts) = some (newer t (newest ts))

-- The row whose session goes on: the token's own, or within the grace the newest live one.
unfoldable pub session_of : ℕ → RefreshToken → Action RefreshToken
session_of now t =
    if t.revoked
    then (do
      raise_if (ltb t.updated_at (now - rotation_grace_seconds)) unauthorized
      replacement ← gets λ db. newest (live_rows t.user_id now db)
      or_raise replacement unauthorized)
    else pure t

-- A row that is revoked already is not written again.
abbrev pub revoke : ℕ → RefreshToken → RefreshToken
revoke now t = record t { revoked = true; updated_at = if t.revoked then t.updated_at else now }

abbrev pub revoke_where : ℕ → (RefreshToken → Bool) → Action (Unit {0})
revoke_where now p = modify λ db. record db {
  refresh_tokens = map (λ t. if p t then revoke now t else t) db.refresh_tokens;
}

abbrev pub rotate_found : Security → ℕ → RefreshToken → Option User → Action TokenResponse
rotate_found s now t none = raise unauthorized
rotate_found s now t (some u) = do revoke_where now (λ r. r.id == t.id); issue_tokens s now u

abbrev pub rotate_subject : Security → ℕ → RefreshToken → Subject → Action TokenResponse
rotate_subject s now t missing = raise unauthorized
rotate_subject s now t malformed = raise unauthorized
rotate_subject s now t (of_user k) = find_one (users_by_id k) >>= rotate_found s now t

abbrev pub rotate : Security → ℕ → RefreshToken → Option Payload → Action TokenResponse
rotate s now t none = raise unauthorized
rotate s now t (some p) = do
  raise_if (not (is_refresh p.token_type)) unauthorized
  rotate_subject s now t p.sub

abbrev pub refresh_found : Security → ℕ → Text → Option RefreshToken → Action TokenResponse
refresh_found s now token none = raise unauthorized
refresh_found s now token (some stored) = do
  t ← session_of now stored
  rotate s now t (s.decode now token)

unfoldable pub refresh_tokens : Security → ℕ → Text → Action TokenResponse
refresh_tokens s now token = find_one (stored_rows s now token) >>= refresh_found s now token

abbrev pub own_token_rows : Security → ℕ → Text → Db → List RefreshToken
own_token_rows s user token db =
    select (λ t. text_eq t.token_hash (s.sha256 token) && (t.user_id == user)) db.refresh_tokens

abbrev pub end_session : ℕ → Option RefreshToken → Action (Unit {0})
end_session now none = pure tt
end_session now (some t) = revoke_where now (λ r. r.id == t.id)

unfoldable pub logout : Security → ℕ → ℕ → Text → Action (Unit {0})
logout s now user token = find_one (own_token_rows s user token) >>= end_session now

unfoldable pub list_sessions : ℕ → ℕ → Action (List RefreshToken)
list_sessions now user = gets (live_rows user now)

-- The token of the device that stays, if its cookie was sent.
abbrev pub is_kept : Option Text → RefreshToken → Bool
is_kept none t = false
is_kept (some h) t = text_eq t.token_hash h

abbrev pub is_other : ℕ → ℕ → Option Text → RefreshToken → Bool
is_other now user keep t = is_live user now t && not (is_kept keep t)

unfoldable pub revoke_other_sessions : ℕ → ℕ → Option Text → Action ℕ
revoke_other_sessions now user keep = do
  others ← gets λ db. select (is_other now user keep) db.refresh_tokens
  revoke_where now (is_other now user keep)
  pure (length others)

abbrev pub own_session_rows : ℕ → ℕ → Db → List RefreshToken
own_session_rows user k db = select (λ t. (t.id == k) && (t.user_id == user)) db.refresh_tokens

abbrev pub end_found : ℕ → Option RefreshToken → Action (Unit {0})
end_found now none = raise not_found
end_found now (some t) = revoke_where now (λ r. r.id == t.id)

unfoldable pub revoke_session : ℕ → ℕ → ℕ → Action (Unit {0})
revoke_session now user k = find_one (own_session_rows user k) >>= end_found now

abbrev pub is_unrevoked : ℕ → RefreshToken → Bool
is_unrevoked user t = (t.user_id == user) && not t.revoked

abbrev pub bump : User → User
bump u = record u { token_version = suc u.token_version }

unfoldable pub logout_all : ℕ → ℕ → Action (Unit {0})
logout_all now user = do revoke_where now (is_unrevoked user); set_user user bump
