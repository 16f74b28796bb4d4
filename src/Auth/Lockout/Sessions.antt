-- ===== src/Auth/Lockout/Sessions.antt =====
-- The rotation and the end of sessions count nothing towards a lock
-- (backend/app/services/auth_service.py).
use kaasb.Common.{ℕ, Bool, Option, none, some, Text, ◌-◌, not, ltb, length, select, ◌==◌}
use kaasb.Db.{
  Error, pure, gets, Keeps, Keeps-pure, Keeps-gets, Keeps-raise, Keeps-modify, Keeps-raise_if,
  Keeps-or_raise, Keeps-bind, Keeps-find, Keeps-if, User, RefreshToken, raise_if, unauthorized,
  user_coded,
}
use kaasb.Auth.Tokens.{Security, Subject, Payload, missing, malformed, of_user}
use kaasb.Auth.Sessions.{
  revoke_where, session_of, newest, live_rows, rotation_grace_seconds, rotate_found, rotate_subject,
  rotate, refresh_found, refresh_tokens, users_by_id, stored_rows, own_token_rows, end_session,
  logout, is_other, revoke_other_sessions, own_session_rows, end_found, revoke_session,
  is_unrevoked, bump, logout_all, is_refresh,
}
use kaasb.Auth.Lockout.Base.{IsUncounted, Keeps-set_user, Keeps-issue_tokens}

module _ (s : Security) (now : ℕ) where
  pub Keeps-revoke_where : (p : RefreshToken → Bool) → Keeps IsUncounted (revoke_where now p)
  Keeps-revoke_where p =
      Keeps-modify IsUncounted _ λ db c. record { accounts = c.accounts; codes = c.codes }

  pub Keeps-rotate_subject :
      (t : RefreshToken) (x : Subject) → Keeps IsUncounted (rotate_subject s now t x)
  Keeps-rotate_subject t missing = Keeps-raise IsUncounted unauthorized
  Keeps-rotate_subject t malformed = Keeps-raise IsUncounted unauthorized
  Keeps-rotate_subject t (of_user k) =
      Keeps-find IsUncounted (users_by_id k) (rotate_found s now t) λ o. found o
    where
      found : (o : Option User) → Keeps IsUncounted (rotate_found s now t o)
      found none = Keeps-raise IsUncounted unauthorized
      found (some u) =
          Keeps-bind IsUncounted (revoke_where now (λ r. r.id == t.id)) _ (Keeps-revoke_where _)
            λ _. Keeps-issue_tokens s now u

  pub Keeps-rotate : (t : RefreshToken) (p : Option Payload) → Keeps IsUncounted (rotate s now t p)
  Keeps-rotate t none = Keeps-raise IsUncounted unauthorized
  Keeps-rotate t (some p) =
      Keeps-bind IsUncounted (raise_if (not (is_refresh p.token_type)) unauthorized) _
        (Keeps-raise_if IsUncounted _ _) λ _. Keeps-rotate_subject t p.sub

  pub Keeps-session_of : (t : RefreshToken) → Keeps IsUncounted (session_of now t)
  unfolding session_of
  Keeps-session_of t =
      Keeps-if IsUncounted t.revoked _ (pure t)
        (Keeps-bind IsUncounted
          (raise_if (ltb t.updated_at (now - rotation_grace_seconds)) unauthorized) _
          (Keeps-raise_if IsUncounted _ _)
          λ _.
            Keeps-bind IsUncounted (gets λ db. newest (live_rows t.user_id now db)) _
              (Keeps-gets IsUncounted _) λ r. Keeps-or_raise IsUncounted r unauthorized)
        (Keeps-pure IsUncounted t)

  pub Keeps-refresh_tokens : (token : Text) → Keeps IsUncounted (refresh_tokens s now token)
  unfolding refresh_tokens
  Keeps-refresh_tokens token =
      Keeps-find IsUncounted (stored_rows s now token) (refresh_found s now token) λ o. found o
    where
      found : (o : Option RefreshToken) → Keeps IsUncounted (refresh_found s now token o)
      found none = Keeps-raise IsUncounted unauthorized
      found (some t) =
          Keeps-bind IsUncounted (session_of now t) _ (Keeps-session_of t)
            λ x. Keeps-rotate x (s.decode now token)

  pub Keeps-logout : (user : ℕ) (token : Text) → Keeps IsUncounted (logout s now user token)
  unfolding logout
  Keeps-logout user token =
      Keeps-find IsUncounted (own_token_rows s user token) (end_session now) λ o. found o
    where
      found : (o : Option RefreshToken) → Keeps IsUncounted (end_session now o)
      found none = Keeps-pure IsUncounted tt
      found (some t) = Keeps-revoke_where _

  pub Keeps-logout_all : (user : ℕ) → Keeps IsUncounted (logout_all now user)
  unfolding logout_all
  Keeps-logout_all user =
      Keeps-bind IsUncounted (revoke_where now (is_unrevoked user)) _ (Keeps-revoke_where _)
        λ _. Keeps-set_user user bump (λ u c. c)

  pub Keeps-revoke_others :
      (user : ℕ) (keep : Option Text) → Keeps IsUncounted (revoke_other_sessions now user keep)
  unfolding revoke_other_sessions
  Keeps-revoke_others user keep =
      Keeps-bind IsUncounted (gets λ db. select (is_other now user keep) db.refresh_tokens) _
        (Keeps-gets IsUncounted _)
        λ others.
          Keeps-bind IsUncounted (revoke_where now (is_other now user keep)) _
            (Keeps-revoke_where _) λ _. Keeps-pure IsUncounted (length others)

  pub Keeps-revoke_session : (user k : ℕ) → Keeps IsUncounted (revoke_session now user k)
  unfolding revoke_session
  Keeps-revoke_session user k =
      Keeps-find IsUncounted (own_session_rows user k) (end_found now) λ o. found o
    where
      found : (o : Option RefreshToken) → Keeps IsUncounted (end_found now o)
      found none = Keeps-raise IsUncounted Error.not_found
      found (some t) = Keeps-revoke_where _
