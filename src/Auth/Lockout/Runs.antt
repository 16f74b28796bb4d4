-- ===== src/Auth/Lockout/Runs.antt =====
-- The locks over any history of requests (backend/app/services/auth_service.py).
use kaasb.Common.{ℕ, ◌≢◌, List, [], ◌∷◌, Text}
use kaasb.Db.{Db, Keeps-request, err, too_many_requests, user_coded}
use kaasb.Auth.Tokens.{Security}
use kaasb.Auth.Login.{login}
use kaasb.Auth.Social.{Alphabet}
use kaasb.Auth.Calls.{
  Call, logs_in, logs_in_socially, refreshes, logs_out, logs_out_all, revokes_others, revokes,
  verifies_email, resets, sends_otp, verifies_otp, step, run,
}
use kaasb.Auth.Lockout.Base.{IsUncounted}
use kaasb.Auth.Lockout.Logins.{Keeps-login, login-unlocked}
use kaasb.Auth.Lockout.Social.{Keeps-social_login}
use kaasb.Auth.Lockout.Sessions.{
  Keeps-refresh_tokens, Keeps-logout, Keeps-logout_all, Keeps-revoke_others, Keeps-revoke_session,
}
use kaasb.Auth.Lockout.Recovery.{
  Keeps-verify_email, Keeps-reset_password, Keeps-send_phone_otp, Keeps-verify_phone_otp,
}

module _ (s : Security) (a : Alphabet) where
  step-IsUncounted : (c : ℕ × Call) (db : Db) → IsUncounted db → IsUncounted (step s a c db)
  unfolding step
  step-IsUncounted (now, logs_in email password) db =
      Keeps-request IsUncounted _ db (Keeps-login s now email password)
  step-IsUncounted (now, logs_in_socially provider role accepted answer) db =
      Keeps-request IsUncounted _ db (Keeps-social_login s a now provider role accepted answer)
  step-IsUncounted (now, refreshes token) db =
      Keeps-request IsUncounted _ db (Keeps-refresh_tokens s now token)
  step-IsUncounted (now, logs_out user token) db =
      Keeps-request IsUncounted _ db (Keeps-logout s now user token)
  step-IsUncounted (now, logs_out_all user) db =
      Keeps-request IsUncounted _ db (Keeps-logout_all s now user)
  step-IsUncounted (now, revokes_others user keep) db =
      Keeps-request IsUncounted _ db (Keeps-revoke_others s now user keep)
  step-IsUncounted (now, revokes user k) db =
      Keeps-request IsUncounted _ db (Keeps-revoke_session s now user k)
  step-IsUncounted (now, verifies_email token) db =
      Keeps-request IsUncounted _ db (Keeps-verify_email s now token)
  step-IsUncounted (now, resets has_redis token password) db =
      Keeps-request IsUncounted _ db (Keeps-reset_password s now has_redis token password)
  step-IsUncounted (now, sends_otp phone otp) db =
      Keeps-request IsUncounted _ db (Keeps-send_phone_otp s now phone otp)
  step-IsUncounted (now, verifies_otp phone otp) db =
      Keeps-request IsUncounted _ db (Keeps-verify_phone_otp s now phone otp)

  run-IsUncounted : (cs : List (ℕ × Call)) (db : Db) → IsUncounted db → IsUncounted (run s a cs db)
  unfolding run
  run-IsUncounted [] db h = h
  run-IsUncounted (c ∷ cs) db h = run-IsUncounted cs (step s a c db) (step-IsUncounted c db h)

  -- From tables where no account is locked or counts a failed login, and no code a wrong guess,
  -- through any history of requests with whatever passwords and codes: no lock is set and nothing
  -- is counted towards one, since the failed attempts are rolled back with the requests that record
  -- them, and after it no login is refused for a lock.
  pub run-never_locks :
      (cs : List (ℕ × Call)) (db : Db)
      → IsUncounted db
      → IsUncounted (run s a cs db)
        × ((now : ℕ) (email password : Text)
            → login s now email password (run s a cs db) ≢ err too_many_requests)
  run-never_locks cs db h =
      let kept = run-IsUncounted cs db h in
      (kept, λ now email password. login-unlocked s now password email (run s a cs db) kept)
