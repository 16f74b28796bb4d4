-- ===== src/Auth/Calls.antt =====
-- The requests to `AuthService` (backend/app/services/auth_service.py) as one type, and a history of
-- them.
use kaasb.Common.{ℕ, Bool, Option, List, [], ◌∷◌, Text}
use kaasb.Db.{Db, request, UserRole}
use kaasb.Auth.Tokens.{Security}
use kaasb.Auth.Login.{login}
use kaasb.Auth.Social.{Alphabet, SocialProvider, SocialAnswer, social_login}
use kaasb.Auth.Sessions.{refresh_tokens, logout, logout_all, revoke_other_sessions, revoke_session}
use kaasb.Auth.Recovery.{verify_email_token, reset_password, send_phone_otp, verify_phone_otp}

pub data Call : Type 0 where
  logs_in : Text → Text → Call
  logs_in_socially : SocialProvider → UserRole → Bool → SocialAnswer → Call
  refreshes : Text → Call
  logs_out : ℕ → Text → Call
  logs_out_all : ℕ → Call
  revokes_others : ℕ → Option Text → Call
  revokes : ℕ → ℕ → Call
  verifies_email : Text → Call
  resets : Bool → Text → Text → Call
  sends_otp verifies_otp : Text → Text → Call

module _ (s : Security) (a : Alphabet) where
  unfoldable pub step : ℕ × Call → Db → Db
  step (now, logs_in email password) = request (login s now email password)
  step (now, logs_in_socially provider role accepted answer) =
      request (social_login s a now provider role accepted answer)
  step (now, refreshes token) = request (refresh_tokens s now token)
  step (now, logs_out user token) = request (logout s now user token)
  step (now, logs_out_all user) = request (logout_all now user)
  step (now, revokes_others user keep) = request (revoke_other_sessions now user keep)
  step (now, revokes user k) = request (revoke_session now user k)
  step (now, verifies_email token) = request (verify_email_token s now token)
  step (now, resets has_redis token password) =
      request (reset_password s now has_redis token password)
  step (now, sends_otp phone otp) = request (send_phone_otp s now phone otp)
  step (now, verifies_otp phone otp) = request (verify_phone_otp s now phone otp)

  unfoldable pub run : List (ℕ × Call) → Db → Db
  run [] db = db
  run (c ∷ cs) db = run cs (step c db)
