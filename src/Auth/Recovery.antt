-- ===== src/Auth/Recovery.antt =====
-- The links sent by mail and the codes sent to a phone (backend/app/services/auth_service.py).
use kaasb.Common.{
  ℕ, suc, ◌+◌, ◌-◌, Bool, true, false, Option, none, some, List, [], ◌∷◌, select, any, length,
  update_row, if◌then◌else◌, ltb, leb, ◌==◌, ◌&&◌, ◌++◌, not, Text, text_eq, holds_text, strip,
}
use kaasb.Db.{
  Db, Action, ◌>>=◌, ◌>>◌, pure, raise, gets, modify, raise_if, when, find_one, new_id, ◌is◌,
  not_found, bad_request, unauthorized, too_many_requests, value_error, User, UserStatus, PhoneOtp,
  user_coded,
}
use kaasb.Auth.Tokens.{
  Security, Payload, Subject, TokenType, missing, malformed, of_user, TokenResponse, issue_tokens,
  set_user,
}
use kaasb.Auth.Login.{log_in}
use kaasb.Auth.Sessions.{users_by_id, revoke_where, is_unrevoked, bump}

abbrev pub is_verify_email : TokenType → Bool
is_verify_email TokenType.verify_email = true
is_verify_email _ = false

abbrev pub is_password_reset : TokenType → Bool
is_password_reset TokenType.password_reset = true
is_password_reset _ = false

-- `_get_user_by_id(payload["sub"])`: a missing claim is a `KeyError`.
abbrev pub find_subject : {A : Type 0} → Subject → (Option User → Action A) → Action A
find_subject missing f = raise value_error
find_subject malformed f = raise value_error
find_subject (of_user k) f = find_one (users_by_id k) >>= f

abbrev pub verify_user : User → User
verify_user u = record u { is_email_verified = true; status = UserStatus.active }

abbrev pub verify_found : Option User → Action (Unit {0})
verify_found none = raise not_found
verify_found (some u) = if u.is_email_verified then pure tt else set_user u.id verify_user

abbrev pub verify_payload : Option Payload → Action (Unit {0})
verify_payload none = raise bad_request
verify_payload (some p) = do
  raise_if (not (is_verify_email p.token_type)) bad_request
  find_subject p.sub verify_found

unfoldable pub verify_email_token : Security → ℕ → Text → Action (Unit {0})
verify_email_token s now token = verify_payload (s.decode now token)

abbrev pub has_password : Security → Text → Option Text → Bool
has_password s password none = false
has_password s password (some h) = s.verify_password password h

abbrev pub set_password : Text → User → User
set_password h u = bump (record u { hashed_password = some h })

abbrev pub mark_jti : ℕ → Action (Unit {0})
mark_jti jti = modify λ db. record db { used_reset_jtis = jti ∷ db.used_reset_jtis }

-- `has_redis` says whether Redis answers; without it a link is neither looked up nor marked.
unfoldable pub reset_found : Security → ℕ → Bool → Text → Payload → Option User → Action (Unit {0})
reset_found s now has_redis password p none = raise not_found
reset_found s now has_redis password p (some u) = do
  raise_if (has_password s password u.hashed_password) bad_request
  salt ← new_id
  revoke_where now (is_unrevoked u.id)
  set_user u.id (set_password (s.hash_password salt password))
  when has_redis (mark_jti p.jti)

abbrev pub is_used_jti : Bool → ℕ → Db → Bool
is_used_jti has_redis jti db = has_redis && any (λ j. j == jti) db.used_reset_jtis

abbrev pub reset_payload : Security → ℕ → Bool → Text → Option Payload → Action (Unit {0})
reset_payload s now has_redis password none = raise bad_request
reset_payload s now has_redis password (some p) = do
  raise_if (not (is_password_reset p.token_type)) bad_request
  used ← gets (is_used_jti has_redis p.jti)
  raise_if used bad_request
  find_subject p.sub (reset_found s now has_redis password p)

unfoldable pub reset_password : Security → ℕ → Bool → Text → Text → Action (Unit {0})
reset_password s now has_redis token password =
    reset_payload s now has_redis password (s.decode now token)

abbrev pub users_by_phone : Text → Db → List User
users_by_phone phone db =
    select (λ u. holds_text u.phone phone && (u.status is UserStatus.active)) db.users

abbrev pub recent_otps : Text → ℕ → Db → List PhoneOtp
recent_otps phone now db =
    select (λ o. text_eq o.phone phone && ltb (now - 600) o.created_at) db.phone_otps

abbrev pub new_otp : Security → ℕ → ℕ → Text → Text → PhoneOtp
new_otp s id now phone otp = record {
  id = id;
  created_at = now;
  phone = phone;
  otp_hash = s.sha256 otp;
  expires_at = now + 600;
  is_used = false;
  attempts = 0;
}

abbrev pub add_otp : PhoneOtp → Action (Unit {0})
add_otp o = modify λ db. record db { phone_otps = db.phone_otps ++ o ∷ [] }

abbrev pub send_found : Security → ℕ → Text → Text → Option User → Action (Unit {0})
send_found s now phone otp none = pure tt
send_found s now phone otp (some u) = do
  recent ← gets (recent_otps phone now)
  raise_if (leb 3 (length recent)) too_many_requests
  id ← new_id
  add_otp (new_otp s id now phone otp)

-- `otp` is the six digits that the CSPRNG drew; their delivery is not modelled.
unfoldable pub send_phone_otp : Security → ℕ → Text → Text → Action (Unit {0})
send_phone_otp s now phone otp =
    let number = strip phone in find_one (users_by_phone number) >>= send_found s now number otp

-- `ORDER BY created_at DESC LIMIT 1`
abbrev pub newest_of : PhoneOtp → Option PhoneOtp → PhoneOtp
newest_of o none = o
newest_of o (some r) = if ltb o.created_at r.created_at then r else o

abbrev pub newest_otp : List PhoneOtp → Option PhoneOtp
newest_otp [] = none
newest_otp (o ∷ os) = some (newest_of o (newest_otp os))

abbrev pub is_open_otp : ℕ → Text → PhoneOtp → Bool
is_open_otp now phone o = text_eq o.phone phone && (ltb now o.expires_at && not o.is_used)

abbrev pub matching_otps : ℕ → Text → Text → Db → List PhoneOtp
matching_otps now phone hash db =
    select (λ o. is_open_otp now phone o && text_eq o.otp_hash hash) db.phone_otps

abbrev pub set_otp : ℕ → (PhoneOtp → PhoneOtp) → Action (Unit {0})
set_otp k f = modify λ db. record db { phone_otps = update_row (λ o. o.id) k f db.phone_otps }

-- The fifth wrong code closes the row.
abbrev pub miss : PhoneOtp → PhoneOtp
miss o = record o {
  attempts = suc o.attempts;
  is_used = if leb 5 (suc o.attempts) then true else o.is_used;
}

abbrev pub count_miss : Option PhoneOtp → Action (Unit {0})
count_miss none = pure tt
count_miss (some o) = set_otp o.id miss

abbrev pub otp_user : Security → ℕ → Option User → Action TokenResponse
otp_user s now none = raise unauthorized
otp_user s now (some u) = do set_user u.id (log_in now); issue_tokens s now u

-- A wrong code is counted, and the exception that follows rolls the request back.
abbrev pub verify_otp : Security → ℕ → Text → Option PhoneOtp → Action TokenResponse
verify_otp s now phone none = do
  recent ← gets λ db. newest_otp (select (is_open_otp now phone) db.phone_otps)
  count_miss recent
  raise unauthorized
verify_otp s now phone (some o) = do
  set_otp o.id (λ x. record x { is_used = true })
  find_one (users_by_phone phone) >>= otp_user s now

unfoldable pub verify_phone_otp : Security → ℕ → Text → Text → Action TokenResponse
verify_phone_otp s now phone otp = do
  let number = strip phone
  found ← gets λ db. newest_otp (matching_otps now number (s.sha256 otp) db)
  verify_otp s now number found
