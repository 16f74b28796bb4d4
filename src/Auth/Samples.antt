-- ===== src/Auth/Samples.antt =====
-- Sample users, and an instance of the outside calls of backend/app/core/security.py.
use kaasb.Common.{
  ℕ, zero, suc, true, false, Option, none, some, List, [], ◌∷◌, if◌then◌else◌, ltb, Text, text_eq,
}
use kaasb.Db.{Db, User, UserRole, UserStatus, RefreshToken}
use kaasb.Payment.Samples.{empty_db}
use kaasb.Auth.Tokens.{
  Security, Payload, Subject, TokenType, missing, malformed, of_user, access, refresh, verify_email,
  password_reset,
}
use kaasb.Auth.Social.{Alphabet}

abbrev subject_code : Subject → List ℕ
subject_code missing = 0 ∷ 0 ∷ []
subject_code malformed = 1 ∷ 0 ∷ []
subject_code (of_user k) = 2 ∷ k ∷ []

abbrev type_code : TokenType → ℕ
type_code access = 0
type_code refresh = 1
type_code verify_email = 2
type_code password_reset = 3

abbrev subject_of : ℕ → ℕ → Subject
subject_of zero k = missing
subject_of (suc zero) k = malformed
subject_of (suc (suc n)) k = of_user k

abbrev type_of : ℕ → TokenType
type_of zero = access
type_of (suc zero) = refresh
type_of (suc (suc zero)) = verify_email
type_of (suc (suc (suc n))) = password_reset

abbrev sample_encode : Payload → Text
sample_encode p = type_code p.token_type ∷ p.tv ∷ p.jti ∷ p.exp ∷ subject_code p.sub

abbrev sample_decode : ℕ → Text → Option Payload
sample_decode now (kind ∷ tv ∷ jti ∷ exp ∷ sub ∷ k ∷ []) =
    if ltb now exp
    then some (record {
      sub = subject_of sub k;
      token_type = type_of kind;
      tv = tv;
      jti = jti;
      exp = exp;
    })
    else none
sample_decode now _ = none

abbrev pub sample_security : Security
sample_security = record {
  hash_password = λ salt password. password;
  verify_password = text_eq;
  sha256 = λ t. t;
  encode = sample_encode;
  decode = sample_decode;
  access_token_expire_minutes = 30;
  refresh_token_expire_days = 7;
}

abbrev pub sample_alphabet : Alphabet
sample_alphabet = record { lower = λ t. t; is_alnum = λ c. ltb 96 c }

abbrev pub sample_user : User
sample_user = record {
  id = 1;
  email = 97 ∷ [];
  username = 117 ∷ [];
  hashed_password = some (112 ∷ []);
  is_email_verified = true;
  google_id = none;
  facebook_id = none;
  avatar_url = none;
  phone = some (55 ∷ []);
  primary_role = UserRole.client;
  status = UserStatus.active;
  is_superuser = false;
  is_support = false;
  total_earnings = 0;
  total_spent = 0;
  jobs_completed = 0;
  chat_violations = 0;
  chat_suspended_until = none;
  last_login = none;
  is_online = false;
  failed_login_attempts = 0;
  locked_until = none;
  token_version = 0;
  terms_accepted_at = none;
}

-- The refresh token of a session that began at the time 10.
abbrev pub sample_token : Text
sample_token = 1 ∷ 0 ∷ 41 ∷ 604_810 ∷ 2 ∷ 1 ∷ []

abbrev pub sample_session : ℕ → ℕ → Text → RefreshToken
sample_session k at token = record {
  id = k;
  created_at = at;
  updated_at = at;
  token_hash = token;
  user_id = 1;
  expires_at = 604_810;
  revoked = false;
}

-- Two sessions of one user.
abbrev pub users_db : Db
users_db = record empty_db {
  users = sample_user ∷ [];
  refresh_tokens = sample_session 42 10 sample_token ∷ sample_session 43 20 (9 ∷ []) ∷ [];
}
