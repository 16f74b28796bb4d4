-- ===== src/Auth/Tokens.antt =====
-- The tokens of backend/app/core/security.py and the pair that a login ends with. Hashing and the
-- coding of JWTs are calls of passlib, hashlib and jose.
use kaasb.Common.{
  ℕ, ◌+◌, ◌*◌, Bool, false, Option, [], ◌∷◌, ◌++◌, any, update_row, if◌then◌else◌, not, Text,
  text_eq,
}
use kaasb.Db.{Action, ok, err, ◌>>=◌, ◌>>◌, pure, modify, new_id, integrity, User, RefreshToken}

-- The claim `type`.
pub data TokenType : Type 0 where
  access refresh verify_email password_reset : TokenType

-- The claim `sub`: missing, text that is no UUID, or a user's id.
pub data Subject : Type 0 where
  missing malformed : Subject
  of_user : ℕ → Subject

-- The claims that are read back; `tv` is 0 where it is missing.
pub record Payload : Type 0 where
  pub sub : Subject
  pub token_type : TokenType
  pub tv : ℕ
  pub jti : ℕ
  pub exp : ℕ

-- The calls of the outside libraries, and the settings. A bad signature or an expiry that has passed
-- makes `decode` fail; a hash of a password takes a salt.
pub record Security : Type 0 where
  pub hash_password : ℕ → Text → Text
  pub verify_password : Text → Text → Bool
  pub sha256 : Text → Text
  pub encode : Payload → Text
  pub decode : ℕ → Text → Option Payload
  pub access_token_expire_minutes : ℕ
  pub refresh_token_expire_days : ℕ

abbrev pub seconds_per_day : ℕ
seconds_per_day = 86_400

unfoldable pub create_access_token : Security → ℕ → User → ℕ → Text
create_access_token s now u jti = s.encode (record {
  sub = Subject.of_user u.id;
  token_type = TokenType.access;
  tv = u.token_version;
  jti = jti;
  exp = now + 60 * s.access_token_expire_minutes;
})

unfoldable pub create_refresh_token : Security → ℕ → User → ℕ → Text
create_refresh_token s now u jti = s.encode (record {
  sub = Subject.of_user u.id;
  token_type = TokenType.refresh;
  tv = u.token_version;
  jti = jti;
  exp = now + seconds_per_day * s.refresh_token_expire_days;
})

-- The insert checks that `token_hash` is unique.
abbrev pub add_refresh_token : RefreshToken → Action (Unit {0})
add_refresh_token t db =
    if not (any (λ r. text_eq r.token_hash t.token_hash) db.refresh_tokens)
    then ok (tt, record db { refresh_tokens = db.refresh_tokens ++ t ∷ [] })
    else err integrity

abbrev pub new_session : Security → ℕ → ℕ → ℕ → Text → RefreshToken
new_session s now id user token = record {
  id = id;
  created_at = now;
  updated_at = now;
  token_hash = s.sha256 token;
  user_id = user;
  expires_at = now + seconds_per_day * s.refresh_token_expire_days;
  revoked = false;
}

pub record TokenResponse : Type 0 where
  pub access_token : Text
  pub refresh_token : Text

-- The new pair of tokens, whose refresh token is stored as a hash.
unfoldable pub issue_tokens : Security → ℕ → User → Action TokenResponse
issue_tokens s now u = do
  access_jti ← new_id
  refresh_jti ← new_id
  id ← new_id
  let token = create_refresh_token s now u refresh_jti
  add_refresh_token (new_session s now id u.id token)
  pure (record { access_token = create_access_token s now u access_jti; refresh_token = token })

abbrev pub set_user : ℕ → (User → User) → Action (Unit {0})
set_user k f = modify λ db. record db { users = update_row (λ u. u.id) k f db.users }
