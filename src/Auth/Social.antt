-- ===== src/Auth/Social.antt =====
-- `AuthService.social_login` (backend/app/services/auth_service.py). What the provider answers to
-- `_verify_google_token` and `_verify_facebook_token` is an argument.
use kaasb.Common.{
  ℕ, zero, suc, Bool, true, false, Option, none, some, List, [], ◌∷◌, ◌++◌, select, any, length,
  if◌then◌else◌, ◌==◌, ◌&&◌, ◌||◌, not, Text, take, text_eq, holds_text, digits,
}
use kaasb.Db.{
  Db, Action, ok, err, ◌>>=◌, ◌>>◌, pure, raise, gets, raise_if, or_raise, find_one, new_id, ◌is◌,
  bad_request, unauthorized, forbidden, service_unavailable, integrity, User, UserRole, UserStatus,
  user_coded,
}
use kaasb.Auth.Tokens.{Security, TokenResponse, issue_tokens, set_user}
use kaasb.Auth.Login.{users_by_email, log_in}

pub data SocialProvider : Type 0 where
  google facebook unsupported : SocialProvider

pub record Profile : Type 0 where
  pub social_id : Text
  pub email : Text
  pub first_name : Text
  pub last_name : Text
  pub avatar_url : Option Text

-- The profile, an answer that refuses the token, or no answer.
pub data SocialAnswer : Type 0 where
  profile : Profile → SocialAnswer
  invalid unreachable : SocialAnswer

-- Python's tables of Unicode: `str.lower`, and `str.isalnum` of one character.
pub record Alphabet : Type 0 where
  pub lower : Text → Text
  pub is_alnum : ℕ → Bool

abbrev pub is_empty : Text → Bool
is_empty [] = true
is_empty (c ∷ cs) = false

abbrev pub or_user : Text → Text
or_user [] = b'u' ∷ b's' ∷ b'e' ∷ b'r' ∷ []
or_user (c ∷ cs) = c ∷ cs

abbrev pub base_username : Alphabet → Text → Text → Text
base_username a first last =
    or_user (take 20 (select (λ c. a.is_alnum c || (c == b'_')) (a.lower (first ++ b'_' ∷ last))))

-- The names that are tried, in their order.
abbrev pub candidate : Text → ℕ → Text
candidate base zero = base
candidate base (suc k) = base ++ digits (suc k)

abbrev pub is_taken : Text → List User → Bool
is_taken name us = any (λ u. text_eq u.username name) us

-- The loop from the counter `k`: the first name that is not taken.
unfoldable pub first_free : ℕ → ℕ → (ℕ → Bool) → (ℕ → Text) → Option Text
first_free zero k taken name = none
first_free (suc f) k taken name =
    let rest = first_free f (suc k) taken name in if taken k then rest else some (name k)

-- One try more than there are users.
unfoldable pub free_username : Text → List User → Option Text
free_username base us =
    first_free (suc (length us)) 0 (λ k. is_taken (candidate base k) us) (candidate base)

abbrev pub google_id_of : SocialProvider → Text → Option Text
google_id_of google id = some id
google_id_of _ id = none

abbrev pub facebook_id_of : SocialProvider → Text → Option Text
facebook_id_of facebook id = some id
facebook_id_of _ id = none

abbrev pub new_user : ℕ → ℕ → SocialProvider → UserRole → Text → Profile → User
new_user id now provider role name p = record {
  id = id;
  email = p.email;
  username = name;
  hashed_password = none;
  is_email_verified = true;
  google_id = google_id_of provider p.social_id;
  facebook_id = facebook_id_of provider p.social_id;
  avatar_url = p.avatar_url;
  phone = none;
  primary_role = role;
  status = UserStatus.active;
  is_superuser = false;
  is_support = false;
  total_earnings = 0;
  total_spent = 0;
  jobs_completed = 0;
  chat_violations = 0;
  chat_suspended_until = none;
  last_login = none;
  is_online = false;
  failed_login_attempts = 0;
  locked_until = none;
  token_version = 0;
  terms_accepted_at = some now;
}

-- Two nullable columns clash where both hold one text.
abbrev pub clash : Option Text → Option Text → Bool
clash none s = false
clash (some t) s = holds_text s t

-- The unique columns of `users`.
abbrev pub user_checks : User → List User → Bool
user_checks u us = not (
    any
      (λ v.
        text_eq v.email u.email
        || (text_eq v.username u.username
            || (clash u.google_id v.google_id || clash u.facebook_id v.facebook_id)))
      us)

abbrev pub add_user : User → Action (Unit {0})
add_user u db =
    if user_checks u db.users
    then ok (tt, record db { users = db.users ++ u ∷ [] })
    else err integrity

abbrev pub users_by_social : SocialProvider → Text → Db → List User
users_by_social google id db = select (λ u. holds_text u.google_id id) db.users
users_by_social _ id db = select (λ u. holds_text u.facebook_id id) db.users

abbrev pub is_unset : Option Text → Bool
is_unset none = true
is_unset (some t) = is_empty t

-- `if new and not old: old = new`
abbrev pub fill : Option Text → Option Text → Option Text
fill old new = if not (is_unset new) && is_unset old then new else old

-- The identity at the provider and the avatar, where the account has none.
abbrev pub link : SocialProvider → Profile → User → User
link google p u = record u {
  google_id = fill u.google_id (some p.social_id);
  avatar_url = fill u.avatar_url p.avatar_url;
}
link facebook p u = record u {
  facebook_id = fill u.facebook_id (some p.social_id);
  avatar_url = fill u.avatar_url p.avatar_url;
}
link unsupported p u = u

unfoldable pub create_social :
    Alphabet → ℕ → SocialProvider → UserRole → Bool → Profile → Action User
create_social a now provider role accepted p = do
  raise_if (not accepted) bad_request
  free ← gets λ db. free_username (base_username a p.first_name p.last_name) db.users
  name ← or_raise free integrity
  id ← new_id
  let u = new_user id now provider role name p
  add_user u
  pure u

abbrev pub social_user :
    Alphabet → ℕ → SocialProvider → UserRole → Bool → Profile → Option User → Action User
social_user a now provider role accepted p none = create_social a now provider role accepted p
social_user a now provider role accepted p (some u) = do
  raise_if (u.status is UserStatus.suspended) forbidden
  set_user u.id (link provider p)
  pure u

-- By the provider's id first, then by the address.
abbrev pub or_by_email : Text → Option User → Action (Option User)
or_by_email email none = find_one (users_by_email email)
or_by_email email (some u) = pure (some u)

abbrev pub by_social_id : SocialProvider → Text → Action (Option User)
by_social_id provider id = if is_empty id then pure none else find_one (users_by_social provider id)

unfoldable pub social_profile :
    Security → Alphabet → ℕ → SocialProvider → UserRole → Bool → Profile → Action TokenResponse
social_profile s a now provider role accepted p = do
  raise_if (is_empty p.email) bad_request
  linked ← by_social_id provider p.social_id
  existing ← or_by_email p.email linked
  u ← social_user a now provider role accepted p existing
  set_user u.id (log_in now)
  issue_tokens s now u

abbrev pub social_answer :
    Security → Alphabet → ℕ → SocialProvider → UserRole → Bool → SocialAnswer → Action TokenResponse
social_answer s a now unsupported role accepted answer = raise bad_request
social_answer s a now provider role accepted invalid = raise unauthorized
social_answer s a now provider role accepted unreachable = raise service_unavailable
social_answer s a now provider role accepted (profile p) =
    social_profile s a now provider role accepted p

unfoldable pub social_login :
    Security → Alphabet → ℕ → SocialProvider → UserRole → Bool → SocialAnswer → Action TokenResponse
social_login = social_answer
