-- ===== src/Auth/Lockout/Social.antt =====
-- `social_login` counts nothing towards a lock (backend/app/services/auth_service.py).
use kaasb.Common.{ℕ, refl, Bool, Option, none, some, [], ◌∷◌, All-append, Text, not}
use kaasb.Db.{
  Error, pure, gets, Keeps, Keeps-pure, Keeps-gets, Keeps-raise, Keeps-raise_if, Keeps-or_raise,
  Keeps-bind, Keeps-if, Keeps-checked, Keeps-find_one, User, UserRole, new_id, raise_if, or_raise,
  find_one, ◌is◌, UserStatus, forbidden, unauthorized, bad_request, integrity, user_coded,
}
use kaasb.Auth.Tokens.{Security, set_user}
use kaasb.Auth.Login.{log_in, users_by_email}
use kaasb.Auth.Social.{
  Alphabet, SocialProvider, SocialAnswer, google, facebook, unsupported, profile, invalid,
  unreachable, Profile, new_user, user_checks, add_user, link, create_social, social_user,
  or_by_email, by_social_id, social_profile, social_login, free_username, base_username, is_empty,
  users_by_social,
}
use kaasb.Auth.Lockout.Base.{IsUncounted, IsClear, Keeps-set_user, Keeps-new_id, Keeps-issue_tokens}

module _ (s : Security) (a : Alphabet) (now : ℕ) where
  Keeps-add_user : (u : User) → IsClear u → Keeps IsUncounted (add_user u)
  Keeps-add_user u clear =
      Keeps-checked IsUncounted (λ db. user_checks u db.users) _ integrity
        (λ db c. record {
          accounts = All-append IsClear db.users (u ∷ []) c.accounts (clear, tt);
          codes = c.codes;
        })

  Keeps-create_social :
      (provider : SocialProvider) (role : UserRole) (accepted : Bool) (p : Profile)
      → Keeps IsUncounted (create_social a now provider role accepted p)
  unfolding create_social
  Keeps-create_social provider role accepted p =
      Keeps-bind IsUncounted (raise_if (not accepted) bad_request) _
        (Keeps-raise_if IsUncounted _ _)
        λ _.
          Keeps-bind IsUncounted
            (gets λ db. free_username (base_username a p.first_name p.last_name) db.users) _
            (Keeps-gets IsUncounted _)
            λ free.
              Keeps-bind IsUncounted (or_raise free integrity) _
                (Keeps-or_raise IsUncounted free integrity)
                λ name. Keeps-bind IsUncounted new_id _ Keeps-new_id λ id.
                  Keeps-bind IsUncounted (add_user (new_user id now provider role name p)) _
                    (Keeps-add_user _ (refl, refl))
                    λ _. Keeps-pure IsUncounted (new_user id now provider role name p)

  link-IsClear :
      (provider : SocialProvider) (p : Profile) (u : User) → IsClear u → IsClear (link provider p u)
  link-IsClear google p u c = c
  link-IsClear facebook p u c = c
  link-IsClear unsupported p u c = c

  Keeps-social_user :
      (provider : SocialProvider) (role : UserRole) (accepted : Bool) (p : Profile)
      (o : Option User)
      → Keeps IsUncounted (social_user a now provider role accepted p o)
  Keeps-social_user provider role accepted p none = Keeps-create_social provider role accepted p
  Keeps-social_user provider role accepted p (some u) =
      Keeps-bind IsUncounted (raise_if (u.status is UserStatus.suspended) forbidden) _
        (Keeps-raise_if IsUncounted _ _)
        λ _.
          Keeps-bind IsUncounted (set_user u.id (link provider p)) _
            (Keeps-set_user u.id (link provider p) (link-IsClear provider p))
            λ _. Keeps-pure IsUncounted u

  Keeps-or_by_email : (email : Text) (o : Option User) → Keeps IsUncounted (or_by_email email o)
  Keeps-or_by_email email none = Keeps-find_one IsUncounted (users_by_email email)
  Keeps-or_by_email email (some u) = Keeps-pure IsUncounted (some u)

  Keeps-social_profile :
      (provider : SocialProvider) (role : UserRole) (accepted : Bool) (p : Profile)
      → Keeps IsUncounted (social_profile s a now provider role accepted p)
  unfolding social_profile
  Keeps-social_profile provider role accepted p =
      Keeps-bind IsUncounted (raise_if (is_empty p.email) bad_request) _
        (Keeps-raise_if IsUncounted _ _)
        λ _.
          Keeps-bind IsUncounted (by_social_id provider p.social_id) _
            (Keeps-if IsUncounted (is_empty p.social_id) (pure none)
              (find_one (users_by_social provider p.social_id)) (Keeps-pure IsUncounted none)
              (Keeps-find_one IsUncounted _))
            λ linked.
              Keeps-bind IsUncounted (or_by_email p.email linked) _
                (Keeps-or_by_email p.email linked)
                λ existing.
                  Keeps-bind IsUncounted (social_user a now provider role accepted p existing) _
                    (Keeps-social_user provider role accepted p existing)
                    λ u.
                      Keeps-bind IsUncounted (set_user u.id (log_in now)) _
                        (Keeps-set_user u.id (log_in now) (λ x c. c))
                        λ _. Keeps-issue_tokens s now u

  pub Keeps-social_login :
      (provider : SocialProvider) (role : UserRole) (accepted : Bool) (answer : SocialAnswer)
      → Keeps IsUncounted (social_login s a now provider role accepted answer)
  unfolding social_login
  Keeps-social_login unsupported role accepted answer = Keeps-raise IsUncounted bad_request
  Keeps-social_login google role accepted invalid = Keeps-raise IsUncounted unauthorized
  Keeps-social_login google role accepted unreachable =
      Keeps-raise IsUncounted Error.service_unavailable
  Keeps-social_login google role accepted (profile p) = Keeps-social_profile google role accepted p
  Keeps-social_login facebook role accepted invalid = Keeps-raise IsUncounted unauthorized
  Keeps-social_login facebook role accepted unreachable =
      Keeps-raise IsUncounted Error.service_unavailable
  Keeps-social_login facebook role accepted (profile p) =
      Keeps-social_profile facebook role accepted p
