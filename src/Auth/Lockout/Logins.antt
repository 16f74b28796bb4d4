-- ===== src/Auth/Lockout/Logins.antt =====
-- `login` and `social_login` count nothing towards a lock (backend/app/services/auth_service.py).
use kaasb.Common.{
  ℕ, suc, ◌≡◌, ◌≢◌, refl, Bool, Bool-cases, inl, inr, true, false, Option, none, some, List, [],
  ◌∷◌, All, All-select, subst, if◌then◌else◌, Text, any, text_eq, not, arith,
}
use kaasb.Db.{
  Db, pure, ◌>>=◌, Keeps, Keeps-raise, Keeps-raise_if, Keeps-bind, Keeps-find, Keeps-raises, ok,
  User, raise_if, one_or_none, err, ◌is◌, UserStatus, forbidden, unauthorized, too_many_requests,
  integrity, user_coded,
}
use kaasb.Auth.Tokens.{Security, TokenResponse, create_refresh_token, issue_tokens, set_user}
use kaasb.Auth.Login.{
  login, login_found, login_with, login_verified, login_refused, log_in, clear_attempts,
  fail_attempt, users_by_email, is_after,
}
use kaasb.Auth.Lockout.Base.{IsUncounted, IsClear, Keeps-set_user, Keeps-issue_tokens}

Keeps-login_verified :
    (s : Security) (now : ℕ) (u : User) → Keeps IsUncounted (login_verified s now u)
unfolding login_verified
Keeps-login_verified s now u =
    Keeps-bind IsUncounted (raise_if (u.status is UserStatus.suspended) forbidden) _
      (Keeps-raise_if IsUncounted _ _)
      λ _.
        Keeps-bind IsUncounted (set_user u.id (λ x. log_in now (clear_attempts x))) _
          (Keeps-set_user u.id (λ x. log_in now (clear_attempts x)) (λ x c. (refl, refl)))
          λ _. Keeps-issue_tokens s now u

Keeps-login_with :
    (s : Security) (now : ℕ) (u : User) (password : Text) (o : Option Text)
    → Keeps IsUncounted (login_with s now u password o)
Keeps-login_with s now u password none = Keeps-raise IsUncounted _
Keeps-login_with s now u password (some h) =
    elim (s.verify_password password h)
      as (λ b. Keeps IsUncounted (if b then login_verified s now u else login_refused now u)) [
        | true ↦ Keeps-login_verified s now u
        | false ↦ Keeps-raises IsUncounted (set_user u.id (fail_attempt now)) unauthorized
      ]

module _ (s : Security) (now : ℕ) where
  pub Keeps-login : (email password : Text) → Keeps IsUncounted (login s now email password)
  unfolding login
  Keeps-login email password =
      Keeps-find IsUncounted (users_by_email email) (login_found s now password) λ o. found o
    where
      found : (o : Option User) → Keeps IsUncounted (login_found s now password o)
      found none = Keeps-raise IsUncounted unauthorized
      found (some u) =
          Keeps-bind IsUncounted (raise_if (is_after now u.locked_until) too_many_requests) _
            (Keeps-raise_if IsUncounted _ _)
            λ _. Keeps-login_with s now u password u.hashed_password

module _ (s : Security) (now : ℕ) (password : Text) where
  insert-unlocked :
      (b : Bool) (x : Db) (t : TokenResponse) (db : Db)
      → ((λ _. if b then ok (tt, x) else err integrity) >>= λ _. pure t) db ≢ err too_many_requests
  insert-unlocked true x t db h = cc
  insert-unlocked false x t db h = cc

  issue-unlocked : (u : User) (db : Db) → issue_tokens s now u db ≢ err too_many_requests
  unfolding issue_tokens
  issue-unlocked u db h =
      let token = create_refresh_token s now u (suc db.next_id) in
      insert-unlocked (not (any (λ r. text_eq r.token_hash (s.sha256 token)) db.refresh_tokens)) _ _
        db h

  verified-unlocked : (u : User) (db : Db) → login_verified s now u db ≢ err too_many_requests
  unfolding login_verified
  verified-unlocked u db h = elim (Bool-cases (u.status is UserStatus.suspended)) [
    | inl y ↦ absurd (ground (arith, y, h))
    | inr n ↦ issue-unlocked u _ (rw n at h)
  ]

  with-unlocked :
      (u : User) (o : Option Text) (db : Db)
      → login_with s now u password o db ≢ err too_many_requests
  with-unlocked u none db h = cc
  with-unlocked u (some hashed) db h = elim (Bool-cases (s.verify_password password hashed)) [
    | inl y ↦ verified-unlocked u db (rw y at h)
    | inr n ↦ let e = rw n at h in cc
  ]

  rows-unlocked :
      (xs : List User) (db : Db)
      → All IsClear xs
      → (one_or_none xs >>= login_found s now password) db ≢ err too_many_requests
  rows-unlocked [] db c h = cc
  rows-unlocked (u ∷ []) db c h = with-unlocked u u.hashed_password db (
      let e =
        subst
          (λ o.
            (raise_if (is_after now o) too_many_requests >>= λ _.
            login_with s now u password u.hashed_password)
              db
            ≡ err too_many_requests)
          c.0.0 h in
      e)
  rows-unlocked (u ∷ v ∷ rest) db c h = cc

  -- Where nothing is locked, a login is not refused for a lock.
  pub login-unlocked :
      (email : Text) (db : Db)
      → IsUncounted db
      → login s now email password db ≢ err too_many_requests
  unfolding login
  login-unlocked email db c h =
      rows-unlocked (users_by_email email db) db
        (All-select IsClear (λ u. text_eq u.email email) db.users c.accounts) h
