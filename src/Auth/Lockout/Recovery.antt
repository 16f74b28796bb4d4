-- ===== src/Auth/Lockout/Recovery.antt =====
-- The links of mails and the codes of phones count nothing towards a lock
-- (backend/app/services/auth_service.py).
use kaasb.Common.{
  ℕ, ◌≡◌, refl, subst, sym, ◌∙◌, Bool, true, Option, none, some, [], ◌∷◌, All, All-append,
  All-update_row, All-imp, Text, not, strip, leb, length, select,
}
use kaasb.Db.{
  Db, Action, Error, pure, modify, gets, Keeps, Keeps-pure, Keeps-gets, Keeps-raise, Keeps-modify,
  Keeps-raise_if, Keeps-when, Keeps-bind, Keeps-find, Keeps-raises, Keeps-if, User, PhoneOtp,
  new_id, raise_if, unauthorized, bad_request, too_many_requests, user_coded,
}
use kaasb.Auth.Tokens.{Security, Subject, Payload, missing, malformed, of_user, set_user}
use kaasb.Auth.Login.{log_in}
use kaasb.Auth.Sessions.{revoke_where, users_by_id, is_unrevoked}
use kaasb.Auth.Recovery.{
  verify_user, verify_found, find_subject, verify_payload, verify_email_token, is_verify_email,
  has_password, set_password, reset_found, is_used_jti, mark_jti, reset_payload, reset_password,
  is_password_reset, users_by_phone, recent_otps, new_otp, add_otp, send_found, send_phone_otp,
  set_otp, otp_user, verify_otp, verify_phone_otp, count_miss, newest_otp, is_open_otp,
  matching_otps,
}
use kaasb.Auth.Lockout.Base.{IsUncounted, IsClear, Keeps-set_user, Keeps-new_id, Keeps-issue_tokens}

Keeps-users :
    (f : Db → Db)
    → ((db : Db) → (f db).users ≡ db.users)
    → ((db : Db) → (f db).phone_otps ≡ db.phone_otps)
    → Keeps IsUncounted (modify f)
Keeps-users f same_users same_codes = Keeps-modify IsUncounted f λ db c. record {
  accounts = subst (λ us. All IsClear us) (sym (same_users db)) c.accounts;
  codes = subst (λ os. All (λ o. o.attempts ≡ 0) os) (sym (same_codes db)) c.codes;
}

Keeps-find_subject :
    {A : Type 0} (x : Subject) (f : Option User → Action A)
    → ((o : Option User) → Keeps IsUncounted (f o))
    → Keeps IsUncounted (find_subject x f)
Keeps-find_subject missing f h = Keeps-raise IsUncounted Error.value_error
Keeps-find_subject malformed f h = Keeps-raise IsUncounted Error.value_error
Keeps-find_subject (of_user k) f h = Keeps-find IsUncounted (users_by_id k) f h

Keeps-set_otp :
    (k : ℕ) (f : PhoneOtp → PhoneOtp)
    → ((o : PhoneOtp) → (f o).attempts ≡ o.attempts)
    → Keeps IsUncounted (set_otp k f)
Keeps-set_otp k f same = Keeps-modify IsUncounted _ λ db c. record {
  accounts = c.accounts;
  codes =
      All-update_row (λ o. o.id) (λ o. o.attempts ≡ 0) k f db.phone_otps
        (All-imp (λ o. o.attempts ≡ 0) (λ o. o.id ≡ k → (f o).attempts ≡ 0) (λ o h _. same o ∙ h)
          db.phone_otps c.codes)
        c.codes;
}

Keeps-add_otp : (o : PhoneOtp) → o.attempts ≡ 0 → Keeps IsUncounted (add_otp o)
Keeps-add_otp o unused = Keeps-modify IsUncounted _ λ db c. record {
  accounts = c.accounts;
  codes = All-append (λ x. x.attempts ≡ 0) db.phone_otps (o ∷ []) c.codes (unused, tt);
}

module _ (s : Security) (now : ℕ) where
  Keeps-verify_found : (o : Option User) → Keeps IsUncounted (verify_found o)
  Keeps-verify_found none = Keeps-raise IsUncounted Error.not_found
  Keeps-verify_found (some u) =
      Keeps-if IsUncounted u.is_email_verified (pure tt) (set_user u.id verify_user)
        (Keeps-pure IsUncounted tt) (Keeps-set_user u.id verify_user (λ x c. c))

  pub Keeps-verify_email : (token : Text) → Keeps IsUncounted (verify_email_token s now token)
  unfolding verify_email_token
  Keeps-verify_email token = decoded (s.decode now token)
    where
      decoded : (p : Option Payload) → Keeps IsUncounted (verify_payload p)
      decoded none = Keeps-raise IsUncounted bad_request
      decoded (some p) =
          Keeps-bind IsUncounted (raise_if (not (is_verify_email p.token_type)) bad_request) _
            (Keeps-raise_if IsUncounted _ _)
            λ _. Keeps-find_subject p.sub verify_found Keeps-verify_found

  Keeps-reset_found :
      (has_redis : Bool) (password : Text) (p : Payload) (o : Option User)
      → Keeps IsUncounted (reset_found s now has_redis password p o)
  unfolding reset_found
  Keeps-reset_found has_redis password p none = Keeps-raise IsUncounted Error.not_found
  Keeps-reset_found has_redis password p (some u) =
      Keeps-bind IsUncounted (raise_if (has_password s password u.hashed_password) bad_request) _
        (Keeps-raise_if IsUncounted _ _)
        λ _. Keeps-bind IsUncounted new_id _ Keeps-new_id λ salt.
          Keeps-bind IsUncounted (revoke_where now (is_unrevoked u.id)) _
            (Keeps-users _ (λ db. refl) (λ db. refl))
            λ _.
              Keeps-bind IsUncounted (set_user u.id (set_password (s.hash_password salt password)))
                _ (Keeps-set_user u.id (set_password (s.hash_password salt password)) (λ x c. c))
                λ _.
                  Keeps-when IsUncounted has_redis (mark_jti p.jti)
                    (Keeps-users _ (λ db. refl) (λ db. refl))

  pub Keeps-reset_password :
      (has_redis : Bool) (token password : Text)
      → Keeps IsUncounted (reset_password s now has_redis token password)
  unfolding reset_password
  Keeps-reset_password has_redis token password = decoded (s.decode now token)
    where
      decoded : (p : Option Payload) → Keeps IsUncounted (reset_payload s now has_redis password p)
      decoded none = Keeps-raise IsUncounted bad_request
      decoded (some p) =
          Keeps-bind IsUncounted (raise_if (not (is_password_reset p.token_type)) bad_request) _
            (Keeps-raise_if IsUncounted _ _)
            λ _.
              Keeps-bind IsUncounted (gets (is_used_jti has_redis p.jti)) _
                (Keeps-gets IsUncounted _)
                λ used.
                  Keeps-bind IsUncounted (raise_if used bad_request) _
                    (Keeps-raise_if IsUncounted _ _)
                    λ _.
                      Keeps-find_subject p.sub (reset_found s now has_redis password p)
                        (Keeps-reset_found has_redis password p)

  Keeps-send_found :
      (phone otp : Text) (o : Option User) → Keeps IsUncounted (send_found s now phone otp o)
  Keeps-send_found phone otp none = Keeps-pure IsUncounted tt
  Keeps-send_found phone otp (some u) =
      Keeps-bind IsUncounted (gets (recent_otps phone now)) _ (Keeps-gets IsUncounted _) λ recent.
        Keeps-bind IsUncounted (raise_if (leb 3 (length recent)) too_many_requests) _
          (Keeps-raise_if IsUncounted _ _)
          λ _.
            Keeps-bind IsUncounted new_id _ Keeps-new_id
              λ id. Keeps-add_otp (new_otp s id now phone otp) refl

  pub Keeps-send_phone_otp : (phone otp : Text) → Keeps IsUncounted (send_phone_otp s now phone otp)
  unfolding send_phone_otp
  Keeps-send_phone_otp phone otp =
      Keeps-find IsUncounted (users_by_phone (strip phone)) (send_found s now (strip phone) otp)
        (Keeps-send_found (strip phone) otp)

  Keeps-otp_user : (o : Option User) → Keeps IsUncounted (otp_user s now o)
  Keeps-otp_user none = Keeps-raise IsUncounted unauthorized
  Keeps-otp_user (some u) =
      Keeps-bind IsUncounted (set_user u.id (log_in now)) _
        (Keeps-set_user u.id (log_in now) (λ x c. c)) λ _. Keeps-issue_tokens s now u

  Keeps-verify_otp :
      (phone : Text) (o : Option PhoneOtp) → Keeps IsUncounted (verify_otp s now phone o)
  Keeps-verify_otp phone none =
      Keeps-bind IsUncounted (gets λ db. newest_otp (select (is_open_otp now phone) db.phone_otps))
        _ (Keeps-gets IsUncounted _)
        λ recent. Keeps-raises IsUncounted (count_miss recent) unauthorized
  Keeps-verify_otp phone (some o) =
      Keeps-bind IsUncounted (set_otp o.id (λ x. record x { is_used = true })) _
        (Keeps-set_otp o.id (λ x. record x { is_used = true }) (λ x. refl))
        λ _. Keeps-find IsUncounted (users_by_phone phone) (otp_user s now) Keeps-otp_user

  pub Keeps-verify_phone_otp :
      (phone otp : Text) → Keeps IsUncounted (verify_phone_otp s now phone otp)
  unfolding verify_phone_otp
  Keeps-verify_phone_otp phone otp =
      Keeps-bind IsUncounted
        (gets λ db. newest_otp (matching_otps now (strip phone) (s.sha256 otp) db)) _
        (Keeps-gets IsUncounted _) λ found. Keeps-verify_otp (strip phone) found
