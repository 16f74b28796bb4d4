-- ===== src/Auth/Lockout/Base.antt =====
-- What counts towards a lock of an account or of a phone's code, and the steps that several requests
-- share (backend/app/services/auth_service.py).
use kaasb.Common.{ℕ, suc, ◌≡◌, refl, none, All, All-update_row, All-imp, any, text_eq, not}
use kaasb.Db.{
  Db, Keeps, Keeps-ok, Keeps-pure, Keeps-modify, Keeps-bind, Keeps-checked, User, RefreshToken,
  new_id, integrity, user_coded,
}
use kaasb.Auth.Tokens.{
  Security, create_access_token, create_refresh_token, new_session, add_refresh_token, issue_tokens,
  set_user,
}

-- No lock is set, and nothing is counted towards one.
pub record IsUncounted (db : Db) : Type 0 where
  pub accounts : All (λ u. (u.locked_until ≡ none) × (u.failed_login_attempts ≡ 0)) db.users
  pub codes : All (λ o. o.attempts ≡ 0) db.phone_otps

abbrev pub IsClear : User → Type 0
IsClear u = (u.locked_until ≡ none) × (u.failed_login_attempts ≡ 0)

pub Keeps-set_user :
    (k : ℕ) (f : User → User)
    → ((u : User) → IsClear u → IsClear (f u))
    → Keeps IsUncounted (set_user k f)
Keeps-set_user k f h = Keeps-modify IsUncounted _ λ db c. record {
  accounts =
      All-update_row (λ u. u.id) IsClear k f db.users
        (All-imp IsClear (λ u. u.id ≡ k → IsClear (f u)) (λ u clear _. h u clear) db.users
          c.accounts)
        c.accounts;
  codes = c.codes;
}

pub Keeps-new_id : Keeps IsUncounted new_id
Keeps-new_id =
    Keeps-ok IsUncounted new_id (λ db. (db.next_id, record db { next_id = suc db.next_id }))
      (λ db. refl) (λ db c. record { accounts = c.accounts; codes = c.codes })

pub Keeps-add_refresh_token : (t : RefreshToken) → Keeps IsUncounted (add_refresh_token t)
Keeps-add_refresh_token t =
    Keeps-checked IsUncounted
      (λ db. not (any (λ x. text_eq x.token_hash t.token_hash) db.refresh_tokens)) _ integrity
      (λ db c. record { accounts = c.accounts; codes = c.codes })

pub Keeps-issue_tokens :
    (s : Security) (now : ℕ) (u : User) → Keeps IsUncounted (issue_tokens s now u)
unfolding issue_tokens
Keeps-issue_tokens s now u = Keeps-bind IsUncounted new_id _ Keeps-new_id λ access.
    Keeps-bind IsUncounted new_id _ Keeps-new_id λ refresh.
      Keeps-bind IsUncounted new_id _ Keeps-new_id λ id.
        Keeps-bind IsUncounted
          (add_refresh_token (new_session s now id u.id (create_refresh_token s now u refresh))) _
          (Keeps-add_refresh_token _)
          λ _. Keeps-pure IsUncounted (record {
            access_token = create_access_token s now u access;
            refresh_token = create_refresh_token s now u refresh;
          })
