-- ===== src/Auth/Tests.antt =====
-- Runs of the authentication at concrete inputs, and each theorem at an input that meets its
-- hypotheses.
use kaasb.Common.{
  ℕ, ◌≡◌, ◌≢◌, refl, true, false, some, List, [], ◌∷◌, All, Text, text_eq, ◌≤◌, digits, arith,
}
use kaasb.Db.{Db, ok, err, request, User, too_many_requests, unauthorized}
use kaasb.Auth.Tokens.{
  Payload, TokenType, of_user, TokenResponse, issue_tokens, create_access_token,
  create_refresh_token,
}
use kaasb.Auth.Login.{login, login_verified}
use kaasb.Auth.Social.{candidate, is_taken, free_username, first_free}
use kaasb.Auth.Sessions.{refresh_tokens, session_of, logout, logout_all, get_current_user}
use kaasb.Auth.Recovery.{send_phone_otp, verify_phone_otp}
use kaasb.Auth.Calls.{Call, logs_in, sends_otp, verifies_otp, step, run}
use kaasb.Auth.Samples.{
  sample_security, sample_alphabet, sample_user, sample_token, sample_session, users_db,
}
use kaasb.Auth.Lockout.Base.{IsUncounted}
use kaasb.Auth.Lockout.Runs.{run-never_locks}
use kaasb.Auth.Ending.{logout_all-ends}
use kaasb.Auth.Grace.{logged_out_token-takes_over}
use kaasb.Auth.Names.{free_username-free}

abbrev runs : Unit {0}
unfolding login login_verified issue_tokens create_access_token create_refresh_token refresh_tokens
    session_of logout logout_all get_current_user send_phone_otp verify_phone_otp step run
    free_username first_free digits
runs = tt

abbrev wrong : ℕ × Call
wrong = (5, logs_in (97 ∷ []) (120 ∷ []))

-- Eleven wrong passwords, a code and a wrong guess of it.
abbrev guesses : List (ℕ × Call)
guesses =
    wrong
    ∷ wrong
    ∷ wrong
    ∷ wrong
    ∷ wrong
    ∷ wrong
    ∷ wrong
    ∷ wrong
    ∷ wrong
    ∷ wrong
    ∷ wrong
    ∷ (6, sends_otp (55 ∷ []) (1 ∷ []))
    ∷ (7, verifies_otp (55 ∷ []) (2 ∷ []))
    ∷ []

states :
    (login sample_security 5 (97 ∷ []) (120 ∷ []) users_db ≡ err unauthorized)
    × ((request (login sample_security 5 (97 ∷ []) (112 ∷ [])) users_db).next_id ≡ 103)
    × (free_username (117 ∷ []) users_db.users ≡ some (117 ∷ 49 ∷ []))
unfolding runs
states = (refl, refl, refl)

run-never_locks_example :
    IsUncounted (run sample_security sample_alphabet guesses users_db)
    × ((now : ℕ) (email password : Text)
        → login sample_security now email password
            (run sample_security sample_alphabet guesses users_db)
          ≢ err too_many_requests)
run-never_locks_example =
    run-never_locks sample_security sample_alphabet guesses users_db
      (record { accounts = ((refl, refl), tt); codes = tt })

logout_all-ends_example :
    let after = request (logout_all 30 1) users_db in
    ((now : ℕ) (token : Text) (r : TokenResponse × Db)
      → All (λ x. text_eq x.token_hash token ≡ true → x.user_id ≡ 1) users_db.refresh_tokens
      → refresh_tokens sample_security now token after ≢ ok r)
    × ((now : ℕ) (token : Text) (p : Payload) (y : User) (db1 : Db)
        → sample_security.decode now token ≡ some p
        → p.sub ≡ of_user 1
        → p.tv ≤ 0
        → get_current_user sample_security now token after ≢ ok (y, db1))
logout_all-ends_example = logout_all-ends sample_security 30 1 users_db sample_user refl

logged_out_token-takes_over_example :
    (r : TokenResponse) × (db' : Db) × (refresh_tokens sample_security 40 sample_token
        (request (logout sample_security 30 1 sample_token) users_db)
      ≡ ok (r, db'))
    × All (λ y. y.id ≡ 43 → y.revoked ≡ true) db'.refresh_tokens
unfolding runs
logged_out_token-takes_over_example =
    logged_out_token-takes_over sample_security 30 40 1 sample_token users_db
      (sample_session 42 10 sample_token) (sample_session 43 20 (9 ∷ []))
      (record { sub = of_user 1; token_type = TokenType.refresh; tv = 0; jti = 41; exp = 604_810 })
      sample_user refl refl refl (omega arith) (omega arith) refl (omega arith) refl refl refl refl
      refl

free_username-free_example :
    (i : ℕ) × (free_username (117 ∷ []) users_db.users ≡ some (candidate (117 ∷ []) i))
    × (is_taken (candidate (117 ∷ []) i) users_db.users ≡ false)
free_username-free_example = free_username-free (117 ∷ []) users_db.users
