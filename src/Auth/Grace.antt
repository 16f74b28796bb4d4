-- ===== src/Auth/Grace.antt =====
-- A refresh token that its user has logged out, within the grace of a rotation
-- (backend/app/services/auth_service.py, `refresh_tokens`).
use kaasb.Common.{
  ℕ, suc, ◌+◌, ◌-◌, ◌≤◌, ◌<◌, ◌≡◌, refl, ap, subst, ◌∙◌, Bool-cases, inl, inr, true, false, some,
  List, [], ◌∷◌, ◌++◌, map, any, All, All-append, select, select-and, select-map, if◌then◌else◌,
  ltb, ◌==◌, ◌||◌, ==_refl, not, Text, text_eq, arith,
}
use kaasb.Db.{
  Db, Result, ok, err, ◌>>=◌, gets, or_raise, pure, request, find_one, find_one-run, bind-run,
  raise_if-run, User, RefreshToken, unauthorized, integrity,
}
use kaasb.Auth.Tokens.{
  Security, Payload, TokenType, of_user, TokenResponse, create_access_token, create_refresh_token,
  new_session, issue_tokens,
}
use kaasb.Auth.Sessions.{
  users_by_id, stored_rows, live_rows, newest, session_of, revoke, rotate, rotate_subject,
  rotate_found, refresh_found, refresh_tokens, own_token_rows, end_session, logout,
  rotation_grace_seconds, is_refresh,
}

by_id : (k t : ℕ) → List RefreshToken → List RefreshToken
by_id k t ts = map (λ r. if r.id == k then revoke t r else r) ts

any-by_id :
    (h : Text) (k t : ℕ) (ts : List RefreshToken)
    → any (λ r. text_eq r.token_hash h) (by_id k t ts) ≡ any (λ r. text_eq r.token_hash h) ts
unfolding by_id
any-by_id h k t [] = refl
any-by_id h k t (r ∷ ts) = elim (Bool-cases (r.id == k)) [
  | inl y ↦ rw y (ap (λ b. text_eq r.token_hash h || b) (any-by_id h k t ts))
  | inr n ↦ rw n (ap (λ b. text_eq r.token_hash h || b) (any-by_id h k t ts))
]

module _ (s : Security) (now : ℕ) (u : User) (db : Db) where
  abbrev new_refresh : Text
  new_refresh = create_refresh_token s now u (suc db.next_id)

  abbrev issued : TokenResponse
  issued = record {
    access_token = create_access_token s now u db.next_id;
    refresh_token = new_refresh;
  }

  abbrev issued_db : Db
  issued_db = record db {
    refresh_tokens =
        db.refresh_tokens ++ new_session s now (suc (suc db.next_id)) u.id new_refresh ∷ [];
    next_id = suc (suc (suc db.next_id));
  }

  issue-run :
      any (λ r. text_eq r.token_hash (s.sha256 new_refresh)) db.refresh_tokens ≡ false
      → issue_tokens s now u db ≡ ok (issued, issued_db)
  unfolding issue_tokens
  issue-run fresh =
      ap
        (λ b.
          ((λ _. if not b then ok (tt, issued_db) else err integrity) >>= λ _. pure issued)
            issued_db)
        fresh

revoked_by_id :
    (k t : ℕ) (ts : List RefreshToken) → All (λ r. r.id ≡ k → r.revoked ≡ true) (by_id k t ts)
unfolding by_id
revoked_by_id k t [] = tt
revoked_by_id k t (r ∷ ts) = (λ e. ground arith, revoked_by_id k t ts)

module _ (s : Security) (t now user : ℕ) (token : Text) (db : Db) (x : RefreshToken) where
  abbrev logged_out : Db
  logged_out = record db {
    refresh_tokens = map (λ r. if r.id == x.id then revoke t r else r) db.refresh_tokens;
  }

  module _ (rows : select (λ r. text_eq r.token_hash (s.sha256 token)) db.refresh_tokens ≡ x ∷ [])
      (mine : x.user_id ≡ user) where
    logout-run : request (logout s t user token) db ≡ logged_out
    unfolding logout
    logout-run =
        ap (λ (r : Result (Unit {0} × Db)). request (λ _. r) db)
          (find_one-run (own_token_rows s user token) (end_session t) db (some x) (
            select-and (λ r. text_eq r.token_hash (s.sha256 token)) (λ r. r.user_id == user)
              db.refresh_tokens
            ∙ ap (select (λ r. r.user_id == user)) rows
            ∙ owned))
      where
        owned : select (λ r. r.user_id == user) (x ∷ []) ≡ x ∷ []
        owned = let same : (x.user_id == user) ≡ true = ground (arith, mine) in rw same refl

    same_hash :
        (r : RefreshToken)
        → text_eq (if r.id == x.id then revoke t r else r).token_hash (s.sha256 token)
          ≡ text_eq r.token_hash (s.sha256 token)
    same_hash r = elim (Bool-cases (r.id == x.id)) [ inl y ↦ rw y refl | inr n ↦ rw n refl ]

    ended_row : now < x.expires_at → stored_rows s now token logged_out ≡ revoke t x ∷ []
    ended_row valid =
        select-and (λ r. text_eq r.token_hash (s.sha256 token)) (λ r. ltb now r.expires_at)
          logged_out.refresh_tokens
        ∙ ap (select (λ r. ltb now r.expires_at)) (
            select-map (λ r. text_eq r.token_hash (s.sha256 token))
              (λ r. if r.id == x.id then revoke t r else r) same_hash db.refresh_tokens)
        ∙ ap
            (λ rs.
              select (λ r. ltb now r.expires_at)
                (map (λ r. if r.id == x.id then revoke t r else r) rs))
            rows
        ∙ (let valid' : ltb now x.expires_at ≡ true = ground (arith, valid) in
            rw (==_refl x.id, valid') refl)

    module _ (k : RefreshToken) (p : Payload) (u : User) (fresh : x.revoked ≡ false)
        (soon : now ≤ t + rotation_grace_seconds)
        (other : newest (live_rows user now logged_out) ≡ some k) where
      session-run : session_of now (revoke t x) logged_out ≡ ok (k, logged_out)
      unfolding session_of
      session-run =
          raise_if-run (ltb (revoke t x).updated_at (now - rotation_grace_seconds)) unauthorized
            (gets (λ d. newest (live_rows x.user_id now d)) >>= λ o. or_raise o unauthorized)
            logged_out (rw fresh (ground (arith, soon)))
          ∙ ap (λ o. or_raise o unauthorized logged_out)
              (ap (λ j. newest (live_rows j now logged_out)) mine ∙ other)

      rotate-run :
          (p.token_type ≡ TokenType.refresh)
          → p.sub ≡ of_user user
          → users_by_id user db ≡ u ∷ []
          → any
              (λ r. text_eq r.token_hash (s.sha256 (create_refresh_token s now u (suc db.next_id))))
              (by_id k.id now logged_out.refresh_tokens)
            ≡ false
          → let d = record logged_out {
            refresh_tokens = by_id k.id now logged_out.refresh_tokens;
          } in
            rotate s now k (some p) logged_out ≡ ok (issued s now u d, issued_db s now u d)
      unfolding by_id
      rotate-run kind subject row unused =
          let d = record logged_out { refresh_tokens = by_id k.id now logged_out.refresh_tokens } in
          raise_if-run (not (is_refresh p.token_type)) unauthorized (rotate_subject s now k p.sub)
            logged_out (ap (λ c. not (is_refresh c)) kind)
          ∙ ap (λ c. rotate_subject s now k c logged_out) subject
          ∙ find_one-run (users_by_id user) (rotate_found s now k) logged_out (some u) row
          ∙ issue-run s now u d unused

-- A refresh token whose user has logged it out still works for a minute, if the user has another
-- session: the exchange takes the other session's place, whose own token is revoked by it. The
-- token's hash and the user's id have one row each, the token was live, and the new token's hash is
-- new.
pub logged_out_token-takes_over :
    (s : Security) (t now user : ℕ) (token : Text) (db : Db) (x k : RefreshToken) (p : Payload)
    (u : User)
    → select (λ r. text_eq r.token_hash (s.sha256 token)) db.refresh_tokens ≡ x ∷ []
    → x.user_id ≡ user
    → x.revoked ≡ false
    → now < x.expires_at
    → now ≤ t + rotation_grace_seconds
    → newest (live_rows user now (request (logout s t user token) db)) ≡ some k
    → k.id < db.next_id
    → s.decode now token ≡ some p
    → p.token_type ≡ TokenType.refresh
    → p.sub ≡ of_user user
    → users_by_id user db ≡ u ∷ []
    → any
        (λ r. text_eq r.token_hash (s.sha256 (create_refresh_token s now u (suc db.next_id))))
        db.refresh_tokens
      ≡ false
    → (r : TokenResponse) × (db' : Db) × (refresh_tokens s now token
          (request (logout s t user token) db)
        ≡ ok (r, db'))
      × All (λ y. y.id ≡ k.id → y.revoked ≡ true) db'.refresh_tokens
unfolding refresh_tokens by_id
logged_out_token-takes_over s t now user token db x k p u rows mine live valid soon other old
      decoded kind subject row unused =
    let out = logged_out s t now user token db x in
    let left = logout-run s t now user token db x rows mine in
    let other' : newest (live_rows user now out) ≡ some k =
      subst (λ d. newest (live_rows user now d) ≡ some k) left other in
    let h = s.sha256 (create_refresh_token s now u (suc db.next_id)) in
    let unused' : any (λ r. text_eq r.token_hash h) (by_id k.id now out.refresh_tokens) ≡ false =
      any-by_id h k.id now out.refresh_tokens ∙ any-by_id h x.id t db.refresh_tokens ∙ unused in
    let d = record out { refresh_tokens = by_id k.id now out.refresh_tokens } in
    (
      issued s now u d,
      issued_db s now u d,
      ap (λ b. (find_one (stored_rows s now token) >>= refresh_found s now token) b) left
          ∙ find_one-run (stored_rows s now token) (refresh_found s now token) out
              (some (revoke t x)) (ended_row s t now user token db x rows mine valid)
          ∙ bind-run (session_of now (revoke t x)) (λ y. rotate s now y (s.decode now token)) out
              (session-run s t now user token db x rows mine k p u live soon other')
          ∙ ap (λ o. rotate s now k o out) decoded
          ∙ rotate-run s t now user token db x rows mine k p u live soon other' kind subject row
              unused',
      All-append (λ y. y.id ≡ k.id → y.revoked ≡ true) d.refresh_tokens
          (new_session s now (suc (suc db.next_id)) u.id
              (create_refresh_token s now u (suc db.next_id))
            ∷ [])
          (revoked_by_id k.id now out.refresh_tokens) (λ e. absurd (omega (arith, old, e)), tt),
    )
