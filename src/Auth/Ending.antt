-- ===== src/Auth/Ending.antt =====
-- The end of all sessions of a user, and what a token of an ended session can still do
-- (backend/app/services/auth_service.py).
use kaasb.Common.{
  ℕ, suc, ◌-◌, ◌≤◌, ◌≡◌, ◌≢◌, refl, sym, ap, subst, ◌∙◌, Bool-cases, inl, inr, true, false, Option,
  none, some, List, [], ◌∷◌, map, All, All-map, select-none, select-update_row, found-All,
  found-test, update_row, if◌then◌else◌, ltb, ◌==◌, ◌&&◌, &&-true, not, Text, text_eq, arith,
}
use kaasb.Db.{
  Db, ok, ◌>>=◌, raise_if, gets, or_raise, pure, find_one-run, request, to_list, find-inv, bind-inv,
  raise_if-inv, User, RefreshToken, unauthorized, forbidden, ◌is◌, UserStatus, user_coded,
}
use kaasb.Auth.Tokens.{Security, Payload, of_user, TokenResponse}
use kaasb.Auth.Sessions.{
  users_by_id, current_found, current_of, current_subject, get_current_user, is_access, stored_rows,
  is_live, live_rows, newest, session_of, revoke, rotate, refresh_found, refresh_tokens,
  is_unrevoked, bump, logout_all, rotation_grace_seconds,
}

All-mapped {ℓ κ} :
    {A : Type ℓ} (P : A → Type κ) (f : A → A)
    → ((a : A) → P (f a))
    → (xs : List A) → All P (map f xs)
All-mapped P f h [] = tt
All-mapped P f h (x ∷ xs) = (h x, All-mapped P f h xs)

module _ (s : Security) (t user : ℕ) (db : Db) where
  abbrev end : RefreshToken → RefreshToken
  end r = if is_unrevoked user r then revoke t r else r

  abbrev ended : Db
  ended = record db {
    refresh_tokens = map end db.refresh_tokens;
    users = update_row (λ u. u.id) user bump db.users;
  }

  end-revoked : (r : RefreshToken) → (end r).user_id ≡ user → (end r).revoked ≡ true
  end-revoked r = λ mine. ground arith

  no_live : (now : ℕ) → live_rows user now ended ≡ []
  no_live now =
      select-none (is_live user now) (map end db.refresh_tokens)
        (All-mapped (λ r. is_live user now r ≡ false) end (λ r. ground arith) db.refresh_tokens)

  or_raise-none :
      (o : Option RefreshToken) (db' : Db) (y : RefreshToken × Db)
      → o ≡ none
      → or_raise o unauthorized db' ≢ ok y
  or_raise-none none db' y e h = cc
  or_raise-none (some x) db' y e h = cc

  no_session :
      (now : ℕ) (x : RefreshToken) (y : RefreshToken × Db)
      → x.revoked ≡ true
      → x.user_id ≡ user
      → session_of now x ended ≢ ok y
  unfolding session_of
  no_session now x y revoked mine h =
      let (_, late) =
        raise_if-inv (ltb x.updated_at (now - rotation_grace_seconds)) unauthorized
          (gets (λ d. newest (live_rows x.user_id now d)) >>= λ o. or_raise o unauthorized) ended
          (rw revoked at h) in
      or_raise-none (newest (live_rows x.user_id now ended)) ended y
        (ap newest (ap (λ k. live_rows k now ended) mine ∙ no_live now)) late

  module _ (now : ℕ) (token : Text) (r : TokenResponse × Db)
      (own : All
        (λ x. text_eq x.token_hash (s.sha256 token) ≡ true → x.user_id ≡ user)
        db.refresh_tokens) where
    abbrev Owned : RefreshToken → Type 0
    Owned x = text_eq x.token_hash (s.sha256 token) ≡ true → x.user_id ≡ user

    end-Owned : (x : RefreshToken) → Owned x → Owned (end x)
    end-Owned x h = elim (Bool-cases (is_unrevoked user x)) [ inl y ↦ rw y h | inr n ↦ rw n h ]

    refresh-ended :
        (o : Option RefreshToken)
        → stored_rows s now token ended ≡ to_list o
        → refresh_found s now token o ended ≢ ok r
    refresh-ended none rows h = cc
    refresh-ended (some x) rows h =
        let p =
          λ (y : RefreshToken). text_eq y.token_hash (s.sha256 token) && ltb now y.expires_at in
        let (owned, passes) =
          found-All Owned p x [] ended.refresh_tokens
            (All-map Owned end end-Owned db.refresh_tokens own) rows in
        let mine =
          owned (&&-true (text_eq x.token_hash (s.sha256 token)) (ltb now x.expires_at) passes).0 in
        let (is_revoked, _) =
          found-All (λ y. y.user_id ≡ user → y.revoked ≡ true) p x [] ended.refresh_tokens
            (All-mapped (λ y. y.user_id ≡ user → y.revoked ≡ true) end end-revoked
              db.refresh_tokens)
            rows in
        let (y, db1, session, _) =
          bind-inv (session_of now x) (λ t'. rotate s now t' (s.decode now token)) ended h in
        no_session now x (y, db1) (is_revoked mine) mine session

    ended_token : refresh_tokens s now token ended ≢ ok r
    unfolding refresh_tokens
    ended_token h =
        let (o, rows, rest) =
          find-inv (stored_rows s now token) (refresh_found s now token) ended h in
        refresh-ended o rows rest

  old_access :
      (now : ℕ) (token : Text) (u y : User) (p : Payload) (db1 : Db)
      → users_by_id user db ≡ u ∷ []
      → s.decode now token ≡ some p
      → p.sub ≡ of_user user
      → p.tv ≤ u.token_version
      → get_current_user s now token ended ≢ ok (y, db1)
  unfolding get_current_user
  old_access now token u y p db1 found decoded subject old h =
      let run : current_of (some p) ended ≡ ok (y, db1) =
        subst (λ o. current_of o ended ≡ ok (y, db1)) decoded h in
      let (_, read) =
        raise_if-inv (not (is_access p.token_type)) unauthorized (current_subject p p.sub) ended
          run in
      let mine : current_subject p (of_user user) ended ≡ ok (y, db1) =
        subst (λ x. current_subject p x ended ≡ ok (y, db1)) subject read in
      let row : users_by_id user ended ≡ bump u ∷ [] =
        select-update_row (λ x. x.id) (λ x. x.id == user) user bump (λ _. refl) db.users
        ∙ ap (update_row (λ x. x.id) user bump) found
        ∙ rw (found-test (λ x. x.id == user) u [] db.users found) refl in
      let checked : current_found p (some (bump u)) ended ≡ ok (y, db1) =
        sym (find_one-run (users_by_id user) (current_found p) ended (some (bump u)) row) ∙ mine in
      let (_, version) =
        raise_if-inv (not (u.status is UserStatus.active)) forbidden
          (raise_if (not (p.tv == suc u.token_version)) unauthorized >>= λ _. pure (bump u)) ended
          checked in
      let (same, _) =
        raise_if-inv (not (p.tv == suc u.token_version)) unauthorized (pure (bump u)) ended
          version in
      ground (arith, same, old)

-- On the tables as `logout_all` leaves them, whatever the clock says: no refresh token is exchanged
-- whose hash only rows of the user have, not even within the grace of a rotation, and no access
-- token that was signed for the user under the version before, or an older one, is accepted. The
-- user's id has one row. A later login is another state of the tables.
pub logout_all-ends :
    (s : Security) (t user : ℕ) (db : Db) (u : User)
    → users_by_id user db ≡ u ∷ []
    → let after = request (logout_all t user) db in
      ((now : ℕ) (token : Text) (r : TokenResponse × Db)
        → All
            (λ x. text_eq x.token_hash (s.sha256 token) ≡ true → x.user_id ≡ user)
            db.refresh_tokens
        → refresh_tokens s now token after ≢ ok r)
      × ((now : ℕ) (token : Text) (p : Payload) (y : User) (db1 : Db)
          → s.decode now token ≡ some p
          → p.sub ≡ of_user user
          → p.tv ≤ u.token_version
          → get_current_user s now token after ≢ ok (y, db1))
unfolding logout_all
logout_all-ends s t user db u found = (
  λ now token r own. ended_token s t user db now token r own,
  λ now token p y db1 decoded subject old.
      old_access s t user db now token u y p db1 found decoded subject old,
)
