-- ===== src/Auth/Current.antt =====
-- The current user of a request (backend/app/api/dependencies.py).
use kaasb.Common.{ℕ, Option, none, some, not}
use kaasb.Db.{
  Db, Action, ◌>>=◌, ◌>>◌, raise, raise_if, find_one, ◌is◌, not_found, forbidden, User, UserStatus,
  user_coded, Keeps, Keeps-raise, Keeps-raise_if, Keeps-bind, Keeps-find,
}
use kaasb.Auth.Sessions.{users_by_id}

-- `get_current_user`, for a valid token of the user.
abbrev pub or_nobody : {A : Type 0} → (User → Action A) → Option User → Action A
or_nobody f none = raise not_found
or_nobody f (some u) = do raise_if (not (u.status is UserStatus.active)) forbidden; f u

abbrev pub as_user : {A : Type 0} → ℕ → (User → Action A) → Action A
as_user k f = find_one (users_by_id k) >>= or_nobody f

pub Keeps-as_user :
    {A : Type 0} (P : Db → Type 0) (k : ℕ) (f : User → Action A)
    → ((u : User) → Keeps P (f u))
    → Keeps P (as_user k f)
Keeps-as_user {A} P k f h = Keeps-find P (users_by_id k) (or_nobody f) found
  where
    found : (o : Option User) → Keeps P (or_nobody f o)
    found none = Keeps-raise P not_found
    found (some u) =
        Keeps-bind P (raise_if (not (u.status is UserStatus.active)) forbidden) _
          (Keeps-raise_if P _ _) λ _. h u
