-- ===== src/Auth/Names.antt =====
-- The search for a free username of `social_login` (backend/app/services/auth_service.py) ends, on
-- a name that nobody has.
use kaasb.Common.{
  ℕ, zero, suc, ◌≤◌, ◌<◌, ◌≡◌, ◌≢◌, refl, sym, ap, ◌∙◌, Bool, Bool-cases, inl, inr, true, false,
  some, List, [], ◌∷◌, ◌++◌, select, length, not, ◌||◌, Text, text_eq, text_eq→eq, digits,
  digits_injective, digits_nonempty, arith,
}
use mathlib.Core.List.{append-nil}
use kaasb.Db.{User}
use kaasb.Auth.Social.{candidate, is_taken, first_free, free_username}

append-cancel : (xs ys zs : Text) → xs ++ ys ≡ xs ++ zs → ys ≡ zs
append-cancel [] ys zs h = h
append-cancel (x ∷ xs) ys zs h = append-cancel xs ys zs (cc)

suffix-nil : (xs ys : Text) → xs ++ ys ≡ xs → ys ≡ []
suffix-nil xs ys h = append-cancel xs ys [] (h ∙ sym (append-nil xs))

candidate_injective : (base : Text) (i j : ℕ) → candidate base i ≡ candidate base j → i ≡ j
candidate_injective base zero zero h = refl
candidate_injective base zero (suc j) h =
    absurd (digits_nonempty (suc j) (suffix-nil base (digits (suc j)) (sym h)))
candidate_injective base (suc i) zero h =
    absurd (digits_nonempty (suc i) (suffix-nil base (digits (suc i)) h))
candidate_injective base (suc i) (suc j) h =
    digits_injective (suc i) (suc j) (append-cancel base (digits (suc i)) (digits (suc j)) h)

without : Text → List User → List User
without name us = select (λ u. not (text_eq u.username name)) us

without-length-le : (name : Text) (us : List User) → length (without name us) ≤ length us
unfolding without
without-length-le name [] = omega arith
without-length-le name (u ∷ us) = ground (arith, without-length-le name us)

-- Leaving out the users who have a taken name leaves fewer.
without-length-lt :
    (name : Text) (us : List User) → is_taken name us ≡ true → length (without name us) < length us
unfolding without
without-length-lt name [] h = absurd (cc)
without-length-lt name (u ∷ us) h = elim (Bool-cases (text_eq u.username name)) [
  | inl y ↦
      rw y (let k : length (without name us) ≤ length us = without-length-le name us in omega arith)
  | inr n ↦ rw n (let k = without-length-lt name us (rw n at h) in omega (arith, k))
]

-- Another name is taken by none of them.
without-is_taken :
    (name other : Text) (us : List User)
    → name ≢ other
    → is_taken other us ≡ is_taken other (without name us)
unfolding without
without-is_taken name other [] apart = refl
without-is_taken name other (u ∷ us) apart = elim (Bool-cases (text_eq u.username name)) [
  | inl y ↦ elim (Bool-cases (text_eq u.username other)) [
    | inl z ↦ absurd (apart (sym (text_eq→eq u.username name y) ∙ text_eq→eq u.username other z))
    | inr m ↦ rw (y, m) (without-is_taken name other us apart)
  ]
  | inr n ↦ rw n (ap (λ b. text_eq u.username other || b) (without-is_taken name other us apart))
]

first_free-total :
    (base : Text) (f k : ℕ) (taken : ℕ → Bool) (us : List User)
    → length us < f
    → ((j : ℕ) → k ≤ j → taken j ≡ is_taken (candidate base j) us)
    → (i : ℕ) × (first_free f k taken (candidate base) ≡ some (candidate base i))
      × (taken i ≡ false)
unfolding first_free
first_free-total base zero k taken us enough same = absurd (omega (arith, enough))
first_free-total base (suc f) k taken us enough same = elim (Bool-cases (taken k)) [
  | inr free ↦ (k, rw free refl, free)
  | inl busy ↦
      let name = candidate base k in
      let fewer = without-length-lt name us (sym (same k (omega arith)) ∙ busy) in
      let (i, runs, free) =
        first_free-total base f (suc k) taken (without name us) (omega (arith, fewer, enough))
          (λ j later.
            same j (omega (arith, later))
            ∙ without-is_taken name (candidate base j) us
                (λ e. absurd (omega (arith, candidate_injective base k j e, later)))) in
      (i, rw busy runs, free)
]

-- Whatever the users and the base name are, the search finds a name after one try more than there
-- are users at most: one of the names it tries, which no user has.
pub free_username-free :
    (base : Text) (us : List User)
    → (i : ℕ) × (free_username base us ≡ some (candidate base i))
      × (is_taken (candidate base i) us ≡ false)
unfolding free_username
free_username-free base us =
    first_free-total base (suc (length us)) 0 (λ k. is_taken (candidate base k) us) us (omega arith)
      (λ j h. refl)
