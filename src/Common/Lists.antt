-- ===== src/Common/Lists.antt =====
-- Lists that are measured, filtered and summed by Boolean tests over native numbers.
use Prim.Native.Nat.{ℕ, suc, ◌+◌, ◌≤◌}
use mathlib.Core.Path.{◌≡◌, refl}
use mathlib.Core.Bool.{Bool, true, false, ◌&&◌, ◌||◌}
use mathlib.Core.List.{List, [], ◌∷◌, ◌++◌, map}
use native.Mathlib.Omega.{arith}
use mathlib.Core.Logic.{inl, inr}
use kaasb.Common.Tests.{if◌then◌else◌, Bool-cases}

module _ {ℓ} {A : Type ℓ} where
  abbrev pub length : List A → ℕ
  length [] = 0
  length (x ∷ xs) = suc (length xs)

  -- The rows of a query with a `where`.
  abbrev pub select : (A → Bool) → List A → List A
  select p [] = []
  select p (x ∷ xs) = if p x then x ∷ select p xs else select p xs

  abbrev pub any : (A → Bool) → List A → Bool
  any p [] = false
  any p (x ∷ xs) = p x || any p xs

  abbrev pub all : (A → Bool) → List A → Bool
  all p [] = true
  all p (x ∷ xs) = p x && all p xs

  -- `sum(f(x) for x in xs)`
  abbrev pub sum_of : (A → ℕ) → List A → ℕ
  sum_of f [] = 0
  sum_of f (x ∷ xs) = f x + sum_of f xs

  -- A predicate holds of every entry.
  abbrev pub All {κ} : (A → Type κ) → List A → Type κ
  All P [] = Unit
  All P (x ∷ xs) = P x × All P xs

module _ {ℓ} {A : Type ℓ} where
  pub sum_of-append : (f : A → ℕ) (xs ys : List A) → sum_of f (xs ++ ys) ≡ sum_of f xs + sum_of f ys
  sum_of-append f [] ys = omega arith
  sum_of-append f (x ∷ xs) ys = omega (arith, sum_of-append f xs ys)

  pub sum_of-ext : (f g : A → ℕ) → ((a : A) → f a ≡ g a) → (xs : List A) → sum_of f xs ≡ sum_of g xs
  sum_of-ext f g same [] = refl
  sum_of-ext f g same (x ∷ xs) = omega (arith, same x, sum_of-ext f g same xs)

  pub select-append :
      (p : A → Bool) (xs ys : List A) → select p (xs ++ ys) ≡ select p xs ++ select p ys
  select-append p [] ys = refl
  select-append p (x ∷ xs) ys = ground (arith, select-append p xs ys)

  -- A query that no row passes.
  pub select-none : (p : A → Bool) (xs : List A) → All (λ x. p x ≡ false) xs → select p xs ≡ []
  select-none p [] h = refl
  select-none p (x ∷ xs) h = rw h.0 (select-none p xs h.1)

  -- The rows that a query leaves out.
  pub select-empty : (p : A → Bool) (xs : List A) → select p xs ≡ [] → All (λ x. p x ≡ false) xs
  select-empty p [] e = tt
  select-empty p (x ∷ xs) e = ground (arith, select-empty p xs)

  pub All-select {κ} :
      (P : A → Type κ) (p : A → Bool) (xs : List A) → All P xs → All P (select p xs)
  All-select P p [] h = tt
  All-select P p (x ∷ xs) h = elim (Bool-cases (p x)) [
    | inl hit ↦ rw hit (h.0, All-select P p xs h.1)
    | inr miss ↦ rw miss (All-select P p xs h.1)
  ]

  pub any-none : (p : A → Bool) (xs : List A) → select p xs ≡ [] → any p xs ≡ false
  any-none p [] e = refl
  any-none p (x ∷ xs) e = ground (arith, any-none p xs)

  pub length-append : (xs ys : List A) → length (xs ++ ys) ≡ length xs + length ys
  length-append [] ys = omega arith
  length-append (x ∷ xs) ys = omega (arith, length-append xs ys)

  pub All-append {κ} : (P : A → Type κ) (xs ys : List A) → All P xs → All P ys → All P (xs ++ ys)
  All-append P [] ys hx hy = hy
  All-append P (x ∷ xs) ys hx hy = (hx.0, All-append P xs ys hx.1 hy)

  pub All-of {κ} : {P : A → Type κ} → ((a : A) → P a) → (xs : List A) → All P xs
  All-of h [] = tt
  All-of h (x ∷ xs) = (h x, All-of h xs)

  pub All-map {κ} :
      (P : A → Type κ) (f : A → A)
      → ((a : A) → P a → P (f a))
      → (xs : List A) → All P xs
      → All P (map f xs)
  All-map P f h [] a = tt
  All-map P f h (x ∷ xs) a = (h x a.0, All-map P f h xs a.1)

  pub All-imp {κ μ} :
      (P : A → Type κ) (Q : A → Type μ)
      → ((a : A) → P a → Q a)
      → (xs : List A) → All P xs
      → All Q xs
  All-imp P Q h [] a = tt
  All-imp P Q h (x ∷ xs) a = (h x a.0, All-imp P Q h xs a.1)

module _ {ℓ} {A : Type ℓ} (p : A → Bool) (a : A) where
  -- Where one row passes a test, every row that passes is that one.
  pub select-single : (xs : List A) → select p xs ≡ a ∷ [] → All (λ x. p x ≡ true → x ≡ a) xs
  select-single [] e = tt
  select-single (x ∷ xs) e = elim (Bool-cases (p x)) [
    | inl hit ↦
        let h : x ∷ select p xs ≡ a ∷ [] = rw hit at e in
        (
          λ _. cc,
          All-imp (λ y. p y ≡ false) (λ y. p y ≡ true → y ≡ a) (λ y no_pass pass. absurd (cc)) xs
              (select-empty p xs (cc)),
        )
    | inr miss ↦ (λ hit. absurd (cc), select-single xs (rw miss at e))
  ]

module _ {ℓ} {A : Type ℓ} where
  pub select-and :
      (p q : A → Bool) (xs : List A) → select (λ x. p x && q x) xs ≡ select q (select p xs)
  select-and p q [] = refl
  select-and p q (x ∷ xs) = ground (arith, select-and p q xs)

  pub select-map :
      (p : A → Bool) (f : A → A)
      → ((a : A) → p (f a) ≡ p a)
      → (xs : List A) → select p (map f xs) ≡ map f (select p xs)
  select-map p f same [] = refl
  select-map p f same (x ∷ xs) = ground (arith, same x, select-map p f same xs)

  -- A rewriting after which no further row passes.
  pub length-select-map :
      (p : A → Bool) (f : A → A)
      → ((a : A) → p (f a) ≡ true → p a ≡ true)
      → (xs : List A) → length (select p (map f xs)) ≤ length (select p xs)
  length-select-map p f back [] = omega arith
  length-select-map p f back (x ∷ xs) = ground (arith, back x, length-select-map p f back xs)

pub All-zip :
    {A : Type 0} (P Q R : A → Type 0)
    → ((a : A) → P a → Q a → R a)
    → (xs : List A) → All P xs
    → All Q xs
    → All R xs
All-zip P Q R h [] p q = tt
All-zip P Q R h (x ∷ xs) p q = (h x p.0 q.0, All-zip P Q R h xs p.1 q.1)
