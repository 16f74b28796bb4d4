-- ===== src/Common/Updates.antt =====
-- Writes to the rows of a table that have a given key, and what queries see of them.
use kaasb.Common.Tests.{◌==◌, if◌then◌else◌, Bool-cases}
use kaasb.Common.Lists.{All, select, sum_of, length}
use Prim.Native.Nat.{ℕ, ◌+◌, ◌≤◌}
use mathlib.Core.Path.{◌≡◌, refl, sym, ap, subst}
use mathlib.Core.Logic.{◌≢◌, inl, inr}
use mathlib.Core.Bool.{Bool, true, ◌&&◌}
use mathlib.Core.List.{List, [], ◌∷◌, map}
use native.Mathlib.Omega.{arith}

pub cons-head {ℓ} : {A : Type ℓ} {x y : A} {xs ys : List A} → x ∷ xs ≡ y ∷ ys → x ≡ y
cons-head h = cc

-- What holds of every row holds of one that a query finds.
pub found-All {κ} :
    {A : Type 0} (P : A → Type κ) (p : A → Bool) (a : A) (rest xs : List A)
    → All P xs
    → select p xs ≡ a ∷ rest
    → P a × (p a ≡ true)
found-All P p a rest [] h e = absurd (cc)
found-All P p a rest (x ∷ xs) h e = elim (Bool-cases (p x)) [
  | inl hit ↦
      let first : x ≡ a = cons-head (rw hit at e) in
      (subst P first h.0, subst (λ b. p b ≡ true) first hit)
  | inr miss ↦ found-All P p a rest xs h.1 (rw miss at e)
]

pub found-test :
    {A : Type 0} (p : A → Bool) (a : A) (rest xs : List A) → select p xs ≡ a ∷ rest → p a ≡ true
found-test p a rest [] e = absurd (cc)
found-test p a rest (x ∷ xs) e = elim (Bool-cases (p x)) [
  | inl hit ↦ subst (λ b. p b ≡ true) (cons-head (rw hit at e)) hit
  | inr miss ↦ found-test p a rest xs (rw miss at e)
]

module _ {A : Type 0} (key : A → ℕ) where
  abbrev pub update_row : ℕ → (A → A) → List A → List A
  update_row k f [] = []
  update_row k f (x ∷ xs) = (if key x == k then f x else x) ∷ update_row k f xs

  -- No two rows have one key.
  abbrev pub Distinct : List A → Type 0
  Distinct [] = Unit
  Distinct (x ∷ xs) = All (λ y. key y ≢ key x) xs × Distinct xs

  -- Every row with the key `k` is the row `a`.
  abbrev pub OnlyRow : ℕ → A → List A → Type 0
  OnlyRow k a xs = All (λ x. key x ≡ k → x ≡ a) xs

  pub select-update_row :
      (p : A → Bool) (k : ℕ) (f : A → A)
      → ((a : A) → p (f a) ≡ p a)
      → (xs : List A) → select p (update_row k f xs) ≡ update_row k f (select p xs)
  select-update_row p k f same [] = refl
  select-update_row p k f same (x ∷ xs) = ground (arith, same x, select-update_row p k f same xs)

  -- A write that keeps every weight keeps the sum.
  pub sum_of-update_row :
      (w : A → ℕ) (k : ℕ) (f : A → A) (xs : List A)
      → All (λ x. key x ≡ k → w (f x) ≡ w x) xs
      → sum_of w (update_row k f xs) ≡ sum_of w xs
  sum_of-update_row w k f [] h = refl
  sum_of-update_row w k f (x ∷ xs) h = ground (arith, sum_of-update_row w k f xs h.1)

  pub update_row-map :
      (k : ℕ) (f : A → A) (xs : List A)
      → map (λ x. if key x == k then f x else x) xs ≡ update_row k f xs
  update_row-map k f [] = refl
  update_row-map k f (x ∷ xs) =
      ap (λ ys. (if key x == k then f x else x) ∷ ys) (update_row-map k f xs)

  -- A write adds no row to a query but those that it changes into such.
  pub length-select-update_row :
      (p : A → Bool) (k : ℕ) (f : A → A) (xs : List A)
      → length (select p (update_row k f xs))
        ≤ length (select p xs) + length (select (λ x. (key x == k) && p (f x)) xs)
  length-select-update_row p k f [] = omega arith
  length-select-update_row p k f (x ∷ xs) = ground (arith, length-select-update_row p k f xs)

  -- The rows that are written and the others, each for itself.
  pub All-update_row_cases :
      (P : A → Type 0) (k : ℕ) (f : A → A) (xs : List A)
      → All (λ x. key x ≡ k → P (f x)) xs
      → All (λ x. key x ≢ k → P x) xs
      → All P (update_row k f xs)
  All-update_row_cases P k f [] h a = tt
  All-update_row_cases P k f (x ∷ xs) h a = elim (Bool-cases (key x == k)) [
    | inl e ↦ rw e (h.0 (ground arith), All-update_row_cases P k f xs h.1 a.1)
    | inr e ↦ rw e (a.0 (ground arith), All-update_row_cases P k f xs h.1 a.1)
  ]

  pub All-update_row :
      (P : A → Type 0) (k : ℕ) (f : A → A) (xs : List A)
      → All (λ x. key x ≡ k → P (f x)) xs
      → All P xs
      → All P (update_row k f xs)
  All-update_row P k f [] h a = tt
  All-update_row P k f (x ∷ xs) h a = elim (Bool-cases (key x == k)) [
    | inl e ↦ rw e (h.0 (ground arith), All-update_row P k f xs h.1 a.1)
    | inr e ↦ rw e (a.0, All-update_row P k f xs h.1 a.1)
  ]

  OnlyRow-of_ne : (k : ℕ) (a : A) (xs : List A) → All (λ y. key y ≢ k) xs → OnlyRow k a xs
  OnlyRow-of_ne k a [] h = tt
  OnlyRow-of_ne k a (x ∷ xs) h = (λ e. absurd (h.0 e), OnlyRow-of_ne k a xs h.1)

  -- A row that a query finds is the only one with its key, and passes the query's test.
  pub found-OnlyRow :
      (p : A → Bool) (a : A) (rest xs : List A)
      → Distinct xs
      → select p xs ≡ a ∷ rest
      → OnlyRow (key a) a xs
  found-OnlyRow p a rest [] d e = tt
  found-OnlyRow p a rest (x ∷ xs) d e = elim (Bool-cases (p x)) [
    | inl hit ↦
        let first : x ≡ a = cons-head (rw hit at e) in
        (
          λ _. first,
          OnlyRow-of_ne (key a) a xs (subst (λ b. All (λ y. key y ≢ key b) xs) first d.0),
        )
    | inr miss ↦
        let later = rw miss at e in
        let apart : key a ≢ key x = (found-All (λ y. key y ≢ key x) p a rest xs d.0 later).0 in
        (λ same. absurd (apart (sym same)), found-OnlyRow p a rest xs d.1 later)
  ]
