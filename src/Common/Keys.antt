-- ===== src/Common/Keys.antt =====
-- Rows that keep their keys, and new rows.
use kaasb.Common.Tests.{◌==◌, Bool-cases}
use kaasb.Common.Lists.{All, All-append, All-imp}
use kaasb.Common.Updates.{update_row, All-update_row, Distinct}
use Prim.Native.Nat.{ℕ}
use mathlib.Core.Path.{◌≡◌, sym, subst, ◌∙◌}
use mathlib.Core.Logic.{◌≢◌, inl, inr}
use mathlib.Core.List.{List, [], ◌∷◌, ◌++◌}

module _ {A : Type 0} (key : A → ℕ) (k : ℕ) (f : A → A) (same : (a : A) → key (f a) ≡ key a) where
  All-key-update_row :
      (n : ℕ) (xs : List A) → All (λ y. key y ≢ n) xs → All (λ y. key y ≢ n) (update_row key k f xs)
  All-key-update_row n xs h =
      All-update_row key (λ y. key y ≢ n) k f xs
        (All-imp (λ y. key y ≢ n) (λ y. key y ≡ k → key (f y) ≢ n)
          (λ y other _ e. other (sym (same y) ∙ e)) xs h)
        h

  pub Distinct-update_row : (xs : List A) → Distinct key xs → Distinct key (update_row key k f xs)
  Distinct-update_row [] d = tt
  Distinct-update_row (x ∷ xs) d = elim (Bool-cases (key x == k)) [
    | inl y ↦ rw y (
      subst (λ n. All (λ z. key z ≢ n) (update_row key k f xs)) (sym (same x))
          (All-key-update_row (key x) xs d.0),
      Distinct-update_row xs d.1,
    )
    | inr n ↦ rw n (All-key-update_row (key x) xs d.0, Distinct-update_row xs d.1)
  ]

module _ {A : Type 0} (key : A → ℕ) where
  pub Distinct-append :
      (a : A) (xs : List A)
      → Distinct key xs
      → All (λ x. key x ≢ key a) xs
      → Distinct key (xs ++ a ∷ [])
  Distinct-append a [] d h = (tt, tt)
  Distinct-append a (x ∷ xs) d h =
      (All-append _ xs (a ∷ []) d.0 ((λ e. h.0 (sym e)), tt), Distinct-append a xs d.1 h.1)
