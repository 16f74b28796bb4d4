-- ===== src/Common/Digits.antt =====
-- `str` of a natural number: its decimal digits, as code points.
use Prim.Native.Nat.{ℕ, zero, suc, ◌+◌, ◌-◌, ◌*◌, ◌/◌, ◌%◌, ◌<◌}
use mathlib.Core.Path.{◌≡◌, refl, sym, ap, ◌∙◌}
use mathlib.Core.Logic.{◌≢◌, inl, inr}
use mathlib.Core.List.{[], ◌∷◌, ◌++◌}
use native.Mathlib.Omega.{arith}
use kaasb.Common.Tests.{ltb, if◌then◌else◌, Bool-cases}
use kaasb.Common.CodePoints.{Text}

-- The digits of `n`, by as many rounds as `f` at most.
digits_up_to : ℕ → ℕ → Text
digits_up_to zero n = []
digits_up_to (suc f) n =
    let rest = digits_up_to f (n / 10) ++ (48 + n % 10) ∷ [] in
    if ltb n 10 then (48 + n) ∷ [] else rest

-- A number has fewer digits than its successor counts.
unfoldable pub digits : ℕ → Text
unfolding digits_up_to
digits n = digits_up_to (suc n) n

value_from : ℕ → Text → ℕ
value_from acc [] = acc
value_from acc (c ∷ cs) = value_from (10 * acc + (c - 48)) cs

value_from-append :
    (acc c : ℕ) (s : Text) → value_from acc (s ++ c ∷ []) ≡ 10 * value_from acc s + (c - 48)
unfolding value_from
value_from-append acc c [] = refl
value_from-append acc c (d ∷ s) = value_from-append (10 * acc + (d - 48)) c s

value-digits_up_to : (f n : ℕ) → n < f → value_from 0 (digits_up_to f n) ≡ n
unfolding digits_up_to
value-digits_up_to zero n h = absurd (omega arith)
value-digits_up_to (suc f) n h = elim (Bool-cases (ltb n 10)) [
  | inl short ↦ rw short (unfold value_from in omega arith)
  | inr long ↦ rw long (
      value_from-append 0 (48 + n % 10) (digits_up_to f (n / 10))
      ∙ (let ih = value-digits_up_to f (n / 10) (ground (arith, long)) in omega (arith, ih)))
]

-- Two numbers with the same digits are equal.
pub digits_injective : (m n : ℕ) → digits m ≡ digits n → m ≡ n
unfolding digits
digits_injective m n h =
    sym (value-digits_up_to (suc m) m (omega arith))
    ∙ ap (value_from 0) h
    ∙ value-digits_up_to (suc n) n (omega arith)

snoc_nonempty : (s : Text) (c : ℕ) → s ++ c ∷ [] ≢ []
snoc_nonempty [] c h = cc
snoc_nonempty (d ∷ s) c h = cc

pub digits_nonempty : (n : ℕ) → digits n ≢ []
unfolding digits digits_up_to
digits_nonempty n h = elim (Bool-cases (ltb n 10)) [
  | inl short ↦ absurd (cc (rw short at h))
  | inr long ↦ snoc_nonempty (digits_up_to n (n / 10)) (48 + n % 10) (rw long at h)
]
