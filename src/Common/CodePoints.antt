-- ===== src/Common/CodePoints.antt =====
-- Text as Python sees it, a list of code points, and `str.strip`.
use Prim.Native.Nat.{ℕ, zero, suc}
use mathlib.Core.Path.{◌≡◌, refl, ap₂}
use mathlib.Core.Bool.{Bool, true, false, ◌||◌, ◌&&◌}
use mathlib.Core.Option.{Option, none, some}
use mathlib.Core.List.{List, [], ◌∷◌}
use kaasb.Common.Tests.{leb, ◌==◌, if◌then◌else◌, ==_refl, ==→eq, &&-true}

abbrev pub Text : Type 0
Text = List ℕ

-- `str.isspace` of one character.
abbrev pub is_space : ℕ → Bool
is_space c =
    (leb 9 c && leb c 13)
    || ((leb 28 c && leb c 32)
        || ((c == 133)
            || ((c == 160)
                || ((c == 5760)
                    || ((leb 8192 c && leb c 8202)
                        || ((c == 8232)
                            || ((c == 8233) || ((c == 8239) || ((c == 8287) || (c == 12288))))))))))

abbrev pub drop_spaces : Text → Text
drop_spaces [] = []
drop_spaces (c ∷ cs) = let rest = drop_spaces cs in if is_space c then rest else c ∷ cs

-- The text without the white space at its end.
abbrev pub trim_end : Text → Text
trim_end [] = []
trim_end (c ∷ cs) = elim (trim_end cs) [
  | [] ↦ if is_space c then [] else c ∷ []
  | d ∷ ds ↦ c ∷ d ∷ ds
]

abbrev pub strip : Text → Text
strip s = trim_end (drop_spaces s)

-- `text[:n]`
abbrev pub take {ℓ} : {A : Type ℓ} → ℕ → List A → List A
take zero xs = []
take (suc n) [] = []
take (suc n) (x ∷ xs) = x ∷ take n xs

abbrev pub text_eq : Text → Text → Bool
text_eq [] [] = true
text_eq (a ∷ s) (b ∷ t) = (a == b) && text_eq s t
text_eq [] (b ∷ t) = false
text_eq (a ∷ s) [] = false

-- A nullable text column that a query compares with a text.
abbrev pub holds_text : Option Text → Text → Bool
holds_text none t = false
holds_text (some s) t = text_eq s t

pub text_eq_refl : (s : Text) → text_eq s s ≡ true
text_eq_refl [] = refl
text_eq_refl (a ∷ s) = rw (==_refl a) (text_eq_refl s)

pub text_eq→eq : (s t : Text) → text_eq s t ≡ true → s ≡ t
text_eq→eq [] [] h = refl
text_eq→eq (a ∷ s) (b ∷ t) h =
    let (same, rest) = &&-true (a == b) (text_eq s t) h in
    ap₂ (λ x xs. x ∷ xs) (==→eq a b same) (text_eq→eq s t rest)
text_eq→eq [] (b ∷ t) h = absurd (cc)
text_eq→eq (a ∷ s) [] h = absurd (cc)
