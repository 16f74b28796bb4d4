-- ===== src/Utils/Phone.antt =====
-- `normalize_iraqi_phone` (backend/app/utils/phone.py). Which code points the pattern `\s` matches is
-- an argument.
use kaasb.Common.{
  ℕ, zero, suc, ◌≡◌, refl, ap, ◌∙◌, Bool, true, false, Option, none, some, [], ◌∷◌, ◌++◌, select,
  length, if◌then◌else◌, ◌==◌, ◌&&◌, ◌||◌, not, Text,
}
use kaasb.Utils.Paging.{drop}

-- `s.startswith(t)`, with the prefix first.
abbrev pub starts_with : Text → Text → Bool
starts_with [] s = true
starts_with (c ∷ t) [] = false
starts_with (c ∷ t) (d ∷ s) = (d == c) && starts_with t s

-- `s[i] == c`
abbrev pub has_at : ℕ → ℕ → Text → Bool
has_at i c [] = false
has_at zero c (d ∷ s) = d == c
has_at (suc i) c (d ∷ s) = has_at i c s

abbrev pub is_noise : (ℕ → Bool) → ℕ → Bool
is_noise is_space c = is_space c || ((c == b'-') || ((c == b'(') || (c == b')')))

abbrev pub country : Text
country = b'9' ∷ b'6' ∷ b'4' ∷ []

abbrev pub with_plus : Text → Text
with_plus s = if starts_with (b'0' ∷ b'0' ∷ []) s then b'+' ∷ drop 2 s else s

unfoldable pub in_format : Text → Text
in_format s =
    if starts_with (b'+' ∷ country) s && ((length s == 14) && has_at 4 b'7' s)
    then s
    else if starts_with country s && ((length s == 13) && has_at 3 b'7' s)
    then b'+' ∷ s
    else if starts_with (b'0' ∷ b'7' ∷ []) s && (length s == 11)
    then b'+' ∷ country ++ drop 1 s
    else if starts_with (b'7' ∷ []) s && (length s == 10)
    then b'+' ∷ country ++ s
    else s

abbrev pub format_text : Text → Option Text
format_text [] = none
format_text (c ∷ s) = some (in_format (with_plus (c ∷ s)))

-- What `strip` removes is noise too.
unfoldable pub normalize_iraqi_phone : (ℕ → Bool) → Option Text → Option Text
normalize_iraqi_phone is_space none = none
normalize_iraqi_phone is_space (some raw) =
    format_text (select (λ c. not (is_noise is_space c)) raw)

-- The shapes of a number that the function accepts, with the digits after the leading 7.
pub data Shape : Type 0 where
  local short international trunk normalised : Shape

abbrev pub written : Shape → Text → Text
written local digits = b'0' ∷ b'7' ∷ digits
written short digits = b'7' ∷ digits
written international digits = country ++ (b'7' ∷ digits)
written trunk digits = b'0' ∷ b'0' ∷ country ++ (b'7' ∷ digits)
written normalised digits = b'+' ∷ country ++ (b'7' ∷ digits)

in_format-written :
    (s : Shape) (digits : Text)
    → length digits ≡ 9
    → format_text (written s digits) ≡ some (written normalised digits)
unfolding in_format
in_format-written local digits h = rw h refl
in_format-written short digits h = rw h refl
in_format-written international digits h = rw h refl
in_format-written trunk digits h = rw h refl
in_format-written normalised digits h = rw h refl

-- However a number is written, with whatever spaces, dashes and parentheses in it, it is stored in
-- one form: `+9647` and the nine digits.
pub normalize_iraqi_phone-same :
    (is_space : ℕ → Bool) (s : Shape) (digits raw : Text)
    → length digits ≡ 9
    → select (λ c. not (is_noise is_space c)) raw ≡ written s digits
    → normalize_iraqi_phone is_space (some raw) ≡ some (written normalised digits)
unfolding normalize_iraqi_phone
normalize_iraqi_phone-same is_space s digits raw h e =
    ap format_text e ∙ in_format-written s digits h
