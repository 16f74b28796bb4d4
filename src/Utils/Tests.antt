-- ===== src/Utils/Tests.antt =====
-- Runs of the shared parts at concrete inputs, and each theorem at an input that meets its hypotheses.
use kaasb.Common.{ℕ, ◌≡◌, refl, Bool, some, List, [], ◌∷◌, ◌==◌, Text, arith}
use kaasb.Utils.Paging.{clamp_page_size, total_pages, page_of, read_pages, read_pages-all}
use kaasb.Utils.Phone.{normalize_iraqi_phone, in_format, normalised, written}

abbrev runs : Unit {0}
unfolding clamp_page_size total_pages page_of read_pages normalize_iraqi_phone in_format
runs = tt

abbrev items : List ℕ
items = 1 ∷ 2 ∷ 3 ∷ 4 ∷ 5 ∷ []

states : (total_pages 5 2 ≡ 3) × (page_of 3 2 items ≡ 5 ∷ []) × (clamp_page_size 500 100 ≡ 100)
unfolding runs
states = (refl, refl, refl)

read_pages-all_example : read_pages 2 1 (total_pages 5 2) items ≡ items
unfolding runs
read_pages-all_example = read_pages-all 2 100 items (omega arith)

abbrev is_blank : ℕ → Bool
is_blank c = c == 32

abbrev digits : Text
digits = b'3' ∷ b'1' ∷ b'2' ∷ b'3' ∷ b'4' ∷ b'5' ∷ b'6' ∷ b'7' ∷ b'8' ∷ []

-- 0731-2345678 with a blank before it.
abbrev raw : Text
raw = b' ' ∷ b'0' ∷ b'7' ∷ b'3' ∷ b'1' ∷ b'-' ∷ b'2' ∷ b'3' ∷ b'4' ∷ b'5' ∷ b'6' ∷ b'7' ∷ b'8' ∷ []

stored : normalize_iraqi_phone is_blank (some raw) ≡ some (written normalised digits)
unfolding runs
stored = refl
