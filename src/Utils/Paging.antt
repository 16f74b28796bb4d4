-- ===== src/Utils/Paging.antt =====
-- `BaseService` (backend/app/services/base.py): the pages of a list.
use kaasb.Common.{
  ℕ, zero, suc, ◌+◌, ◌-◌, ◌*◌, ◌/◌, ◌%◌, ◌≤◌, ◌<◌, min, max, ◌≡◌, refl, ap, sym, subst, ◌∙◌, ap₂,
  true, List, [], ◌∷◌, ◌++◌, length, take, if◌then◌else◌, ltb, arith,
}
use native.Mathlib.Nat.{mod-lt, div-add-mod', zero-mul, suc-mul}

-- `OFFSET n`
abbrev pub drop {ℓ} : {A : Type ℓ} → ℕ → List A → List A
drop zero xs = xs
drop (suc n) [] = []
drop (suc n) (x ∷ xs) = drop n xs

unfoldable pub clamp_page_size : ℕ → ℕ → ℕ
clamp_page_size page_size maximum = min (max page_size 1) maximum

-- `math.ceil` of the quotient of floats, exact below 2^53.
unfoldable pub total_pages : ℕ → ℕ → ℕ
total_pages total page_size =
    if ltb 0 page_size then max 1 ((total + (page_size - 1)) / page_size) else 1

-- The query of each list method: OFFSET (page - 1) * page_size LIMIT page_size.
unfoldable pub page_of {ℓ} : {A : Type ℓ} → ℕ → ℕ → List A → List A
page_of page page_size xs = take page_size (drop ((page - 1) * page_size) xs)

-- The pages from `page` on, `n` of them.
unfoldable pub read_pages {ℓ} : {A : Type ℓ} → ℕ → ℕ → ℕ → List A → List A
read_pages page_size page zero xs = []
read_pages page_size page (suc n) xs =
    page_of page page_size xs ++ read_pages page_size (suc page) n xs

suc_add : (m n : ℕ) → suc (m + n) ≡ suc m + n
suc_add m n = omega arith

add_swap : (m n : ℕ) → n + m ≡ m + n
add_swap m n = omega arith

module _ {ℓ} {A : Type ℓ} where
  drop_nil : (n : ℕ) → drop {A = A} n [] ≡ []
  drop_nil zero = refl
  drop_nil (suc n) = refl

  take_nil : (n : ℕ) → take {A = A} n [] ≡ []
  take_nil zero = refl
  take_nil (suc n) = refl

  drop_add : (m n : ℕ) (xs : List A) → drop n (drop m xs) ≡ drop (m + n) xs
  drop_add zero n xs = ap (λ k. drop k xs) (omega arith)
  drop_add (suc m) n [] = drop_nil n ∙ sym (drop_nil (suc m + n))
  drop_add (suc m) n (x ∷ xs) = drop_add m n xs ∙ ap (λ k. drop k (x ∷ xs)) (suc_add m n)

  take_add : (m n : ℕ) (xs : List A) → take m xs ++ take n (drop m xs) ≡ take (m + n) xs
  take_add zero n xs = ap (λ k. take k xs) (omega arith)
  take_add (suc m) n [] = take_nil n ∙ sym (take_nil (suc m + n))
  take_add (suc m) n (x ∷ xs) =
      ap (λ ys. x ∷ ys) (take_add m n xs) ∙ ap (λ k. take k (x ∷ xs)) (suc_add m n)

  take_all : (n : ℕ) (xs : List A) → length xs ≤ n → take n xs ≡ xs
  take_all zero [] h = refl
  take_all (suc n) [] h = refl
  take_all zero (x ∷ xs) h = absurd (omega arith)
  take_all (suc n) (x ∷ xs) h = ap (λ ys. x ∷ ys) (take_all n xs (omega arith))

  read_pages-take :
      (size k n : ℕ) (xs : List A)
      → read_pages size (suc k) n xs ≡ take (n * size) (drop (k * size) xs)
  unfolding read_pages page_of
  read_pages-take size k zero xs = ap (λ m. take m (drop (k * size) xs)) (sym (zero-mul size))
  read_pages-take size k (suc n) xs =
      ap₂ (λ ys zs. ys ++ zs) (ap (λ i. take size (drop (i * size) xs)) (omega arith))
        (read_pages-take size (suc k) n xs
          ∙ ap (λ m. take (n * size) (drop m xs)) (suc-mul k size)
          ∙ ap (take (n * size)) (sym (drop_add (k * size) size xs)))
      ∙ take_add size (n * size) (drop (k * size) xs)
      ∙ ap (λ m. take m (drop (k * size) xs)) (add_swap (n * size) size ∙ sym (suc-mul n size))

covers : (q m total size : ℕ) → q + m ≡ total + (size - 1) → m < size → total ≤ q
covers q m total size e l = omega arith

at_least_one : (q total size : ℕ) → total ≤ q * size → total ≤ max 1 q * size
at_least_one zero total size h =
    let nothing = subst (λ n. total ≤ n) (zero-mul size) h in omega arith
at_least_one (suc q) total size h =
    let same : suc q ≡ max 1 (suc q) = omega arith in subst (λ n. total ≤ n * size) same h

total_pages-covers : (total size : ℕ) → 0 < size → total ≤ total_pages total size * size
unfolding total_pages
total_pages-covers total size h =
    let some_rows : ltb 0 size ≡ true = ground (arith, h) in
    let q = (total + (size - 1)) / size in
    let enough =
      covers (q * size) ((total + (size - 1)) % size) total size
        (div-add-mod' (total + (size - 1)) size) (mod-lt (total + (size - 1)) h) in
    rw some_rows (at_least_one q total size enough)

-- Reading the pages from the first to the last that the answer announces, whatever page size was
-- asked for, gives the list itself: each of its rows once and in its order.
pub read_pages-all {ℓ} :
    {A : Type ℓ} (requested maximum : ℕ) (xs : List A)
    → 0 < maximum
    → let size = clamp_page_size requested maximum in
      read_pages size 1 (total_pages (length xs) size) xs ≡ xs
unfolding clamp_page_size
read_pages-all requested maximum xs h =
    let size = min (max requested 1) maximum in
    let some_rows : 0 < size = omega arith in
    read_pages-take size 0 (total_pages (length xs) size) xs
    ∙ ap (λ m. take (total_pages (length xs) size * size) (drop m xs)) (zero-mul size)
    ∙ take_all _ xs (total_pages-covers (length xs) size some_rows)
