-- ===== src/Pages/Cover.antt =====
-- The number of pages and what they hold (app/schemas/common.py).
use order_run_be.Base.{
  ℕ, zero, suc, ◌+◌, ◌-◌, ◌*◌, ◌/◌, ◌≤◌, ◌<◌, ◌≡◌, refl, sym, ap, ◌∙◌, List, [], ◌∷◌, ◌++◌, arith,
  length, take, slice, Bool-cases, inl, inr, ltb, ◌&&◌, true,
}
use native.Mathlib.Nat.{suc-mul, zero-mul, lt-div-mul-add, div-mul-le_self}
use order_run_be.Pages.{total_pages}

longer : (k n : ℕ) → suc (k + n) ≡ suc k + n
longer k n = omega arith

module _ {A : Type 0} where
  -- The first pages of a query, from page 0 on
  abbrev pub pages : ℕ → ℕ → List A → List A
  pages size zero xs = []
  pages size (suc n) xs = pages size n xs ++ slice (n * size) size xs

  abbrev no_rows : List A
  no_rows = []

  take-nil : (n : ℕ) → take n no_rows ≡ no_rows
  take-nil zero = refl
  take-nil (suc n) = refl

  take-slice : (k n : ℕ) (xs : List A) → take k xs ++ slice k n xs ≡ take (k + n) xs
  take-slice zero n xs = ap (λ m. take m xs) (omega arith)
  take-slice (suc k) n [] = take-nil n ∙ sym (take-nil (suc k + n))
  take-slice (suc k) n (x ∷ xs) =
      ap (λ ys. x ∷ ys) (take-slice k n xs) ∙ ap (λ m. take m (x ∷ xs)) (longer k n)

  pages-take : (size n : ℕ) (xs : List A) → pages size n xs ≡ take (n * size) xs
  pages-take size zero xs = ap (λ k. take k xs) (sym (zero-mul size))
  pages-take size (suc n) xs =
      ap (λ ys. ys ++ slice (n * size) size xs) (pages-take size n xs)
      ∙ take-slice (n * size) size xs
      ∙ ap (λ k. take k xs) (sym (suc-mul n size))

  take-all : (n : ℕ) (xs : List A) → length xs ≤ n → take n xs ≡ xs
  take-all zero [] h = refl
  take-all zero (x ∷ xs) h = absurd (omega arith)
  take-all (suc n) [] h = refl
  take-all (suc n) (x ∷ xs) h = ap (λ ys. x ∷ ys) (take-all n xs (omega arith))

-- The quotient rounded up
total_pages-ceiling :
    (n size : ℕ)
    → 0 < size
    → (n ≤ total_pages n size * size) × (total_pages n size * size < n + size)
unfolding total_pages
total_pages-ceiling zero size h = elim (Bool-cases (ltb 0 size)) [
  | inl e ↦ rw e (omega arith, omega arith)
  | inr e ↦ rw e (omega arith, omega arith)
]
total_pages-ceiling (suc n) size h =
    let positive : (ltb 0 size && ltb 0 (suc n)) ≡ true = ground arith in
    let above : suc n + size - 1 < (suc n + size - 1) / size * size + size = lt-div-mul-add h in
    let below = div-mul-le_self (suc n + size - 1) size in
    rw positive (omega (arith, above), omega (arith, below))

-- The pages of an ordered query, as many as total_pages says, put one after the other are its
-- rows, for a positive page size; and there is no page more than the rows need: all pages, were
-- they full, would hold fewer rows than there are and one page more.
pub pages-all :
    {A : Type 0} (size : ℕ) (xs : List A)
    → 0 < size
    → (pages size (total_pages (length xs) size) xs ≡ xs)
      × (total_pages (length xs) size * size < length xs + size)
pages-all size xs h =
    let (enough, tight) = total_pages-ceiling (length xs) size h in
    (pages-take size (total_pages (length xs) size) xs ∙ take-all _ xs enough, tight)
