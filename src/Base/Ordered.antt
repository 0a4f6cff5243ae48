-- ===== src/Base/Ordered.antt =====
-- `order_by` as a stable insertion sort, and `offset`/`limit` as a slice of a list.
use Prim.Native.Nat.{ℕ, zero, suc, ◌-◌, min}
use mathlib.Core.Path.{◌≡◌, refl, ap, ◌∙◌}
use mathlib.Core.Logic.{inl, inr}
use mathlib.Core.Bool.{Bool}
use mathlib.Core.List.Memᴰ
use mathlib.Core.List.{List, [], ◌∷◌, ◌++◌, Memᴰ}
use native.Mathlib.Omega.{arith}
use order_run_be.Base.Tests.{if◌then◌else◌, Bool-cases}

module _ {ℓ} {A : Type ℓ} where
  abbrev pub length : List A → ℕ
  length [] = 0
  length (x ∷ xs) = suc (length xs)

  abbrev pub take : ℕ → List A → List A
  take zero xs = []
  take (suc n) [] = []
  take (suc n) (x ∷ xs) = x ∷ take n xs

  abbrev pub drop : ℕ → List A → List A
  drop zero xs = xs
  drop (suc n) [] = []
  drop (suc n) (x ∷ xs) = drop n xs

  -- `before x y`: the row x comes strictly before y.
  abbrev pub place : (A → A → Bool) → A → List A → List A
  place before x [] = x ∷ []
  place before x (y ∷ ys) = if before y x then y ∷ place before x ys else x ∷ y ∷ ys

  -- `query.order_by(…)`
  abbrev pub order_by : (A → A → Bool) → List A → List A
  order_by before [] = []
  order_by before (x ∷ xs) = place before x (order_by before xs)

  -- `query.offset(skip).limit(size)`
  abbrev pub slice : ℕ → ℕ → List A → List A
  slice skip size xs = take size (drop skip xs)

module _ {ℓ} {A : Type ℓ} where
  pub length-take : (n : ℕ) (xs : List A) → length (take n xs) ≡ min n (length xs)
  length-take zero xs = omega arith
  length-take (suc n) [] = omega arith
  length-take (suc n) (x ∷ xs) = omega (arith, length-take n xs)

  pub length-drop : (n : ℕ) (xs : List A) → length (drop n xs) ≡ length xs - n
  length-drop zero xs = omega arith
  length-drop (suc n) [] = omega arith
  length-drop (suc n) (x ∷ xs) = omega (arith, length-drop n xs)

  take-append-drop : (n : ℕ) (xs : List A) → take n xs ++ drop n xs ≡ xs
  take-append-drop zero xs = refl
  take-append-drop (suc n) [] = refl
  take-append-drop (suc n) (x ∷ xs) = rw (take-append-drop n xs)

  pub mem-take : (n : ℕ) (xs : List A) {x : A} → Memᴰ x (take n xs) → Memᴰ x xs
  mem-take zero xs m = absurd (Memᴰ.not-nil m)
  mem-take (suc n) [] m = m
  mem-take (suc n) (y ∷ xs) m = elim (Memᴰ.cases_cons m) [
    | inl e ↦ Memᴰ.head e
    | inr k ↦ Memᴰ.tail (mem-take n xs k)
  ]

  pub mem-drop : (n : ℕ) (xs : List A) {x : A} → Memᴰ x (drop n xs) → Memᴰ x xs
  mem-drop zero xs m = m
  mem-drop (suc n) [] m = m
  mem-drop (suc n) (y ∷ xs) m = Memᴰ.tail (mem-drop n xs m)

  length-place :
      (before : A → A → Bool) (x : A) (ys : List A) → length (place before x ys) ≡ suc (length ys)
  length-place before x [] = refl
  length-place before x (y ∷ ys) = elim (Bool-cases (before y x)) [
    | inl h ↦ rw h (ap suc (length-place before x ys))
    | inr h ↦ rw h
  ]

  pub length-order_by :
      (before : A → A → Bool) (xs : List A) → length (order_by before xs) ≡ length xs
  length-order_by before [] = refl
  length-order_by before (x ∷ xs) =
      length-place before x (order_by before xs) ∙ ap suc (length-order_by before xs)

  pub mem-place :
      (before : A → A → Bool) (x : A) (ys : List A) {z : A}
      → Memᴰ z (place before x ys)
      → Memᴰ z (x ∷ ys)
  mem-place before x [] m = m
  mem-place before x (y ∷ ys) {z} m = elim (Bool-cases (before y x)) [
    | inl h ↦
        let inside : Memᴰ z (y ∷ place before x ys) = rw h at m in
        elim (Memᴰ.cases_cons inside) [
          | inl e ↦ Memᴰ.tail (Memᴰ.head e)
          | inr k ↦ elim (Memᴰ.cases_cons (mem-place before x ys k)) [
            | inl e ↦ Memᴰ.head e
            | inr l ↦ Memᴰ.tail (Memᴰ.tail l)
          ]
        ]
    | inr h ↦ rw h at m
  ]

  place-mem :
      (before : A → A → Bool) (x : A) (ys : List A) {z : A}
      → Memᴰ z (x ∷ ys)
      → Memᴰ z (place before x ys)
  place-mem before x [] m = m
  place-mem before x (y ∷ ys) m = elim (Bool-cases (before y x)) [
    | inl h ↦ elim (Memᴰ.cases_cons m) [
      | inl e ↦ rw h (Memᴰ.tail (place-mem before x ys (Memᴰ.head e)))
      | inr k ↦ elim (Memᴰ.cases_cons k) [
        | inl e ↦ rw h (Memᴰ.head e)
        | inr l ↦ rw h (Memᴰ.tail (place-mem before x ys (Memᴰ.tail l)))
      ]
    ]
    | inr h ↦ rw h m
  ]

  -- Ordering neither loses nor invents a row.
  pub mem-order_by :
      (before : A → A → Bool) (xs : List A) {z : A} → Memᴰ z (order_by before xs) → Memᴰ z xs
  mem-order_by before [] m = m
  mem-order_by before (x ∷ xs) m =
      elim (Memᴰ.cases_cons (mem-place before x (order_by before xs) m)) [
        | inl e ↦ Memᴰ.head e
        | inr k ↦ Memᴰ.tail (mem-order_by before xs k)
      ]

  pub order_by-mem :
      (before : A → A → Bool) (xs : List A) {z : A} → Memᴰ z xs → Memᴰ z (order_by before xs)
  order_by-mem before [] m = m
  order_by-mem before (x ∷ xs) m = elim (Memᴰ.cases_cons m) [
    | inl e ↦ place-mem before x (order_by before xs) (Memᴰ.head e)
    | inr k ↦ place-mem before x (order_by before xs) (Memᴰ.tail (order_by-mem before xs k))
  ]
