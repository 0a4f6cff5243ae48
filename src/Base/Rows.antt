-- ===== src/Base/Rows.antt =====
-- Tables as lists of rows: queries by a test, bulk updates, and what is among the rows after them.
use mathlib.Core.Path.{◌≡◌, sym}
use mathlib.Core.Logic.{inl, inr}
use mathlib.Core.Bool.{Bool, true, false}
use mathlib.Core.Option.{Option, none, some}
use mathlib.Core.List.Memᴰ
use mathlib.Core.List.{List, [], ◌∷◌, map, Memᴰ}
use Prim.Native.Nat.{ℕ, suc}
use order_run_be.Base.Tests.{if◌then◌else◌, Bool-cases}

module _ {ℓ} {A : Type ℓ} where
  -- `query.filter(p).first()`
  abbrev pub first : (A → Bool) → List A → Option A
  first p [] = none
  first p (x ∷ xs) = if p x then some x else first p xs

  -- `query.filter(p).all()`
  abbrev pub where_all : (A → Bool) → List A → List A
  where_all p [] = []
  where_all p (x ∷ xs) = let rest = where_all p xs in if p x then x ∷ rest else rest

  -- `query.filter(p).delete()` keeps the other rows.
  abbrev pub delete_where : (A → Bool) → List A → List A
  delete_where p [] = []
  delete_where p (x ∷ xs) = let rest = delete_where p xs in if p x then rest else x ∷ rest

  -- `query.filter(p).update(f)`, and `query.filter(p).count()`
  abbrev pub change : (A → Bool) → (A → A) → A → A
  change p f x = if p x then f x else x

  abbrev pub update_where : (A → Bool) → (A → A) → List A → List A
  update_where p f = map (change p f)

  abbrev pub count_where : (A → Bool) → List A → ℕ
  count_where p [] = 0
  count_where p (x ∷ xs) = let rest = count_where p xs in if p x then suc rest else rest

module _ {ℓ} {A : Type ℓ} where
  -- What a query finds is a row that passes the test.
  pub first-mem :
      (p : A → Bool) (xs : List A) {x : A} → first p xs ≡ some x → Memᴰ x xs × (p x ≡ true)
  first-mem p [] e = cc
  first-mem p (y ∷ xs) {x} e = elim (Bool-cases (p y)) [
    | inl h ↦
        let found : some y ≡ some x = rw h at e in
        let same : y ≡ x = cc found in (Memᴰ.head (sym same), cc h)
    | inr h ↦ let (m, t) = first-mem p xs (rw h at e) in (Memᴰ.tail m, t)
  ]

  -- A query that finds nothing: no row passes the test.
  pub first-none :
      (p : A → Bool) (xs : List A) {x : A} → first p xs ≡ none → Memᴰ x xs → p x ≡ false
  first-none p (y ∷ xs) {x} e m = elim (Bool-cases (p y)) [
    | inl h ↦ absurd (cc (rw h at e))
    | inr h ↦ elim (Memᴰ.cases_cons m) [
      | inl same ↦ cc h
      | inr later ↦ first-none p xs (rw h at e) later
    ]
  ]
  first-none p [] e m = absurd (Memᴰ.not-nil m)

  -- A row that passes the test lets the query find one.
  pub mem-first :
      (p : A → Bool) (xs : List A) {x : A}
      → Memᴰ x xs
      → p x ≡ true
      → (y : A) × (first p xs ≡ some y)
  mem-first p [] m t = absurd (Memᴰ.not-nil m)
  mem-first p (y ∷ xs) m t = elim (Bool-cases (p y)) [
    | inl h ↦ (y, rw h)
    | inr h ↦ elim (Memᴰ.cases_cons m) [
      | inl same ↦ cc h
      | inr later ↦ let (z, e) = mem-first p xs later t in (z, rw h e)
    ]
  ]

  -- A row after a bulk update was a row before it.
  pub mem-update_where :
      (p : A → Bool) (f : A → A) (xs : List A) {y : A}
      → Memᴰ y (update_where p f xs)
      → (x : A) × Memᴰ x xs × (y ≡ change p f x)
  mem-update_where p f xs m = let (x, h, e) = Memᴰ.of_map (change p f) xs m in (x, h, sym e)

  pub mem-where_all :
      (p : A → Bool) (xs : List A) {x : A} → Memᴰ x (where_all p xs) → Memᴰ x xs × (p x ≡ true)
  mem-where_all p [] m = absurd (Memᴰ.not-nil m)
  mem-where_all p (y ∷ xs) {x} m = elim (Bool-cases (p y)) [
    | inl h ↦
        let inside : Memᴰ x (y ∷ where_all p xs) = rw h at m in
        elim (Memᴰ.cases_cons inside) [
          | inl same ↦ (Memᴰ.head same, cc h)
          | inr later ↦ let (k, t) = mem-where_all p xs later in (Memᴰ.tail k, t)
        ]
    | inr h ↦
        let inside : Memᴰ x (where_all p xs) = rw h at m in
        let (k, t) = mem-where_all p xs inside in (Memᴰ.tail k, t)
  ]

  pub where_all-mem :
      (p : A → Bool) (xs : List A) {x : A} → Memᴰ x xs → p x ≡ true → Memᴰ x (where_all p xs)
  where_all-mem p [] m t = absurd (Memᴰ.not-nil m)
  where_all-mem p (y ∷ xs) m t = elim (Bool-cases (p y)) [
    | inl h ↦ elim (Memᴰ.cases_cons m) [
      | inl same ↦ rw h (Memᴰ.head same)
      | inr later ↦ rw h (Memᴰ.tail (where_all-mem p xs later t))
    ]
    | inr h ↦ elim (Memᴰ.cases_cons m) [
      | inl same ↦ cc h
      | inr later ↦ rw h (where_all-mem p xs later t)
    ]
  ]

  pub mem-delete_where :
      (p : A → Bool) (xs : List A) {x : A} → Memᴰ x (delete_where p xs) → Memᴰ x xs × (p x ≡ false)
  mem-delete_where p [] m = absurd (Memᴰ.not-nil m)
  mem-delete_where p (y ∷ xs) {x} m = elim (Bool-cases (p y)) [
    | inl h ↦
        let inside : Memᴰ x (delete_where p xs) = rw h at m in
        let (k, t) = mem-delete_where p xs inside in (Memᴰ.tail k, t)
    | inr h ↦
        let inside : Memᴰ x (y ∷ delete_where p xs) = rw h at m in
        elim (Memᴰ.cases_cons inside) [
          | inl same ↦ (Memᴰ.head same, cc h)
          | inr later ↦ let (k, t) = mem-delete_where p xs later in (Memᴰ.tail k, t)
        ]
  ]

  delete_where-mem :
      (p : A → Bool) (xs : List A) {x : A} → Memᴰ x xs → p x ≡ false → Memᴰ x (delete_where p xs)
  delete_where-mem p [] m t = absurd (Memᴰ.not-nil m)
  delete_where-mem p (y ∷ xs) m t = elim (Bool-cases (p y)) [
    | inl h ↦ elim (Memᴰ.cases_cons m) [
      | inl same ↦ cc h
      | inr later ↦ rw h (delete_where-mem p xs later t)
    ]
    | inr h ↦ elim (Memᴰ.cases_cons m) [
      | inl same ↦ rw h (Memᴰ.head same)
      | inr later ↦ rw h (Memᴰ.tail (delete_where-mem p xs later t))
    ]
  ]
