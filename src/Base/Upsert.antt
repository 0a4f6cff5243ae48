-- ===== src/Base/Upsert.antt =====
-- One row per key: the row is added, or the row with its key is replaced.
use Prim.Native.Nat.{ℕ}
use mathlib.Core.Path.{◌≡◌, refl}
use mathlib.Core.Logic.{◌≢◌, inl, inr}
use mathlib.Core.Option.{Option, none, some}
use mathlib.Core.List.{List, [], ◌∷◌, ◌++◌}
use native.Mathlib.Omega.{arith}
use order_run_be.Base.Tests.{◌==◌, Option-cases}
use order_run_be.Base.Rows.{first, update_where}

module _ {A : Type 0} (key : A → ℕ) where
  abbrev pub find_by : ℕ → List A → Option A
  find_by k = first (λ x. key x == k)

  abbrev pub put : Option A → A → List A → List A
  put none x xs = xs ++ x ∷ []
  put (some _) x xs = update_where (λ y. key y == key x) (λ _. x) xs

  abbrev pub upsert : A → List A → List A
  upsert x xs = put (find_by (key x) xs) x xs

  find_by-append :
      (x : A) (xs : List A) → find_by (key x) xs ≡ none → find_by (key x) (xs ++ x ∷ []) ≡ some x
  find_by-append x [] h = ground arith
  find_by-append x (y ∷ ys) h = ground (arith, find_by-append x ys)

  pub find_by-update :
      (x old : A) (xs : List A)
      → find_by (key x) xs ≡ some old
      → find_by (key x) (update_where (λ y. key y == key x) (λ _. x) xs) ≡ some x
  find_by-update x old [] h = absurd (cc)
  find_by-update x old (y ∷ ys) h = ground (arith, find_by-update x old ys)

  -- The row is found afterwards,
  pub find_by-upsert : (x : A) (xs : List A) → find_by (key x) (upsert x xs) ≡ some x
  find_by-upsert x xs = elim (Option-cases (find_by (key x) xs)) [
    | inl e ↦ rw (e, find_by-append x xs e)
    | inr (old, e) ↦ rw (e, find_by-update x old xs e)
  ]

  find_by-append_other :
      (x : A) (k : ℕ) (xs : List A) → k ≢ key x → find_by k (xs ++ x ∷ []) ≡ find_by k xs
  find_by-append_other x k [] ne = ground arith
  find_by-append_other x k (y ∷ ys) ne = ground (arith, find_by-append_other x k ys)

  find_by-update_other :
      (x : A) (k : ℕ) (xs : List A)
      → k ≢ key x
      → find_by k (update_where (λ y. key y == key x) (λ _. x) xs) ≡ find_by k xs
  find_by-update_other x k [] ne = refl
  find_by-update_other x k (y ∷ ys) ne = ground (arith, find_by-update_other x k ys)

  -- and so are the rows of other keys.
  pub find_by-upsert_other :
      (x : A) (k : ℕ) (xs : List A) → k ≢ key x → find_by k (upsert x xs) ≡ find_by k xs
  find_by-upsert_other x k xs ne = elim (Option-cases (find_by (key x) xs)) [
    | inl e ↦ rw (e, find_by-append_other x k xs ne)
    | inr (old, e) ↦ rw (e, find_by-update_other x k xs ne)
  ]
