-- ===== src/Delivery/Keys.antt =====
-- Notifications with keys of their own, and what a batch of them is.
use order_run_be.Base.{
  ℕ, zero, suc, ◌≡◌, ◌≢◌, refl, sym, ap, ◌∙◌, Bool, true, List, [], ◌∷◌, Memᴰ, ◌==◌, Bool-cases,
  inl, inr, arith, where_all, count_where, place, order_by, take, length, length-take,
  length-order_by, mem-place, mem-take, mem-order_by, mem-where_all, mem-update_where,
}
use Prim.Native.Nat.{min}
use mathlib.Core.List.Memᴰ
use order_run_be.Models.Notification.{Notification, NotificationStatus}
use order_run_be.Delivery.Worker.{batch_of, is_due, created_first, write}

-- No two rows have the same key.
abbrev pub Distinct : List Notification → Type 0
Distinct [] = Unit {0}
Distinct (n ∷ ns) = ((m : Notification) → Memᴰ m ns → m.id ≢ n.id) × Distinct ns

pub Distinct-same :
    (ns : List Notification) (m n : Notification)
    → Distinct ns
    → Memᴰ m ns
    → Memᴰ n ns
    → m.id ≡ n.id
    → m ≡ n
Distinct-same [] m n d hm hn e = absurd (Memᴰ.not-nil hm)
Distinct-same (x ∷ xs) m n d hm hn e = elim (Memᴰ.cases_cons hm) [
  | inl em ↦ elim (Memᴰ.cases_cons hn) [ inl en ↦ em ∙ sym en | inr kn ↦ absurd (d.0 n kn (cc)) ]
  | inr km ↦ elim (Memᴰ.cases_cons hn) [
    | inl en ↦ absurd (d.0 m km (cc))
    | inr kn ↦ Distinct-same xs m n d.1 km kn e
  ]
]

Distinct-where_all :
    (p : Notification → Bool) (ns : List Notification) → Distinct ns → Distinct (where_all p ns)
Distinct-where_all p [] d = tt
Distinct-where_all p (n ∷ ns) d = elim (Bool-cases (p n)) [
  | inl h ↦ rw h (λ m k. d.0 m (mem-where_all p ns k).0, Distinct-where_all p ns d.1)
  | inr h ↦ rw h (Distinct-where_all p ns d.1)
]

Distinct-place :
    (before : Notification → Notification → Bool) (n : Notification) (ns : List Notification)
    → ((m : Notification) → Memᴰ m ns → m.id ≢ n.id)
    → Distinct ns
    → Distinct (place before n ns)
Distinct-place before n [] fresh d = (fresh, d)
Distinct-place before n (m ∷ ns) fresh d = elim (Bool-cases (before m n)) [
  | inl h ↦ rw h (
    λ k hk. elim (Memᴰ.cases_cons (mem-place before n ns hk)) [
      | inl e ↦ λ same. fresh m (Memᴰ.head refl) (cc)
      | inr later ↦ d.0 k later
    ],
    Distinct-place before n ns (λ k hk. fresh k (Memᴰ.tail hk)) d.1,
  )
  | inr h ↦ rw h (fresh, d)
]

Distinct-order_by :
    (before : Notification → Notification → Bool) (ns : List Notification)
    → Distinct ns
    → Distinct (order_by before ns)
Distinct-order_by before [] d = tt
Distinct-order_by before (n ∷ ns) d =
    Distinct-place before n (order_by before ns) (λ m k. d.0 m (mem-order_by before ns k))
      (Distinct-order_by before ns d.1)

Distinct-take : (k : ℕ) (ns : List Notification) → Distinct ns → Distinct (take k ns)
Distinct-take zero ns d = tt
Distinct-take (suc k) [] d = tt
Distinct-take (suc k) (n ∷ ns) d = (λ m h. d.0 m (mem-take k ns h), Distinct-take k ns d.1)

length-where_all {ℓ} :
    {A : Type ℓ} (p : A → Bool) (xs : List A) → length (where_all p xs) ≡ count_where p xs
length-where_all p [] = refl
length-where_all p (x ∷ xs) = elim (Bool-cases (p x)) [
  | inl h ↦ rw h (ap suc (length-where_all p xs))
  | inr h ↦ rw h (length-where_all p xs)
]

module _ (status : NotificationStatus) (only_retryable : Bool) (rows : List Notification) where
  pub Distinct-batch_of : Distinct rows → Distinct (batch_of status only_retryable rows)
  Distinct-batch_of d =
      Distinct-take 100 _ (Distinct-order_by created_first _ (Distinct-where_all _ rows d))

  -- The batch holds stored rows that are due, and a hundred of them if there are as many.
  pub mem-batch_of :
      {n : Notification}
      → Memᴰ n (batch_of status only_retryable rows)
      → Memᴰ n rows × (is_due status only_retryable n ≡ true)
  mem-batch_of h = mem-where_all _ rows (mem-order_by created_first _ (mem-take 100 _ h))

  pub length-batch_of :
      length (batch_of status only_retryable rows)
      ≡ min 100 (count_where (is_due status only_retryable) rows)
  length-batch_of =
      length-take 100 (order_by created_first (where_all (is_due status only_retryable) rows))
      ∙ ap (min 100) (
          length-order_by created_first (where_all (is_due status only_retryable) rows)
          ∙ length-where_all (is_due status only_retryable) rows)

-- What is stored after a row was written back
pub mem-write :
    (n : Notification) (rows : List Notification) {m : Notification}
    → Memᴰ m rows
    → m.id ≢ n.id
    → Memᴰ m (write n rows)
mem-write n [] h ne = absurd (Memᴰ.not-nil h)
mem-write n (x ∷ xs) {m} h ne = elim (Memᴰ.cases_cons h) [
  | inl e ↦ Memᴰ.head (ground (arith, e, ne, ap (λ (y : Notification). y.id) e))
  | inr k ↦ Memᴰ.tail (mem-write n xs k ne)
]

key-write :
    (n : Notification) (rows : List Notification) {m : Notification}
    → Memᴰ m (write n rows)
    → (k : Notification) × Memᴰ k rows × (m.id ≡ k.id)
key-write n rows h =
    let (k, hk, e) = mem-update_where (λ m. m.id == n.id) (λ _. n) rows h in (k, hk, ground arith)

pub Distinct-write :
    (n : Notification) (rows : List Notification) → Distinct rows → Distinct (write n rows)
Distinct-write n [] d = tt
Distinct-write n (x ∷ xs) d = (
  λ m h. let (k, hk, e) = key-write n xs h in λ same. d.0 k hk (ground (arith, e, same)),
  Distinct-write n xs d.1,
)
