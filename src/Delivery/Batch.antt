-- ===== src/Delivery/Batch.antt =====
-- The worker's loop over a batch: what it does to each row, and to a quantity that falls with each.
use order_run_be.Base.{
  ℕ, ◌+◌, ◌≤◌, ◌<◌, ◌≡◌, ◌≢◌, refl, ◌∙◌, ap, Bool, true, false, List, [], ◌∷◌, map, Memᴰ, ◌==◌,
  ◌||◌, ==_iff, ==_refl, if◌then◌else◌, Bool-cases, inl, inr, arith, change, length, Option, none,
  some, Option-cases,
}
use mathlib.Core.List.Memᴰ
use order_run_be.Models.Notification.{Notification}
use order_run_be.Delivery.Worker.{deliver_all, write}
use order_run_be.Delivery.Keys.{Distinct, Distinct-same, Distinct-write, mem-write}

map-eq_of_mem {ℓ κ} :
    {A : Type ℓ} {B : Type κ} (f g : A → B) (xs : List A)
    → ((x : A) → Memᴰ x xs → f x ≡ g x)
    → map f xs ≡ map g xs
map-eq_of_mem f g [] h = refl
map-eq_of_mem f g (x ∷ xs) h =
    cc (h x (Memᴰ.head refl), map-eq_of_mem f g xs (λ y k. h y (Memᴰ.tail k)))

-- The loop over a batch in which no delivery raises
abbrev pub write_all :
    (Notification → Notification) → List Notification → List Notification → List Notification
write_all deliver [] rows = rows
write_all deliver (n ∷ ns) rows = write_all deliver ns (write (deliver n) rows)

-- The row that a delivery leaves, where it does not raise
abbrev pub or_same : Notification → Option Notification → Notification
or_same n none = n
or_same n (some m) = m

pub deliver_all-write_all :
    (deliver : Notification → Option Notification) (ns rows : List Notification)
    {rows' : List Notification}
    → deliver_all deliver ns rows ≡ some rows'
    → (rows' ≡ write_all (λ n. or_same n (deliver n)) ns rows)
      × ((n : Notification) → Memᴰ n ns → deliver n ≡ some (or_same n (deliver n)))
unfolding deliver_all
deliver_all-write_all deliver [] rows h = (ground arith, λ n m. absurd (Memᴰ.not-nil m))
deliver_all-write_all deliver (n ∷ ns) rows h = elim (Option-cases (deliver n)) [
  | inl e ↦ absurd (cc (rw (e, deliver_all) at h))
  | inr (m, e) ↦
      let (same, each) =
        deliver_all-write_all deliver ns (write m rows) (rw (e, deliver_all) at h) in
      (
        rw e same,
        λ k hk. elim (Memᴰ.cases_cons hk) [
          | inl head ↦ rw (head, e) refl
          | inr later ↦ each k later
        ],
      )
]

-- The keys of the batch
abbrev pub is_in_batch : List Notification → Notification → Bool
is_in_batch [] m = false
is_in_batch (n ∷ ns) m = m.id == n.id || is_in_batch ns m

fresh-not_in_batch :
    (ns : List Notification) (m : Notification)
    → ((k : Notification) → Memᴰ k ns → k.id ≢ m.id)
    → is_in_batch ns m ≡ false
fresh-not_in_batch [] m fresh = refl
fresh-not_in_batch (n ∷ ns) m fresh =
    ground (arith, fresh n (Memᴰ.head refl), fresh-not_in_batch ns m (λ k h. fresh k (Memᴰ.tail h)))

-- A row whose key is in the batch is the row of the batch.
pub in_batch-mem :
    (ns rows : List Notification) (m : Notification)
    → Distinct rows
    → ((k : Notification) → Memᴰ k ns → Memᴰ k rows)
    → Memᴰ m rows
    → is_in_batch ns m ≡ true
    → Memᴰ m ns
in_batch-mem [] rows m d sub hm h = absurd (cc)
in_batch-mem (n ∷ ns) rows m d sub hm h = elim (Bool-cases (m.id == n.id)) [
  | inl same ↦
      Memᴰ.head (Distinct-same rows m n d hm (sub n (Memᴰ.head refl)) ((==_iff _ _).0 same))
  | inr other ↦
      Memᴰ.tail (in_batch-mem ns rows m d (λ k hk. sub k (Memᴰ.tail hk)) hm (ground arith))
]

-- What a batch leaves of a row
abbrev pub pick : (Notification → Notification) → List Notification → Notification → Notification
pick deliver ns m = if is_in_batch ns m then deliver m else m

-- A quantity that the worker lowers, over a table
abbrev pub total : (Notification → ℕ) → List Notification → ℕ
total w [] = 0
total w (m ∷ ms) = w m + total w ms

total-write_absent :
    (w : Notification → ℕ) (n' : Notification) (rows : List Notification)
    → ((k : Notification) → Memᴰ k rows → k.id ≢ n'.id)
    → total w (write n' rows) ≡ total w rows
total-write_absent w n' [] fresh = refl
total-write_absent w n' (m ∷ ms) fresh =
    ground
      (arith, fresh m (Memᴰ.head refl), total-write_absent w n' ms (λ k h. fresh k (Memᴰ.tail h)))

total-write :
    (w : Notification → ℕ) (n n' : Notification) (rows : List Notification)
    → n'.id ≡ n.id
    → Distinct rows
    → Memᴰ n rows
    → total w (write n' rows) + w n ≡ total w rows + w n'
total-write w n n' [] e d h = absurd (Memᴰ.not-nil h)
total-write w n n' (m ∷ ms) e d h = elim (Memᴰ.cases_cons h) [
  | inl same ↦
      let absent = total-write_absent w n' ms (λ k hk q. d.0 k hk (cc)) in
      rw (← same, e, ==_refl n.id) (omega (arith, absent))
  | inr later ↦
      let others : (m.id == n'.id) ≡ false = ground (arith, d.0 n later) in
      rw others (omega (arith, total-write w n n' ms e d.1 later))
]

module _ (deliver : Notification → Notification)
    (keeps : (n : Notification) → (deliver n).id ≡ n.id) where
  -- What is left of the batch is stored after a row was written back.
  still_stored :
      (n : Notification) (ns rows : List Notification)
      → Distinct (n ∷ ns)
      → ((k : Notification) → Memᴰ k (n ∷ ns) → Memᴰ k rows)
      → (k : Notification) → Memᴰ k ns
      → Memᴰ k (write (deliver n) rows)
  still_stored n ns rows d sub k hk =
      mem-write (deliver n) rows (sub k (Memᴰ.tail hk)) (λ e. d.0 k hk (cc (keeps n)))

  pick-change :
      (n : Notification) (ns rows : List Notification) (m : Notification)
      → Distinct (n ∷ ns)
      → Distinct rows
      → Memᴰ n rows
      → Memᴰ m rows
      → pick deliver ns (change (λ k. k.id == (deliver n).id) (λ _. deliver n) m)
        ≡ pick deliver (n ∷ ns) m
  pick-change n ns rows m d dr hn hm = elim (Bool-cases (m.id == n.id)) [
    | inl same ↦
        let e : m ≡ n = Distinct-same rows m n dr hm hn ((==_iff _ _).0 same) in
        let fresh : is_in_batch ns (deliver n) ≡ false =
          fresh-not_in_batch ns (deliver n) (λ k hk q. d.0 k hk (cc (keeps n))) in
        let hit : (n.id == (deliver n).id) ≡ true = ground (arith, keeps n) in
        rw (e, hit, ==_refl n.id, fresh)
    | inr other ↦ rw (keeps n) (ground (arith, other))
  ]

  -- Each row of the batch is delivered once, and the other rows stay as they are.
  pub write_all-pick :
      (ns rows : List Notification)
      → Distinct ns
      → Distinct rows
      → ((n : Notification) → Memᴰ n ns → Memᴰ n rows)
      → write_all deliver ns rows ≡ map (pick deliver ns) rows
  write_all-pick [] [] d dr sub = refl
  write_all-pick [] (m ∷ rows) d dr sub =
      ap (λ (ms : List Notification). m ∷ ms)
        (write_all-pick [] rows d dr.1 (λ n h. absurd (Memᴰ.not-nil h)))
  write_all-pick (n ∷ ns) rows d dr sub =
      write_all-pick ns (write (deliver n) rows) d.1 (Distinct-write (deliver n) rows dr)
        (still_stored n ns rows d sub)
      ∙ (map_map rows
          ∙ map-eq_of_mem _ _ rows
              (λ m hm. pick-change n ns rows m d dr (sub n (Memᴰ.head refl)) hm))
    where
      map_map :
          (ms : List Notification)
          → map (pick deliver ns) (write (deliver n) ms)
            ≡ map
                (λ m. pick deliver ns (change (λ k. k.id == (deliver n).id) (λ _. deliver n) m))
                ms
      map_map [] = refl
      map_map (m ∷ ms) = cc (map_map ms)

  pub total-write_all :
      (w : Notification → ℕ) (ns rows : List Notification)
      → Distinct ns
      → Distinct rows
      → ((n : Notification) → Memᴰ n ns → Memᴰ n rows)
      → ((n : Notification) → Memᴰ n ns → w (deliver n) < w n)
      → total w (write_all deliver ns rows) + length ns ≤ total w rows
  total-write_all w [] rows d dr sub falls = omega arith
  total-write_all w (n ∷ ns) rows d dr sub falls =
      let later =
        total-write_all w ns (write (deliver n) rows) d.1 (Distinct-write (deliver n) rows dr)
          (still_stored n ns rows d sub) (λ k h. falls k (Memᴰ.tail h)) in
      let first = total-write w n (deliver n) rows (keeps n) dr (sub n (Memᴰ.head refl)) in
      omega (arith, later, first, falls n (Memᴰ.head refl))

  pub Distinct-write_all :
      (ns rows : List Notification) → Distinct rows → Distinct (write_all deliver ns rows)
  Distinct-write_all [] rows d = d
  Distinct-write_all (n ∷ ns) rows d =
      Distinct-write_all ns (write (deliver n) rows) (Distinct-write (deliver n) rows d)
