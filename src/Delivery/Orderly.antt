-- ===== src/Delivery/Orderly.antt =====
-- The table of notifications in order: keys of their own below the next key, and no more than three
-- counted failures (app/models/notification.py).
use order_run_be.Base.{
  ℕ, ◌≤◌, ◌<◌, ◌≡◌, ◌≢◌, refl, sym, ap, ◌∙◌, Bool, List, [], ◌∷◌, ◌++◌, map, Memᴰ, Bool-cases, inl,
  inr, arith, delete_where, mem-delete_where,
}
use mathlib.Core.List.Memᴰ
use order_run_be.Models.Notification.{Notification, NotificationStatus}
use order_run_be.Delivery.Keys.{Distinct}
use order_run_be.Db.{Table, add_row, set_rows}

pub record IsOrderly (t : Table Notification) : Type 0 where
  pub distinct : Distinct t.rows
  pub fresh : (n : Notification) → Memᴰ n t.rows → n.id < t.next
  pub bounded : (n : Notification) → Memᴰ n t.rows → n.retry_count ≤ 3
  -- what waits for its first attempt has no failure
  pub untried :
      (n : Notification) → Memᴰ n t.rows → n.status ≡ NotificationStatus.pending → n.retry_count ≡ 0

pub none_yet : (t : Table Notification) → t.rows ≡ [] → IsOrderly t
none_yet t e = record {
  distinct = rw e tt;
  fresh = λ n. rw e (λ h. absurd (Memᴰ.not-nil h));
  bounded = λ n. rw e (λ h. absurd (Memᴰ.not-nil h));
  untried = λ n. rw e (λ h. absurd (Memᴰ.not-nil h));
}

Distinct-append :
    (ns : List Notification) (x : Notification)
    → Distinct ns
    → ((n : Notification) → Memᴰ n ns → n.id ≢ x.id)
    → Distinct (ns ++ x ∷ [])
Distinct-append [] x d fresh = (λ m h. absurd (Memᴰ.not-nil h), tt)
Distinct-append (n ∷ ns) x d fresh = (
  λ m h. elim (Memᴰ.append_cases ns h) [
    | inl old ↦ d.0 m old
    | inr new ↦ λ same.
        fresh n (Memᴰ.head refl)
          (sym same ∙ ap (λ (k : Notification). k.id) (Memᴰ.eq_of_singleton new))
  ],
  Distinct-append ns x d.1 (λ k h. fresh k (Memᴰ.tail h)),
)

-- A new row without a failure
pub add_row-IsOrderly :
    (make : ℕ → Notification) (t : Table Notification)
    → ((i : ℕ) → (make i).id ≡ i)
    → ((i : ℕ) → (make i).retry_count ≡ 0)
    → IsOrderly t
    → IsOrderly (add_row make t)
add_row-IsOrderly make t key count o = record {
  distinct =
      Distinct-append t.rows (make t.next) o.distinct
        (λ n h same. absurd (omega (arith, o.fresh n h, key t.next, same)));
  fresh = λ n h. elim (Memᴰ.append_cases t.rows h) [
    | inl old ↦ omega (arith, o.fresh n old)
    | inr new ↦
        let e = ap (λ (k : Notification). k.id) (Memᴰ.eq_of_singleton new) in
        omega (arith, e, key t.next)
  ];
  bounded = λ n h. elim (Memᴰ.append_cases t.rows h) [
    | inl old ↦ o.bounded n old
    | inr new ↦
        let e = ap (λ (k : Notification). k.retry_count) (Memᴰ.eq_of_singleton new) in
        omega (arith, e, count t.next)
  ];
  untried = λ n h s. elim (Memᴰ.append_cases t.rows h) [
    | inl old ↦ o.untried n old s
    | inr new ↦ ap (λ (k : Notification). k.retry_count) (Memᴰ.eq_of_singleton new) ∙ count t.next
  ];
}

Distinct-map :
    (f : Notification → Notification) (ns : List Notification)
    → ((n : Notification) → (f n).id ≡ n.id)
    → Distinct ns
    → Distinct (map f ns)
Distinct-map f [] key d = tt
Distinct-map f (n ∷ ns) key d = (
  λ m h.
      let (k, hk, e) = Memᴰ.of_map f ns h in
      λ same. d.0 k hk (sym (key k) ∙ (ap (λ (x : Notification). x.id) e ∙ (same ∙ key n))),
  Distinct-map f ns key d.1,
)

-- Rows changed in place
pub map-IsOrderly :
    (f : Notification → Notification) (t : Table Notification)
    → ((n : Notification) → (f n).id ≡ n.id)
    → ((n : Notification) → Memᴰ n t.rows → (f n).retry_count ≤ 3)
    → ((n : Notification)
        → Memᴰ n t.rows
        → (f n).status ≡ NotificationStatus.pending
        → (f n).retry_count ≡ 0)
    → IsOrderly t
    → IsOrderly (set_rows (map f t.rows) t)
map-IsOrderly f t key bounded untried o = record {
  distinct = Distinct-map f t.rows key o.distinct;
  fresh = λ n h.
      let (k, hk, e) = Memᴰ.of_map f t.rows h in
      omega (arith, ap (λ (x : Notification). x.id) e, key k, o.fresh k hk);
  bounded = λ n h.
      let (k, hk, e) = Memᴰ.of_map f t.rows h in
      omega (arith, ap (λ (x : Notification). x.retry_count) e, bounded k hk);
  untried = λ n h s.
      let (k, hk, e) = Memᴰ.of_map f t.rows h in
      sym (ap (λ (x : Notification). x.retry_count) e)
      ∙ untried k hk (ap (λ (x : Notification). x.status) e ∙ s);
}

Distinct-delete_where :
    (p : Notification → Bool) (ns : List Notification) → Distinct ns → Distinct (delete_where p ns)
Distinct-delete_where p [] d = tt
Distinct-delete_where p (n ∷ ns) d = elim (Bool-cases (p n)) [
  | inl gone ↦ rw gone (Distinct-delete_where p ns d.1)
  | inr kept ↦ rw kept (λ m h. d.0 m (mem-delete_where p ns h).0, Distinct-delete_where p ns d.1)
]

-- Rows taken out
pub delete_where-IsOrderly :
    (p : Notification → Bool) (t : Table Notification)
    → IsOrderly t
    → IsOrderly (set_rows (delete_where p t.rows) t)
delete_where-IsOrderly p t o = record {
  distinct = Distinct-delete_where p t.rows o.distinct;
  fresh = λ n h. o.fresh n (mem-delete_where p t.rows h).0;
  bounded = λ n h. o.bounded n (mem-delete_where p t.rows h).0;
  untried = λ n h. o.untried n (mem-delete_where p t.rows h).0;
}
