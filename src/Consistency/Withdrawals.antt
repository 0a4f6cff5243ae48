-- ===== src/Consistency/Withdrawals.antt =====
-- The withdrawal of a user and the invariant
-- (app/services/user_auth/user_withdrawal_service.py).
use order_run_be.Base.{
  ℕ, ◌≡◌, refl, sym, ap, inl, inr, true, List, [], ◌∷◌, map, Memᴰ, arith, ok, Result-cases,
  Bool-cases, Option-cases, ◌==◌, UserId, Moment, where_all, mem-where_all, where_all-mem,
}
use mathlib.Core.List.Memᴰ
use order_run_be.Models.Proposal.{Proposal}
use order_run_be.Models.Offer
use order_run_be.Models.Offer.{Offer, OfferStatus}
use order_run_be.Profiles.{one_of}
use order_run_be.Security.{find_active_user}
use order_run_be.Db.{Db}
use order_run_be.Db.Sessions.{commit-keeps}
use order_run_be.Withdrawal.{
  cancel_offers, cancel_proposals, cancelled_offer, is_open_of, waits_on, waits_of, held,
  auto_cancel, withdraw_work, withdraw_user, has_blocking_activity, forget,
}
use order_run_be.Consistency.{Consistent}
use order_run_be.Consistency.Cancelling.{Cancels, Held, cancel_offers-Cancels}
use order_run_be.Consistency.Abandoning.{NoneWaits, cancel_proposals-Consistent}

module _ {A : Type 0} (key : A → ℕ) where
  one_of-mem : (i : ℕ) (xs : List A) (x : A) → Memᴰ x xs → i ≡ key x → one_of i (map key xs) ≡ true
  one_of-mem i [] x m e = absurd (Memᴰ.not-nil m)
  one_of-mem i (y ∷ ys) x m e = elim (Memᴰ.cases_cons m) [
    | inl same ↦ ground (arith, ap key same)
    | inr later ↦ ground (arith, one_of-mem i ys x later e)
  ]

  pub mem-one_of :
      (i : ℕ) (xs : List A) → one_of i (map key xs) ≡ true → (x : A) × Memᴰ x xs × (i ≡ key x)
  mem-one_of i [] h = absurd (cc)
  mem-one_of i (y ∷ ys) h = elim (Bool-cases (i == key y)) [
    | inl e ↦ (y, Memᴰ.head refl, ground arith)
    | inr e ↦ let (x, m, k) = mem-one_of i ys (rw e at h) in (x, Memᴰ.tail m, k)
  ]

pub waits_of-waiting :
    (u : UserId) (o : Offer) → waits_of u o ≡ true → Offer.is o.status OfferStatus.waiting ≡ true
waits_of-waiting u o h = ground arith

module _ (u : UserId) (db : Db) (c : Consistent db) where
  abbrev open_proposals : List Proposal
  open_proposals = where_all (is_open_of u) db.proposals.rows

  abbrev proposal_ids : List ℕ
  proposal_ids = map (λ (p : Proposal). p.id) open_proposals

  abbrev waiting_offers : List Offer
  waiting_offers = where_all (waits_on proposal_ids) db.offers.rows

  abbrev runner_offers : List Offer
  runner_offers = where_all (waits_of u) db.offers.rows

  module _ (mid : Db) (first_loop : Cancels waiting_offers db mid) where
    none_waits : (p : Proposal) → Memᴰ p open_proposals → NoneWaits p mid.offers.rows
    none_waits p mp r mr e = elim (Bool-cases (Offer.is r.status OfferStatus.waiting)) [
      | inr over ↦ over
      | inl w ↦
          let (mr₀, others) = first_loop.waits r mr w in
          let asked = one_of-mem (λ (q : Proposal). q.id) r.proposal_id open_proposals p mp e in
          absurd (
            others r (where_all-mem (waits_on proposal_ids) db.offers.rows mr₀ (rw (asked, w) refl))
              refl)
    ]

    -- What the last loop cancels is stored, or was cancelled by the first.
    held_rows :
        (o : Offer) → Memᴰ o (map (held waiting_offers) runner_offers) → Held o mid.offers.rows
    held_rows o mo =
        let (r, mr, e) = Memᴰ.of_map (held waiting_offers) runner_offers mo in
        let (mr₀, asked) = mem-where_all (waits_of u) db.offers.rows mr in
        elim (Bool-cases (one_of r.id (map (λ (x : Offer). x.id) waiting_offers))) [
          | inr fresh ↦
              let same : r ≡ o = rw fresh at e in rw (← same) (first_loop.holds r (inl mr₀))
          | inl again ↦
              let same : cancelled_offer r ≡ o = rw again at e in
              elim (first_loop.holds r (inl mr₀)) [
                | inr done ↦ rw (← same) (inl done)
                | inl still ↦
                    let (x, mx, k) = mem-one_of (λ (y : Offer). y.id) r.id waiting_offers again in
                    absurd ((first_loop.waits r still (waits_of-waiting u r asked)).1 x mx (sym k))
              ]
        ]

  auto_cancel-Consistent :
      (v : Unit {0}) (db' : Db) → auto_cancel u db ≡ ok (v, db') → Consistent db'
  unfolding auto_cancel
  auto_cancel-Consistent v db' h = elim (Result-cases (cancel_offers waiting_offers db)) [
    | inr (e, bad) ↦ absurd (cc (rw bad at h))
    | inl ((v₁, db₁), e₁) ↦
        let one =
          cancel_offers-Cancels waiting_offers db c
            (λ o mo. inl (mem-where_all (waits_on proposal_ids) db.offers.rows mo).0) v₁ db₁ e₁ in
        elim (Result-cases (cancel_proposals open_proposals db₁)) [
          | inr (e, bad) ↦ absurd (cc (rw (e₁, bad) at h))
          | inl ((v₂, db₂), e₂) ↦
              let (two, same) =
                cancel_proposals-Consistent open_proposals db₁ one.consistent
                  (λ p mp.
                    inl (rw one.proposals (mem-where_all (is_open_of u) db.proposals.rows mp).0))
                  (none_waits db₁ one) v₂ db₂ e₂ in
              (cancel_offers-Cancels (map (held waiting_offers) runner_offers) db₂ two
                (λ o mo. rw same (held_rows db₁ one o mo)) v db' (rw (e₁, e₂) at h)).consistent
        ]
  ]

withdraw_work-ok :
    (now : Moment) (u : UserId) (db : Db) {v : Unit {0}} {db' : Db}
    → withdraw_work now u db ≡ ok (v, db')
    → (mid : Db) × (auto_cancel u db ≡ ok (tt, mid))
      × (db'.proposals ≡ mid.proposals)
      × (db'.offers ≡ mid.offers)
unfolding withdraw_work forget
withdraw_work-ok now u db {v} {db'} h = elim (Option-cases (find_active_user u db)) [
  | inl e ↦ absurd (cc (rw e at h))
  | inr (user, e) ↦ elim (Bool-cases (has_blocking_activity u db)) [
    | inl blocked ↦ absurd (cc (rw (e, blocked) at h))
    | inr free ↦ elim (Result-cases (auto_cancel u db)) [
      | inr (x, bad) ↦ absurd (cc (rw (e, free, bad) at h))
      | inl ((w, mid), good) ↦ (mid, good, ground arith, ground arith)
    ]
  ]
]

pub withdraw_user-Consistent :
    (now : Moment) (u : UserId) (db : Db) → Consistent db → Consistent (withdraw_user now u db).1
unfolding withdraw_user
withdraw_user-Consistent now u db c = commit-keeps Consistent (withdraw_work now u) db c (λ v db' h.
    let (mid, cancelled, tp, to) = withdraw_work-ok now u db h in
    rw (tp, to) (auto_cancel-Consistent u db c tt mid cancelled))
