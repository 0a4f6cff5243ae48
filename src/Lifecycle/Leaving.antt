-- ===== src/Lifecycle/Leaving.antt =====
-- The loops of a withdrawal and the guards of the models
-- (app/services/user_auth/user_withdrawal_service.py).
use order_run_be.Base.{
  ℕ, ◌≡◌, ◌≢◌, refl, sym, ◌∙◌, ap, inl, inr, true, false, List, [], ◌∷◌, map, Memᴰ, arith, ok, err,
  Result-cases, Bool-cases, Option-cases, UserId, Moment, where_all, mem-where_all, some,
}
use mathlib.Core.List.Memᴰ
use order_run_be.Errors.{Error, value_error}
use order_run_be.Models.Proposal
use order_run_be.Models.Proposal.{Proposal, ProposalStatus}
use order_run_be.Models.Offer
use order_run_be.Models.Offer.{Offer, OfferStatus}
use order_run_be.Models.User.{User}
use order_run_be.Profiles.{one_of}
use order_run_be.Security.{find_active_user}
use order_run_be.Db.{Db, save_offer, save_proposal}
use order_run_be.Withdrawal.{
  cancel_offers, cancel_proposals, auto_cancel_proposal_statuses, is_open_of, waits_on, waits_of,
  held, auto_cancel, withdraw_work, withdraw_user, has_blocking_activity,
}
use order_run_be.Consistency.{Consistent}
use order_run_be.Consistency.Withdrawals.{mem-one_of, waits_of-waiting}

cancel_offer-total :
    (o : Offer) {e : Error} → Offer.is o.status OfferStatus.waiting ≡ true → Offer.cancel o ≢ err e
unfolding Offer.cancel Offer.can_cancel
cancel_offer-total o waiting h = ground arith

cancel_offers-total :
    (rows : List Offer) (db : Db) {e : Error}
    → ((o : Offer) → Memᴰ o rows → Offer.is o.status OfferStatus.waiting ≡ true)
    → cancel_offers rows db ≢ err e
cancel_offers-total [] db wait h = ground arith
cancel_offers-total (o ∷ rows) db wait h = elim (Result-cases (Offer.cancel o)) [
  | inr (x, bad) ↦ cancel_offer-total o (wait o (Memᴰ.head refl)) bad
  | inl (o', good) ↦
      cancel_offers-total rows (save_offer o' db) (λ r m. wait r (Memᴰ.tail m)) (rw good at h)
]

cancel_proposal-total :
    (p : Proposal) {e : Error}
    → Proposal.is_in auto_cancel_proposal_statuses p.status ≡ true
    → Proposal.cancel p ≢ err e
unfolding Proposal.cancel
cancel_proposal-total p open_p h = ground arith

cancel_proposals-total :
    (rows : List Proposal) (db : Db) {e : Error}
    → ((p : Proposal) → Memᴰ p rows → Proposal.is_in auto_cancel_proposal_statuses p.status ≡ true)
    → cancel_proposals rows db ≢ err e
cancel_proposals-total [] db is_open h = ground arith
cancel_proposals-total (p ∷ rows) db is_open h = elim (Result-cases (Proposal.cancel p)) [
  | inr (x, bad) ↦ cancel_proposal-total p (is_open p (Memᴰ.head refl)) bad
  | inl (p', good) ↦
      cancel_proposals-total rows (save_proposal p' db) (λ r m. is_open r (Memᴰ.tail m))
        (rw good at h)
]

open_of :
    (u : UserId) (p : Proposal)
    → is_open_of u p ≡ true
    → (p.orderer_id ≡ u) × (Proposal.is_in auto_cancel_proposal_statuses p.status ≡ true)
open_of u p h = (ground arith, ground arith)

waits_on-facts :
    (is : List ℕ) (o : Offer)
    → waits_on is o ≡ true
    → (one_of o.proposal_id is ≡ true) × (Offer.is o.status OfferStatus.waiting ≡ true)
waits_on-facts is o h = elim (Bool-cases (one_of o.proposal_id is)) [
  | inl e ↦ (e, rw e at h)
  | inr e ↦ absurd (cc (rw e at h))
]

runner_is : (u : UserId) (o : Offer) → waits_of u o ≡ true → o.runner_id ≡ u
runner_is u o h = ground arith

module _ (u : UserId) (db : Db) (c : Consistent db) where
  abbrev open_proposals : List Proposal
  open_proposals = where_all (is_open_of u) db.proposals.rows

  abbrev waiting_offers : List Offer
  waiting_offers = where_all (waits_on (map (λ (p : Proposal). p.id) open_proposals)) db.offers.rows

  -- Nobody offers on a proposal of their own, so no row is cancelled twice.
  not_twice :
      (r : Offer)
      → Memᴰ r db.offers.rows
      → waits_of u r ≡ true
      → one_of r.id (map (λ (x : Offer). x.id) waiting_offers) ≡ false
  not_twice r mr asked =
      elim (Bool-cases (one_of r.id (map (λ (x : Offer). x.id) waiting_offers))) [
        | inr fresh ↦ fresh
        | inl again ↦
            let (x, mx, k) = mem-one_of (λ (y : Offer). y.id) r.id waiting_offers again in
            let (mx₀, tx) = mem-where_all _ db.offers.rows mx in
            let same : r ≡ x = c.offer_key r x mr mx₀ k in
            let (mine, w) = waits_on-facts _ x tx in
            let (p, mp, e) =
              mem-one_of (λ (q : Proposal). q.id) x.proposal_id open_proposals mine in
            let (mp₀, tp) = mem-where_all (is_open_of u) db.proposals.rows mp in
            absurd (
              c.not_self p r mp₀ mr (ap (λ (y : Offer). y.proposal_id) same ∙ e)
                (runner_is u r asked ∙ sym (open_of u p tp).0))
      ]

  auto_cancel-total : {e : Error} → auto_cancel u db ≢ err e
  unfolding auto_cancel
  auto_cancel-total h = elim (Result-cases (cancel_offers waiting_offers db)) [
    | inr (x, bad) ↦
        cancel_offers-total waiting_offers db
          (λ o mo. (waits_on-facts _ o (mem-where_all _ db.offers.rows mo).1).1) bad
    | inl ((v₁, db₁), e₁) ↦ elim (Result-cases (cancel_proposals open_proposals db₁)) [
      | inr (x, bad) ↦
          cancel_proposals-total open_proposals db₁
            (λ p mp. (open_of u p (mem-where_all (is_open_of u) db.proposals.rows mp).1).1) bad
      | inl ((v₂, db₂), e₂) ↦
          cancel_offers-total (map (held waiting_offers) (where_all (waits_of u) db.offers.rows))
            db₂
            (λ o mo.
              let (r, mr, e) = Memᴰ.of_map (held waiting_offers) _ mo in
              let (mr₀, asked) = mem-where_all (waits_of u) db.offers.rows mr in
              let same : r ≡ o = rw (not_twice r mr₀ asked) at e in
              rw (← same) (waits_of-waiting u r asked))
            (rw (e₁, e₂) at h)
    ]
  ]

  pub withdraw_user-guarded : (now : Moment) → (withdraw_user now u db).0 ≢ err value_error
  unfolding withdraw_user withdraw_work
  withdraw_user-guarded now h = elim (Option-cases (find_active_user u db)) [
    | inl e ↦ absurd (cc (rw e at h))
    | inr (user, e) ↦ elim (Bool-cases (has_blocking_activity u db)) [
      | inl blocked ↦ absurd (cc (rw (e, blocked) at h))
      | inr free ↦ elim (Result-cases (auto_cancel u db)) [
        | inr (x, bad) ↦ auto_cancel-total bad
        | inl ((v, mid), good) ↦ absurd (cc (rw (e, free, good) at h))
      ]
    ]
  ]

  -- In a Consistent database the withdrawal of an active user without an errand in execution
  -- raises nothing: none of the offers and proposals that it cancels is cancelled twice.
  pub withdraw_user-succeeds :
      (now : Moment) (user : User)
      → find_active_user u db ≡ some user
      → has_blocking_activity u db ≡ false
      → (withdraw_user now u db).0 ≡ ok tt
  unfolding withdraw_user withdraw_work
  withdraw_user-succeeds now user e free = elim (Result-cases (auto_cancel u db)) [
    | inr (x, bad) ↦ absurd (auto_cancel-total bad)
    | inl ((v, mid), good) ↦ rw (e, free, good) refl
  ]
