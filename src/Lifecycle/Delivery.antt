-- ===== src/Lifecycle/Delivery.antt =====
-- The runner's confirmation, before or after the orderer's
-- (`OfferService.complete_delivery`, app/services/offer/offer_service.py).
use order_run_be.Base.{
  ℕ, ◌≡◌, ◌≢◌, sym, inl, inr, ◌⊎◌, true, some, arith, ok, err, Result-cases, UserId, Moment, ap,
  ◌∙◌,
}
use order_run_be.Errors.{Error}
use order_run_be.Models.Proposal.{Proposal, ProposalStatus}
use order_run_be.Models.Offer.{Offer, OfferStatus}
use order_run_be.Db.{Db, find_proposal, find_offer}
use order_run_be.Db.Sessions.{find_proposal-mem, find_offer-mem}
use order_run_be.Proposals.Execution.{raise_level}
use order_run_be.Offers.Execution.{complete_delivery_work}
use order_run_be.Events.Dispatch.{publish_event-OnlyNotifies}
use order_run_be.Consistency.{Consistent, fits}
use order_run_be.Consistency.Advance.{AreStored, Moves-AreStored}
use order_run_be.Consistency.Deliveries.{complete_delivery_work-db, complete_delivery_work-Moves}
use order_run_be.Lifecycle.Completion.{level_by_status}

accepted_fits :
    (s : ProposalStatus)
    → fits s OfferStatus.accepted ≡ true
    → s ≡ ProposalStatus.matched ⊎ s ≡ ProposalStatus.order_completed
accepted_fits s h = ground arith

-- What the runner's confirmation has done, with what the orderer had done before
pub Delivered : Db → Offer → Proposal → Proposal × Offer → Db → Type 0
Delivered db o p v db' =
    (p.status ≡ ProposalStatus.matched)
      × (v.0.status ≡ ProposalStatus.matched)
      × (v.1.status ≡ OfferStatus.runner_completed)
      × (db'.users ≡ db.users)
    ⊎ (p.status ≡ ProposalStatus.order_completed)
      × (v.0.status ≡ ProposalStatus.all_completed)
      × (v.1.status ≡ OfferStatus.all_completed)
      × (db'.users ≡ (raise_level o.runner_id db).users)

complete_delivery_work-succeeds :
    (t₁ t₂ t₃ t₄ : Moment) (i : ℕ) (u : UserId) (db : Db) (o : Offer) (p : Proposal)
    → find_offer i db ≡ some o
    → find_proposal o.proposal_id db ≡ some p
    → o.runner_id ≡ u
    → o.status ≡ OfferStatus.accepted
    → p.status ≡ ProposalStatus.matched ⊎ p.status ≡ ProposalStatus.order_completed
    → {e : Error} → complete_delivery_work t₁ t₂ t₃ t₄ i u db ≢ err e
unfolding complete_delivery_work
complete_delivery_work-succeeds t₁ t₂ t₃ t₄ i u db o p eo ep runner accepted status h = ground arith

complete_delivery_work-status :
    (t₁ t₂ t₃ t₄ : Moment) (i : ℕ) (u : UserId) (db : Db) (o : Offer) (p : Proposal)
    {v : Proposal × Offer} {db' : Db}
    → find_offer i db ≡ some o
    → find_proposal o.proposal_id db ≡ some p
    → p.status ≡ ProposalStatus.matched ⊎ p.status ≡ ProposalStatus.order_completed
    → complete_delivery_work t₁ t₂ t₃ t₄ i u db ≡ ok (v, db')
    → (p.status ≡ ProposalStatus.matched)
        × (v.0.status ≡ ProposalStatus.matched)
        × (v.1.status ≡ OfferStatus.runner_completed)
      ⊎ (p.status ≡ ProposalStatus.order_completed)
        × (v.0.status ≡ ProposalStatus.all_completed)
        × (v.1.status ≡ OfferStatus.all_completed)
unfolding complete_delivery_work
complete_delivery_work-status t₁ t₂ t₃ t₄ i u db o p eo ep status h = ground arith

complete_delivery_work-keys :
    (t₁ t₂ t₃ t₄ : Moment) (i : ℕ) (u : UserId) (db : Db) (o : Offer) (p : Proposal)
    {v : Proposal × Offer} {db' : Db}
    → find_offer i db ≡ some o
    → find_proposal o.proposal_id db ≡ some p
    → complete_delivery_work t₁ t₂ t₃ t₄ i u db ≡ ok (v, db')
    → (v.0.id ≡ p.id) × (v.1.id ≡ o.id)
unfolding complete_delivery_work
complete_delivery_work-keys t₁ t₂ t₃ t₄ i u db o p eo ep h = ground arith

complete_delivery_work-delivers :
    (t₁ t₂ t₃ t₄ : Moment) (i : ℕ) (u : UserId) (db : Db) (o : Offer) (p : Proposal)
    (v : Proposal × Offer) (db' : Db)
    → find_offer i db ≡ some o
    → find_proposal o.proposal_id db ≡ some p
    → p.status ≡ ProposalStatus.matched ⊎ p.status ≡ ProposalStatus.order_completed
    → complete_delivery_work t₁ t₂ t₃ t₄ i u db ≡ ok (v, db')
    → Delivered db o p v db'
unfolding Delivered
complete_delivery_work-delivers t₁ t₂ t₃ t₄ i u db o p v db' eo ep status h =
    let written =
      complete_delivery_work-db t₁ t₂ t₃ t₄ i u db o p eo ep h
      ∙ (publish_event-OnlyNotifies t₄ _ _).eq in
    let users = ap (λ (d : Db). d.users) written in
    let (one, both) = level_by_status v.1.status o.runner_id db in
    elim (complete_delivery_work-status t₁ t₂ t₃ t₄ i u db o p eo ep status h) [
      | inl (a, b, c) ↦ inl (a, b, c, users ∙ one (inr c))
      | inr (a, b, c) ↦ inr (a, b, c, users ∙ both c)
    ]

-- In a Consistent database the runner of an accepted offer of a stored proposal can confirm
-- delivery. Before the orderer's confirmation the offer becomes runner_completed, the proposal
-- stays matched and no user changes; after it both become all_completed and the runner's level is
-- one higher. The tables then hold both rows so, under the keys they had.
pub complete_delivery-completes :
    (t₁ t₂ t₃ t₄ : Moment) (i : ℕ) (u : UserId) (db : Db) (o : Offer) (p : Proposal)
    → Consistent db
    → find_offer i db ≡ some o
    → find_proposal o.proposal_id db ≡ some p
    → o.runner_id ≡ u
    → o.status ≡ OfferStatus.accepted
    → (v : Proposal × Offer) × (db' : Db) × (complete_delivery_work t₁ t₂ t₃ t₄ i u db
        ≡ ok (v, db'))
      × Delivered db o p v db'
      × AreStored p o v db'
complete_delivery-completes t₁ t₂ t₃ t₄ i u db o p c eo ep runner accepted =
    let (mp, key) = find_proposal-mem o.proposal_id db ep in
    let fit = rw accepted at (c.agrees p o mp (find_offer-mem i db eo).0 (sym key)) in
    let status = accepted_fits p.status fit in
    elim (Result-cases (complete_delivery_work t₁ t₂ t₃ t₄ i u db)) [
      | inr (e, h) ↦
          absurd
            (complete_delivery_work-succeeds t₁ t₂ t₃ t₄ i u db o p eo ep runner accepted status h)
      | inl ((v, db'), h) ↦ (
        v,
        db',
        h,
        complete_delivery_work-delivers t₁ t₂ t₃ t₄ i u db o p v db' eo ep status h,
        Moves-AreStored p o (complete_delivery_work-Moves t₁ t₂ t₃ t₄ i u db v db' h)
            (complete_delivery_work-keys t₁ t₂ t₃ t₄ i u db o p eo ep h),
      )
    ]
