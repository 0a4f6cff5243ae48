-- ===== src/Lifecycle/Completion.antt =====
-- The orderer's confirmation, before or after the runner's
-- (`ProposalService.confirm_received`, app/services/proposal/proposal_service.py).
use order_run_be.Base.{
  ℕ, ◌≡◌, refl, inl, inr, ◌⊎◌, ◌≢◌, true, some, List, [], ◌∷◌, Memᴰ, arith, ok, err, Result-cases,
  UserId, Moment, ap, ◌∙◌, where_all-mem, order_by-mem,
}
use mathlib.Core.List.Memᴰ
use order_run_be.Models.Proposal.{Proposal, ProposalStatus}
use order_run_be.Models.Offer
use order_run_be.Models.Offer.{Offer, OfferStatus}
use order_run_be.Errors.{Error}
use order_run_be.Db.{Db, find_proposal}
use order_run_be.Db.Sessions.{find_proposal-mem}
use order_run_be.Proposals.Queries.{execution_offer, is_execution_offer, latest_accepted, head?}
use order_run_be.Proposals.Execution.{confirm_received_work, raise_level}
use order_run_be.Events.Dispatch.{publish_event-OnlyNotifies}
use order_run_be.Consistency.{Consistent, fits, is_engaged}
use order_run_be.Consistency.Advance.{
  execution_offer-mem, execution_offer-engaged, level_if, AreStored, Moves-AreStored,
}
use order_run_be.Consistency.Executions.{confirm_received_work-db, confirm_received_work-Moves}

head?-some : {A : Type 0} (xs : List A) {x : A} → Memᴰ x xs → (y : A) × (head? xs ≡ some y)
head?-some [] m = absurd (Memᴰ.not-nil m)
head?-some (y ∷ xs) m = (y, refl)

matched_fits :
    (s : OfferStatus)
    → fits ProposalStatus.matched s ≡ true
    → is_engaged s ≡ true
    → s ≡ OfferStatus.accepted ⊎ s ≡ OfferStatus.runner_completed
matched_fits s h k = ground arith

in_execution :
    (i : ℕ) (o : Offer)
    → o.proposal_id ≡ i
    → o.status ≡ OfferStatus.accepted ⊎ o.status ≡ OfferStatus.runner_completed
    → is_execution_offer i o ≡ true
in_execution i o e h = ground arith

-- A matched proposal has an execution offer, which the runner has confirmed or not.
pub matched-execution_offer :
    (db : Db) (p : Proposal)
    → Consistent db
    → Memᴰ p db.proposals.rows
    → p.status ≡ ProposalStatus.matched
    → (o : Offer) × (execution_offer p.id db ≡ some o)
      × (o.status ≡ OfferStatus.accepted ⊎ o.status ≡ OfferStatus.runner_completed)
unfolding execution_offer
matched-execution_offer db p c mp e =
    let (r, mr, of_r, engaged) = c.has_engaged p mp (rw e) in
    let fit_r = rw e at (c.agrees p r mp mr of_r) in
    let status_r = matched_fits r.status fit_r engaged in
    let inside =
      where_all-mem (is_execution_offer p.id) db.offers.rows mr
        (in_execution p.id r of_r status_r) in
    let (o, h) = head?-some _ (order_by-mem latest_accepted _ inside) in
    let (mo, of_o) = execution_offer-mem p.id db h in
    let fit_o = rw e at (c.agrees p o mp mo of_o) in
    (o, h, matched_fits o.status fit_o (execution_offer-engaged p.id db h))

-- What the orderer's confirmation has done, with what the runner had done before
pub Confirmed : Db → Offer → Proposal × Offer → Db → Type 0
Confirmed db o v db' =
    (o.status ≡ OfferStatus.accepted)
      × (v.0.status ≡ ProposalStatus.order_completed)
      × (v.1.status ≡ OfferStatus.accepted)
      × (db'.users ≡ db.users)
    ⊎ (o.status ≡ OfferStatus.runner_completed)
      × (v.0.status ≡ ProposalStatus.all_completed)
      × (v.1.status ≡ OfferStatus.all_completed)
      × (db'.users ≡ (raise_level o.runner_id db).users)

confirm_received_work-succeeds :
    (t₁ t₂ t₃ : Moment) (i : ℕ) (u : UserId) (db : Db) (p : Proposal) (o : Offer)
    → find_proposal i db ≡ some p
    → execution_offer p.id db ≡ some o
    → p.orderer_id ≡ u
    → p.status ≡ ProposalStatus.matched
    → o.status ≡ OfferStatus.accepted ⊎ o.status ≡ OfferStatus.runner_completed
    → {e : Error} → confirm_received_work t₁ t₂ t₃ i u db ≢ err e
unfolding confirm_received_work
confirm_received_work-succeeds t₁ t₂ t₃ i u db p o ep eo owner matched status h = ground arith

confirm_received_work-status :
    (t₁ t₂ t₃ : Moment) (i : ℕ) (u : UserId) (db : Db) (p : Proposal) (o : Offer)
    {v : Proposal × Offer} {db' : Db}
    → find_proposal i db ≡ some p
    → execution_offer p.id db ≡ some o
    → p.status ≡ ProposalStatus.matched
    → o.status ≡ OfferStatus.accepted ⊎ o.status ≡ OfferStatus.runner_completed
    → confirm_received_work t₁ t₂ t₃ i u db ≡ ok (v, db')
    → (o.status ≡ OfferStatus.accepted)
        × (v.0.status ≡ ProposalStatus.order_completed)
        × (v.1.status ≡ OfferStatus.accepted)
      ⊎ (o.status ≡ OfferStatus.runner_completed)
        × (v.0.status ≡ ProposalStatus.all_completed)
        × (v.1.status ≡ OfferStatus.all_completed)
unfolding confirm_received_work
confirm_received_work-status t₁ t₂ t₃ i u db p o ep eo matched status h = ground arith

-- The level is raised exactly where the offer is completed.
pub level_by_status :
    (s : OfferStatus) (u : UserId) (db : Db)
    → ((s ≡ OfferStatus.accepted ⊎ s ≡ OfferStatus.runner_completed)
        → (level_if (Offer.is s OfferStatus.all_completed) u db).users ≡ db.users)
      × ((s ≡ OfferStatus.all_completed)
          → (level_if (Offer.is s OfferStatus.all_completed) u db).users ≡ (raise_level u db).users)
level_by_status s u db = (λ e. elim e [ inl a ↦ rw a | inr a ↦ rw a ], λ e. rw e)

confirm_received_work-keys :
    (t₁ t₂ t₃ : Moment) (i : ℕ) (u : UserId) (db : Db) (p : Proposal) (o : Offer)
    {v : Proposal × Offer} {db' : Db}
    → find_proposal i db ≡ some p
    → execution_offer p.id db ≡ some o
    → confirm_received_work t₁ t₂ t₃ i u db ≡ ok (v, db')
    → (v.0.id ≡ p.id) × (v.1.id ≡ o.id)
unfolding confirm_received_work
confirm_received_work-keys t₁ t₂ t₃ i u db p o ep eo h = ground arith

confirm_received_work-confirms :
    (t₁ t₂ t₃ : Moment) (i : ℕ) (u : UserId) (db : Db) (p : Proposal) (o : Offer)
    (v : Proposal × Offer) (db' : Db)
    → find_proposal i db ≡ some p
    → execution_offer p.id db ≡ some o
    → p.status ≡ ProposalStatus.matched
    → o.status ≡ OfferStatus.accepted ⊎ o.status ≡ OfferStatus.runner_completed
    → confirm_received_work t₁ t₂ t₃ i u db ≡ ok (v, db')
    → Confirmed db o v db'
unfolding Confirmed
confirm_received_work-confirms t₁ t₂ t₃ i u db p o v db' ep eo matched status h =
    let written =
      confirm_received_work-db t₁ t₂ t₃ i u db p o ep eo h
      ∙ (publish_event-OnlyNotifies t₃ _ _).eq in
    let users = ap (λ (d : Db). d.users) written in
    let (one, both) = level_by_status v.1.status o.runner_id db in
    elim (confirm_received_work-status t₁ t₂ t₃ i u db p o ep eo matched status h) [
      | inl (a, b, c) ↦ inl (a, b, c, users ∙ one (inl c))
      | inr (a, b, c) ↦ inr (a, b, c, users ∙ both c)
    ]

-- In a Consistent database the orderer of a matched proposal can confirm receipt. Before the
-- runner's confirmation the proposal becomes order_completed, the offer stays accepted and no user
-- changes; after it both become all_completed and the runner's level is one higher. The tables
-- then hold both rows so, the proposal under its key and the offer under that of the execution
-- offer.
pub confirm_received-completes :
    (t₁ t₂ t₃ : Moment) (i : ℕ) (u : UserId) (db : Db) (p : Proposal)
    → Consistent db
    → find_proposal i db ≡ some p
    → p.orderer_id ≡ u
    → p.status ≡ ProposalStatus.matched
    → (o : Offer) × (v : Proposal × Offer) × (db' : Db) × (execution_offer p.id db ≡ some o)
      × (confirm_received_work t₁ t₂ t₃ i u db ≡ ok (v, db'))
      × Confirmed db o v db'
      × AreStored p o v db'
confirm_received-completes t₁ t₂ t₃ i u db p c ep owner matched =
    let (o, eo, status) = matched-execution_offer db p c (find_proposal-mem i db ep).0 matched in
    elim (Result-cases (confirm_received_work t₁ t₂ t₃ i u db)) [
      | inr (e, h) ↦
          absurd (confirm_received_work-succeeds t₁ t₂ t₃ i u db p o ep eo owner matched status h)
      | inl ((v, db'), h) ↦ (
        o,
        v,
        db',
        eo,
        h,
        confirm_received_work-confirms t₁ t₂ t₃ i u db p o v db' ep eo matched status h,
        Moves-AreStored p o (confirm_received_work-Moves t₁ t₂ t₃ i u db v db' h)
            (confirm_received_work-keys t₁ t₂ t₃ i u db p o ep eo h),
      )
    ]
