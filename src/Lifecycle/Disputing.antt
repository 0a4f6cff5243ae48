-- ===== src/Lifecycle/Disputing.antt =====
-- Disputes: who can raise one, and how an administrator ends it
-- (`raise_dispute`, `resolve`, app/services/proposal and app/services/offer).
use order_run_be.Base.{
  ℕ, String, ◌≡◌, ◌≢◌, refl, ap, ◌∙◌, sym, inl, inr, ◌⊎◌, true, some, arith, ok, err, Result-cases,
  UserId, Moment, first,
}
use order_run_be.Errors.{Error}
use order_run_be.Models.Proposal.{Proposal, ProposalStatus}
use order_run_be.Models.Offer.{Offer, OfferStatus}
use order_run_be.Models.Dispute.{DisputeSurveyQuestion, DisputeSurveyTargetType}
use order_run_be.Disputes.{is_active_question}
use order_run_be.Db.{Db, find_proposal, find_offer, save_proposal, save_offer}
use order_run_be.Db.Sessions.{find_proposal-mem, find_offer-mem}
use order_run_be.Proposals.Queries.{execution_offer}
use order_run_be.Proposals.Execution.{raise_dispute_work}
use order_run_be.Offers.Execution.{resolve_work}
use order_run_be.Proposals.Execution.{parties, add_evidence}
use order_run_be.Events.Bus.{dispute_raised_by_orderer, Parties}
use order_run_be.Events.Listener.{publish_event, on_dispute_raised_by_orderer, add_pending}
use order_run_be.Events.Dispatch.{publish_event-OnlyNotifies, publish_event-dispatch}
use order_run_be.Consistency.{Consistent, fits}
use order_run_be.Consistency.Advance.{AreStored, Moves-AreStored}
use order_run_be.Consistency.Executions.{raise_dispute_work-Moves, raise_dispute_work-ok}
use order_run_be.Consistency.Deliveries.{resolve_work-Moves, resolve_work-ok}
use order_run_be.Lifecycle.Completion.{matched-execution_offer}

-- Both rows have that status.
pub HaveStatus : ProposalStatus → OfferStatus → Proposal × Offer → Type 0
HaveStatus s t v = (v.0.status ≡ s) × (v.1.status ≡ t)

raise_dispute_work-succeeds :
    (t₁ t₂ t₃ : Moment) (i : ℕ) (u : UserId) (q : ℕ) (reason : String) (db : Db) (p : Proposal)
    (o : Offer) (question : DisputeSurveyQuestion)
    → find_proposal i db ≡ some p
    → execution_offer p.id db ≡ some o
    → p.orderer_id ≡ u
    → p.status ≡ ProposalStatus.matched
    → o.status ≡ OfferStatus.accepted ⊎ o.status ≡ OfferStatus.runner_completed
    → first (is_active_question q DisputeSurveyTargetType.order) db.survey_questions ≡ some question
    → {e : Error} → raise_dispute_work t₁ t₂ t₃ i u q reason db ≢ err e
unfolding raise_dispute_work
raise_dispute_work-succeeds t₁ t₂ t₃ i u q reason db p o question ep eo owner matched status active
      h =
    ground arith

raise_dispute_work-status :
    (t₁ t₂ t₃ : Moment) (i : ℕ) (u : UserId) (q : ℕ) (reason : String) (db : Db)
    {v : Proposal × Offer} {db' : Db}
    → raise_dispute_work t₁ t₂ t₃ i u q reason db ≡ ok (v, db')
    → HaveStatus ProposalStatus.disputed OfferStatus.disputed v
unfolding raise_dispute_work HaveStatus
raise_dispute_work-status t₁ t₂ t₃ i u q reason db h = ground arith

-- The evidence and the notifications after a dispute
pub IsOnRecord :
    Moment → Proposal → Offer → UserId → ℕ → String → Proposal × Offer → Db → Db → Type 0
IsOnRecord t p o u q reason v db db' =
    (db'.evidences ≡ (add_evidence t p.id o.id u q reason db).evidences)
    × (db'.notifications
        ≡ (publish_event t (dispute_raised_by_orderer (parties v.0 v.1)) db).notifications)

-- Whom a dispute's event tells depends on the users alone.
published_notices :
    (t : Moment) (e : Parties) (a b : Db)
    → a.users ≡ b.users
    → a.notifications ≡ b.notifications
    → (publish_event t (dispute_raised_by_orderer e) a).notifications
      ≡ (publish_event t (dispute_raised_by_orderer e) b).notifications
unfolding on_dispute_raised_by_orderer add_pending
published_notices t e a b users notices =
    rw (publish_event-dispatch t (dispute_raised_by_orderer e) a)
      (rw (publish_event-dispatch t (dispute_raised_by_orderer e) b) (ground arith))

written-IsOnRecord :
    (t : Moment) (p : Proposal) (o : Offer) (u : UserId) (q : ℕ) (reason : String)
    (v : Proposal × Offer) (db db' : Db)
    → db'
      ≡ publish_event t
          (dispute_raised_by_orderer (parties v.0 v.1))
          (add_evidence t p.id o.id u q reason (save_offer v.1 (save_proposal v.0 db)))
    → IsOnRecord t p o u q reason v db db'
unfolding IsOnRecord
written-IsOnRecord t p o u q reason v db db' written = (
  ap (λ (d : Db). d.evidences) (written ∙ (publish_event-OnlyNotifies t _ _).eq),
  ap (λ (d : Db). d.notifications) written
      ∙ published_notices t (parties v.0 v.1)
          (add_evidence t p.id o.id u q reason (save_offer v.1 (save_proposal v.0 db))) db refl
          refl,
)

-- In a Consistent database the orderer of a matched proposal can raise a dispute with an active
-- question for orderers, whether the runner has confirmed or not. The tables then hold the
-- proposal and its execution offer as disputed, under the keys they had, the table of evidence has
-- one row more, of the orderer, with the question and the reason, and the notifications are those
-- that the dispute's event leaves.
pub raise_dispute-succeeds :
    (t₁ t₂ t₃ : Moment) (i : ℕ) (u : UserId) (q : ℕ) (reason : String) (db : Db) (p : Proposal)
    (question : DisputeSurveyQuestion)
    → Consistent db
    → find_proposal i db ≡ some p
    → p.orderer_id ≡ u
    → p.status ≡ ProposalStatus.matched
    → first (is_active_question q DisputeSurveyTargetType.order) db.survey_questions ≡ some question
    → (o : Offer) × (v : Proposal × Offer) × (db' : Db) × (execution_offer p.id db ≡ some o)
      × (raise_dispute_work t₁ t₂ t₃ i u q reason db ≡ ok (v, db'))
      × HaveStatus ProposalStatus.disputed OfferStatus.disputed v
      × AreStored p o v db'
      × IsOnRecord t₃ p o u q reason v db db'
raise_dispute-succeeds t₁ t₂ t₃ i u q reason db p question c ep owner matched active =
    let (o, eo, status) = matched-execution_offer db p c (find_proposal-mem i db ep).0 matched in
    elim (Result-cases (raise_dispute_work t₁ t₂ t₃ i u q reason db)) [
      | inr (e, h) ↦ absurd (
          raise_dispute_work-succeeds t₁ t₂ t₃ i u q reason db p o question ep eo owner matched
            status active h)
      | inl ((v, db'), h) ↦
          let (steps, written) = raise_dispute_work-ok t₁ t₂ t₃ i u q reason db p o ep eo h in
          (
            o,
            v,
            db',
            eo,
            h,
            raise_dispute_work-status t₁ t₂ t₃ i u q reason db h,
            Moves-AreStored p o (raise_dispute_work-Moves t₁ t₂ t₃ i u q reason db v db' h)
                (steps.same_p.0, steps.same_o.0),
            written-IsOnRecord t₃ p o u q reason v db db' written,
          )
    ]

disputed-fits :
    (s : ProposalStatus) → fits s OfferStatus.disputed ≡ true → s ≡ ProposalStatus.disputed
disputed-fits s h = ground arith

resolve_work-succeeds :
    (t₁ t₂ : Moment) (i : ℕ) (db : Db) (o : Offer) (p : Proposal)
    → find_offer i db ≡ some o
    → find_proposal o.proposal_id db ≡ some p
    → o.status ≡ OfferStatus.disputed
    → p.status ≡ ProposalStatus.disputed
    → {e : Error} → resolve_work t₁ t₂ i db ≢ err e
unfolding resolve_work
resolve_work-succeeds t₁ t₂ i db o p eo ep disputed status h = ground arith

resolve_work-status :
    (t₁ t₂ : Moment) (i : ℕ) (db : Db) {v : Proposal × Offer} {db' : Db}
    → resolve_work t₁ t₂ i db ≡ ok (v, db')
    → HaveStatus ProposalStatus.resolved OfferStatus.resolved v
unfolding resolve_work HaveStatus
resolve_work-status t₁ t₂ i db h = ground arith

-- In a Consistent database the disputed offer of a stored proposal can be resolved. The tables
-- then hold proposal and offer as resolved, under the keys they had, and no other table has
-- changed.
pub resolve-succeeds :
    (t₁ t₂ : Moment) (i : ℕ) (db : Db) (o : Offer) (p : Proposal)
    → Consistent db
    → find_offer i db ≡ some o
    → find_proposal o.proposal_id db ≡ some p
    → o.status ≡ OfferStatus.disputed
    → (v : Proposal × Offer) × (db' : Db) × (resolve_work t₁ t₂ i db ≡ ok (v, db'))
      × HaveStatus ProposalStatus.resolved OfferStatus.resolved v
      × AreStored p o v db'
      × (db' ≡ record db { proposals = db'.proposals; offers = db'.offers })
resolve-succeeds t₁ t₂ i db o p c eo ep disputed =
    let (mp, key) = find_proposal-mem o.proposal_id db ep in
    let fit = rw disputed at (c.agrees p o mp (find_offer-mem i db eo).0 (sym key)) in
    elim (Result-cases (resolve_work t₁ t₂ i db)) [
      | inr (e, h) ↦
          absurd
            (resolve_work-succeeds t₁ t₂ i db o p eo ep disputed (disputed-fits p.status fit) h)
      | inl ((v, db'), h) ↦
          let (steps, written) = resolve_work-ok t₁ t₂ i db o p eo ep h in
          (
            v,
            db',
            h,
            resolve_work-status t₁ t₂ i db h,
            Moves-AreStored p o (resolve_work-Moves t₁ t₂ i db v db' h)
                (steps.same_p.0, steps.same_o.0),
            rw written refl,
          )
    ]
