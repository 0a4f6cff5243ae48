-- ===== src/Consistency/Executions.antt =====
-- The orderer's commands on a matched proposal and the invariant
-- (app/services/proposal/proposal_service.py).
use order_run_be.Base.{
  ℕ, String, ◌≡◌, refl, inl, inr, some, arith, ok, UserId, Moment, Option-cases,
}
use order_run_be.Models.Proposal.{Proposal}
use order_run_be.Models.Offer
use order_run_be.Models.Offer.{Offer, OfferStatus}
use order_run_be.Events.Bus.{dispute_raised_by_orderer, meeting_confirmed_by_orderer}
use order_run_be.Events.Listener.{publish_event}
use order_run_be.Db.{Db, find_proposal, save_proposal, save_offer}
use order_run_be.Db.Sessions.{find_proposal-mem, request-keeps}
use order_run_be.Proposals.Queries.{execution_offer}
use order_run_be.Proposals.Execution.{
  confirm_received_work, confirm_received, parties, add_evidence, raise_dispute_work, raise_dispute,
}
use order_run_be.Consistency.{Consistent}
use order_run_be.Consistency.Advance.{
  Advances, Persists, Moves, Moves-Consistent, level_if, leveled_first, Persists-publish,
  execution_offer-mem,
}

confirm_received_work-ok :
    (t₁ t₂ t₃ : Moment) (i : ℕ) (u : UserId) (db : Db) (p : Proposal) (o : Offer)
    {v : Proposal × Offer} {db' : Db}
    → find_proposal i db ≡ some p
    → execution_offer p.id db ≡ some o
    → confirm_received_work t₁ t₂ t₃ i u db ≡ ok (v, db')
    → Advances p v.0 o v.1
unfolding confirm_received_work
confirm_received_work-ok t₁ t₂ t₃ i u db p o ep eo h = ground arith

pub confirm_received_work-db :
    (t₁ t₂ t₃ : Moment) (i : ℕ) (u : UserId) (db : Db) (p : Proposal) (o : Offer)
    {v : Proposal × Offer} {db' : Db}
    → find_proposal i db ≡ some p
    → execution_offer p.id db ≡ some o
    → confirm_received_work t₁ t₂ t₃ i u db ≡ ok (v, db')
    → db'
      ≡ publish_event t₃ (meeting_confirmed_by_orderer (parties v.0 v.1)) (
          save_offer v.1 (
            save_proposal v.0
              (level_if (Offer.is v.1.status OfferStatus.all_completed) o.runner_id db)))
unfolding confirm_received_work
confirm_received_work-db t₁ t₂ t₃ i u db p o ep eo h = ground arith

pub confirm_received_work-Moves :
    (t₁ t₂ t₃ : Moment) (i : ℕ) (u : UserId) (db : Db)
    → (v : Proposal × Offer) (db' : Db) → confirm_received_work t₁ t₂ t₃ i u db ≡ ok (v, db')
    → Moves db db' v
confirm_received_work-Moves t₁ t₂ t₃ i u db v db' h = elim (Option-cases (find_proposal i db)) [
  | inl e ↦ absurd (unfold confirm_received_work in ground arith)
  | inr (p, ep) ↦ elim (Option-cases (execution_offer p.id db)) [
    | inl e ↦ absurd (unfold confirm_received_work in ground arith)
    | inr (o, eo) ↦
        let (mo, of_p) = execution_offer-mem p.id db eo in
        record {
          proposal = p;
          offer = o;
          stored_p = (find_proposal-mem i db ep).0;
          stored_o = mo;
          of_p = of_p;
          steps = (confirm_received_work-ok t₁ t₂ t₃ i u db p o ep eo h);
          kept =
              (Persists-publish t₃ _ (leveled_first _ o.runner_id db v.0 v.1)
                (confirm_received_work-db t₁ t₂ t₃ i u db p o ep eo h));
        }
  ]
]

pub confirm_received-Consistent :
    (t₁ t₂ t₃ : Moment) (i : ℕ) (u : UserId) (db : Db)
    → Consistent db
    → Consistent (confirm_received t₁ t₂ t₃ i u db).1
unfolding confirm_received
confirm_received-Consistent t₁ t₂ t₃ i u db c =
    request-keeps Consistent (confirm_received_work t₁ t₂ t₃ i u) _ db c
      (λ v db' h. Moves-Consistent c (confirm_received_work-Moves t₁ t₂ t₃ i u db v db' h))

pub raise_dispute_work-ok :
    (t₁ t₂ t₃ : Moment) (i : ℕ) (u : UserId) (q : ℕ) (reason : String) (db : Db) (p : Proposal)
    (o : Offer) {v : Proposal × Offer} {db' : Db}
    → find_proposal i db ≡ some p
    → execution_offer p.id db ≡ some o
    → raise_dispute_work t₁ t₂ t₃ i u q reason db ≡ ok (v, db')
    → Advances p v.0 o v.1
      × (db'
          ≡ publish_event t₃
              (dispute_raised_by_orderer (parties v.0 v.1))
              (add_evidence t₃ p.id o.id u q reason (save_offer v.1 (save_proposal v.0 db))))
unfolding raise_dispute_work
raise_dispute_work-ok t₁ t₂ t₃ i u q reason db p o ep eo h = ground arith

pub raise_dispute_work-Moves :
    (t₁ t₂ t₃ : Moment) (i : ℕ) (u : UserId) (q : ℕ) (reason : String) (db : Db)
    → (v : Proposal × Offer) (db' : Db) → raise_dispute_work t₁ t₂ t₃ i u q reason db ≡ ok (v, db')
    → Moves db db' v
raise_dispute_work-Moves t₁ t₂ t₃ i u q reason db v db' h =
    elim (Option-cases (find_proposal i db)) [
      | inl e ↦ absurd (unfold raise_dispute_work in ground arith)
      | inr (p, ep) ↦ elim (Option-cases (execution_offer p.id db)) [
        | inl e ↦ absurd (unfold raise_dispute_work in ground arith)
        | inr (o, eo) ↦
            let (mo, of_p) = execution_offer-mem p.id db eo in
            let (steps, written) = raise_dispute_work-ok t₁ t₂ t₃ i u q reason db p o ep eo h in
            let kept : Persists db db' v.0 v.1 =
              Persists-publish t₃ _ (record { proposals = refl; offers = refl }) written in
            record {
              proposal = p;
              offer = o;
              stored_p = (find_proposal-mem i db ep).0;
              stored_o = mo;
              of_p = of_p;
              steps = steps;
              kept = kept;
            }
      ]
    ]

pub raise_dispute-Consistent :
    (t₁ t₂ t₃ : Moment) (i : ℕ) (u : UserId) (q : ℕ) (reason : String) (db : Db)
    → Consistent db
    → Consistent (raise_dispute t₁ t₂ t₃ i u q reason db).1
unfolding raise_dispute
raise_dispute-Consistent t₁ t₂ t₃ i u q reason db c =
    request-keeps Consistent (raise_dispute_work t₁ t₂ t₃ i u q reason) _ db c
      (λ v db' h. Moves-Consistent c (raise_dispute_work-Moves t₁ t₂ t₃ i u q reason db v db' h))
