-- ===== src/Consistency/Deliveries.antt =====
-- The runner's commands on an accepted offer, and the resolution of a dispute, and the invariant
-- (app/services/offer/offer_service.py).
use order_run_be.Base.{
  ℕ, String, ◌≡◌, refl, sym, inl, inr, Bool, true, false, some, arith, ok, UserId, Moment,
  Option-cases, ap,
}
use order_run_be.Models.Proposal.{Proposal}
use order_run_be.Models.Offer
use order_run_be.Models.Offer.{Offer, OfferStatus}
use order_run_be.Events.Listener.{publish_event}
use order_run_be.Db.{Db, find_proposal, find_offer, save_proposal, save_offer}
use order_run_be.Db.Sessions.{find_proposal-mem, find_offer-mem, request-keeps}
use order_run_be.Proposals.Execution.{parties}
use order_run_be.Consistency.{Consistent}
use order_run_be.Offers.Execution.{
  complete_delivery_work, complete_delivery, raise_dispute_work, raise_dispute, resolve_work,
  resolve,
}
use order_run_be.Events.Bus.{meeting_confirmed_by_runner, dispute_raised_by_runner}
use order_run_be.Proposals.Execution.{add_evidence}
use order_run_be.Consistency.Advance.{
  Advances, Persists, Moves, Moves-Consistent, level_if, Persists-publish,
}

level_if_second :
    (b : Bool) (u : UserId) (db : Db) (p' : Proposal) (o' : Offer)
    → Persists db (save_proposal p' (save_offer o' (level_if b u db))) p' o'
level_if_second true u db p' o' = record { proposals = refl; offers = refl }
level_if_second false u db p' o' = record { proposals = refl; offers = refl }

complete_delivery_work-ok :
    (t₁ t₂ t₃ t₄ : Moment) (i : ℕ) (u : UserId) (db : Db) (o : Offer) (p : Proposal)
    {v : Proposal × Offer} {db' : Db}
    → find_offer i db ≡ some o
    → find_proposal o.proposal_id db ≡ some p
    → complete_delivery_work t₁ t₂ t₃ t₄ i u db ≡ ok (v, db')
    → Advances p v.0 o v.1
unfolding complete_delivery_work
complete_delivery_work-ok t₁ t₂ t₃ t₄ i u db o p eo ep h = ground arith

pub complete_delivery_work-db :
    (t₁ t₂ t₃ t₄ : Moment) (i : ℕ) (u : UserId) (db : Db) (o : Offer) (p : Proposal)
    {v : Proposal × Offer} {db' : Db}
    → find_offer i db ≡ some o
    → find_proposal o.proposal_id db ≡ some p
    → complete_delivery_work t₁ t₂ t₃ t₄ i u db ≡ ok (v, db')
    → db'
      ≡ publish_event t₄ (meeting_confirmed_by_runner (parties v.0 v.1)) (
          save_proposal v.0 (
            save_offer v.1
              (level_if (Offer.is v.1.status OfferStatus.all_completed) o.runner_id db)))
unfolding complete_delivery_work
complete_delivery_work-db t₁ t₂ t₃ t₄ i u db o p eo ep h = ground arith

pub complete_delivery_work-Moves :
    (t₁ t₂ t₃ t₄ : Moment) (i : ℕ) (u : UserId) (db : Db)
    → (v : Proposal × Offer) (db' : Db) → complete_delivery_work t₁ t₂ t₃ t₄ i u db ≡ ok (v, db')
    → Moves db db' v
complete_delivery_work-Moves t₁ t₂ t₃ t₄ i u db v db' h = elim (Option-cases (find_offer i db)) [
  | inl e ↦ absurd (unfold complete_delivery_work in ground arith)
  | inr (o, eo) ↦ elim (Option-cases (find_proposal o.proposal_id db)) [
    | inl e ↦ absurd (unfold complete_delivery_work in ground arith)
    | inr (p, ep) ↦
        let (mp, key) = find_proposal-mem o.proposal_id db ep in
        let kept : Persists db db' v.0 v.1 =
          Persists-publish t₄ _ (level_if_second _ o.runner_id db v.0 v.1)
            (complete_delivery_work-db t₁ t₂ t₃ t₄ i u db o p eo ep h) in
        record {
          proposal = p;
          offer = o;
          stored_p = mp;
          stored_o = (find_offer-mem i db eo).0;
          of_p = (sym key);
          steps = (complete_delivery_work-ok t₁ t₂ t₃ t₄ i u db o p eo ep h);
          kept = kept;
        }
  ]
]

pub complete_delivery-Consistent :
    (t₁ t₂ t₃ t₄ : Moment) (i : ℕ) (u : UserId) (db : Db)
    → Consistent db
    → Consistent (complete_delivery t₁ t₂ t₃ t₄ i u db).1
unfolding complete_delivery
complete_delivery-Consistent t₁ t₂ t₃ t₄ i u db c =
    request-keeps Consistent (complete_delivery_work t₁ t₂ t₃ t₄ i u) _ db c
      (λ v db' h. Moves-Consistent c (complete_delivery_work-Moves t₁ t₂ t₃ t₄ i u db v db' h))

raise_dispute_work-ok :
    (t₁ t₂ t₃ : Moment) (i : ℕ) (u : UserId) (q : ℕ) (reason : String) (db : Db) (o : Offer)
    (p : Proposal) {v : Proposal × Offer} {db' : Db}
    → find_offer i db ≡ some o
    → find_proposal o.proposal_id db ≡ some p
    → raise_dispute_work t₁ t₂ t₃ i u q reason db ≡ ok (v, db')
    → Advances p v.0 o v.1
      × (db'
          ≡ publish_event t₃
              (dispute_raised_by_runner (parties v.0 v.1))
              (add_evidence t₃ p.id o.id u q reason (save_proposal v.0 (save_offer v.1 db))))
unfolding raise_dispute_work
raise_dispute_work-ok t₁ t₂ t₃ i u q reason db o p eo ep h = ground arith

pub raise_dispute_work-Moves :
    (t₁ t₂ t₃ : Moment) (i : ℕ) (u : UserId) (q : ℕ) (reason : String) (db : Db)
    → (v : Proposal × Offer) (db' : Db) → raise_dispute_work t₁ t₂ t₃ i u q reason db ≡ ok (v, db')
    → Moves db db' v
raise_dispute_work-Moves t₁ t₂ t₃ i u q reason db v db' h = elim (Option-cases (find_offer i db)) [
  | inl e ↦ absurd (unfold raise_dispute_work in ground arith)
  | inr (o, eo) ↦ elim (Option-cases (find_proposal o.proposal_id db)) [
    | inl e ↦ absurd (unfold raise_dispute_work in ground arith)
    | inr (p, ep) ↦
        let (mp, key) = find_proposal-mem o.proposal_id db ep in
        let (steps, written) = raise_dispute_work-ok t₁ t₂ t₃ i u q reason db o p eo ep h in
        let kept : Persists db db' v.0 v.1 =
          Persists-publish t₃ _ (record { proposals = refl; offers = refl }) written in
        record {
          proposal = p;
          offer = o;
          stored_p = mp;
          stored_o = (find_offer-mem i db eo).0;
          of_p = (sym key);
          steps = steps;
          kept = kept;
        }
  ]
]

pub raise_dispute-Consistent :
    (t₁ t₂ t₃ : Moment) (i : ℕ) (u : UserId) (q : ℕ) (reason : String) (db : Db)
    → Consistent db
    → Consistent (raise_dispute t₁ t₂ t₃ i u q reason db).1
unfolding raise_dispute
raise_dispute-Consistent t₁ t₂ t₃ i u q reason db c =
    request-keeps Consistent (raise_dispute_work t₁ t₂ t₃ i u q reason) _ db c
      (λ v db' h. Moves-Consistent c (raise_dispute_work-Moves t₁ t₂ t₃ i u q reason db v db' h))

pub resolve_work-ok :
    (t₁ t₂ : Moment) (i : ℕ) (db : Db) (o : Offer) (p : Proposal) {v : Proposal × Offer} {db' : Db}
    → find_offer i db ≡ some o
    → find_proposal o.proposal_id db ≡ some p
    → resolve_work t₁ t₂ i db ≡ ok (v, db')
    → Advances p v.0 o v.1 × (db' ≡ save_proposal v.0 (save_offer v.1 db))
unfolding resolve_work
resolve_work-ok t₁ t₂ i db o p eo ep h = ground arith

pub resolve_work-Moves :
    (t₁ t₂ : Moment) (i : ℕ) (db : Db)
    → (v : Proposal × Offer) (db' : Db) → resolve_work t₁ t₂ i db ≡ ok (v, db')
    → Moves db db' v
resolve_work-Moves t₁ t₂ i db v db' h = elim (Option-cases (find_offer i db)) [
  | inl e ↦ absurd (unfold resolve_work in ground arith)
  | inr (o, eo) ↦ elim (Option-cases (find_proposal o.proposal_id db)) [
    | inl e ↦ absurd (unfold resolve_work in ground arith)
    | inr (p, ep) ↦
        let (mp, key) = find_proposal-mem o.proposal_id db ep in
        let (steps, written) = resolve_work-ok t₁ t₂ i db o p eo ep h in
        let kept : Persists db db' v.0 v.1 = record {
          proposals = ap (λ (d : Db). d.proposals) written;
          offers = ap (λ (d : Db). d.offers) written;
        } in
        record {
          proposal = p;
          offer = o;
          stored_p = mp;
          stored_o = (find_offer-mem i db eo).0;
          of_p = (sym key);
          steps = steps;
          kept = kept;
        }
  ]
]

pub resolve-Consistent :
    (t₁ t₂ : Moment) (i : ℕ) (db : Db) → Consistent db → Consistent (resolve t₁ t₂ i db).1
unfolding resolve
resolve-Consistent t₁ t₂ i db c =
    request-keeps Consistent (resolve_work t₁ t₂ i) _ db c
      (λ v db' h. Moves-Consistent c (resolve_work-Moves t₁ t₂ i db v db' h))
