-- ===== src/Consistency/Replies.antt =====
-- What a command answers after its commit: the response finds the rows that the command left
-- (app/services/proposal/proposal_service.py, app/services/offer/offer_service.py).
use order_run_be.Base.{
  ℕ, ◌≡◌, refl, some, ok, Memᴰ, UserId, Moment, String, mem-first, ==_refl, ◌==◌, Result,
}
use order_run_be.Models.Proposal.{Proposal}
use order_run_be.Models.Offer.{Offer}
use order_run_be.Db.{Db, find_proposal, find_offer}
use order_run_be.Db.Sessions.{find_offer-mem}
use order_run_be.Errors.{Error}
use order_run_be.Proposals.Queries.{get_proposal_detail}
use order_run_be.Offers.Queries.{to_response}
use order_run_be.Offers.Commands.{show_offer, create_work, new_offer}
use order_run_be.Offers.Execution as Runner
use order_run_be.Proposals.Execution as Orderer
use order_run_be.Consistency.{Consistent}
use order_run_be.Consistency.Advance.{Moves, Moves-mem, Moves-Consistent}
use order_run_be.Consistency.Executions
use order_run_be.Consistency.Deliveries
use order_run_be.Consistency.Bids

-- A response that succeeds
pub record IsAnswered {A : Type 0} (r : Result Error A) : Type 0 where
  pub shown : A
  pub eq : r ≡ ok shown

find_proposal-some :
    (p : Proposal) (db : Db)
    → Memᴰ p db.proposals.rows
    → (q : Proposal) × (find_proposal p.id db ≡ some q)
find_proposal-some p db m =
    mem-first (λ (q : Proposal). q.id == p.id) db.proposals.rows m (==_refl p.id)

pub get_proposal_detail-IsAnswered :
    (p : Proposal) (u : UserId) (db : Db)
    → Memᴰ p db.proposals.rows
    → IsAnswered (get_proposal_detail p.id u db)
unfolding get_proposal_detail
get_proposal_detail-IsAnswered p u db m =
    let (q, e) = find_proposal-some p db m in
    rw (get_proposal_detail, e) (record { shown = _; eq = refl })

to_response-IsAnswered :
    (o : Offer) (q : Proposal) (db : Db)
    → find_proposal o.proposal_id db ≡ some q
    → IsAnswered (to_response db o)
unfolding to_response
to_response-IsAnswered o q db e = rw (to_response, e) (record { shown = _; eq = refl })

found-IsAnswered :
    (k : ℕ) (o : Offer) (db : Db)
    → find_offer k db ≡ some o
    → Consistent db
    → IsAnswered (show_offer k db)
unfolding show_offer
found-IsAnswered k o db e c =
    let (p, mp, of_p) = c.has_proposal o (find_offer-mem k db e).0 in
    let (q, f) = find_proposal-some p db mp in
    rw (show_offer, e) (to_response-IsAnswered o q db (rw of_p f))

pub show_offer-IsAnswered :
    (o : Offer) (db : Db) → Consistent db → Memᴰ o db.offers.rows → IsAnswered (show_offer o.id db)
show_offer-IsAnswered o db c m =
    let (r, e) = mem-first (λ (q : Offer). q.id == o.id) db.offers.rows m (==_refl o.id) in
    found-IsAnswered o.id r db e c

-- The answers of the commands that read after their commit
module _ (db : Db) (c : Consistent db) where
  IsAnswered-offer :
      {db' : Db} {v : Proposal × Offer} → Moves db db' v → IsAnswered (show_offer v.1.id db')
  IsAnswered-offer {db'} {v} m =
      show_offer-IsAnswered v.1 db' (Moves-Consistent c m) (Moves-mem m).1

  IsAnswered-proposal :
      {db' : Db} {v : Proposal × Offer} (u : UserId)
      → Moves db db' v
      → IsAnswered (get_proposal_detail v.0.id u db')
  IsAnswered-proposal {db'} {v} u m = get_proposal_detail-IsAnswered v.0 u db' (Moves-mem m).0

  pub complete_delivery-answers :
      (t₁ t₂ t₃ t₄ : Moment) (i : ℕ) (u : UserId) (v : Proposal × Offer) (db' : Db)
      → Runner.complete_delivery_work t₁ t₂ t₃ t₄ i u db ≡ ok (v, db')
      → IsAnswered (show_offer v.1.id db')
  complete_delivery-answers t₁ t₂ t₃ t₄ i u v db' h =
      IsAnswered-offer (Deliveries.complete_delivery_work-Moves t₁ t₂ t₃ t₄ i u db v db' h)

  pub runner_dispute-answers :
      (t₁ t₂ t₃ : Moment) (i : ℕ) (u : UserId) (q : ℕ) (reason : String) (v : Proposal × Offer)
      (db' : Db)
      → Runner.raise_dispute_work t₁ t₂ t₃ i u q reason db ≡ ok (v, db')
      → IsAnswered (show_offer v.1.id db')
  runner_dispute-answers t₁ t₂ t₃ i u q reason v db' h =
      IsAnswered-offer (Deliveries.raise_dispute_work-Moves t₁ t₂ t₃ i u q reason db v db' h)

  pub resolve-answers :
      (t₁ t₂ : Moment) (i : ℕ) (v : Proposal × Offer) (db' : Db)
      → Runner.resolve_work t₁ t₂ i db ≡ ok (v, db')
      → IsAnswered (show_offer v.1.id db')
  resolve-answers t₁ t₂ i v db' h =
      IsAnswered-offer (Deliveries.resolve_work-Moves t₁ t₂ i db v db' h)

  pub confirm_received-answers :
      (t₁ t₂ t₃ : Moment) (i : ℕ) (u : UserId) (v : Proposal × Offer) (db' : Db)
      → Orderer.confirm_received_work t₁ t₂ t₃ i u db ≡ ok (v, db')
      → IsAnswered (get_proposal_detail v.0.id u db')
  confirm_received-answers t₁ t₂ t₃ i u v db' h =
      IsAnswered-proposal u (Executions.confirm_received_work-Moves t₁ t₂ t₃ i u db v db' h)

  pub orderer_dispute-answers :
      (t₁ t₂ t₃ : Moment) (i : ℕ) (u : UserId) (q : ℕ) (reason : String) (v : Proposal × Offer)
      (db' : Db)
      → Orderer.raise_dispute_work t₁ t₂ t₃ i u q reason db ≡ ok (v, db')
      → IsAnswered (get_proposal_detail v.0.id u db')
  orderer_dispute-answers t₁ t₂ t₃ i u q reason v db' h =
      IsAnswered-proposal u (Executions.raise_dispute_work-Moves t₁ t₂ t₃ i u q reason db v db' h)

  -- The new offer is the last row.
  pub create_offer-answers :
      (t : Moment) (i : ℕ) (u : UserId) (k : ℕ) (db' : Db)
      → create_work t i u db ≡ ok (k, db')
      → IsAnswered (show_offer k db')
  create_offer-answers t i u k db' h =
      let (key, stored) = Bids.create_work-mem t i u db k db' h in
      rw (← key) (
        show_offer-IsAnswered (new_offer i u t db.offers.next) db'
          (Bids.create_work-Consistent t i u db c k db' h) stored)
