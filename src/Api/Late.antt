-- ===== src/Api/Late.antt =====
-- The services that respond after their commit (app/services/proposal/proposal_service.py,
-- app/services/offer/offer_service.py): one that raises has not committed.
use order_run_be.Base.{ℕ, ◌≡◌, String, UserId, Moment, Result, ok, Result-cases, inl, inr}
use order_run_be.Errors.{Error}
use order_run_be.Db.{Db, Tx, answer, commit}
use order_run_be.Proposals.Execution as Orderer
use order_run_be.Offers.Commands as Bids
use order_run_be.Offers.Execution as Runner
use order_run_be.Consistency.{Consistent}
use order_run_be.Consistency.Replies
use order_run_be.Consistency.Replies.{IsAnswered}
use order_run_be.Api.Refused.{Undone, did, raised}

answer-Undone :
    {A B : Type 0} (db : Db) (work : Tx A) (respond : A → Db → Result Error B)
    → ((a : A) (db' : Db) → work db ≡ ok (a, db') → IsAnswered (respond a db'))
    → Undone db (answer (commit work) respond db)
answer-Undone db work respond answers = elim (Result-cases (work db)) [
  | inl (v, e) ↦ rw (e, (answers v.0 v.1 e).eq) (did _ v.1)
  | inr (x, e) ↦ rw e (raised x)
]

module _ (db : Db) (c : Consistent db) where
  pub create_offer-Undone : (t : Moment) (i : ℕ) (u : UserId) → Undone db (Bids.create t i u db)
  unfolding Bids.create
  create_offer-Undone t i u =
      answer-Undone db (Bids.create_work t i u) _ (Replies.create_offer-answers db c t i u)

  pub complete_delivery-Undone :
      (t₁ t₂ t₃ t₄ : Moment) (i : ℕ) (u : UserId)
      → Undone db (Runner.complete_delivery t₁ t₂ t₃ t₄ i u db)
  unfolding Runner.complete_delivery
  complete_delivery-Undone t₁ t₂ t₃ t₄ i u =
      answer-Undone db (Runner.complete_delivery_work t₁ t₂ t₃ t₄ i u) _
        (Replies.complete_delivery-answers db c t₁ t₂ t₃ t₄ i u)

  pub runner_dispute-Undone :
      (t₁ t₂ t₃ : Moment) (i : ℕ) (u : UserId) (q : ℕ) (reason : String)
      → Undone db (Runner.raise_dispute t₁ t₂ t₃ i u q reason db)
  unfolding Runner.raise_dispute
  runner_dispute-Undone t₁ t₂ t₃ i u q reason =
      answer-Undone db (Runner.raise_dispute_work t₁ t₂ t₃ i u q reason) _
        (Replies.runner_dispute-answers db c t₁ t₂ t₃ i u q reason)

  pub resolve-Undone : (t₁ t₂ : Moment) (i : ℕ) → Undone db (Runner.resolve t₁ t₂ i db)
  unfolding Runner.resolve
  resolve-Undone t₁ t₂ i =
      answer-Undone db (Runner.resolve_work t₁ t₂ i) _ (Replies.resolve-answers db c t₁ t₂ i)

  pub confirm_received-Undone :
      (t₁ t₂ t₃ : Moment) (i : ℕ) (u : UserId)
      → Undone db (Orderer.confirm_received t₁ t₂ t₃ i u db)
  unfolding Orderer.confirm_received
  confirm_received-Undone t₁ t₂ t₃ i u =
      answer-Undone db (Orderer.confirm_received_work t₁ t₂ t₃ i u) _
        (Replies.confirm_received-answers db c t₁ t₂ t₃ i u)

  pub orderer_dispute-Undone :
      (t₁ t₂ t₃ : Moment) (i : ℕ) (u : UserId) (q : ℕ) (reason : String)
      → Undone db (Orderer.raise_dispute t₁ t₂ t₃ i u q reason db)
  unfolding Orderer.raise_dispute
  orderer_dispute-Undone t₁ t₂ t₃ i u q reason =
      answer-Undone db (Orderer.raise_dispute_work t₁ t₂ t₃ i u q reason) _
        (Replies.orderer_dispute-answers db c t₁ t₂ t₃ i u q reason)

pub ruleset answering = (
  create_offer-Undone, complete_delivery-Undone, runner_dispute-Undone, resolve-Undone,
  confirm_received-Undone, orderer_dispute-Undone,
)
