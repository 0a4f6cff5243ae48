-- ===== src/Offers/Execution.antt =====
-- The commands of the offer service on an accepted offer: the runner confirms or disputes, an
-- administrator resolves (app/services/offer/offer_service.py). A moment among the arguments is
-- what one `utcnow_naive()` of the call returns, in order; `flushed` stamps the inserted rows.
use order_run_be.Base.{ℕ, String, [], ◌∷◌, not, ◌&&◌, ◌||◌, ◌==◌, if◌then◌else◌, UserId, Moment}
use order_run_be.Errors.{AppError}
use order_run_be.Models.Proposal
use order_run_be.Models.Proposal.{Proposal, ProposalStatus}
use order_run_be.Models.Offer
use order_run_be.Models.Offer.{Offer, OfferStatus}
use order_run_be.Models.Dispute.{DisputeSurveyTargetType}
use order_run_be.Events.Bus.{meeting_confirmed_by_runner, dispute_raised_by_runner}
use order_run_be.Events.Listener.{publish_event}
use order_run_be.Disputes.{ensure_active_question}
use order_run_be.Proposals.Execution.{raise_level, parties, add_evidence}
use order_run_be.Db.{
  Tx, ◌>>=◌, ◌>>◌, pure, lift, modify, raise_when, Request, commit, answer, save_proposal,
  save_offer,
}
use order_run_be.Offers.Queries.{get_proposal, get_offer, OfferResponse}
use order_run_be.Offers.Commands.{show_offer}

-- The body of `_sync_all_completed` under its test
abbrev pub complete_both : Offer → Proposal → Tx (Offer × Proposal)
complete_both offer proposal = do
  offer' ← lift (Offer.mark_all_completed offer)
  proposal' ← lift (Proposal.mark_all_completed proposal)
  modify (raise_level offer.runner_id)
  pure (offer', proposal')

-- `_sync_all_completed`, with the two rows that the session holds
unfoldable pub sync_all_completed : Offer → Proposal → Tx (Offer × Proposal)
unfolding Proposal.mark_all_completed Offer.mark_all_completed
sync_all_completed offer proposal =
    if Offer.is offer.status OfferStatus.runner_completed
      && Proposal.is proposal.status ProposalStatus.order_completed
    then complete_both offer proposal
    else pure (offer, proposal)

-- `if proposal.status in {MATCHED, ORDER_COMPLETED}: proposal.confirm_runner_completion()`
abbrev pub confirm_on_proposal : Moment → Proposal → Tx Proposal
confirm_on_proposal now proposal =
    if Proposal.is_in (ProposalStatus.matched ∷ ProposalStatus.order_completed ∷ []) proposal.status
    then lift (Proposal.confirm_runner_completion now proposal)
    else pure proposal

-- `if proposal.status == ORDER_COMPLETED: offer.confirm_orderer_completion()`
abbrev pub confirm_for_orderer : Moment → Proposal → Offer → Tx Offer
confirm_for_orderer now proposal offer =
    if Proposal.is proposal.status ProposalStatus.order_completed
    then lift (Offer.confirm_orderer_completion now offer)
    else pure offer

-- `complete_delivery` up to its commit
unfoldable pub complete_delivery_work :
    Moment → Moment → Moment → Moment → ℕ → UserId → Tx (Proposal × Offer)
unfolding Offer.can_confirm_runner_completion Offer.confirm_runner_completion
    Proposal.confirm_runner_completion Offer.confirm_orderer_completion sync_all_completed
complete_delivery_work at_offer at_proposal at_orderer flushed offer_id runner_id = do
  offer ← get_offer offer_id
  raise_when (not (offer.runner_id == runner_id)) AppError.forbidden
  proposal ← get_proposal offer.proposal_id
  raise_when
      (not (Offer.can_confirm_runner_completion offer)
        || not (
            Proposal.is_in (ProposalStatus.matched ∷ ProposalStatus.order_completed ∷ [])
              proposal.status))
      AppError.offer_not_updatable
  offer' ← lift (Offer.confirm_runner_completion at_offer offer)
  proposal' ← confirm_on_proposal at_proposal proposal
  offer'' ← confirm_for_orderer at_orderer proposal' offer'
  (synced_offer, synced_proposal) ← sync_all_completed offer'' proposal'
  modify (save_offer synced_offer)
  modify (save_proposal synced_proposal)
  modify
      (publish_event flushed (meeting_confirmed_by_runner (parties synced_proposal synced_offer)))
  pure (synced_proposal, synced_offer)

unfoldable pub complete_delivery :
    Moment → Moment → Moment → Moment → ℕ → UserId → Request OfferResponse
complete_delivery at_offer at_proposal at_orderer flushed offer_id runner_id =
    answer
      (commit (complete_delivery_work at_offer at_proposal at_orderer flushed offer_id runner_id))
      (λ changed db. show_offer changed.1.id db)

-- `raise_dispute` up to its commit
unfoldable pub raise_dispute_work :
    Moment → Moment → Moment → ℕ → UserId → ℕ → String → Tx (Proposal × Offer)
unfolding Proposal.can_raise_dispute Offer.can_raise_dispute Proposal.raise_dispute
    Offer.raise_dispute
raise_dispute_work at_offer at_proposal flushed offer_id runner_id survey_question_id reason = do
  offer ← get_offer offer_id
  raise_when (not (offer.runner_id == runner_id)) AppError.forbidden
  proposal ← get_proposal offer.proposal_id
  raise_when (not (Offer.can_raise_dispute offer) || not (Proposal.can_raise_dispute proposal))
      AppError.offer_not_updatable
  ensure_active_question survey_question_id DisputeSurveyTargetType.runner
  offer' ← lift (Offer.raise_dispute at_offer offer)
  proposal' ← lift (Proposal.raise_dispute at_proposal proposal)
  modify (save_offer offer')
  modify (save_proposal proposal')
  modify (add_evidence flushed proposal.id offer.id runner_id survey_question_id reason)
  modify (publish_event flushed (dispute_raised_by_runner (parties proposal' offer')))
  pure (proposal', offer')

unfoldable pub raise_dispute :
    Moment → Moment → Moment → ℕ → UserId → ℕ → String → Request OfferResponse
raise_dispute at_offer at_proposal flushed offer_id runner_id survey_question_id reason =
    answer
      (commit (
        raise_dispute_work at_offer at_proposal flushed offer_id runner_id survey_question_id
          reason))
      (λ changed db. show_offer changed.1.id db)

-- `resolve` up to its commit
unfoldable pub resolve_work : Moment → Moment → ℕ → Tx (Proposal × Offer)
unfolding Offer.can_resolve Proposal.can_resolve Offer.resolve Proposal.resolve
resolve_work at_offer at_proposal offer_id = do
  offer ← get_offer offer_id
  proposal ← get_proposal offer.proposal_id
  raise_when (not (Offer.can_resolve offer) || not (Proposal.can_resolve proposal))
      AppError.offer_not_updatable
  offer' ← lift (Offer.resolve at_offer offer)
  proposal' ← lift (Proposal.resolve at_proposal proposal)
  modify (save_offer offer')
  modify (save_proposal proposal')
  pure (proposal', offer')

unfoldable pub resolve : Moment → Moment → ℕ → Request OfferResponse
resolve at_offer at_proposal offer_id =
    answer (commit (resolve_work at_offer at_proposal offer_id))
      (λ changed db. show_offer changed.1.id db)
