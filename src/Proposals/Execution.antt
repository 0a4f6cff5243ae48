-- ===== src/Proposals/Execution.antt =====
-- The commands of the proposal service on a matched proposal: the orderer confirms or disputes
-- (app/services/proposal/proposal_service.py). A moment among the arguments is what one `utcnow_naive()` of the call returns, in
-- order; the last, `flushed`, stamps the rows that the call inserts.
use order_run_be.Base.{
  ℕ, ◌+◌, String, not, ◌&&◌, ◌||◌, ◌==◌, if◌then◌else◌, UserId, Moment, update_where,
}
use order_run_be.Errors.{AppError}
use order_run_be.Models.Proposal
use order_run_be.Models.Proposal.{Proposal, ProposalStatus}
use order_run_be.Models.Offer
use order_run_be.Models.Offer.{Offer, OfferStatus}
use order_run_be.Models.Dispute.{DisputeSurveyTargetType}
use order_run_be.Events.Bus.{meeting_confirmed_by_orderer, dispute_raised_by_orderer, Parties}
use order_run_be.Events.Listener.{publish_event}
use order_run_be.Db.{
  Db, Tx, ◌>>=◌, ◌>>◌, pure, lift, modify, raise_when, Request, commit, answer, add_row,
  save_proposal, save_offer,
}
use order_run_be.Disputes.{ensure_active_question}
use order_run_be.Proposals.Queries.{
  get_proposal, ensure_owner, get_execution_offer, ProposalDetailResponse, get_proposal_detail,
}

-- `{User.level: User.level + 1}` for one user
abbrev pub raise_level : UserId → Db → Db
raise_level user_id db = record db {
  users = update_where (λ u. u.id == user_id) (λ u. record u { level = u.level + 1 }) db.users;
}

-- The body of `_sync_all_completed` under its test
abbrev pub complete_both : Proposal → Offer → Tx (Proposal × Offer)
complete_both proposal offer = do
  proposal' ← lift (Proposal.mark_all_completed proposal)
  offer' ← lift (Offer.mark_all_completed offer)
  modify (raise_level offer.runner_id)
  pure (proposal', offer')

-- `_sync_all_completed`, with the two rows that the session holds
unfoldable pub sync_all_completed : Proposal → Offer → Tx (Proposal × Offer)
unfolding Proposal.mark_all_completed Offer.mark_all_completed
sync_all_completed proposal offer =
    if Proposal.is proposal.status ProposalStatus.order_completed
      && Offer.is offer.status OfferStatus.runner_completed
    then complete_both proposal offer
    else pure (proposal, offer)

-- The fields of the events of the proposal service
abbrev pub parties : Proposal → Offer → Parties
parties proposal offer = record {
  offer_id = offer.id;
  proposal_id = proposal.id;
  runner_id = offer.runner_id;
  orderer_id = proposal.orderer_id;
  proposal_title = proposal.title;
}

-- `confirm_received` up to its commit
unfoldable pub confirm_received_work : Moment → Moment → Moment → ℕ → UserId → Tx (Proposal × Offer)
unfolding Proposal.can_confirm_orderer_completion Offer.can_confirm_orderer_completion
    Proposal.confirm_orderer_completion Offer.confirm_orderer_completion sync_all_completed
    Proposal.mark_all_completed Offer.mark_all_completed
confirm_received_work at_proposal at_offer flushed proposal_id orderer_id = do
  proposal ← get_proposal proposal_id
  ensure_owner proposal orderer_id
  offer ← get_execution_offer proposal.id
  raise_when
      (not (Proposal.can_confirm_orderer_completion proposal)
        || not (Offer.can_confirm_orderer_completion offer))
      AppError.proposal_not_updatable
  proposal' ← lift (Proposal.confirm_orderer_completion at_proposal proposal)
  offer' ← lift (Offer.confirm_orderer_completion at_offer offer)
  (synced_proposal, synced_offer) ← sync_all_completed proposal' offer'
  modify (save_proposal synced_proposal)
  modify (save_offer synced_offer)
  modify
      (publish_event flushed (meeting_confirmed_by_orderer (parties synced_proposal synced_offer)))
  pure (synced_proposal, synced_offer)

unfoldable pub confirm_received :
    Moment → Moment → Moment → ℕ → UserId → Request ProposalDetailResponse
confirm_received at_proposal at_offer flushed proposal_id orderer_id =
    answer (commit (confirm_received_work at_proposal at_offer flushed proposal_id orderer_id))
      (λ changed db. get_proposal_detail changed.0.id orderer_id db)

-- `db.add(DisputeEvidence(…))`
abbrev pub add_evidence : Moment → ℕ → ℕ → UserId → ℕ → String → Db → Db
add_evidence flushed proposal_id offer_id actor_id survey_question_id reason db = record db {
  evidences =
      add_row
        (λ id. record {
          id = id;
          proposal_id = proposal_id;
          offer_id = offer_id;
          actor_id = actor_id;
          reason = reason;
          survey_question_id = survey_question_id;
          created_at = flushed;
        })
        db.evidences;
}

-- `raise_dispute` up to its commit
unfoldable pub raise_dispute_work :
    Moment → Moment → Moment → ℕ → UserId → ℕ → String → Tx (Proposal × Offer)
unfolding Proposal.can_raise_dispute Offer.can_raise_dispute Proposal.raise_dispute
    Offer.raise_dispute
raise_dispute_work at_proposal at_offer flushed proposal_id orderer_id survey_question_id reason =
    do
      proposal ← get_proposal proposal_id
      ensure_owner proposal orderer_id
      offer ← get_execution_offer proposal.id
      raise_when (not (Proposal.can_raise_dispute proposal) || not (Offer.can_raise_dispute offer))
          AppError.proposal_not_updatable
      ensure_active_question survey_question_id DisputeSurveyTargetType.order
      proposal' ← lift (Proposal.raise_dispute at_proposal proposal)
      offer' ← lift (Offer.raise_dispute at_offer offer)
      modify (save_proposal proposal')
      modify (save_offer offer')
      modify (add_evidence flushed proposal.id offer.id orderer_id survey_question_id reason)
      modify (publish_event flushed (dispute_raised_by_orderer (parties proposal' offer')))
      pure (proposal', offer')

unfoldable pub raise_dispute :
    Moment → Moment → Moment → ℕ → UserId → ℕ → String → Request ProposalDetailResponse
raise_dispute at_proposal at_offer flushed proposal_id orderer_id survey_question_id reason =
    answer
      (commit (
        raise_dispute_work at_proposal at_offer flushed proposal_id orderer_id survey_question_id
          reason))
      (λ changed db. get_proposal_detail changed.0.id orderer_id db)
