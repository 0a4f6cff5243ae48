-- ===== src/Proposals/Commands.antt =====
-- The commands of the proposal service on a proposal before it is matched
-- (app/services/proposal/proposal_service.py). A moment among the arguments is what one `utcnow_naive()` of the call returns, in
-- order; the last, `flushed`, stamps the rows that the call inserts.
use order_run_be.Base.{
  ℕ, List, ◌∷◌, [], String, not, ◌&&◌, ◌==◌, if◌then◌else◌, UserId, Moment, ℤ, update_where,
}
use order_run_be.Errors.{AppError}
use order_run_be.Models.Proposal
use order_run_be.Models.Proposal.{Proposal, ProposalStatus}
use order_run_be.Models.Offer
use order_run_be.Models.Offer.{Offer, OfferStatus}
use order_run_be.Db.{
  Db, ◌>>=◌, ◌>>◌, pure, lift, gets, modify, raise_when, Request, commit, add_row, set_rows,
  save_proposal,
}
use order_run_be.Proposals.Queries.{get_existing_user, get_proposal, ensure_owner}

-- `ProposalRequest`, validated
pub record ProposalRequest : Type 0 where
  pub title : String
  pub content : String
  pub deadline : Moment
  pub errand_fee : ℤ

-- `EDITABLE_STATUSES`
abbrev pub editable_statuses : List ProposalStatus
editable_statuses = ProposalStatus.holding ∷ ProposalStatus.posted ∷ []

-- `CANCELLABLE_STATUSES`
abbrev pub cancellable_statuses : List ProposalStatus
cancellable_statuses = ProposalStatus.holding ∷ ProposalStatus.posted ∷ ProposalStatus.offered ∷ []

unfoldable pub create : Moment → Moment → ProposalRequest → UserId → Request ℕ
create now flushed request orderer_id = commit do
  get_existing_user orderer_id
  make ← lift (
      Proposal.create_proposal now orderer_id request.title request.content request.deadline
        request.errand_fee)
  id ← gets (λ db. db.proposals.next)
  modify (λ db. record db { proposals = add_row (λ key. make key flushed) db.proposals })
  pure id

unfoldable pub update : Moment → ℕ → ProposalRequest → UserId → Request Proposal
update now proposal_id request orderer_id = commit do
  proposal ← get_proposal proposal_id
  ensure_owner proposal orderer_id
  raise_when (not (Proposal.is_in editable_statuses proposal.status)) AppError.proposal_not_editable
  proposal' ← lift (
      Proposal.update_proposal now request.title request.content request.deadline request.errand_fee
        proposal)
  modify (save_proposal proposal')
  pure proposal'

-- The bulk update of the waiting offers of a proposal to `REJECTED`
abbrev pub reject_waiting : ℕ → Db → Db
reject_waiting proposal_id db = record db {
  offers =
      set_rows
        (update_where (λ o. o.proposal_id == proposal_id && Offer.is o.status OfferStatus.waiting)
          (λ o. record o { status = OfferStatus.rejected }) db.offers.rows)
        db.offers;
}

unfoldable pub cancel : ℕ → UserId → Request Proposal
cancel proposal_id orderer_id = commit do
  proposal ← get_proposal proposal_id
  ensure_owner proposal orderer_id
  raise_when (not (Proposal.is_in cancellable_statuses proposal.status))
      AppError.proposal_not_cancellable
  let should_reject_waiting_offers = Proposal.is proposal.status ProposalStatus.offered
  let proposal' = record proposal { status = ProposalStatus.cancelled }
  modify (save_proposal proposal')
  modify (λ db. if should_reject_waiting_offers then reject_waiting proposal.id db else db)
  pure proposal'

unfoldable pub confirm_payment : ℕ → Request Proposal
confirm_payment proposal_id = commit do
  proposal ← get_proposal proposal_id
  raise_when (not (Proposal.is proposal.status ProposalStatus.holding)) AppError.invalid_status
  let proposal' = record proposal { status = ProposalStatus.posted }
  modify (save_proposal proposal')
  pure proposal'

-- `delete_expired_proposals`
unfoldable pub delete_expired_proposals : Request ℕ
delete_expired_proposals = commit (pure 0)
