-- ===== src/Offers/Commands.antt =====
-- The commands of the offer service up to the match: create, cancel, accept
-- (app/services/offer/offer_service.py). A moment among the arguments is what one `utcnow_naive()`
-- of the call returns, in order; the last, `flushed`, stamps the rows that the call inserts.
use order_run_be.Base.{
  ℕ, String, List, [], ◌∷◌, map, Bool, not, ◌&&◌, ◌==◌, if◌then◌else◌, UserId, Moment, Option, none,
  some, first, where_all, update_where, count_where, is_some, Result, ok, err,
}
use order_run_be.Errors.{Error, api, AppError}
use order_run_be.Models.Proposal
use order_run_be.Models.Proposal.{Proposal, ProposalStatus}
use order_run_be.Models.Offer
use order_run_be.Models.Offer.{Offer, OfferStatus}
use order_run_be.Events.Bus.{offer_created, offer_accepted}
use order_run_be.Events.Listener.{publish_event}
use order_run_be.Profiles.{user_profile}
use order_run_be.Db.{
  Db, Tx, ◌>>=◌, ◌>>◌, pure, lift, gets, modify, raise_when, Request, commit, answer, add_row,
  set_rows, save_proposal, save_offer, find_offer,
}
use order_run_be.Offers.Queries.{get_proposal, get_offer, OfferResponse, to_response}

-- `OPEN_PROPOSAL_STATUSES`
abbrev pub open_proposal_statuses : List ProposalStatus
open_proposal_statuses = ProposalStatus.posted ∷ ProposalStatus.offered ∷ []

-- `ACTIVE_OFFER_STATUSES`
abbrev pub active_offer_statuses : List OfferStatus
active_offer_statuses =
    OfferStatus.accepted ∷ OfferStatus.runner_completed ∷ OfferStatus.all_completed
    ∷ OfferStatus.disputed ∷ []

-- The pair of columns under the constraint `uk_proposal_runner`
abbrev pub is_bid_of : ℕ → UserId → Offer → Bool
is_bid_of proposal_id runner_id o = o.proposal_id == proposal_id && o.runner_id == runner_id

-- `Offer(proposal_id=…, runner_id=…, status=WAITING)`
abbrev pub new_offer : ℕ → UserId → Moment → ℕ → Offer
new_offer proposal_id runner_id created_at id = record {
  id = id;
  proposal_id = proposal_id;
  runner_id = runner_id;
  status = OfferStatus.waiting;
  open_chat_url = none;
  created_at = created_at;
  accepted_at = none;
  runner_confirmed_at = none;
  orderer_confirmed_at = none;
  disputed_at = none;
  resolved_at = none;
}

-- The insert of an offer. A second one of the same runner breaks the constraint; the handler of
-- the `IntegrityError` rolls back and raises `DUPLICATE_OFFER`.
abbrev pub insert_offer : ℕ → UserId → Moment → Tx ℕ
insert_offer proposal_id runner_id flushed = do
  existing ← gets (λ db. first (is_bid_of proposal_id runner_id) db.offers.rows)
  raise_when (is_some existing) AppError.duplicate_offer
  id ← gets (λ db. db.offers.next)
  modify (λ db. record db { offers = add_row (new_offer proposal_id runner_id flushed) db.offers })
  pure id

-- `create` up to its commit
unfoldable pub create_work : Moment → ℕ → UserId → Tx ℕ
unfolding Proposal.mark_as_offered
create_work flushed proposal_id runner_id = do
  proposal ← get_proposal proposal_id
  raise_when (proposal.orderer_id == runner_id) AppError.self_offer_not_allowed
  raise_when (not (Proposal.is_in open_proposal_statuses proposal.status))
      AppError.proposal_not_open
  duplicate ← gets (λ db. first (is_bid_of proposal_id runner_id) db.offers.rows)
  raise_when (is_some duplicate) AppError.duplicate_offer
  let proposal' =
      if Proposal.is proposal.status ProposalStatus.posted
      then Proposal.mark_as_offered proposal
      else proposal
  modify (save_proposal proposal')
  id ← insert_offer proposal_id runner_id flushed
  modify (
      publish_event flushed (
        offer_created (record {
          offer_id = id;
          proposal_id = proposal.id;
          runner_id = runner_id;
          orderer_id = proposal.orderer_id;
          proposal_title = proposal.title;
        })))
  pure id

-- The response of a command: the offer is read again and shown.
unfoldable pub show_offer : ℕ → Db → Result Error OfferResponse
unfolding to_response
show_offer offer_id db = elim (find_offer offer_id db) [
  | none ↦ err (api AppError.offer_not_found)
  | some offer ↦ to_response db offer
]

unfoldable pub create : Moment → ℕ → UserId → Request OfferResponse
create flushed proposal_id runner_id =
    answer (commit (create_work flushed proposal_id runner_id)) show_offer

unfoldable pub cancel : ℕ → UserId → Request (Unit {0})
unfolding Offer.cancel
cancel offer_id runner_id = commit do
  offer ← get_offer offer_id
  raise_when (not (offer.runner_id == runner_id)) AppError.forbidden
  raise_when (not (Offer.is offer.status OfferStatus.waiting)) AppError.offer_not_cancellable
  offer' ← lift (Offer.cancel offer)
  modify (save_offer offer')

-- The filter of the offers that compete with an accepted one
abbrev pub is_rival : ℕ → ℕ → Offer → Bool
is_rival proposal_id offer_id o =
    o.proposal_id == proposal_id
    && (not (o.id == offer_id) && Offer.is o.status OfferStatus.waiting)

-- The filter of the other offers of the proposal that are already in execution
abbrev pub is_active_rival : ℕ → ℕ → Offer → Bool
is_active_rival proposal_id offer_id o =
    o.proposal_id == proposal_id
    && (not (o.id == offer_id) && Offer.is_in active_offer_statuses o.status)

-- `OfferAcceptResponse`
pub record OfferAcceptResponse : Type 0 where
  pub proposal_id : ℕ
  pub offer_id : ℕ
  pub proposal_status : ProposalStatus
  pub accepted_offer_status : OfferStatus
  pub rejected_offer_count : ℕ
  pub orderer_id : UserId
  pub orderer_name : String
  pub orderer_level : ℕ
  pub runner_id : UserId
  pub runner_name : String
  pub runner_level : ℕ
  pub accepted_at : Option Moment

-- The bulk update of the rivals to `REJECTED`
abbrev pub reject_rivals : ℕ → ℕ → Db → Db
reject_rivals proposal_id offer_id db = record db {
  offers =
      set_rows
        (update_where (is_rival proposal_id offer_id)
          (λ o. record o { status = OfferStatus.rejected }) db.offers.rows)
        db.offers;
}

-- `accept` up to its commit: the proposal and the offer as they are then, and how many were
-- rejected.
unfoldable pub accept_work : Moment → Moment → ℕ → UserId → Tx (Proposal × Offer × ℕ)
unfolding Offer.accept
accept_work at_offer flushed offer_id orderer_id = do
  offer ← get_offer offer_id
  proposal ← get_proposal offer.proposal_id
  raise_when (not (proposal.orderer_id == orderer_id)) AppError.forbidden
  raise_when (not (Offer.is offer.status OfferStatus.waiting)) AppError.offer_not_acceptable
  existing_active_offer ← gets (λ db. first (is_active_rival proposal.id offer.id) db.offers.rows)
  raise_when (is_some existing_active_offer) AppError.proposal_not_matchable
  raise_when (not (Proposal.is proposal.status ProposalStatus.offered))
      AppError.proposal_not_matchable
  rejected_runner_ids ←
      gets (λ db. map (λ o. o.runner_id) (where_all (is_rival proposal.id offer.id) db.offers.rows))
  offer' ← lift (Offer.accept at_offer offer)
  let proposal' = record proposal {
    status = ProposalStatus.matched;
    matched_at = offer'.accepted_at;
  }
  rejected_count ← gets (λ db. count_where (is_rival proposal.id offer.id) db.offers.rows)
  modify (save_proposal proposal')
  modify (save_offer offer')
  modify (reject_rivals proposal.id offer.id)
  modify (
      publish_event flushed (
        offer_accepted (record {
          offer_id = offer.id;
          proposal_id = proposal.id;
          accepted_runner_id = offer.runner_id;
          rejected_runner_ids = rejected_runner_ids;
          orderer_id = proposal.orderer_id;
          proposal_title = proposal.title;
        })))
  pure (proposal', offer', rejected_count)

unfoldable pub accept_response : Proposal → Offer → ℕ → Db → OfferAcceptResponse
accept_response proposal offer rejected_count db =
    let (orderer_name, orderer_level) = user_profile db proposal.orderer_id in
    let (runner_name, runner_level) = user_profile db offer.runner_id in
    record {
      proposal_id = proposal.id;
      offer_id = offer.id;
      proposal_status = proposal.status;
      accepted_offer_status = offer.status;
      rejected_offer_count = rejected_count;
      orderer_id = proposal.orderer_id;
      orderer_name = orderer_name;
      orderer_level = orderer_level;
      runner_id = offer.runner_id;
      runner_name = runner_name;
      runner_level = runner_level;
      accepted_at = offer.accepted_at;
    }

unfoldable pub accept : Moment → Moment → ℕ → UserId → Request OfferAcceptResponse
accept at_offer flushed offer_id orderer_id =
    answer (commit (accept_work at_offer flushed offer_id orderer_id))
      (λ (proposal, offer, rejected) db. ok (accept_response proposal offer rejected db))
