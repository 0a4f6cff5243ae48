-- ===== src/Offers/Queries.antt =====
-- Lookups, searches and responses of the offer service (app/services/offer/offer_service.py).
use order_run_be.Base.{
  ℕ, ◌*◌, Bool, true, String, List, [], ◌∷◌, Option, none, some, ◌==◌, ◌&&◌, if◌then◌else◌, UserId,
  Moment, where_all, order_by, slice, length, Result, ok, err, ◌>>=◌,
}
use order_run_be.Errors.{Error, api, AppError}
use order_run_be.Models.Proposal.{Proposal}
use order_run_be.Models.Offer
use order_run_be.Models.Offer.{Offer, OfferStatus}
use order_run_be.Pages.{PageResponse, of}
use order_run_be.Profiles.{user_profile, one_of}
use order_run_be.Db.{Db, Tx, found, find_proposal, find_offer}
use order_run_be.Proposals.Queries.{open_chat_offer_statuses, latest_created}

-- `_get_proposal`
abbrev pub get_proposal : ℕ → Tx Proposal
get_proposal proposal_id = found (find_proposal proposal_id) AppError.offer_proposal_not_found

-- `_get_offer`
abbrev pub get_offer : ℕ → Tx Offer
get_offer offer_id = found (find_offer offer_id) AppError.offer_not_found

-- `OfferResponse`; `OfferSummaryResponse` has the same fields.
pub record OfferResponse : Type 0 where
  pub id : ℕ
  pub proposal_id : ℕ
  pub orderer_id : UserId
  pub orderer_name : String
  pub orderer_level : ℕ
  pub runner_id : UserId
  pub runner_name : String
  pub runner_level : ℕ
  pub status : OfferStatus
  pub accepted_at : Option Moment
  pub runner_confirmed_at : Option Moment
  pub orderer_confirmed_at : Option Moment
  pub disputed_at : Option Moment
  pub resolved_at : Option Moment
  pub created_at : Moment

-- The dictionary of `_response_fields`, once the proposal is found
unfoldable pub fields_of : Db → Offer → Proposal → OfferResponse
fields_of db offer proposal =
    let (orderer_name, orderer_level) = user_profile db proposal.orderer_id in
    let (runner_name, runner_level) = user_profile db offer.runner_id in
    record {
      id = offer.id;
      proposal_id = offer.proposal_id;
      orderer_id = proposal.orderer_id;
      orderer_name = orderer_name;
      orderer_level = orderer_level;
      runner_id = offer.runner_id;
      runner_name = runner_name;
      runner_level = runner_level;
      status = offer.status;
      accepted_at = offer.accepted_at;
      runner_confirmed_at = offer.runner_confirmed_at;
      orderer_confirmed_at = offer.orderer_confirmed_at;
      disputed_at = offer.disputed_at;
      resolved_at = offer.resolved_at;
      created_at = offer.created_at;
    }

-- `_response_fields`, `_to_response` and `_to_summary_response`
unfoldable pub to_response : Db → Offer → Result Error OfferResponse
unfolding fields_of
to_response db offer = elim (find_proposal offer.proposal_id db) [
  | none ↦ err (api AppError.offer_proposal_not_found)
  | some proposal ↦ ok (fields_of db offer proposal)
]

-- `OfferDetailResponse`: the fields of the response, and the chat link.
pub record OfferDetailResponse : Type 0 where
  pub fields : OfferResponse
  pub open_chat_url : Option String

-- `_to_detail_response`
unfoldable pub to_detail_response : Db → Offer → UserId → Result Error OfferDetailResponse
unfolding to_response
to_detail_response db offer viewer_id = do
  fields ← to_response db offer
  let shown =
      Offer.is_in open_chat_offer_statuses offer.status
      && one_of viewer_id (fields.orderer_id ∷ offer.runner_id ∷ [])
  ok (record { fields = fields; open_chat_url = if shown then offer.open_chat_url else none })

unfoldable pub get_offer_detail : ℕ → UserId → Db → Result Error OfferDetailResponse
unfolding to_detail_response
get_offer_detail offer_id viewer_id db = elim (find_offer offer_id db) [
  | none ↦ err (api AppError.offer_not_found)
  | some offer ↦ to_detail_response db offer viewer_id
]

-- A list comprehension over offers: the first response that raises ends it.
unfoldable pub to_responses : Db → List Offer → Result Error (List OfferResponse)
to_responses db [] = ok []
to_responses db (o ∷ os) = do r ← to_response db o; rs ← to_responses db os; ok (r ∷ rs)

-- An optional filter by status: no list and the empty list let every row through.
abbrev pub status_filter : List OfferStatus → Offer → Bool
status_filter [] o = true
status_filter (s ∷ ss) o = Offer.is_in (s ∷ ss) o.status

unfoldable pub find_offers_by_proposal :
    ℕ → List OfferStatus → Db → Result Error (List OfferResponse)
unfolding to_responses
find_offers_by_proposal proposal_id statuses db = elim (find_proposal proposal_id db) [
  | none ↦ err (api AppError.offer_proposal_not_found)
  | some _ ↦ to_responses db (
      order_by latest_created (
        where_all (status_filter statuses)
          (where_all (λ o. o.proposal_id == proposal_id) db.offers.rows)))
]

unfoldable pub search_runner_offers :
    UserId → List OfferStatus → ℕ → ℕ → Db → Result Error (PageResponse OfferResponse)
unfolding to_responses of
search_runner_offers runner_id statuses page size db = do
  let matches =
      where_all (status_filter statuses) (where_all (λ o. o.runner_id == runner_id) db.offers.rows)
  content ← to_responses db (slice (page * size) size (order_by latest_created matches))
  ok (of content page size (length matches))
