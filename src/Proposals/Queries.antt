-- ===== src/Proposals/Queries.antt =====
-- Lookups, searches and responses of the proposal service
-- (app/services/proposal/proposal_service.py).
use order_run_be.Base.{
  ℕ, ◌*◌, Bool, true, false, String, List, [], ◌∷◌, ◌++◌, map, Option, none, some, ◌==◌, ◌||◌, ◌&&◌,
  not, ltb, if◌then◌else◌, UserId, Moment, first, where_all, order_by, slice, length, Result, ok,
  err, ℤ,
}
use order_run_be.Errors.{Error, api, AppError}
use order_run_be.Models.User.{User}
use order_run_be.Models.Proposal
use order_run_be.Models.Proposal.{Proposal, ProposalStatus}
use order_run_be.Models.Offer
use order_run_be.Models.Offer.{Offer, OfferStatus}
use order_run_be.Pages.{PageResponse, of}
use order_run_be.Profiles.{Profiles, user_profiles, profile, one_of}
use order_run_be.Db.{Db, Tx, found, raise_when, find_proposal}

-- `PUBLIC_PROPOSAL_STATUSES`
abbrev pub public_proposal_statuses : List ProposalStatus
public_proposal_statuses = ProposalStatus.posted ∷ ProposalStatus.offered ∷ []

-- `EXECUTION_OFFER_STATUSES`
abbrev pub execution_offer_statuses : List OfferStatus
execution_offer_statuses =
    OfferStatus.accepted ∷ OfferStatus.runner_completed ∷ OfferStatus.all_completed
    ∷ OfferStatus.disputed ∷ []

-- `OPEN_CHAT_PROPOSAL_STATUSES`
abbrev pub open_chat_proposal_statuses : List ProposalStatus
open_chat_proposal_statuses =
    ProposalStatus.matched ∷ ProposalStatus.order_completed ∷ ProposalStatus.all_completed
    ∷ ProposalStatus.disputed ∷ ProposalStatus.resolved ∷ []

-- `OPEN_CHAT_OFFER_STATUSES`
abbrev pub open_chat_offer_statuses : List OfferStatus
open_chat_offer_statuses =
    OfferStatus.accepted ∷ OfferStatus.runner_completed ∷ OfferStatus.all_completed
    ∷ OfferStatus.disputed ∷ OfferStatus.resolved ∷ []

-- `_get_existing_user`
abbrev pub get_existing_user : UserId → Tx User
get_existing_user user_id =
    found (λ db. first (λ u. u.id == user_id && not u.deleted) db.users) AppError.user_not_found

-- `_get_proposal`
abbrev pub get_proposal : ℕ → Tx Proposal
get_proposal proposal_id = found (find_proposal proposal_id) AppError.proposal_not_found

-- `_ensure_owner`
abbrev pub ensure_owner : Proposal → UserId → Tx (Unit {0})
ensure_owner proposal user_id = raise_when (not (proposal.orderer_id == user_id)) AppError.forbidden

-- Whether a nullable column of the first row sorts before that of the second in a descending
-- order; NULL comes last.
abbrev pub later : Option Moment → Option Moment → Bool
later (some a) (some b) = ltb b a
later (some a) none = true
later none b = false

-- `order_by(Offer.accepted_at.desc(), Offer.id.desc())`
abbrev pub latest_accepted : Offer → Offer → Bool
latest_accepted a b =
    later a.accepted_at b.accepted_at || (not (later b.accepted_at a.accepted_at) && ltb b.id a.id)

-- `order_by(Offer.created_at.desc(), Offer.id.desc())`
abbrev pub latest_created : Offer → Offer → Bool
latest_created a b =
    ltb b.created_at a.created_at || (a.created_at == b.created_at && ltb b.id a.id)

-- `order_by(Proposal.deadline.asc(), Proposal.created_at.desc(), Proposal.id.desc())`
abbrev pub earliest_deadline : Proposal → Proposal → Bool
earliest_deadline a b =
    ltb a.deadline b.deadline
    || (a.deadline == b.deadline
        && (ltb b.created_at a.created_at || (a.created_at == b.created_at && ltb b.id a.id)))

abbrev pub is_execution_offer : ℕ → Offer → Bool
is_execution_offer proposal_id o =
    o.proposal_id == proposal_id && Offer.is_in execution_offer_statuses o.status

-- The first row of an ordered query.
abbrev pub head? : {A : Type 0} → List A → Option A
head? [] = none
head? (x ∷ xs) = some x

unfoldable pub execution_offer : ℕ → Db → Option Offer
execution_offer proposal_id db =
    head? (order_by latest_accepted (where_all (is_execution_offer proposal_id) db.offers.rows))

-- `_get_execution_offer`
abbrev pub get_execution_offer : ℕ → Tx Offer
get_execution_offer proposal_id = found (execution_offer proposal_id) AppError.offer_not_found

-- An optional filter by status: no list and the empty list let every row through.
abbrev pub status_filter : List ProposalStatus → Proposal → Bool
status_filter [] p = true
status_filter (s ∷ ss) p = Proposal.is_in (s ∷ ss) p.status

unfoldable pub public_matches : List ProposalStatus → Db → List Proposal
public_matches statuses db =
    where_all (status_filter statuses)
      (where_all (λ p. Proposal.is_in public_proposal_statuses p.status) db.proposals.rows)

unfoldable pub search_proposals : List ProposalStatus → ℕ → ℕ → Db → PageResponse Proposal
unfolding public_matches of
search_proposals statuses page size db =
    let matches = public_matches statuses db in
    of (slice (page * size) size (order_by earliest_deadline matches)) page size (length matches)

-- `ProposalOwnOfferResponse`
pub record ProposalOwnOfferResponse : Type 0 where
  pub id : ℕ
  pub proposal_id : ℕ
  pub runner_id : UserId
  pub runner_name : String
  pub runner_level : ℕ
  pub status : OfferStatus
  pub created_at : Moment

unfoldable pub own_offer_response : Profiles → Offer → ProposalOwnOfferResponse
own_offer_response profiles o = record {
  id = o.id;
  proposal_id = o.proposal_id;
  runner_id = o.runner_id;
  runner_name = (profile profiles o.runner_id).0;
  runner_level = (profile profiles o.runner_id).1;
  status = o.status;
  created_at = o.created_at;
}

-- `ProposalDetailResponse`
pub record ProposalDetailResponse : Type 0 where
  pub id : ℕ
  pub title : String
  pub content : String
  pub deadline : Moment
  pub errand_fee : ℤ
  pub orderer_id : UserId
  pub orderer_name : String
  pub orderer_level : ℕ
  pub status : ProposalStatus
  pub matched_at : Option Moment
  pub runner_confirmed_at : Option Moment
  pub orderer_confirmed_at : Option Moment
  pub disputed_at : Option Moment
  pub resolved_at : Option Moment
  pub open_chat_url : Option String
  pub offers : List ProposalOwnOfferResponse

-- `next((offer for offer in offers if …), None)` and the test before the chat link is shown.
abbrev pub chat_link : Proposal → UserId → Option Offer → Option String
chat_link proposal viewer_id none = none
chat_link proposal viewer_id (some o) =
    if Proposal.is_in open_chat_proposal_statuses proposal.status
      && one_of viewer_id (proposal.orderer_id ∷ o.runner_id ∷ [])
    then o.open_chat_url
    else none

abbrev pub offers_of : ℕ → Db → List Offer
offers_of proposal_id db =
    order_by latest_created (where_all (λ o. o.proposal_id == proposal_id) db.offers.rows)

-- The response that `get_proposal_detail` makes of a proposal that was found.
unfoldable pub detail_of : Proposal → UserId → Db → ProposalDetailResponse
unfolding own_offer_response
detail_of proposal viewer_id db =
    let offers = offers_of proposal.id db in
    let profiles = user_profiles db (proposal.orderer_id ∷ map (λ o. o.runner_id) offers) in
    let chat_offer = first (λ o. Offer.is_in open_chat_offer_statuses o.status) offers in
    record {
      id = proposal.id;
      title = proposal.title;
      content = proposal.content;
      deadline = proposal.deadline;
      errand_fee = proposal.errand_fee;
      orderer_id = proposal.orderer_id;
      orderer_name = (profile profiles proposal.orderer_id).0;
      orderer_level = (profile profiles proposal.orderer_id).1;
      status = proposal.status;
      matched_at = proposal.matched_at;
      runner_confirmed_at = proposal.runner_confirmed_at;
      orderer_confirmed_at = proposal.orderer_confirmed_at;
      disputed_at = proposal.disputed_at;
      resolved_at = proposal.resolved_at;
      open_chat_url = chat_link proposal viewer_id chat_offer;
      offers = map (own_offer_response profiles) offers;
    }

unfoldable pub get_proposal_detail : ℕ → UserId → Db → Result Error ProposalDetailResponse
unfolding detail_of
get_proposal_detail proposal_id viewer_id db = elim (find_proposal proposal_id db) [
  | none ↦ err (api AppError.proposal_not_found)
  | some proposal ↦ ok (detail_of proposal viewer_id db)
]

-- `ProposalOwnResponse`
pub record ProposalOwnResponse : Type 0 where
  pub id : ℕ
  pub orderer_id : UserId
  pub orderer_name : String
  pub orderer_level : ℕ
  pub title : String
  pub content : String
  pub deadline : Moment
  pub errand_fee : ℤ
  pub status : ProposalStatus
  pub offer_count : ℕ
  pub offers : List ProposalOwnOfferResponse
  pub created_at : Moment

-- One query fetches the offers of all the proposals of the page; each proposal takes its own.
unfoldable pub own_response : Profiles → List Offer → Proposal → ProposalOwnResponse
unfolding own_offer_response
own_response profiles offers p =
    let mine = where_all (λ o. o.proposal_id == p.id) offers in
    record {
      id = p.id;
      orderer_id = p.orderer_id;
      orderer_name = (profile profiles p.orderer_id).0;
      orderer_level = (profile profiles p.orderer_id).1;
      title = p.title;
      content = p.content;
      deadline = p.deadline;
      errand_fee = p.errand_fee;
      status = p.status;
      offer_count = length mine;
      offers = map (own_offer_response profiles) mine;
      created_at = p.created_at;
    }

unfoldable pub search_owner_proposals :
    UserId → List ProposalStatus → ℕ → ℕ → Db → PageResponse ProposalOwnResponse
unfolding own_response of
search_owner_proposals user_id statuses page size db =
    let matches =
      where_all (status_filter statuses)
        (where_all (λ p. p.orderer_id == user_id) db.proposals.rows) in
    let proposals = slice (page * size) size (order_by earliest_deadline matches) in
    let proposal_ids = map (λ (p : Proposal). p.id) proposals in
    let offers =
      order_by latest_created (where_all (λ o. one_of o.proposal_id proposal_ids) db.offers.rows) in
    let profiles =
      user_profiles db (
        map (λ (p : Proposal). p.orderer_id) proposals
        ++ map (λ (o : Offer). o.runner_id) offers) in
    of (map (own_response profiles offers) proposals) page size (length matches)
