-- ===== src/Api/Errands.antt =====
-- The routes of proposals and offers (app/api/v1/proposal/proposal_router.py,
-- app/api/v1/proposal/proposal_report_router.py, app/api/v1/offer/offer_router.py).
use order_run_be.Base.{ℕ, List, none, some, ltb, ok, err, Result}
use order_run_be.Errors.{Error}
use order_run_be.Models.Proposal.{Proposal, ProposalStatus}
use order_run_be.Models.Offer.{OfferStatus}
use order_run_be.Models.Report.{ProposalReportReasonQuestion}
use order_run_be.Pages.{PageResponse}
use order_run_be.Proposals.Queries as Proposals
use order_run_be.Proposals.Queries.{ProposalDetailResponse, ProposalOwnResponse}
use order_run_be.Proposals.Commands as Drafts
use order_run_be.Proposals.Execution as Orderer
use order_run_be.Offers.Queries as Offers
use order_run_be.Offers.Queries.{OfferResponse, OfferDetailResponse}
use order_run_be.Offers.Commands as Bids
use order_run_be.Offers.Commands.{OfferAcceptResponse}
use order_run_be.Offers.Execution as Runner
use order_run_be.Reports
use order_run_be.Reports.{ProposalReportResponse}
use order_run_be.Schemas.Errands.{
  ProposalBody, ReportBody, DisputeBody, proposal_request, offer_create, report_request,
  dispute_request, is_page,
}
use order_run_be.Api.{
  App, Visit, Route, Response, success, error_response, reply, reply_empty, secured, given, checked,
  require, flushing,
}
use order_run_be.Db.{Db, query, find_proposal}

-- A list of statuses that the query does not name is empty.
module _ (app : App) (visit : Visit) where
  unfoldable pub list_proposals : List ProposalStatus → ℕ → ℕ → Route (PageResponse Proposal)
  list_proposals statuses page size = secured app visit λ user.
      require (is_page 0 page size)
        λ db. (success 200 (some (Proposals.search_proposals statuses page size db)) none, db)

  unfoldable pub list_own_proposals :
      List ProposalStatus → ℕ → ℕ → Route (PageResponse ProposalOwnResponse)
  list_own_proposals statuses page size = secured app visit λ user.
      require (is_page 0 page size) λ db. (
        success 200 (some (Proposals.search_owner_proposals user.id statuses page size db)) none,
        db,
      )

  unfoldable pub get_proposal : ℕ → Route ProposalDetailResponse
  get_proposal proposal_id =
      secured app visit
        λ user db. reply 200 none (query (Proposals.get_proposal_detail proposal_id user.id) db)

  unfoldable pub create_proposal_report : ℕ → ReportBody → Route ProposalReportResponse
  create_proposal_report proposal_id body = secured app visit λ user.
      given (report_request body) λ r db.
        reply 201 (some "신고가 접수되었습니다.") (
          Reports.create (visit.clock 1) proposal_id user.id r.reason_question_id r.detail_reason
            db)

  -- The new row is the data.
  abbrev pub created : Result Error ℕ × Db → Response Proposal × Db
  created (ok id, db) = (success 201 (find_proposal id db) (some "요청이 등록되었습니다."), db)
  created (err e, db) = (error_response e, db)

  unfoldable pub create_proposal : ProposalBody → Route Proposal
  create_proposal body = secured app visit λ user.
      checked (proposal_request body)
        λ r db. created (Drafts.create (visit.clock 1) (visit.clock 2) r user.id db)

  unfoldable pub update_proposal : ℕ → ProposalBody → Route Proposal
  update_proposal proposal_id body = secured app visit λ user.
      checked (proposal_request body) λ r db.
        reply 200 (some "제안이 수정되었습니다.") (Drafts.update (visit.clock 1) proposal_id r user.id db)

  unfoldable pub cancel_proposal : ℕ → Route Proposal
  cancel_proposal proposal_id =
      secured app visit
        λ user db. reply 200 (some "제안이 취소되었습니다.") (Drafts.cancel proposal_id user.id db)

  -- No task for the notifications is added here.
  unfoldable pub confirm_received : ℕ → Route ProposalDetailResponse
  confirm_received proposal_id = secured app visit λ user db. reply 200 (some "완료 확인되었습니다.") (
      Orderer.confirm_received (visit.clock 1) (visit.clock 2) (visit.clock 3) proposal_id user.id
        db)

  unfoldable pub raise_proposal_dispute : ℕ → DisputeBody → Route ProposalDetailResponse
  raise_proposal_dispute proposal_id body = secured app visit λ user.
      given (dispute_request body) λ r db. flushing visit.round (
        reply 200 (some "분쟁이 접수되었습니다.") (
          Orderer.raise_dispute (visit.clock 1) (visit.clock 2) (visit.clock 3) proposal_id user.id
            r.survey_question_id r.dispute_reason db))

  unfoldable pub list_proposal_report_reasons : Route (List ProposalReportReasonQuestion)
  list_proposal_report_reasons =
      secured app visit
        λ user db. (success 200 (some (Reports.list_reason_questions db)) (some "Success"), db)

  unfoldable pub create_offer : ℕ → Route OfferResponse
  create_offer body = secured app visit λ user. given (offer_create body) λ proposal_id db.
      flushing visit.round
        (reply 201 (some "제안이 제출되었습니다.") (Bids.create (visit.clock 1) proposal_id user.id db))

  unfoldable pub get_own_offers : List OfferStatus → ℕ → ℕ → Route (PageResponse OfferResponse)
  get_own_offers statuses page size = secured app visit λ user. require (is_page 0 page size) λ db.
      reply 200 (some "Success") (query (Offers.search_runner_offers user.id statuses page size) db)

  unfoldable pub get_offers : ℕ → List OfferStatus → Route (List OfferResponse)
  get_offers proposal_id statuses = secured app visit λ user. require (ltb 0 proposal_id) λ db.
      reply 200 (some "Success") (query (Offers.find_offers_by_proposal proposal_id statuses) db)

  unfoldable pub get_offer : ℕ → Route OfferDetailResponse
  get_offer id =
      secured app visit
        λ user db. reply 200 (some "Success") (query (Offers.get_offer_detail id user.id) db)

  unfoldable pub accept_offer : ℕ → Route OfferAcceptResponse
  accept_offer offer_id = secured app visit λ user db. flushing visit.round (
      reply 201 (some "제안이 수락되었습니다.")
        (Bids.accept (visit.clock 1) (visit.clock 2) offer_id user.id db))

  unfoldable pub complete_delivery : ℕ → Route OfferResponse
  complete_delivery offer_id = secured app visit λ user db. flushing visit.round (
      reply 200 (some "완료 처리되었습니다.") (
        Runner.complete_delivery (visit.clock 1) (visit.clock 2) (visit.clock 3) (visit.clock 4)
          offer_id user.id db))

  unfoldable pub raise_offer_dispute : ℕ → DisputeBody → Route OfferResponse
  raise_offer_dispute offer_id body = secured app visit λ user. given (dispute_request body) λ r db.
      flushing visit.round (
        reply 200 (some "분쟁이 접수되었습니다.") (
          Runner.raise_dispute (visit.clock 1) (visit.clock 2) (visit.clock 3) offer_id user.id
            r.survey_question_id r.dispute_reason db))

  unfoldable pub cancel_offer : ℕ → Route (Unit {0})
  cancel_offer offer_id =
      secured app visit λ user db. reply_empty 204 none (Bids.cancel offer_id user.id db)
