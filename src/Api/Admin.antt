-- ===== src/Api/Admin.antt =====
-- The administrator's routes (app/api/v1/admin/admin_router.py). They ask for no token.
use order_run_be.Base.{ℕ, Option, none, some, List, where_all, slice}
use order_run_be.Models.Proposal
use order_run_be.Models.Proposal.{Proposal, ProposalStatus}
use order_run_be.Models.Report.{ProposalReportStatus}
use order_run_be.Pages.{PageResponse}
use order_run_be.Proposals.Commands as Drafts
use order_run_be.Offers.Queries.{OfferResponse}
use order_run_be.Offers.Execution as Runner
use order_run_be.Reports
use order_run_be.Reports.{ProposalReportResponse}
use order_run_be.Schemas.Errands.{is_page}
use order_run_be.Api.{Visit, Route, success, reply, require}

module _ (visit : Visit) where
  unfoldable pub list_proposal_reports :
      Option ProposalReportStatus → ℕ → ℕ → Route (PageResponse ProposalReportResponse)
  list_proposal_reports report_status page size =
      require (is_page 0 page size)
        λ db. (success 200 (some (Reports.list_reports report_status page size db)) none, db)

  unfoldable pub accept_proposal_report : ℕ → Route ProposalReportResponse
  accept_proposal_report report_id db =
      reply 200 (some "신고가 승인되었습니다.") (Reports.accept (visit.clock 0) report_id db)

  unfoldable pub reject_proposal_report : ℕ → Route ProposalReportResponse
  reject_proposal_report report_id db =
      reply 200 (some "신고가 반려되었습니다.") (Reports.reject (visit.clock 0) report_id db)

  unfoldable pub confirm_payment : ℕ → Route Proposal
  confirm_payment proposal_id db = reply 200 none (Drafts.confirm_payment proposal_id db)

  unfoldable pub list_pending_payment_proposals : ℕ → ℕ → Route (List Proposal)
  list_pending_payment_proposals skip limit db = (
    success 200
        (some (
          slice skip limit
            (where_all (λ p. Proposal.is p.status ProposalStatus.holding) db.proposals.rows)))
        none,
    db,
  )

  unfoldable pub resolve_offer : ℕ → Route OfferResponse
  resolve_offer offer_id db =
      reply 200 (some "제안 분쟁이 해결되었습니다.")
        (Runner.resolve (visit.clock 0) (visit.clock 1) offer_id db)
