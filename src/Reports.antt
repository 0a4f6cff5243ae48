-- ===== src/Reports.antt =====
-- The report service: reports on public proposals and their moderation
-- (app/services/proposal/proposal_report_service.py). The last moment of `create`, `flushed`,
-- stamps the row that the call inserts.
use order_run_be.Base.{
  ℕ, ◌*◌, Bool, true, String, List, [], ◌∷◌, ◌++◌, map, Option, none, some, ◌==◌, ◌||◌, ◌&&◌, not,
  ltb, if◌then◌else◌, UserId, Moment, first, where_all, update_where, order_by, slice, length,
  is_some, Result, ok, err,
}
use order_run_be.Errors.{Error, no_result, AppError}
use order_run_be.Models.Proposal
use order_run_be.Models.Proposal.{Proposal, ProposalStatus}
use order_run_be.Models.Report
use order_run_be.Models.Report.{ProposalReport, ProposalReportStatus, ProposalReportReasonQuestion}
use order_run_be.Pages.{PageResponse, of}
use order_run_be.Db.{
  Db, Tx, found, raise_when, ◌>>=◌, ◌>>◌, pure, gets, modify, add_row, set_rows, Request, commit,
  answer, save_proposal,
}
use order_run_be.Proposals.Queries.{get_proposal}
use order_run_be.Proposals.Commands.{reject_waiting}

-- `REPORTABLE_PROPOSAL_STATUSES`
abbrev pub reportable_proposal_statuses : List ProposalStatus
reportable_proposal_statuses = ProposalStatus.posted ∷ ProposalStatus.offered ∷ []

-- `order_by(…display_order.asc(), …id.asc())`
abbrev pub displayed_first : ProposalReportReasonQuestion → ProposalReportReasonQuestion → Bool
displayed_first a b =
    ltb a.display_order b.display_order || (a.display_order == b.display_order && ltb a.id b.id)

unfoldable pub list_reason_questions : Db → List ProposalReportReasonQuestion
list_reason_questions db =
    order_by displayed_first (where_all (λ q. q.is_active) db.reason_questions)

-- `_get_active_reason_question`; the key is unique, so `one_or_none()` is the first row.
abbrev pub get_active_reason_question : ℕ → Tx ProposalReportReasonQuestion
get_active_reason_question question_id =
    found (λ db. first (λ q. q.id == question_id && q.is_active) db.reason_questions)
      AppError.validation_error

-- `ProposalReportResponse`
pub record ProposalReportResponse : Type 0 where
  pub id : ℕ
  pub proposal_id : ℕ
  pub reporter_id : UserId
  pub reason_question_id : ℕ
  pub reason_question_text : String
  pub detail_reason : Option String
  pub status : ProposalReportStatus
  pub created_at : Moment
  pub reviewed_at : Option Moment

abbrev pub to_response : ProposalReport → String → ProposalReportResponse
to_response report question_text = record {
  id = report.id;
  proposal_id = report.proposal_id;
  reporter_id = report.reporter_id;
  reason_question_id = report.reason_question_id;
  reason_question_text = question_text;
  detail_reason = report.detail_reason;
  status = report.status;
  created_at = report.created_at;
  reviewed_at = report.reviewed_at;
}

-- The pair of columns under the constraint `uk_proposal_reports_proposal_reporter`
abbrev pub is_report_of : ℕ → UserId → ProposalReport → Bool
is_report_of proposal_id reporter_id r =
    r.proposal_id == proposal_id && r.reporter_id == reporter_id

-- `ProposalReport(…, status=PENDING)`
abbrev pub new_report : ℕ → UserId → ℕ → Option String → Moment → ℕ → ProposalReport
new_report proposal_id reporter_id reason_question_id detail_reason created_at id = record {
  id = id;
  proposal_id = proposal_id;
  reporter_id = reporter_id;
  reason_question_id = reason_question_id;
  detail_reason = detail_reason;
  status = ProposalReportStatus.pending;
  created_at = created_at;
  reviewed_at = none;
}

-- `create` up to its commit, whose `IntegrityError` becomes `DUPLICATE_PROPOSAL_REPORT`: the report
-- and the text of its question
unfoldable pub create_work : Moment → ℕ → UserId → ℕ → Option String → Tx (ProposalReport × String)
create_work flushed proposal_id reporter_id reason_question_id detail_reason = do
  proposal ← get_proposal proposal_id
  raise_when (proposal.orderer_id == reporter_id) AppError.proposal_self_report_not_allowed
  raise_when (not (Proposal.is_in reportable_proposal_statuses proposal.status))
      AppError.proposal_not_reportable
  question ← get_active_reason_question reason_question_id
  existing ← gets (λ db. first (is_report_of proposal.id reporter_id) db.reports.rows)
  raise_when (is_some existing) AppError.duplicate_proposal_report
  id ← gets (λ db. db.reports.next)
  modify (λ db. record db {
    reports =
        add_row (new_report proposal.id reporter_id question.id detail_reason flushed) db.reports;
  })
  pure (
    new_report proposal.id reporter_id question.id detail_reason flushed id,
    question.question_text,
  )

unfoldable pub create : Moment → ℕ → UserId → ℕ → Option String → Request ProposalReportResponse
create flushed proposal_id reporter_id reason_question_id detail_reason =
    answer (commit (create_work flushed proposal_id reporter_id reason_question_id detail_reason))
      (λ made db. ok (to_response made.0 made.1))

-- The rows of the join of a report with its reason question
abbrev pub joined :
    List ProposalReportReasonQuestion → List ProposalReport → List ProposalReportResponse
joined qs [] = []
joined qs (r ∷ rs) =
    map (λ q. to_response r q.question_text) (where_all (λ q. q.id == r.reason_question_id) qs)
    ++ joined qs rs

abbrev pub has_status : Option ProposalReportStatus → ProposalReportResponse → Bool
has_status none r = true
has_status (some s) r = Report.is r.status s

-- `order_by(ProposalReport.created_at.asc(), ProposalReport.id.asc())`
abbrev pub earliest_report : ProposalReportResponse → ProposalReportResponse → Bool
earliest_report a b =
    ltb a.created_at b.created_at || (a.created_at == b.created_at && ltb a.id b.id)

unfoldable pub list_reports :
    Option ProposalReportStatus → ℕ → ℕ → Db → PageResponse ProposalReportResponse
unfolding of
list_reports report_status page size db =
    let rows = where_all (has_status report_status) (joined db.reason_questions db.reports.rows) in
    of (slice (page * size) size (order_by earliest_report rows)) page size (length rows)

abbrev pub find_report : ℕ → Db → Option ProposalReport
find_report i db = first (λ r. r.id == i) db.reports.rows

-- `_get_report`
abbrev pub get_report : ℕ → Tx ProposalReport
get_report report_id = found (find_report report_id) AppError.proposal_report_not_found

-- `_ensure_pending`
abbrev pub ensure_pending : ProposalReport → Tx (Unit {0})
ensure_pending report =
    raise_when (not (Report.is report.status ProposalReportStatus.pending))
      AppError.proposal_report_not_reviewable

abbrev pub save_report : ProposalReport → Db → Db
save_report r db = record db {
  reports = set_rows (update_where (λ q. q.id == r.id) (λ _. r) db.reports.rows) db.reports;
}

-- The block under `if proposal.status in REPORTABLE_PROPOSAL_STATUSES`
abbrev pub close_reported : Proposal → Db → Db
close_reported proposal db =
    if Proposal.is_in reportable_proposal_statuses proposal.status
    then reject_waiting proposal.id
        (save_proposal (record proposal { status = ProposalStatus.reported }) db)
    else db

-- `accept` up to its commit
unfoldable pub accept_work : Moment → ℕ → Tx ProposalReport
accept_work now report_id = do
  report ← get_report report_id
  ensure_pending report
  proposal ← get_proposal report.proposal_id
  raise_when
      (not
        (Proposal.is_in (ProposalStatus.reported ∷ reportable_proposal_statuses) proposal.status))
      AppError.proposal_not_reportable
  modify (close_reported proposal)
  let report' = record report { status = ProposalReportStatus.accepted; reviewed_at = some now }
  modify (save_report report')
  pure report'

-- `reject` up to its commit
unfoldable pub reject_work : Moment → ℕ → Tx ProposalReport
reject_work now report_id = do
  report ← get_report report_id
  ensure_pending report
  let report' = record report { status = ProposalReportStatus.rejected; reviewed_at = some now }
  modify (save_report report')
  pure report'

-- The response after the commit: `.one()` raises where the question is gone.
unfoldable pub show_report : ProposalReport → Db → Result Error ProposalReportResponse
show_report report db = elim (first (λ q. q.id == report.reason_question_id) db.reason_questions) [
  | none ↦ err no_result
  | some question ↦ ok (to_response report question.question_text)
]

unfoldable pub accept : Moment → ℕ → Request ProposalReportResponse
accept now report_id = answer (commit (accept_work now report_id)) show_report

unfoldable pub reject : Moment → ℕ → Request ProposalReportResponse
reject now report_id = answer (commit (reject_work now report_id)) show_report
