-- ===== src/Models/Report.antt =====
-- Proposal reports and their reason questions (app/models/proposal_report.py).
use order_run_be.Base.{ℕ, String, Bool, Option, ◌==◌, UserId, Moment}

-- `ProposalReportStatus`
pub data ProposalReportStatus : Type 0 where
  pending accepted rejected : ProposalReportStatus

abbrev pub rank : ProposalReportStatus → ℕ
rank pending = 0
rank accepted = 1
rank rejected = 2

abbrev pub is : ProposalReportStatus → ProposalReportStatus → Bool
is a b = rank a == rank b

-- The columns of `class ProposalReportReasonQuestion`
pub record ProposalReportReasonQuestion : Type 0 where
  pub id : ℕ
  pub question_text : String
  pub display_order : ℕ
  pub is_active : Bool

-- The columns of `class ProposalReport`
pub record ProposalReport : Type 0 where
  pub id : ℕ
  pub proposal_id : ℕ
  pub reporter_id : UserId
  pub reason_question_id : ℕ
  pub detail_reason : Option String
  pub status : ProposalReportStatus
  pub created_at : Moment
  pub reviewed_at : Option Moment
