-- ===== src/Models/Dispute.antt =====
-- Survey questions and dispute evidence (app/models/dispute_survey.py, dispute_evidence.py).
use order_run_be.Base.{ℕ, String, Bool, true, false, UserId, Moment}

-- `DisputeSurveyTargetType`
pub data DisputeSurveyTargetType : Type 0 where
  order runner : DisputeSurveyTargetType

abbrev pub is_target : DisputeSurveyTargetType → DisputeSurveyTargetType → Bool
is_target order order = true
is_target runner runner = true
is_target _ _ = false

-- The columns of `class DisputeSurveyQuestion`
pub record DisputeSurveyQuestion : Type 0 where
  pub id : ℕ
  pub target_type : DisputeSurveyTargetType
  pub question_text : String
  pub display_order : ℕ
  pub is_active : Bool

-- The columns of `class DisputeEvidence`
pub record DisputeEvidence : Type 0 where
  pub id : ℕ
  pub proposal_id : ℕ
  pub offer_id : ℕ
  pub actor_id : UserId
  pub reason : String
  pub survey_question_id : ℕ
  pub created_at : Moment
