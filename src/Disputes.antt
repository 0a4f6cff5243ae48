-- ===== src/Disputes.antt =====
-- The dispute survey and dispute evidence services (app/services/dispute).
use order_run_be.Base.{
  ℕ, Bool, List, Option, none, some, ◌==◌, ◌||◌, ◌&&◌, ltb, if◌then◌else◌, UserId, first, where_all,
  order_by, Result, ok, err, [], ◌∷◌,
}
use order_run_be.Errors.{Error, api, AppError}
use order_run_be.Models.Dispute.{
  DisputeSurveyTargetType, is_target, DisputeSurveyQuestion, DisputeEvidence,
}
use order_run_be.Profiles.{one_of}
use order_run_be.Db.{Db, Tx, found, find_proposal, find_offer}
use order_run_be.Proposals.Queries.{head?}

-- `order_by(DisputeSurveyQuestion.display_order.asc(), DisputeSurveyQuestion.id.asc())`
abbrev pub displayed_first : DisputeSurveyQuestion → DisputeSurveyQuestion → Bool
displayed_first a b =
    ltb a.display_order b.display_order || (a.display_order == b.display_order && ltb a.id b.id)

unfoldable pub list_questions : DisputeSurveyTargetType → Db → List DisputeSurveyQuestion
list_questions target_type db =
    order_by displayed_first
      (where_all (λ q. is_target q.target_type target_type && q.is_active) db.survey_questions)

abbrev pub is_active_question : ℕ → DisputeSurveyTargetType → DisputeSurveyQuestion → Bool
is_active_question question_id target_type q =
    q.id == question_id && (is_target q.target_type target_type && q.is_active)

-- The key is unique, so `one_or_none()` is the first row that passes.
abbrev pub ensure_active_question : ℕ → DisputeSurveyTargetType → Tx DisputeSurveyQuestion
ensure_active_question question_id target_type =
    found (λ db. first (is_active_question question_id target_type) db.survey_questions)
      AppError.validation_error

-- `_ensure_participant`: the join of the evidence's proposal with its offer has one row or none.
unfoldable pub ensure_participant : DisputeEvidence → UserId → Db → Result Error (Unit {0})
ensure_participant evidence viewer_id db = elim (find_offer evidence.offer_id db) [
  | none ↦ err (api AppError.dispute_evidence_not_found)
  | some offer ↦ elim (find_proposal evidence.proposal_id db) [
    | none ↦ err (api AppError.dispute_evidence_not_found)
    | some proposal ↦
        if one_of viewer_id (proposal.orderer_id ∷ offer.runner_id ∷ [])
        then ok tt
        else err (api AppError.forbidden)
  ]
]

-- `order_by(DisputeEvidence.created_at.desc(), DisputeEvidence.id.desc())`
abbrev pub latest_evidence : DisputeEvidence → DisputeEvidence → Bool
latest_evidence a b =
    ltb b.created_at a.created_at || (a.created_at == b.created_at && ltb b.id a.id)

-- What both queries do with the evidence that they have found.
unfoldable pub show_evidence : Option DisputeEvidence → UserId → Db → Result Error DisputeEvidence
unfolding ensure_participant
show_evidence none viewer_id db = err (api AppError.dispute_evidence_not_found)
show_evidence (some evidence) viewer_id db = elim (ensure_participant evidence viewer_id db) [
  | ok _ ↦ ok evidence
  | err e ↦ err e
]

unfoldable pub get_by_proposal_id : ℕ → UserId → Db → Result Error DisputeEvidence
unfolding show_evidence
get_by_proposal_id proposal_id viewer_id db =
    let evidences = where_all (λ e. e.proposal_id == proposal_id) db.evidences.rows in
    show_evidence (head? (order_by latest_evidence evidences)) viewer_id db

unfoldable pub get_by_offer_id : ℕ → UserId → Db → Result Error DisputeEvidence
unfolding show_evidence
get_by_offer_id offer_id viewer_id db =
    let evidences = where_all (λ e. e.offer_id == offer_id) db.evidences.rows in
    show_evidence (head? (order_by latest_evidence evidences)) viewer_id db
