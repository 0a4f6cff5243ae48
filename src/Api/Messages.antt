-- ===== src/Api/Messages.antt =====
-- The routes of notifications and disputes (app/api/v1/notification/notification_router.py,
-- app/api/v1/dispute/dispute_evidence_router.py, app/api/v1/dispute/dispute_survey_router.py).
use order_run_be.Base.{ℕ, Bool, true, List, Option, none, some, ltb, err, UserId, Result}
use order_run_be.Errors.{Error, api, AppError}
use order_run_be.Models.Notification.{Notification}
use order_run_be.Models.Dispute.{DisputeSurveyTargetType, DisputeSurveyQuestion, DisputeEvidence}
use order_run_be.Inbox
use order_run_be.Inbox.{
  NotificationListResponse, NotificationStatsResponse, NotificationSendRequest,
}
use order_run_be.Disputes
use order_run_be.Schemas.Errands.{mark_read_request, send_request, is_page}
use order_run_be.Api.{App, Visit, Route, Response, success, crash, reply, secured, given, require}
use order_run_be.Db.{Db, query}

module _ (app : App) (visit : Visit) where
  unfoldable pub list_notifications : ℕ → ℕ → Bool → Route NotificationListResponse
  list_notifications page page_size unread_only = secured app visit λ user.
      require (is_page 1 page page_size) λ db. (
        success 200 (some (Inbox.list_notifications user.id page page_size unread_only db))
            (some "Success"),
        db,
      )

  unfoldable pub get_notification_stats : Route NotificationStatsResponse
  get_notification_stats =
      secured app visit λ user db.
        (success 200 (some (Inbox.get_notification_stats user.id db)) (some "Success"), db)

  unfoldable pub get_notification : ℕ → Route Notification
  get_notification notification_id = secured app visit λ user db.
      reply 200 (some "Success") (query (Inbox.get_notification user.id notification_id) db)

  -- The message repeats the count that is the data, and is left out.
  unfoldable pub mark_notifications_read : List ℕ → Route ℕ
  mark_notifications_read body = secured app visit λ user.
      given (mark_read_request body)
        λ ids db. reply 200 none (Inbox.mark_notifications_read (visit.clock 1) user.id ids db)

  -- After an exception the session is closed without a commit.
  abbrev pub sent : Db → Option (Notification × Db) → Response Notification × Db
  sent db none = (crash, db)
  sent db (some (row, db')) = (success 201 (some row) (some "Success"), db')

  unfoldable pub send_notification : NotificationSendRequest → Route Notification
  send_notification body = secured app visit λ user. given (send_request body) λ r db. sent db (
      Inbox.send_custom_notification visit.round.0 (λ i. visit.clock 1) (λ i. visit.clock 2) user.id
        r db)

  -- Exactly one of the two ids
  abbrev pub evidence_of : Option ℕ → Option ℕ → UserId → Db → Result Error DisputeEvidence
  evidence_of (some proposal_id) none viewer_id db =
      Disputes.get_by_proposal_id proposal_id viewer_id db
  evidence_of none (some offer_id) viewer_id db = Disputes.get_by_offer_id offer_id viewer_id db
  evidence_of _ _ viewer_id db = err (api AppError.validation_error)

  abbrev pub is_key : Option ℕ → Bool
  is_key none = true
  is_key (some i) = ltb 0 i

  unfoldable pub get_dispute_evidence : Option ℕ → Option ℕ → Route DisputeEvidence
  get_dispute_evidence proposal_id offer_id = secured app visit λ user.
      require (is_key proposal_id) (
        require (is_key offer_id)
          λ db. reply 200 (some "Success") (query (evidence_of proposal_id offer_id user.id) db))

  unfoldable pub list_dispute_survey_questions :
      DisputeSurveyTargetType → Route (List DisputeSurveyQuestion)
  list_dispute_survey_questions target_type =
      secured app visit λ user db.
        (success 200 (some (Disputes.list_questions target_type db)) (some "Success"), db)
