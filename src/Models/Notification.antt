-- ===== src/Models/Notification.antt =====
-- The notification row (app/models/notification.py).
use order_run_be.Base.{ℕ, String, Bool, List, Option, ◌==◌, UserId, Moment}

-- `NotificationType`
pub data NotificationType : Type 0 where
  proposal_new proposal_matched proposal_cancelled offer_new offer_accepted offer_rejected
        execution_started execution_completed payment_completed payment_failed system_announcement
        custom offer_submitted meeting_confirmed dispute_raised :
      NotificationType

-- `NotificationStatus`
pub data NotificationStatus : Type 0 where
  pending sent delivered failed read : NotificationStatus

abbrev pub rank : NotificationStatus → ℕ
rank pending = 0
rank sent = 1
rank delivered = 2
rank failed = 3
rank read = 4

abbrev pub is : NotificationStatus → NotificationStatus → Bool
is a b = rank a == rank b

-- A value of the dictionary that the JSON text in the column `data` encodes.
pub data Value : Type 0 where
  number : ℕ → Value
  text : String → Value

-- The columns of `class Notification`, with the dictionary in place of its JSON text.
pub record Notification : Type 0 where
  pub id : ℕ
  pub user_id : UserId
  pub notification_type : NotificationType
  pub title : String
  pub body : String
  pub payload : Option (List (String × Value))
  pub related_entity_type : Option String
  pub related_entity_id : Option ℕ
  pub status : NotificationStatus
  pub fcm_message_id : Option String
  pub error_message : Option String
  pub created_at : Moment
  pub sent_at : Option Moment
  pub delivered_at : Option Moment
  pub read_at : Option Moment
  pub retry_count : ℕ
