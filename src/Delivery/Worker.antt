-- ===== src/Delivery/Worker.antt =====
-- The outbox worker (app/services/notification_worker.py): it sends the stored notifications in
-- batches, and tries failed ones again. `times` says when each notification is marked as sent.
use order_run_be.Base.{
  ℕ, ◌+◌, Bool, true, false, not, ◌&&◌, ◌||◌, String, List, [], ◌∷◌, ◌++◌, Option, none, some, ltb,
  ◌==◌, if◌then◌else◌, Moment, UserId, first, where_all, update_where, order_by, take,
}
use order_run_be.Models.User.{UserFcmToken}
use order_run_be.Models.Notification
use order_run_be.Models.Notification.{Notification, NotificationStatus, text, number, Value}
use order_run_be.Delivery.{
  FcmService, SendResult, send_notification, given_text, text_entry, number_entry, prefixed,
  type_value,
}
use order_run_be.Db.{Db, set_rows}

-- `_MAX_RETRY`
abbrev pub max_retry : ℕ
max_retry = 3

-- `_get_token`
abbrev pub token_of : Option UserFcmToken → Option String
token_of none = none
token_of (some t) = some t.fcm_token

unfoldable pub get_token : UserId → Db → Option String
get_token user_id db = token_of (first (λ t. t.user_id == user_id) db.fcm_tokens)

-- The data of the message for a notification
abbrev pub entries_of : Notification → List (String × Value)
entries_of n =
    ("notification_id", number n.id)
    ∷ ("notification_type", text (type_value n.notification_type))
    ∷ (text_entry "related_entity_type" n.related_entity_type
        ++ (number_entry "related_entity_id" n.related_entity_id ++ prefixed "extra_" n.payload))

-- `send_notification(…) if _get_token(…) else None`; the outer `none` is an exception.
abbrev pub given_result : Option SendResult → Option (Option SendResult)
given_result none = none
given_result (some result) = some (some result)

unfoldable pub attempt : FcmService → Db → Notification → Option (Option SendResult)
unfolding get_token send_notification
attempt fcm db n = elim (get_token n.user_id db) [
  | none ↦ some none
  | some token ↦
      if given_text (some token)
      then given_result (send_notification fcm token n.title n.body (entries_of n) none "high")
      else some none
]

-- What the loop's body writes into the row
unfoldable pub outcome : Moment → Option SendResult → Notification → Notification
outcome now none n = record n {
  status = NotificationStatus.failed;
  retry_count = n.retry_count + 1;
  error_message = some "No FCM token";
}
outcome now (some result) n =
    if result.success
    then record n {
      status = NotificationStatus.sent;
      sent_at = some now;
      fcm_message_id = result.message_id;
    }
    else record n {
      status = NotificationStatus.failed;
      retry_count = n.retry_count + 1;
      error_message = result.error_message;
    }

-- A changed row is written back by its key.
abbrev pub write : Notification → List Notification → List Notification
write n = update_where (λ m. m.id == n.id) (λ _. n)

-- The loop over the batch, on the table of notifications; an exception ends it.
unfoldable pub deliver_all :
    (Notification → Option Notification)
    → List Notification
    → List Notification
    → Option (List Notification)
deliver_all deliver [] rows = some rows
deliver_all deliver (n ∷ ns) rows = elim (deliver n) [
  | none ↦ none
  | some m ↦ deliver_all deliver ns (write m rows)
]

-- The filter of a batch
abbrev pub is_due : NotificationStatus → Bool → Notification → Bool
is_due status only_retryable n =
    Notification.is n.status status && (not only_retryable || ltb n.retry_count max_retry)

-- `order_by(Notification.created_at)`
abbrev pub created_first : Notification → Notification → Bool
created_first a b = ltb a.created_at b.created_at

abbrev pub batch_of : NotificationStatus → Bool → List Notification → List Notification
batch_of status only_retryable rows =
    take 100 (order_by created_first (where_all (is_due status only_retryable) rows))

-- `db.commit()`; the session of a loop that an exception ended is closed without it.
abbrev pub committed : Db → Option (List Notification) → Db
committed db none = db
committed db (some rows) = record db { notifications = set_rows rows db.notifications }

module _ (fcm : FcmService) (times : ℕ → Moment) where
  -- The loop's body on a notification
  abbrev pub deliver : Db → Notification → Option Notification
  deliver db n = elim (attempt fcm db n) [
    | none ↦ none
    | some result ↦ some (outcome (times n.id) result n)
  ]

  unfoldable pub send_batch : NotificationStatus → Bool → Db → Db
  unfolding deliver_all attempt outcome
  send_batch status only_retryable db = committed db (
      deliver_all (deliver db) (batch_of status only_retryable db.notifications.rows)
        db.notifications.rows)

  unfoldable pub flush_pending : Db → Db
  unfolding send_batch
  flush_pending db = send_batch NotificationStatus.pending false db

  unfoldable pub retry_failed : Db → Db
  unfolding send_batch
  retry_failed db = send_batch NotificationStatus.failed true db
