-- ===== src/Delivery/Direct.antt =====
-- Notifications that are stored and sent at once: `send_to_user` (app/services/fcm_service.py) and
-- the tests of the dispatcher before it (app/services/notification/notification_dispatcher.py).
-- `created` and `sent` give the moments of a notification by its key.
use order_run_be.Base.{
  ℕ, Bool, true, false, String, List, [], ◌∷◌, ◌++◌, Option, none, some, ◌==◌, if◌then◌else◌,
  Moment, UserId, first,
}
use order_run_be.Models.User.{UserFcmToken}
use order_run_be.Models.Notification.{
  Notification, NotificationType, NotificationStatus, Value, text, number,
}
use order_run_be.Delivery.{
  FcmService, SendResult, failure, send_notification, text_entry, number_entry, prefixed,
  type_value,
}
use order_run_be.Events.Listener.{wants_alarm}
use order_run_be.Db.{Db, add_row, find_user}

-- `json.dumps(data) if data else None`
abbrev pub stored_data : Option (List (String × Value)) → Option (List (String × Value))
stored_data none = none
stored_data (some []) = none
stored_data (some (e ∷ es)) = some (e ∷ es)

-- What a caller gives besides the receiver: the arguments of `send_to_user`
pub record Letter : Type 0 where
  pub notification_type : NotificationType
  pub title : String
  pub body : String
  pub entries : Option (List (String × Value))
  pub related_entity_type : Option String
  pub related_entity_id : Option ℕ
  pub image : Option String

abbrev pub new_notification : UserId → Letter → Moment → ℕ → Notification
new_notification user_id l created_at id = record {
  id = id;
  user_id = user_id;
  notification_type = l.notification_type;
  title = l.title;
  body = l.body;
  payload = stored_data l.entries;
  related_entity_type = l.related_entity_type;
  related_entity_id = l.related_entity_id;
  status = NotificationStatus.pending;
  fcm_message_id = none;
  error_message = none;
  created_at = created_at;
  sent_at = none;
  delivered_at = none;
  read_at = none;
  retry_count = 0;
}

-- `fcm_data`
abbrev pub letter_entries : ℕ → Letter → List (String × Value)
letter_entries id l =
    ("notification_id", number id)
    ∷ ("notification_type", text (type_value l.notification_type))
    ∷ (text_entry "related_entity_type" l.related_entity_type
        ++ (number_entry "related_entity_id" l.related_entity_id
            ++ prefixed "data_" (stored_data l.entries)))

-- The row after the attempt; a message id that is missing is not written.
abbrev pub settled : Moment → SendResult → Notification → Notification
settled now result n =
    if result.success
    then record n {
      status = NotificationStatus.sent;
      sent_at = some now;
      fcm_message_id = result.message_id;
    }
    else record n { status = NotificationStatus.failed; error_message = result.error_message }

-- A notice under way: whether no exception has ended it, and what was committed
abbrev pub Told : Type 0
Told = Bool × Db

abbrev pub told_by : Db → Option ((Notification × SendResult) × Db) → Told
told_by db none = (false, db)
told_by db (some (_, db')) = (true, db')

-- `notification, _ = …`
abbrev pub row_of : Option ((Notification × SendResult) × Db) → Option (Notification × Db)
row_of none = none
row_of (some ((row, _), db)) = some (row, db)

-- The database after that
abbrev pub kept_by : Db → Option (Notification × Db) → Db
kept_by db none = db
kept_by db (some (row, db')) = db'

module _ (fcm : FcmService) (created sent : ℕ → Moment) where
  -- The attempt for the row that was just added
  unfoldable pub first_attempt : ℕ → Letter → Option UserFcmToken → Option SendResult
  unfolding send_notification
  first_attempt id l none = some (failure "NO_TOKEN" "No FCM token registered")
  first_attempt id l (some device) =
      send_notification fcm device.fcm_token l.title l.body (letter_entries id l) l.image "high"

  -- The row is added and flushed, and committed as it is after the attempt. An exception of the
  -- attempt leaves the function before the commit.
  abbrev pub settle :
      UserId → Letter → Db → Option SendResult → Option ((Notification × SendResult) × Db)
  settle user_id l db none = none
  settle user_id l db (some result) =
      let id = db.notifications.next in
      let row =
        λ (key : ℕ). settled (sent id) result (new_notification user_id l (created id) key) in
      some ((row id, result), record db { notifications = add_row row db.notifications })

  -- `none` where an exception leaves the function
  unfoldable pub send_to_user : UserId → Letter → Db → Option ((Notification × SendResult) × Db)
  unfolding first_attempt
  send_to_user user_id l db =
      settle user_id l db
        (first_attempt db.notifications.next l (first (λ t. t.user_id == user_id) db.fcm_tokens))

  -- `_should_send_notification`
  unfoldable pub should_send_notification : UserId → Db → Bool
  should_send_notification user_id db = wants_alarm (find_user user_id db)

  -- `if self._should_send_notification(db, user_id): self.fcm_service.send_to_user(…)`
  unfoldable pub tell : UserId → Letter → Told → Told
  unfolding should_send_notification send_to_user
  tell user_id l (false, db) = (false, db)
  tell user_id l (true, db) =
      if should_send_notification user_id db
      then told_by db (send_to_user user_id l db)
      else (true, db)

  -- `send_custom_notification`, which asks for no setting
  unfoldable pub send_custom_notification :
      UserId
      → String
      → String
      → Option (List (String × Value))
      → Option String
      → Option ℕ
      → Option String
      → Db
      → Option (Notification × Db)
  unfolding send_to_user
  send_custom_notification user_id title body entries related_type related_id image db = row_of (
      send_to_user user_id
        (record {
          notification_type = NotificationType.custom;
          title = title;
          body = body;
          entries = entries;
          related_entity_type = related_type;
          related_entity_id = related_id;
          image = image;
        })
        db)
