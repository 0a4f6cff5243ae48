-- ===== src/Inbox.antt =====
-- A user's notifications (app/services/notification/notification_service.py).
pub mod Reading
use order_run_be.Base.{
  ℕ, ◌+◌, ◌-◌, ◌*◌, String, Bool, true, false, List, Option, none, some, ◌==◌, ◌&&◌, not, ltb,
  if◌then◌else◌, UserId, Moment, first, where_all, update_where, count_where, order_by, slice,
  length, is_some, Result, ok, err,
}
use order_run_be.Errors.{Error, api, AppError}
use order_run_be.Models.Notification
use order_run_be.Models.Notification.{Notification, NotificationStatus}
use order_run_be.Profiles.{one_of}
use order_run_be.Delivery.{FcmService}
use order_run_be.Delivery.Direct
use order_run_be.Db.{Db, Request, commit, ◌>>=◌, ◌>>◌, gets, modify, pure, set_rows}

-- `Notification.user_id == user_id`, and those of them that are not read
abbrev pub is_owned : UserId → Notification → Bool
is_owned user_id n = n.user_id == user_id

abbrev pub is_unread : UserId → Notification → Bool
is_unread user_id n = n.user_id == user_id && not (is_some n.read_at)

-- `NotificationListResponse`
pub record NotificationListResponse : Type 0 where
  pub total : ℕ
  pub notifications : List Notification
  pub page : ℕ
  pub page_size : ℕ

-- `order_by(Notification.created_at.desc())`
abbrev pub latest_created : Notification → Notification → Bool
latest_created a b = ltb b.created_at a.created_at

abbrev pub matches : UserId → Bool → Db → List Notification
matches user_id unread_only db =
    if unread_only
    then where_all (is_unread user_id) db.notifications.rows
    else where_all (is_owned user_id) db.notifications.rows

-- The pages are numbered from 1.
unfoldable pub list_notifications : UserId → ℕ → ℕ → Bool → Db → NotificationListResponse
list_notifications user_id page page_size unread_only db = record {
  total = length (matches user_id unread_only db);
  notifications =
      slice ((page - 1) * page_size) page_size
        (order_by latest_created (matches user_id unread_only db));
  page = page;
  page_size = page_size;
}

-- `NotificationStatsResponse`
pub record NotificationStatsResponse : Type 0 where
  pub total_notifications : ℕ
  pub unread_count : ℕ
  pub failed_count : ℕ
  pub read_count : ℕ

unfoldable pub get_notification_stats : UserId → Db → NotificationStatsResponse
get_notification_stats user_id db =
    let total = count_where (is_owned user_id) db.notifications.rows in
    let unread = count_where (is_unread user_id) db.notifications.rows in
    record {
      total_notifications = total;
      unread_count = unread;
      failed_count =
          count_where
            (λ n. n.user_id == user_id && Notification.is n.status NotificationStatus.failed)
            db.notifications.rows;
      read_count = total - unread;
    }

unfoldable pub get_notification : UserId → ℕ → Db → Result Error Notification
get_notification user_id notification_id db =
    elim (first (λ n. n.id == notification_id && n.user_id == user_id) db.notifications.rows) [
      | none ↦ err (api AppError.notification_not_found)
      | some n ↦ ok n
    ]

-- The filter of the bulk update, and the update
abbrev pub is_marked : UserId → List ℕ → Notification → Bool
is_marked user_id notification_ids n = one_of n.id notification_ids && is_unread user_id n

abbrev pub mark : Moment → Notification → Notification
mark now n = record n { read_at = some now; status = NotificationStatus.read }

unfoldable pub mark_notifications_read : Moment → UserId → List ℕ → Request ℕ
mark_notifications_read now user_id notification_ids = commit do
  marked_count ← gets (λ db. count_where (is_marked user_id notification_ids) db.notifications.rows)
  modify (λ db. record db {
    notifications =
        set_rows
          (update_where (is_marked user_id notification_ids) (mark now) db.notifications.rows)
          db.notifications;
  })
  pure marked_count

-- `NotificationSendRequest`
pub record NotificationSendRequest : Type 0 where
  pub notification_type : Notification.NotificationType
  pub title : String
  pub body : String
  pub entries : Option (List (String × Notification.Value))
  pub related_entity_type : Option String
  pub related_entity_id : Option ℕ

-- The type that the request names is not passed on; `none` is an exception, after which nothing is
-- committed.
unfoldable pub send_custom_notification :
    FcmService
    → (ℕ → Moment)
    → (ℕ → Moment)
    → UserId
    → NotificationSendRequest
    → Db
    → Option (Notification × Db)
unfolding Direct.send_custom_notification
send_custom_notification fcm created sent user_id request db =
    Direct.send_custom_notification fcm created sent user_id request.title request.body
      request.entries request.related_entity_type request.related_entity_id none db
