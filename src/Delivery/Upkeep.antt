-- ===== src/Delivery/Upkeep.antt =====
-- The services on notifications keep the table in order
-- (app/services/notification/notification_service.py, app/services/notification_worker.py).
use order_run_be.Base.{
  ℕ, ◌≤◌, ◌<◌, ◌≡◌, inl, inr, Bool, true, false, List, Memᴰ, Moment, UserId, arith, change, Option,
  none, some,
}
use order_run_be.Models.Notification.{Notification, NotificationType, NotificationStatus}
use order_run_be.Inbox
use order_run_be.Inbox.{is_marked, mark, NotificationSendRequest}
use order_run_be.Delivery.{FcmService, SendResult}
use order_run_be.Delivery.Direct
use order_run_be.Delivery.Direct.{Letter, settled, settle, row_of, kept_by}
use order_run_be.Delivery.Worker.{
  outcome, deliver, batch_of, is_due, send_batch, flush_pending, retry_failed,
}
use order_run_be.Delivery.Batch.{pick}
use order_run_be.Delivery.Outbox.{
  delivered, delivered-id, deliver-outcome, send_batch-cases, picked,
}
use order_run_be.Delivery.Orderly.{map-IsOrderly, add_row-IsOrderly}
use order_run_be.Delivery.Kept.{Orderly}
use order_run_be.Db.{Db}

pub mark_notifications_read-Orderly :
    (now : Moment) (u : UserId) (is : List ℕ) (db : Db)
    → Orderly db
    → Orderly (Inbox.mark_notifications_read now u is db).1
unfolding Inbox.mark_notifications_read
mark_notifications_read-Orderly now u is db h =
    map-IsOrderly (change (is_marked u is) (mark now)) db.notifications (λ n. ground arith)
      (λ n m. ground (arith, h.bounded n m)) (λ n m e. ground (arith, h.untried n m)) h

-- The attempt that follows a new row keeps its key and counts no failure.
settled-id :
    (now : Moment) (result : SendResult) (n : Notification) (i : ℕ)
    → n.id ≡ i
    → (settled now result n).id ≡ i
settled-id now result n i e = ground arith

settled-retry_count :
    (now : Moment) (result : SendResult) (n : Notification)
    → n.retry_count ≡ 0
    → (settled now result n).retry_count ≡ 0
settled-retry_count now result n e = ground arith

settle-Orderly :
    (fcm : FcmService) (created sent : ℕ → Moment) (u : UserId) (l : Letter) (db : Db)
    (r : Option SendResult)
    → Orderly db
    → Orderly (kept_by db (row_of (settle fcm created sent u l db r)))
settle-Orderly fcm created sent u l db none h = h
settle-Orderly fcm created sent u l db (some r) h =
    search (add_row-IsOrderly, settled-id, settled-retry_count) depth 10

-- What a request lets `send_custom_notification` send
abbrev pub letter_of : NotificationSendRequest → Letter
letter_of r = record {
  notification_type = NotificationType.custom;
  title = r.title;
  body = r.body;
  entries = r.entries;
  related_entity_type = r.related_entity_type;
  related_entity_id = r.related_entity_id;
  image = none;
}

pub send_custom_notification-Orderly :
    (fcm : FcmService) (created sent : ℕ → Moment) (u : UserId) (r : NotificationSendRequest)
    (db : Db)
    → Orderly db
    → Orderly (kept_by db (Inbox.send_custom_notification fcm created sent u r db))
unfolding Inbox.send_custom_notification Direct.send_custom_notification Direct.send_to_user
send_custom_notification-Orderly fcm created sent u r db h =
    settle-Orderly fcm created sent u (letter_of r) db _ h

pick-id :
    (deliver : Notification → Notification) (ns : List Notification) (n : Notification)
    → (deliver n).id ≡ n.id
    → (pick deliver ns n).id ≡ n.id
pick-id deliver ns n keeps = ground (arith, keeps)

-- The state after an attempt
outcome-retry_count :
    (now : Moment) (r : Option SendResult) (n : Notification)
    → n.retry_count < 3
    → (outcome now r n).retry_count ≤ 3
unfolding outcome
outcome-retry_count now r n lt = ground arith

outcome-status :
    (now : Moment) (r : Option SendResult) (n : Notification)
    → (outcome now r n).status ≡ NotificationStatus.pending
    → ⊥
unfolding outcome
outcome-status now r n e = ground arith

module _ (fcm : FcmService) (times : ℕ → Moment) (db : Db) (h : Orderly db) where
  phase_retry_count :
      (n m : Notification) → n.retry_count < 3 → deliver fcm times db n ≡ some m → m.retry_count ≤ 3
  phase_retry_count n m lt done =
      let (r, _, same) = deliver-outcome fcm times db n done in
      rw (← same) (outcome-retry_count (times n.id) r n lt)

  delivered-status :
      (n m : Notification)
      → deliver fcm times db n ≡ some m
      → m.status ≡ NotificationStatus.pending
      → ⊥
  delivered-status n m done e =
      let (r, _, same) = deliver-outcome fcm times db n done in
      outcome-status (times n.id) r n (cc (same, e))

  send_batch-Orderly :
      (status : NotificationStatus) (only_retryable : Bool)
      → ((n : Notification)
          → Memᴰ n db.notifications.rows
          → is_due status only_retryable n ≡ true
          → n.retry_count < 3)
      → Orderly (send_batch fcm times status only_retryable db)
  send_batch-Orderly status only_retryable below =
      elim (send_batch-cases fcm times status only_retryable db h.distinct) [
        | inl raised ↦ rw raised h
        | inr done ↦
            let f =
              pick (delivered fcm times db)
                (batch_of status only_retryable db.notifications.rows) in
            rw (done.written) (
              map-IsOrderly f db.notifications
                (λ n.
                  pick-id (delivered fcm times db)
                    (batch_of status only_retryable db.notifications.rows) n
                    (delivered-id fcm times db n))
                (λ n m. elim (picked fcm times status only_retryable db n h.distinct done m) [
                  | inl same ↦ rw same (h.bounded n m)
                  | inr (due, moved) ↦ phase_retry_count n _ (below n m due) moved
                ])
                (λ n m e. elim (picked fcm times status only_retryable db n h.distinct done m) [
                  | inl same ↦ rw same (h.untried n m (cc (same, e)))
                  | inr (due, moved) ↦ absurd (delivered-status n _ moved e)
                ])
                h)
      ]

  pub flush_pending-Orderly : Orderly (flush_pending fcm times db)
  unfolding flush_pending
  flush_pending-Orderly =
      send_batch-Orderly NotificationStatus.pending false (λ n m due. ground (arith, h.untried n m))

  pub retry_failed-Orderly : Orderly (retry_failed fcm times db)
  unfolding retry_failed
  retry_failed-Orderly = send_batch-Orderly NotificationStatus.failed true (λ n m due. ground arith)
