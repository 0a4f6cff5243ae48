-- ===== src/Delivery/Quiet.antt =====
-- Runs of the worker that no exception ends
-- (app/services/notification_worker.py, app/services/fcm_service.py).
use order_run_be.Base.{
  ℕ, ◌≡◌, ◌≢◌, refl, Bool, false, String, List, [], ◌∷◌, Option, none, some, inl, inr, Bool-cases,
  Option-cases, Moment, first, ◌==◌,
}
use order_run_be.Models.Notification.{Notification, NotificationStatus, Value}
use order_run_be.Delivery.{FcmService, SendResult, send_notification, given_text}
use order_run_be.Delivery.Worker.{
  given_result, attempt, deliver, deliver_all, batch_of, send_batch, write, entries_of,
}
use order_run_be.Delivery.Batch.{write_all, deliver_all-write_all}
use order_run_be.Delivery.Outbox.{delivered}
use order_run_be.Db.{Db, set_rows}

-- No exception leaves `send_notification`.
pub IsQuiet : FcmService → Type 0
IsQuiet fcm =
    (token title body : String) (payload : List (String × Value)) (image : Option String)
    (priority : String)
    → send_notification fcm token title body payload image priority ≢ none

pub not_initialized-IsQuiet : (fcm : FcmService) → fcm.initialized ≡ false → IsQuiet fcm
unfolding IsQuiet send_notification
not_initialized-IsQuiet fcm off token title body payload image priority h =
    absurd (cc (rw off at h))

given_result-some : (r : Option SendResult) → r ≢ none → given_result r ≢ none
given_result-some none h e = h refl
given_result-some (some r) h e = absurd (cc e)

module _ (fcm : FcmService) (times : ℕ → Moment) where
  quiet-attempt : (db : Db) (n : Notification) → IsQuiet fcm → attempt fcm db n ≢ none
  unfolding attempt IsQuiet
  quiet-attempt db n calm h =
      elim (Option-cases (first (λ t. t.user_id == n.user_id) db.fcm_tokens)) [
        | inl missing ↦ absurd (cc (rw (missing, attempt) at h))
        | inr (device, e) ↦ elim (Bool-cases (given_text (some device.fcm_token))) [
          | inl t ↦
              given_result-some _ (calm device.fcm_token n.title n.body (entries_of n) none "high")
                (rw (e, t, attempt) at h)
          | inr f ↦ absurd (cc (rw (e, f, attempt) at h))
        ]
      ]

  pub quiet-deliver :
      (db : Db) (n : Notification)
      → IsQuiet fcm
      → deliver fcm times db n ≡ some (delivered fcm times db n)
  quiet-deliver db n calm = elim (Option-cases (attempt fcm db n)) [
    | inl e ↦ absurd (quiet-attempt db n calm e)
    | inr (r, e) ↦ rw (delivered, deliver, e) refl
  ]

  quiet-deliver_all :
      (db : Db) (ns rows : List Notification)
      → IsQuiet fcm
      → deliver_all (deliver fcm times db) ns rows ≢ none
  unfolding deliver_all
  quiet-deliver_all db [] rows calm h = absurd (cc h)
  quiet-deliver_all db (n ∷ ns) rows calm h =
      quiet-deliver_all db ns (write (delivered fcm times db n) rows) calm
        (rw (deliver_all, quiet-deliver db n calm) at h)

  pub quiet-send_batch :
      (status : NotificationStatus) (only_retryable : Bool) (db : Db)
      → IsQuiet fcm
      → send_batch fcm times status only_retryable db ≡ record db {
        notifications =
            set_rows
              (write_all
                (delivered fcm times db)
                (batch_of status only_retryable db.notifications.rows)
                db.notifications.rows)
              db.notifications;
      }
  unfolding send_batch
  quiet-send_batch status only_retryable db calm =
      let rows = db.notifications.rows in
      let batch = batch_of status only_retryable rows in
      elim (Option-cases (deliver_all (deliver fcm times db) batch rows)) [
        | inl e ↦ absurd (quiet-deliver_all db batch rows calm e)
        | inr (rows', e) ↦
            let (same, _) = deliver_all-write_all (deliver fcm times db) batch rows e in
            rw (e, same) refl
      ]
