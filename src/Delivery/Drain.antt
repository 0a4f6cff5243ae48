-- ===== src/Delivery/Drain.antt =====
-- The outbox gets empty: what the runs of the worker (app/services/notification_worker.py) leave.
use order_run_be.Base.{
  ℕ, ◌+◌, ◌-◌, ◌*◌, ◌≤◌, ◌<◌, ◌≡◌, refl, Bool, true, false, List, [], ◌∷◌, inl, inr, arith, Moment,
  count_where, length,
}
use Prim.Native.Nat.{min}
use order_run_be.Models.Notification.{Notification, NotificationStatus}
use order_run_be.Delivery.{FcmService}
use order_run_be.Delivery.Worker.{batch_of, is_due, send_batch, flush_pending, retry_failed}
use order_run_be.Delivery.Keys.{Distinct, Distinct-batch_of, mem-batch_of, length-batch_of}
use order_run_be.Delivery.Quiet.{IsQuiet, quiet-deliver, quiet-send_batch}
use order_run_be.Delivery.Batch.{total, total-write_all, Distinct-write_all}
use order_run_be.Delivery.Outbox.{
  delivered, delivered-id, phase-deliver, Phase, queued, failing, phase, status_of_is,
}
use order_run_be.Db.{Db}

-- What is due in a run, and how many attempts a notification has left when only failed ones are
-- tried again
abbrev pub is_pending : Notification → Bool
is_pending = is_due NotificationStatus.pending false

abbrev pub is_retryable : Notification → Bool
is_retryable = is_due NotificationStatus.failed true

abbrev waits : Phase → ℕ
waits (queued failures) = 1
waits _ = 0

abbrev left : Phase → ℕ
left (failing failures) = 3 - failures
left _ = 0

abbrev waiting : Notification → ℕ
waiting n = waits (phase n)

abbrev attempts_left : Notification → ℕ
attempts_left n = left (phase n)

module _ (fcm : FcmService) (times : ℕ → Moment) (calm : IsQuiet fcm) where
  Distinct-send_batch :
      (status : NotificationStatus) (only_retryable : Bool) (db : Db)
      → Distinct db.notifications.rows
      → Distinct (send_batch fcm times status only_retryable db).notifications.rows
  Distinct-send_batch status only_retryable db keys =
      rw (quiet-send_batch fcm times status only_retryable db calm) (
        Distinct-write_all (delivered fcm times db) (delivered-id fcm times db)
          (batch_of status only_retryable db.notifications.rows) db.notifications.rows keys)

  -- A quantity that each delivery lowers falls by the size of the batch.
  falls :
      (w : Notification → ℕ) (status : NotificationStatus) (only_retryable : Bool) (db : Db)
      → Distinct db.notifications.rows
      → ((n : Notification)
          → is_due status only_retryable n ≡ true
          → w (delivered fcm times db n) < w n)
      → total w (send_batch fcm times status only_retryable db).notifications.rows
          + min 100 (count_where (is_due status only_retryable) db.notifications.rows)
        ≤ total w db.notifications.rows
  falls w status only_retryable db keys lower =
      let rows = db.notifications.rows in
      let batch = batch_of status only_retryable rows in
      rw (quiet-send_batch fcm times status only_retryable db calm) (
        omega (
          arith,
          total-write_all (delivered fcm times db) (delivered-id fcm times db) w batch rows
              (Distinct-batch_of status only_retryable rows keys) keys
              (λ n h. (mem-batch_of status only_retryable rows h).0)
              (λ n h. lower n (mem-batch_of status only_retryable rows h).1),
          length-batch_of status only_retryable rows,
        ))

  delivered_is_not_waiting :
      (db : Db) (n : Notification)
      → is_pending n ≡ true
      → waiting (delivered fcm times db n) < waiting n
  delivered_is_not_waiting db n h =
      let e : n.status ≡ NotificationStatus.pending = status_of_is _ _ (ground arith) in
      elim (phase-deliver fcm times db n (quiet-deliver fcm times db n calm)) [
        | inl s ↦ rw (s, e) (omega arith)
        | inr f ↦ rw (f, e) (omega arith)
      ]

  delivered_has_fewer_left :
      (db : Db) (n : Notification)
      → is_retryable n ≡ true
      → attempts_left (delivered fcm times db n) < attempts_left n
  delivered_has_fewer_left db n h =
      let e : n.status ≡ NotificationStatus.failed = status_of_is _ _ (ground arith) in
      let few : n.retry_count < 3 = ground arith in
      elim (phase-deliver fcm times db n (quiet-deliver fcm times db n calm)) [
        | inl s ↦ rw (s, e) (omega arith)
        | inr f ↦ rw (f, e) (omega arith)
      ]

total-waiting : (rows : List Notification) → total waiting rows ≡ count_where is_pending rows
total-waiting [] = refl
total-waiting (n ∷ rows) = ground (arith, total-waiting rows)

total-left :
    (rows : List Notification)
    → (total attempts_left rows ≤ 3 * count_where is_retryable rows)
      × (count_where is_retryable rows ≤ total attempts_left rows)
total-left [] = omega arith
total-left (n ∷ rows) = ground (arith, total-left rows)

-- A run of the worker: the answers of the library, and the moments of sending
abbrev pub Round : Type 0
Round = FcmService × (ℕ → Moment)

unfoldable pub flush_all : List Round → Db → Db
flush_all [] db = db
flush_all ((fcm, times) ∷ rounds) db = flush_all rounds (flush_pending fcm times db)

unfoldable pub retry_all : List Round → Db → Db
retry_all [] db = db
retry_all ((fcm, times) ∷ rounds) db = retry_all rounds (retry_failed fcm times db)

-- In none of the runs an exception leaves the FCM service.
unfoldable pub AreQuiet : List Round → Type 0
AreQuiet [] = Unit
AreQuiet ((fcm, times) ∷ rounds) = IsQuiet fcm × AreQuiet rounds

-- Where the notifications have keys of their own and no exception leaves the FCM service, as many flushes as there are hundreds of pending
-- notifications (rounded up) leave none pending, whatever the devices answer.
pub flush_all-drains :
    (rounds : List Round) (db : Db)
    → AreQuiet rounds
    → Distinct db.notifications.rows
    → count_where is_pending db.notifications.rows ≤ 100 * length rounds
    → count_where is_pending (flush_all rounds db).notifications.rows ≡ 0
unfolding flush_all flush_pending AreQuiet
flush_all-drains [] db calm keys h = omega arith
flush_all-drains ((fcm, times) ∷ rounds) db calm keys h =
    let next = send_batch fcm times NotificationStatus.pending false db in
    let less =
      falls fcm times calm.0 waiting NotificationStatus.pending false db keys
        (delivered_is_not_waiting fcm times calm.0 db) in
    flush_all-drains rounds next calm.1
      (Distinct-send_batch fcm times calm.0 NotificationStatus.pending false db keys)
      (omega
        (arith, less, total-waiting db.notifications.rows, total-waiting next.notifications.rows))

exhausts :
    (rounds : List Round) (db : Db)
    → AreQuiet rounds
    → Distinct db.notifications.rows
    → total attempts_left db.notifications.rows ≤ length rounds
    → count_where is_retryable (retry_all rounds db).notifications.rows ≡ 0
unfolding retry_all retry_failed AreQuiet
exhausts [] db calm keys h = omega (arith, (total-left db.notifications.rows).1)
exhausts ((fcm, times) ∷ rounds) db calm keys h =
    let next = send_batch fcm times NotificationStatus.failed true db in
    let less =
      falls fcm times calm.0 attempts_left NotificationStatus.failed true db keys
        (delivered_has_fewer_left fcm times calm.0 db) in
    exhausts rounds next calm.1
      (Distinct-send_batch fcm times calm.0 NotificationStatus.failed true db keys)
      (omega (arith, less, total-left db.notifications.rows))

-- Where the notifications have keys of their own and no exception leaves the FCM service, as it is
-- while the service is not initialized, after three times as many retries as there are
-- notifications that may be tried again none is left to retry.
pub retry_all-exhausts :
    (rounds : List Round) (db : Db)
    → AreQuiet rounds
    → Distinct db.notifications.rows
    → 3 * count_where is_retryable db.notifications.rows ≤ length rounds
    → count_where is_retryable (retry_all rounds db).notifications.rows ≡ 0
retry_all-exhausts rounds db calm keys h =
    exhausts rounds db calm keys (omega (arith, (total-left db.notifications.rows).0))
