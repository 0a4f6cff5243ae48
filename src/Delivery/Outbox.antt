-- ===== src/Delivery/Outbox.antt =====
-- The worker against an outbox that knows only how far each notification has come
-- (app/services/notification_worker.py).
use order_run_be.Base.{
  ℕ, ◌+◌, ◌<◌, ◌≡◌, refl, ◌⊎◌, Bool, true, false, List, [], ◌∷◌, map, Memᴰ, Option, none, some,
  Bool-cases, Option-cases, ◌∙◌, inl, inr, arith, Moment,
}
use order_run_be.Models.Notification
use order_run_be.Models.Notification.{Notification, NotificationStatus}
use order_run_be.Delivery.{FcmService, SendResult}
use order_run_be.Delivery.Worker.{
  attempt, outcome, deliver, deliver_all, batch_of, is_due, send_batch, flush_pending, retry_failed,
}
use order_run_be.Delivery.Keys.{Distinct, Distinct-batch_of, mem-batch_of}
use order_run_be.Delivery.Batch.{
  pick, is_in_batch, in_batch-mem, or_same, deliver_all-write_all, write_all-pick,
}
use order_run_be.Db.{Db, set_rows}

-- How far a notification has come: it waits for its first attempt, or it was tried without success,
-- both with the number of failures, or it was sent, or its user has it.
pub data Phase : Type 0 where
  queued : ℕ → Phase
  failing : ℕ → Phase
  sent : Phase
  closed : Phase

abbrev pub progress : NotificationStatus → ℕ → Phase
progress NotificationStatus.pending failures = queued failures
progress NotificationStatus.failed failures = failing failures
progress NotificationStatus.sent failures = sent
progress NotificationStatus.delivered failures = closed
progress NotificationStatus.read failures = closed

abbrev pub phase : Notification → Phase
phase n = progress n.status n.retry_count

-- One attempt: it succeeds, or one more failure is counted, and after three there is none.
pub data Attempt : Phase → Phase → Type 0 where
  first_sent : (failures : ℕ) → Attempt (queued failures) sent
  first_failed : (failures : ℕ) → Attempt (queued failures) (failing (failures + 1))
  again_sent : (failures : ℕ) → failures < 3 → Attempt (failing failures) sent
  again_failed : (failures : ℕ) → failures < 3 → Attempt (failing failures) (failing (failures + 1))

-- A run: some of the notifications are tried, once, and the others stay.
pub data Run : List Phase → List Phase → Type 0 where
  end : Run [] []
  stays : (p : Phase) {ps qs : List Phase} → Run ps qs → Run (p ∷ ps) (p ∷ qs)
  tried : {p q : Phase} {ps qs : List Phase} → Attempt p q → Run ps qs → Run (p ∷ ps) (q ∷ qs)

pub phase-outcome :
    (now : Moment) (r : Option SendResult) (n : Notification)
    → (phase (outcome now r n) ≡ sent) ⊎ (phase (outcome now r n) ≡ failing (n.retry_count + 1))
unfolding outcome
phase-outcome now none n = inr refl
phase-outcome now (some r) n = elim (Bool-cases r.success) [
  | inl h ↦ inl (rw h)
  | inr h ↦ inr (rw h)
]

first_attempt :
    (n m : Notification)
    → n.status ≡ NotificationStatus.pending
    → ((phase m ≡ sent) ⊎ (phase m ≡ failing (n.retry_count + 1)))
    → Attempt (phase n) (phase m)
first_attempt n m e (inl h) = rw (e, h) (first_sent n.retry_count)
first_attempt n m e (inr h) = rw (e, h) (first_failed n.retry_count)

next_attempt :
    (n m : Notification)
    → n.status ≡ NotificationStatus.failed
    → n.retry_count < 3
    → ((phase m ≡ sent) ⊎ (phase m ≡ failing (n.retry_count + 1)))
    → Attempt (phase n) (phase m)
next_attempt n m e lt (inl h) = rw (e, h) (again_sent n.retry_count lt)
next_attempt n m e lt (inr h) = rw (e, h) (again_failed n.retry_count lt)

-- The status that a test finds
pub status_of_is : (s t : NotificationStatus) → Notification.is s t ≡ true → s ≡ t
status_of_is s t h = ground arith

Run-map :
    (f : Notification → Notification) (rows : List Notification)
    → ((n : Notification) → Memᴰ n rows → (f n ≡ n) ⊎ Attempt (phase n) (phase (f n)))
    → Run (map phase rows) (map phase (map f rows))
Run-map f [] h = end
Run-map f (n ∷ rows) h = step (h n (Memᴰ.head refl)) (Run-map f rows (λ m k. h m (Memᴰ.tail k)))
  where
    step :
        ((f n ≡ n) ⊎ Attempt (phase n) (phase (f n)))
        → Run (map phase rows) (map phase (map f rows))
        → Run (map phase (n ∷ rows)) (map phase (map f (n ∷ rows)))
    step (inl same) rest = rw same (stays (phase n) rest)
    step (inr moved) rest = tried moved rest

-- The row after a delivery
abbrev pub delivered : FcmService → (ℕ → Moment) → Db → Notification → Notification
delivered fcm times db n = or_same n (deliver fcm times db n)

outcome-id : (now : Moment) (r : Option SendResult) (n : Notification) → (outcome now r n).id ≡ n.id
unfolding outcome
outcome-id now r n = ground arith

pub delivered-id :
    (fcm : FcmService) (times : ℕ → Moment) (db : Db) (n : Notification)
    → (delivered fcm times db n).id ≡ n.id
delivered-id fcm times db n = elim (Option-cases (attempt fcm db n)) [
  | inl e ↦ rw (delivered, deliver, e) refl
  | inr (r, e) ↦ rw (delivered, deliver, e) (outcome-id (times n.id) r n)
]

-- What a delivery that does not raise writes
pub deliver-outcome :
    (fcm : FcmService) (times : ℕ → Moment) (db : Db) (n : Notification) {m : Notification}
    → deliver fcm times db n ≡ some m
    → (r : Option SendResult) × (attempt fcm db n ≡ some r) × (outcome (times n.id) r n ≡ m)
deliver-outcome fcm times db n h = elim (Option-cases (attempt fcm db n)) [
  | inl e ↦ absurd (cc (rw (deliver, e) at h))
  | inr (r, e) ↦ (r, e, cc (rw (deliver, e) at h))
]

pub phase-deliver :
    (fcm : FcmService) (times : ℕ → Moment) (db : Db) (n : Notification) {m : Notification}
    → deliver fcm times db n ≡ some m
    → (phase m ≡ sent) ⊎ (phase m ≡ failing (n.retry_count + 1))
phase-deliver fcm times db n h =
    let (r, _, same) = deliver-outcome fcm times db n h in
    rw (← same) (phase-outcome (times n.id) r n)

-- A run of the worker in which nothing raised
pub record IsDelivered (fcm : FcmService) (times : ℕ → Moment) (status : NotificationStatus)
    (only_retryable : Bool) (db : Db) : Type 0 where
  pub written : send_batch fcm times status only_retryable db ≡ record db {
    notifications =
        set_rows
          (map
            (pick (delivered fcm times db) (batch_of status only_retryable db.notifications.rows))
            db.notifications.rows)
          db.notifications;
  }
  pub each :
      (n : Notification)
      → Memᴰ n (batch_of status only_retryable db.notifications.rows)
      → deliver fcm times db n ≡ some (delivered fcm times db n)

-- A run of the worker writes every row of its batch, or an exception ends it and it writes none.
pub send_batch-cases :
    (fcm : FcmService) (times : ℕ → Moment) (status : NotificationStatus) (only_retryable : Bool)
    (db : Db)
    → Distinct db.notifications.rows
    → (send_batch fcm times status only_retryable db ≡ db)
      ⊎ IsDelivered fcm times status only_retryable db
unfolding send_batch
send_batch-cases fcm times status only_retryable db keys =
    let rows = db.notifications.rows in
    let batch = batch_of status only_retryable rows in
    elim (Option-cases (deliver_all (deliver fcm times db) batch rows)) [
      | inl e ↦ inl (rw e refl)
      | inr (rows', e) ↦
          let (same, each) = deliver_all-write_all (deliver fcm times db) batch rows e in
          let picked_rows =
            write_all-pick (delivered fcm times db) (delivered-id fcm times db) batch rows
              (Distinct-batch_of status only_retryable rows keys) keys
              (λ n h. (mem-batch_of status only_retryable rows h).0) in
          inr (record { written = rw (e, same ∙ picked_rows) refl; each = each })
    ]

pub picked :
    (fcm : FcmService) (times : ℕ → Moment) (status : NotificationStatus) (only_retryable : Bool)
    (db : Db) (n : Notification)
    → Distinct db.notifications.rows
    → IsDelivered fcm times status only_retryable db
    → Memᴰ n db.notifications.rows
    → let f =
        pick (delivered fcm times db) (batch_of status only_retryable db.notifications.rows) in
      (f n ≡ n) ⊎ ((is_due status only_retryable n ≡ true) × (deliver fcm times db n ≡ some (f n)))
picked fcm times status only_retryable db n keys done h =
    let batch = batch_of status only_retryable db.notifications.rows in
    elim (Bool-cases (is_in_batch batch n)) [
      | inl t ↦
          let m =
            in_batch-mem batch db.notifications.rows n keys
              (λ k hk. (mem-batch_of status only_retryable db.notifications.rows hk).0) h t in
          inr ((mem-batch_of status only_retryable db.notifications.rows m).1, rw t (done.each n m))
      | inr f ↦ inl (rw f)
    ]

Run-refl : (ps : List Phase) → Run ps ps
Run-refl [] = end
Run-refl (p ∷ ps) = stays p (Run-refl ps)

module _ (fcm : FcmService) (times : ℕ → Moment) (db : Db)
    (keys : Distinct db.notifications.rows) where
  refines :
      (status : NotificationStatus) (only_retryable : Bool)
      → ((n m : Notification)
          → is_due status only_retryable n ≡ true
          → deliver fcm times db n ≡ some m
          → Attempt (phase n) (phase m))
      → Run
          (map phase db.notifications.rows)
          (map phase (send_batch fcm times status only_retryable db).notifications.rows)
  refines status only_retryable tries =
      elim (send_batch-cases fcm times status only_retryable db keys) [
        | inl raised ↦ rw raised (Run-refl (map phase db.notifications.rows))
        | inr done ↦ rw done.written (
            Run-map _ db.notifications.rows (λ n h.
              elim (picked fcm times status only_retryable db n keys done h) [
                | inl same ↦ inl same
                | inr (due, moved) ↦ inr (tries n _ due moved)
              ]))
      ]

  -- Where the notifications have keys of their own, a run of the worker over the table refines the
  -- outbox of single messages: under flush_pending and under retry_failed each row stays as it is
  -- or makes one attempt, by which a pending message is sent or fails for one more time, and a
  -- failed one, below three failures, does.
  pub worker-Refines :
      Run
        (map phase db.notifications.rows)
        (map phase (flush_pending fcm times db).notifications.rows)
      × Run
          (map phase db.notifications.rows)
          (map phase (retry_failed fcm times db).notifications.rows)
  unfolding flush_pending retry_failed
  worker-Refines = (
    refines NotificationStatus.pending false (λ n m due done.
        first_attempt n m (status_of_is _ _ (ground arith)) (phase-deliver fcm times db n done)),
    refines NotificationStatus.failed true (λ n m due done.
        next_attempt n m (status_of_is _ _ (ground arith)) (ground arith)
          (phase-deliver fcm times db n done)),
  )
