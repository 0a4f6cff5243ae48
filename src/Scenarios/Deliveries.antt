-- ===== src/Scenarios/Deliveries.antt =====
-- The theorems on the delivery of notifications at work.
use order_run_be.Base.{
  ℕ, ◌≡◌, ◌≢◌, refl, ap, length, List, [], ◌∷◌, some, true, false, ok, err, Memᴰ, map, count_where,
  arith, UserId, ◌⊎◌,
}
use mathlib.Core.List.Memᴰ
use order_run_be.Models.Notification.{Notification, NotificationType, NotificationStatus}
use order_run_be.Events.Listener.{pending}
use order_run_be.Delivery.{FcmService, accepted, unregistered}
use order_run_be.Delivery.Worker.{flush_pending, retry_failed, send_batch}
use order_run_be.Delivery.Keys.{Distinct}
use order_run_be.Delivery.Outbox
use order_run_be.Delivery.Outbox.{Run, phase}
use order_run_be.Delivery.Drain
use order_run_be.Delivery.Drain.{Round, flush_all, retry_all, is_retryable, AreQuiet}
use order_run_be.Delivery.Quiet.{not_initialized-IsQuiet}
use order_run_be.Delivery.Stuck
use order_run_be.Delivery.Stuck.{IsDocumented, AreDocumented}
use order_run_be.Delivery.Genuine
use order_run_be.Delivery.Genuine.{IsAccepted}
use order_run_be.Delivery.Silent
use order_run_be.Delivery.Silent.{Notice, give, owned}
use order_run_be.Delivery.Direct.{tell}
use order_run_be.Db.{Db}
use order_run_be.Scenarios.{start, user}

-- A library that takes the argument, has the name and accepts everything; no library
abbrev pub open_fcm : FcmService
open_fcm = record {
  initialized = true;
  takes_notification_priority = true;
  has_invalid_argument_error = true;
  send = λ m. accepted "m";
  send_topic = λ m. ok "t";
}

abbrev closed_fcm : FcmService
closed_fcm = record {
  initialized = false;
  takes_notification_priority = false;
  has_invalid_argument_error = false;
  send = λ m. unregistered;
  send_topic = λ m. err "t";
}

-- The library as it is documented
abbrev documented_fcm : FcmService
documented_fcm = record {
  initialized = true;
  takes_notification_priority = false;
  has_invalid_argument_error = false;
  send = λ m. accepted "m";
  send_topic = λ m. ok "t";
}

abbrev letter : ℕ → UserId → Notification
letter id u = pending u NotificationType.offer_new "title" "body" 5 6 id 20

-- User 7 has a device, user 8 has none.
abbrev posted : Db
posted = record start {
  notifications = record { rows = letter 1 7 ∷ letter 2 8 ∷ []; next = 3 };
  fcm_tokens = record { user_id = 7; fcm_token = "device" } ∷ [];
}

two-Distinct : (m n : Notification) → n.id ≢ m.id → Distinct (m ∷ n ∷ [])
two-Distinct m n ne = (
  λ k h. let e = Memᴰ.eq_of_singleton h in ground (arith, ne, ap (λ (x : Notification). x.id) e),
  (λ k h. absurd (Memᴰ.not-nil h), tt),
)

posted-Distinct : Distinct posted.notifications.rows
unfolding pending
posted-Distinct = two-Distinct (letter 1 7) (letter 2 8) (omega arith)

worker-Refines_example :
    Run
      (map phase posted.notifications.rows)
      (map phase (flush_pending open_fcm (λ i. 30) posted).notifications.rows)
    × Run
        (map phase posted.notifications.rows)
        (map phase (retry_failed open_fcm (λ i. 30) posted).notifications.rows)
worker-Refines_example = Outbox.worker-Refines open_fcm (λ i. 30) posted posted-Distinct

abbrev flushes : List Round
flushes = (documented_fcm, λ i. 30) ∷ (documented_fcm, λ i. 40) ∷ []

flushes-AreDocumented : AreDocumented flushes
unfolding AreDocumented
flushes-AreDocumented =
    let here : IsDocumented documented_fcm = record {
      set_up = refl;
      no_priority = refl;
      no_clause = refl;
    } in
    (here, (here, tt))

flush_all-stuck_example : flush_all flushes posted ≡ posted
unfolding pending
flush_all-stuck_example =
    Stuck.flush_all-stuck (letter 1 7) (record { user_id = 7; fcm_token = "device" }) posted
      (Memᴰ.head refl) refl refl flushes flushes-AreDocumented

-- The two notifications after attempts that had no success
abbrev failed_letter : ℕ → UserId → ℕ → Notification
failed_letter id u failures = record (letter id u) {
  status = NotificationStatus.failed;
  retry_count = failures;
}

abbrev refused : Db
refused = record posted {
  notifications = record { rows = failed_letter 1 7 1 ∷ failed_letter 2 8 3 ∷ []; next = 3 };
}

refused-Distinct : Distinct refused.notifications.rows
unfolding pending
refused-Distinct = two-Distinct (failed_letter 1 7 1) (failed_letter 2 8 3) (omega arith)

abbrev retries : List Round
retries = (closed_fcm, λ i. 30) ∷ (closed_fcm, λ i. 40) ∷ (closed_fcm, λ i. 50) ∷ []

retries-AreQuiet : AreQuiet retries
unfolding AreQuiet
retries-AreQuiet = let calm = not_initialized-IsQuiet closed_fcm refl in (calm, (calm, (calm, tt)))

retry_all-exhausts_example :
    count_where is_retryable (retry_all retries refused).notifications.rows ≡ 0
unfolding pending
retry_all-exhausts_example =
    Drain.retry_all-exhausts retries refused retries-AreQuiet refused-Distinct (omega arith)

abbrev first_sent : Notification
first_sent = record (letter 1 7) {
  status = NotificationStatus.sent;
  sent_at = some 30;
  fcm_message_id = some "m";
}

first_is_sent :
    Memᴰ first_sent
      (send_batch open_fcm (λ i. 30) NotificationStatus.pending false posted).notifications.rows
unfolding send_batch pending
first_is_sent = Memᴰ.head refl

send_batch-sent_example :
    Memᴰ first_sent posted.notifications.rows ⊎ IsAccepted open_fcm posted first_sent
unfolding pending
send_batch-sent_example =
    Genuine.send_batch-sent open_fcm (λ i. 30) NotificationStatus.pending false posted first_sent
      posted-Distinct first_is_sent refl

-- User 8 has turned the alarm off.
abbrev quiet : Db
quiet = record posted {
  users = user 7 "mina" ∷ record (user 8 "jun") { alarm_enabled = some false } ∷ [];
}

abbrev match_notice : Notice
match_notice = Notice.proposal_matched 6 7 8 "coffee"

give-silences_example :
    owned 8 (give open_fcm (λ i. 30) (λ i. 31) match_notice quiet) ≡ owned 8 quiet
give-silences_example = Silent.give-silences open_fcm (λ i. 30) (λ i. 31) match_notice 8 quiet refl

-- The orderer, whose alarm is on, is told.
match_notice_told : length (owned 7 (give open_fcm (λ i. 30) (λ i. 31) match_notice quiet)) ≡ 2
unfolding give tell pending
match_notice_told = refl
