-- ===== src/Delivery/Stuck.antt =====
-- The worker with the Firebase library as it is documented
-- (app/services/notification_worker.py, app/services/fcm_service.py).
use order_run_be.Base.{
  ℕ, ◌≡◌, refl, true, false, String, List, [], ◌∷◌, Memᴰ, Option, none, some, inl, inr,
  Option-cases, Moment, first, ◌==◌,
}
use mathlib.Core.List.Memᴰ
use order_run_be.Models.User.{UserFcmToken}
use order_run_be.Models.Notification.{Notification, NotificationStatus, Value}
use order_run_be.Delivery.{FcmService, send_notification, given_text}
use order_run_be.Delivery.Worker.{
  attempt, deliver, deliver_all, batch_of, get_token, send_batch, flush_pending, write, entries_of,
}
use order_run_be.Delivery.Drain.{Round, flush_all}
use order_run_be.Db.{Db}

-- The service is set up, and the library has neither the argument `notification_priority` nor the
-- name `InvalidArgumentError`.
pub record IsDocumented (fcm : FcmService) : Type 0 where
  pub set_up : fcm.initialized ≡ true
  pub no_priority : fcm.takes_notification_priority ≡ false
  pub no_clause : fcm.has_invalid_argument_error ≡ false

unfoldable pub AreDocumented : List Round → Type 0
AreDocumented [] = Unit
AreDocumented ((fcm, times) ∷ rounds) = IsDocumented fcm × AreDocumented rounds

send_notification-raises :
    (fcm : FcmService) (token title body : String) (payload : List (String × Value))
    (image : Option String) (priority : String)
    → IsDocumented fcm
    → send_notification fcm token title body payload image priority ≡ none
unfolding send_notification
send_notification-raises fcm token title body payload image priority d =
    rw (d.set_up, d.no_priority, d.no_clause) refl

deliver_all-stops :
    (deliver : Notification → Option Notification) (ns rows : List Notification) (n : Notification)
    → Memᴰ n ns
    → deliver n ≡ none
    → deliver_all deliver ns rows ≡ none
unfolding deliver_all
deliver_all-stops attempts [] rows n m h = absurd (Memᴰ.not-nil m)
deliver_all-stops attempts (k ∷ ks) rows n m h = elim (Option-cases (attempts k)) [
  | inl e ↦ rw (deliver_all, e) refl
  | inr (k', e) ↦ elim (Memᴰ.cases_cons m) [
    | inl same ↦ absurd (cc (same, h, e))
    | inr later ↦ rw (deliver_all, e) (deliver_all-stops attempts ks (write k' rows) n later h)
  ]
]

module _ (n : Notification) (device : UserFcmToken) (db : Db)
    (batched : Memᴰ n (batch_of NotificationStatus.pending false db.notifications.rows))
    (owned : first (λ (t : UserFcmToken). t.user_id == n.user_id) db.fcm_tokens ≡ some device)
    (named : given_text (some device.fcm_token) ≡ true) where
  attempt-raises : (fcm : FcmService) → IsDocumented fcm → attempt fcm db n ≡ none
  unfolding attempt get_token
  attempt-raises fcm d =
      rw
        (
          attempt,
          owned,
          named,
          send_notification-raises fcm device.fcm_token n.title n.body (entries_of n) none "high" d,
        )
        refl

  flush_pending-stuck :
      (fcm : FcmService) (times : ℕ → Moment) → IsDocumented fcm → flush_pending fcm times db ≡ db
  unfolding flush_pending send_batch
  flush_pending-stuck fcm times d =
      let raises : deliver fcm times db n ≡ none = rw (deliver, attempt-raises fcm d) refl in
      rw (deliver_all-stops (deliver fcm times db) _ db.notifications.rows n batched raises) refl

  -- Where the service is set up with a library that has neither the argument notification_priority
  -- nor the name InvalidArgumentError, as Firebase documents it, and a notification of the next
  -- batch is for a user with a device, every flush of pending notifications is ended by an
  -- exception before its commit: however often the worker runs, the database stays as it is.
  pub flush_all-stuck : (rounds : List Round) → AreDocumented rounds → flush_all rounds db ≡ db
  unfolding flush_all AreDocumented
  flush_all-stuck [] ds = refl
  flush_all-stuck ((fcm, times) ∷ rounds) ds =
      rw (flush_pending-stuck fcm times ds.0) (flush_all-stuck rounds ds.1)
