-- ===== src/Delivery/Genuine.antt =====
-- What the worker may mark as sent (app/services/notification_worker.py).
use order_run_be.Base.{
  ℕ, ◌≡◌, refl, ◌∙◌, ap, ◌⊎◌, Bool, true, Memᴰ, Option, none, some, String, Bool-cases, arith,
  Option-cases, inl, inr, Moment, first, first-mem, ==_iff, ◌==◌,
}
use mathlib.Core.List.Memᴰ
use order_run_be.Models.User.{UserFcmToken}
use order_run_be.Models.Notification.{Notification, NotificationStatus}
use order_run_be.Delivery.{
  FcmService, SendResult, Answer, accepted, unregistered, invalid_argument, sender_id_mismatch,
  other_error, result_of, message_of, Message, answer_to, send_notification, given_text,
}
use order_run_be.Delivery.Worker.{
  given_result, attempt, outcome, deliver, entries_of, send_batch, batch_of,
}
use order_run_be.Delivery.Keys.{Distinct}
use order_run_be.Delivery.Batch.{pick}
use order_run_be.Delivery.Outbox.{delivered, deliver-outcome, send_batch-cases, picked}
use order_run_be.Db.{Db}

-- The library took the message of the notification for a device of its user.
pub record IsAccepted (fcm : FcmService) (db : Db) (n : Notification) : Type 0 where
  pub device : UserFcmToken
  pub message_id : String
  pub stored : Memᴰ device db.fcm_tokens
  pub owned : device.user_id ≡ n.user_id
  pub set_up : fcm.initialized ≡ true
  pub answered :
      fcm.send (message_of device.fcm_token n.title n.body (entries_of n) none "high")
      ≡ accepted message_id
  pub recorded : n.fcm_message_id ≡ some message_id

accepted_answer :
    (named : Bool) (a : Answer) {r : SendResult}
    → result_of named a ≡ some r
    → r.success ≡ true
    → (i : String) × (a ≡ accepted i) × (r.message_id ≡ some i)
accepted_answer named (accepted i) e h = (i, refl, ground arith)
accepted_answer named unregistered e h = absurd (ground arith)
accepted_answer named (invalid_argument m) e h = absurd (ground arith)
accepted_answer named sender_id_mismatch e h = absurd (ground arith)
accepted_answer named (other_error m) e h = absurd (ground arith)

-- Only what was sent is accepted.
sent_answer :
    (fcm : FcmService) (m : Message) (i : String)
    → answer_to fcm m ≡ accepted i
    → fcm.send m ≡ accepted i
sent_answer fcm m i h = ground arith

given_back :
    (r : Option SendResult) {res : SendResult} → given_result r ≡ some (some res) → r ≡ some res
given_back none h = absurd (cc)
given_back (some r) h = ground arith

module _ (fcm : FcmService) (db : Db) (n : Notification) where
  sent_result :
      (token : String) (r : SendResult)
      → send_notification fcm token n.title n.body (entries_of n) none "high" ≡ some r
      → r.success ≡ true
      → (fcm.initialized ≡ true)
        × (i : String) × (fcm.send (message_of token n.title n.body (entries_of n) none "high")
            ≡ accepted i)
        × (r.message_id ≡ some i)
  unfolding send_notification
  sent_result token r e h = elim (Bool-cases fcm.initialized) [
    | inl on ↦
        let m = message_of token n.title n.body (entries_of n) none "high" in
        let (i, a, recorded) =
          accepted_answer fcm.has_invalid_argument_error (answer_to fcm m) (rw on at e) h in
        (on, i, sent_answer fcm m i a, recorded)
    | inr off ↦ absurd (ground arith)
  ]

  sent_outcome :
      (now : Moment) (r : Option SendResult)
      → (outcome now r n).status ≡ NotificationStatus.sent
      → (res : SendResult) × (r ≡ some res)
        × (res.success ≡ true)
        × (outcome now r n ≡ record n {
          status = NotificationStatus.sent;
          sent_at = some now;
          fcm_message_id = res.message_id;
        })
  unfolding outcome
  sent_outcome now none h = absurd (cc)
  sent_outcome now (some res) h = elim (Bool-cases res.success) [
    | inl t ↦ (res, refl, t, rw t)
    | inr f ↦ absurd (cc (rw f at h))
  ]

  attempted :
      (res : SendResult)
      → attempt fcm db n ≡ some (some res)
      → (device : UserFcmToken) × Memᴰ device db.fcm_tokens
        × (device.user_id ≡ n.user_id)
        × (send_notification fcm device.fcm_token n.title n.body (entries_of n) none "high"
            ≡ some res)
  unfolding attempt
  attempted res h = elim (Option-cases (first (λ t. t.user_id == n.user_id) db.fcm_tokens)) [
    | inl missing ↦ absurd (cc (rw (missing, attempt) at h))
    | inr (device, e) ↦
        let (m, own) = first-mem (λ t. t.user_id == n.user_id) db.fcm_tokens e in
        elim (Bool-cases (given_text (some device.fcm_token))) [
          | inl t ↦ (device, m, (==_iff _ _).0 own, given_back _ (rw (e, t, attempt) at h))
          | inr f ↦ absurd (cc (rw (e, f, attempt) at h))
        ]
  ]

  delivered-IsAccepted :
      (times : ℕ → Moment) (m : Notification)
      → deliver fcm times db n ≡ some m
      → m.status ≡ NotificationStatus.sent
      → IsAccepted fcm db m
  delivered-IsAccepted times m done h =
      let (r, tried, made) = deliver-outcome fcm times db n done in
      let (res, e, success, row) = sent_outcome (times n.id) r (rw made h) in
      let (device, stored, owned, back) = attempted res (tried ∙ ap some e) in
      let (on, i, a, recorded) = sent_result device.fcm_token res back success in
      rw (← made, row)
        (record {
          device = device;
          message_id = i;
          stored = stored;
          owned = owned;
          set_up = on;
          answered = a;
          recorded = recorded;
        })

-- Where the notifications have keys of their own, a row that is marked as sent after a batch was
-- so before, or the service is set up and accepted the message for a stored device of the row's
-- user, with the message id that the row records.
pub send_batch-sent :
    (fcm : FcmService) (times : ℕ → Moment) (status : NotificationStatus) (only_retryable : Bool)
    (db : Db) (n : Notification)
    → Distinct db.notifications.rows
    → Memᴰ n (send_batch fcm times status only_retryable db).notifications.rows
    → n.status ≡ NotificationStatus.sent
    → (Memᴰ n db.notifications.rows ⊎ IsAccepted fcm db n)
send_batch-sent fcm times status only_retryable db n keys h s =
    elim (send_batch-cases fcm times status only_retryable db keys) [
      | inl raised ↦ inl (rw raised at h)
      | inr done ↦
          let (m, hm, e) =
            Memᴰ.of_map
              (pick (delivered fcm times db) (batch_of status only_retryable db.notifications.rows))
              db.notifications.rows (rw done.written at h) in
          elim (picked fcm times status only_retryable db m keys done hm) [
            | inl same ↦ inl (rw (← e, same) hm)
            | inr (_, moved) ↦ inr (delivered-IsAccepted fcm db m times n (moved ∙ ap some e) s)
          ]
    ]
