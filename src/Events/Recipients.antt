-- ===== src/Events/Recipients.antt =====
-- Whom the handlers notify (app/listeners/notification_listener.py).
use order_run_be.Base.{
  ℕ, String, ◌≡◌, refl, sym, ◌∙◌, ap, List, [], ◌∷◌, true, Bool-cases, inl, inr, ◌⊎◌, Memᴰ, Moment,
  UserId,
}
use mathlib.Core.List.Memᴰ
use order_run_be.Models.Notification.{Notification, NotificationStatus, NotificationType}
use order_run_be.Db.{Db}
use order_run_be.Events.Bus.{
  DomainEvent, Acceptance, Parties, offer_created, offer_accepted, meeting_confirmed_by_runner,
  meeting_confirmed_by_orderer, dispute_raised_by_orderer, dispute_raised_by_runner,
}
use order_run_be.Events.Listener.{
  alarm_enabled, add_pending, pending, on_offer_created, tell_rejected, on_offer_accepted,
  on_meeting_confirmed_by_runner, tell_completed, on_meeting_confirmed_by_orderer,
  on_dispute_raised_by_orderer, on_dispute_raised_by_runner, publish_event,
}
use order_run_be.Events.Dispatch.{dispatch, publish_event-dispatch}

-- From the first database to the second only waiting notifications appear, each for a user who
-- has the alarm on, and none is lost.
pub record Notifies (db db' : Db) : Type 0 where
  pub users : db'.users ≡ db.users
  pub keeps : (n : Notification) → Memᴰ n db.notifications.rows → Memᴰ n db'.notifications.rows
  pub new :
      (n : Notification)
      → Memᴰ n db'.notifications.rows
      → Memᴰ n db.notifications.rows
        ⊎ (alarm_enabled n.user_id db ≡ true) × (n.status ≡ NotificationStatus.pending)

Notifies-refl : (a : Db) → Notifies a a
Notifies-refl a = record { users = refl; keeps = λ n m. m; new = λ n m. inl m }

same_alarm : (u : UserId) (a b : Db) → b.users ≡ a.users → alarm_enabled u b ≡ alarm_enabled u a
unfolding alarm_enabled
same_alarm u a b e = rw e

Notifies-trans : (a b c : Db) → Notifies a b → Notifies b c → Notifies a c
Notifies-trans a b c h k = record {
  users = k.users ∙ h.users;
  keeps = λ n m. k.keeps n (h.keeps n m);
  new = λ n m. elim (k.new n m) [
    | inl old ↦ h.new n old
    | inr (on, status) ↦ inr (sym (same_alarm n.user_id a b h.users) ∙ on, status)
  ];
}

add_pending-Notifies :
    (now : Moment) (u : UserId) (t : NotificationType) (title body : String) (o p : ℕ) (db : Db)
    → Notifies db (add_pending now u t title body o p db)
unfolding add_pending pending
add_pending-Notifies now u t title body o p db = elim (Bool-cases (alarm_enabled u db)) [
  | inr off ↦ rw off (Notifies-refl db)
  | inl on ↦ rw on (record {
    users = refl;
    keeps = λ n m. Memᴰ.append_left _ m;
    new = λ n m. elim (Memᴰ.append_cases db.notifications.rows m) [
      | inl old ↦ inl old
      | inr fresh ↦
          let e = Memᴰ.eq_of_singleton fresh in inr (rw e on, ap (λ (q : Notification). q.status) e)
    ];
  })
]

tell_rejected-Notifies :
    (now : Moment) (us : List UserId) (e : Acceptance) (db : Db)
    → Notifies db (tell_rejected now us e db)
unfolding tell_rejected
tell_rejected-Notifies now [] e db = Notifies-refl db
tell_rejected-Notifies now (u ∷ us) e db =
    Notifies-trans db _ _ (add_pending-Notifies now u _ _ _ _ _ db)
      (tell_rejected-Notifies now us e _)

tell_completed-Notifies :
    (now : Moment) (us : List UserId) (e : Parties) (db : Db)
    → Notifies db (tell_completed now us e db)
unfolding tell_completed
tell_completed-Notifies now [] e db = Notifies-refl db
tell_completed-Notifies now (u ∷ us) e db =
    Notifies-trans db _ _ (add_pending-Notifies now u _ _ _ _ _ db)
      (tell_completed-Notifies now us e _)

dispatch-Notifies :
    (now : Moment) (event : DomainEvent) (db : Db) → Notifies db (dispatch now event db)
unfolding on_offer_created on_offer_accepted on_meeting_confirmed_by_runner
    on_meeting_confirmed_by_orderer on_dispute_raised_by_orderer on_dispute_raised_by_runner
dispatch-Notifies now (offer_created e) db =
    Notifies-trans db _ _ (add_pending-Notifies now _ _ _ _ _ _ db)
      (add_pending-Notifies now _ _ _ _ _ _ _)
dispatch-Notifies now (offer_accepted e) db =
    Notifies-trans db _ _ (add_pending-Notifies now _ _ _ _ _ _ db)
      (tell_rejected-Notifies now _ e _)
dispatch-Notifies now (meeting_confirmed_by_runner e) db = add_pending-Notifies now _ _ _ _ _ _ db
dispatch-Notifies now (meeting_confirmed_by_orderer e) db =
    Notifies-trans db _ _ (add_pending-Notifies now _ _ _ _ _ _ db)
      (tell_completed-Notifies now _ e _)
dispatch-Notifies now (dispute_raised_by_orderer e) db = add_pending-Notifies now _ _ _ _ _ _ db
dispatch-Notifies now (dispute_raised_by_runner e) db = add_pending-Notifies now _ _ _ _ _ _ db

-- Publishing an event changes no user and loses no notification, and each notification it adds is
-- pending and for a user who has the alarm on.
pub publish_event-Notifies :
    (now : Moment) (event : DomainEvent) (db : Db) → Notifies db (publish_event now event db)
publish_event-Notifies now event db = rw publish_event-dispatch (dispatch-Notifies now event db)
