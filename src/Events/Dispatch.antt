-- ===== src/Events/Dispatch.antt =====
-- What the running application does with an event: the handlers that `register_all` sets up
-- (app/listeners/notification_listener.py) on the bus (app/events/base.py).
use order_run_be.Base.{
  ℕ, String, ◌≡◌, refl, ◌∙◌, ap, List, [], ◌∷◌, ◌++◌, true, Bool-cases, inl, inr, Moment, UserId,
  arith,
}
use order_run_be.Models.Notification.{NotificationType}
use order_run_be.Db.{Db}
use order_run_be.Events.Bus.{
  DomainEvent, Acceptance, Parties, offer_created, offer_accepted, meeting_confirmed_by_runner,
  meeting_confirmed_by_orderer, dispute_raised_by_orderer, dispute_raised_by_runner, listed,
  add_handler,
}
use order_run_be.Events.Listener.{
  Handler, Handlers, same_handler, offer_created_handler, offer_accepted_handler,
  runner_confirmed_handler, orderer_confirmed_handler, orderer_dispute_handler,
  runner_dispute_handler, alarm_enabled, add_pending, on_offer_created, tell_rejected,
  on_offer_accepted, on_meeting_confirmed_by_runner, tell_completed,
  on_meeting_confirmed_by_orderer, on_dispute_raised_by_orderer, on_dispute_raised_by_runner,
  register_all, publish_event,
}

-- The handler of each class of events.
abbrev pub dispatch : Moment → DomainEvent → Db → Db
dispatch now (offer_created e) = on_offer_created now e
dispatch now (offer_accepted e) = on_offer_accepted now e
dispatch now (meeting_confirmed_by_runner e) = on_meeting_confirmed_by_runner now e
dispatch now (meeting_confirmed_by_orderer e) = on_meeting_confirmed_by_orderer now e
dispatch now (dispute_raised_by_orderer e) = on_dispute_raised_by_orderer now e
dispatch now (dispute_raised_by_runner e) = on_dispute_raised_by_runner now e

-- In the application as it is set up, publishing an event runs the one handler of its class, once.
pub publish_event-dispatch :
    (now : Moment) (event : DomainEvent) (db : Db)
    → publish_event now event db ≡ dispatch now event db
unfolding publish_event add_handler
publish_event-dispatch now (offer_created e) db = refl
publish_event-dispatch now (offer_accepted e) db = refl
publish_event-dispatch now (meeting_confirmed_by_runner e) db = refl
publish_event-dispatch now (meeting_confirmed_by_orderer e) db = refl
publish_event-dispatch now (dispute_raised_by_orderer e) db = refl
publish_event-dispatch now (dispute_raised_by_runner e) db = refl

-- The second database is the first but for its notifications.
pub record OnlyNotifies (db db' : Db) : Type 0 where
  pub eq : db' ≡ record db { notifications = db'.notifications }

OnlyNotifies-refl : (a : Db) → OnlyNotifies a a
OnlyNotifies-refl a = record { eq = refl }

OnlyNotifies-trans : {a b c : Db} → OnlyNotifies a b → OnlyNotifies b c → OnlyNotifies a c
OnlyNotifies-trans {c} h k = record {
  eq = k.eq ∙ ap (λ (d : Db). record d { notifications = c.notifications }) h.eq;
}

add_pending-OnlyNotifies :
    (now : Moment) (u : UserId) (t : NotificationType) (title body : String) (o p : ℕ) (db : Db)
    → OnlyNotifies db (add_pending now u t title body o p db)
unfolding add_pending
add_pending-OnlyNotifies now u t title body o p db = record {
  eq = elim (Bool-cases (alarm_enabled u db)) [ inl h ↦ rw h | inr h ↦ rw h ];
}

tell_rejected-OnlyNotifies :
    (now : Moment) (us : List UserId) (e : Acceptance) (db : Db)
    → OnlyNotifies db (tell_rejected now us e db)
unfolding tell_rejected
tell_rejected-OnlyNotifies now [] e db = OnlyNotifies-refl db
tell_rejected-OnlyNotifies now (u ∷ us) e db =
    OnlyNotifies-trans (add_pending-OnlyNotifies now u _ _ _ _ _ db)
      (tell_rejected-OnlyNotifies now us e _)

tell_completed-OnlyNotifies :
    (now : Moment) (us : List UserId) (e : Parties) (db : Db)
    → OnlyNotifies db (tell_completed now us e db)
unfolding tell_completed
tell_completed-OnlyNotifies now [] e db = OnlyNotifies-refl db
tell_completed-OnlyNotifies now (u ∷ us) e db =
    OnlyNotifies-trans (add_pending-OnlyNotifies now u _ _ _ _ _ db)
      (tell_completed-OnlyNotifies now us e _)

dispatch-OnlyNotifies :
    (now : Moment) (event : DomainEvent) (db : Db) → OnlyNotifies db (dispatch now event db)
unfolding on_offer_created on_offer_accepted on_meeting_confirmed_by_runner
    on_meeting_confirmed_by_orderer on_dispute_raised_by_orderer on_dispute_raised_by_runner
dispatch-OnlyNotifies now (offer_created e) db =
    OnlyNotifies-trans (add_pending-OnlyNotifies now _ _ _ _ _ _ db)
      (add_pending-OnlyNotifies now _ _ _ _ _ _ _)
dispatch-OnlyNotifies now (offer_accepted e) db =
    OnlyNotifies-trans (add_pending-OnlyNotifies now _ _ _ _ _ _ db)
      (tell_rejected-OnlyNotifies now _ e _)
dispatch-OnlyNotifies now (meeting_confirmed_by_runner e) db =
    add_pending-OnlyNotifies now _ _ _ _ _ _ db
dispatch-OnlyNotifies now (meeting_confirmed_by_orderer e) db =
    OnlyNotifies-trans (add_pending-OnlyNotifies now _ _ _ _ _ _ db)
      (tell_completed-OnlyNotifies now _ e _)
dispatch-OnlyNotifies now (dispute_raised_by_orderer e) db =
    add_pending-OnlyNotifies now _ _ _ _ _ _ db
dispatch-OnlyNotifies now (dispute_raised_by_runner e) db =
    add_pending-OnlyNotifies now _ _ _ _ _ _ db

-- Publishing an event changes no table but the notifications.
pub publish_event-OnlyNotifies :
    (now : Moment) (event : DomainEvent) (db : Db) → OnlyNotifies db (publish_event now event db)
publish_event-OnlyNotifies now event db =
    rw publish_event-dispatch (dispatch-OnlyNotifies now event db)

listed_last :
    (h : Handler) (hs : List Handler) → listed Handler same_handler h (hs ++ h ∷ []) ≡ true
listed_last h [] = ground arith
listed_last h (k ∷ ks) = ground (arith, listed_last h ks)

add_handler_idem :
    (h : Handler) (hs : List Handler)
    → add_handler Handler same_handler h (add_handler Handler same_handler h hs)
      ≡ add_handler Handler same_handler h hs
unfolding add_handler
add_handler_idem h hs = elim (Bool-cases (listed Handler same_handler h hs)) [
  | inl old ↦ rw (old, old)
  | inr new ↦ rw (new, listed_last h hs)
]

-- Registering the handlers a second time changes nothing: each class of events keeps its handlers.
pub register_all_idem : (r : Handlers) (t : ℕ) → register_all (register_all r) t ≡ register_all r t
unfolding register_all
register_all_idem r t = ground (
  arith,
  add_handler_idem offer_created_handler (r t),
  add_handler_idem offer_accepted_handler (r t),
  add_handler_idem runner_confirmed_handler (r t),
  add_handler_idem orderer_confirmed_handler (r t),
  add_handler_idem orderer_dispute_handler (r t),
  add_handler_idem runner_dispute_handler (r t),
)
