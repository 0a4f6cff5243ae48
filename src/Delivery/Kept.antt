-- ===== src/Delivery/Kept.antt =====
-- What keeps the notifications in order: the steps of a session's work (app/core/database.py), and
-- the listener's handlers (app/listeners/notification_listener.py).
use order_run_be.Base.{
  ℕ, refl, Bool, true, false, String, List, [], ◌∷◌, Option, none, some, Result, ok, err, Moment,
  UserId, Bool-cases, inl, inr, if◌then◌else◌,
}
use order_run_be.Errors.{Error, AppError}
use order_run_be.Models.Notification.{NotificationType}
use order_run_be.Events.Bus.{
  DomainEvent, Acceptance, Parties, offer_created, offer_accepted, meeting_confirmed_by_runner,
  meeting_confirmed_by_orderer, dispute_raised_by_orderer, dispute_raised_by_runner,
}
use order_run_be.Events.Listener.{
  pending, alarm_enabled, add_pending, on_offer_created, tell_rejected, on_offer_accepted,
  on_meeting_confirmed_by_runner, tell_completed, on_meeting_confirmed_by_orderer,
  on_dispute_raised_by_orderer, on_dispute_raised_by_runner, publish_event,
}
use order_run_be.Events.Dispatch.{dispatch, publish_event-dispatch}
use order_run_be.Delivery.Orderly.{IsOrderly, add_row-IsOrderly}
use order_run_be.Db.{Db, Tx, continue, expect, raise_when, lift, finish, respond_with}

abbrev pub Orderly : Db → Type 0
Orderly db = IsOrderly db.notifications

add_pending-Orderly :
    (now : Moment) (u : UserId) (t : NotificationType) (title body : String) (o p : ℕ) (db : Db)
    → Orderly db
    → Orderly (add_pending now u t title body o p db)
unfolding add_pending pending
add_pending-Orderly now u t title body o p db h = elim (Bool-cases (alarm_enabled u db)) [
  | inr off ↦ rw off h
  | inl on ↦ rw on (
      add_row-IsOrderly (λ id. pending u t title body o p id now) db.notifications (λ i. refl)
        (λ i. refl) h)
]

tell_rejected-Orderly :
    (now : Moment) (us : List UserId) (e : Acceptance) (db : Db)
    → Orderly db
    → Orderly (tell_rejected now us e db)
unfolding tell_rejected
tell_rejected-Orderly now [] e db h = h
tell_rejected-Orderly now (u ∷ us) e db h =
    tell_rejected-Orderly now us e _ (add_pending-Orderly now u _ _ _ _ _ db h)

tell_completed-Orderly :
    (now : Moment) (us : List UserId) (e : Parties) (db : Db)
    → Orderly db
    → Orderly (tell_completed now us e db)
unfolding tell_completed
tell_completed-Orderly now [] e db h = h
tell_completed-Orderly now (u ∷ us) e db h =
    tell_completed-Orderly now us e _ (add_pending-Orderly now u _ _ _ _ _ db h)

dispatch-Orderly :
    (now : Moment) (event : DomainEvent) (db : Db) → Orderly db → Orderly (dispatch now event db)
unfolding on_offer_created on_offer_accepted on_meeting_confirmed_by_runner
    on_meeting_confirmed_by_orderer on_dispute_raised_by_orderer on_dispute_raised_by_runner
dispatch-Orderly now (offer_created e) db h =
    add_pending-Orderly now _ _ _ _ _ _ _ (add_pending-Orderly now _ _ _ _ _ _ db h)
dispatch-Orderly now (offer_accepted e) db h =
    tell_rejected-Orderly now _ e _ (add_pending-Orderly now _ _ _ _ _ _ db h)
dispatch-Orderly now (meeting_confirmed_by_runner e) db h = add_pending-Orderly now _ _ _ _ _ _ db h
dispatch-Orderly now (meeting_confirmed_by_orderer e) db h =
    tell_completed-Orderly now _ e _ (add_pending-Orderly now _ _ _ _ _ _ db h)
dispatch-Orderly now (dispute_raised_by_orderer e) db h = add_pending-Orderly now _ _ _ _ _ _ db h
dispatch-Orderly now (dispute_raised_by_runner e) db h = add_pending-Orderly now _ _ _ _ _ _ db h

pub publish_event-Orderly :
    (now : Moment) (event : DomainEvent) (db : Db)
    → Orderly db
    → Orderly (publish_event now event db)
publish_event-Orderly now event db h = rw publish_event-dispatch (dispatch-Orderly now event db h)

-- The database after a work that did not raise
pub data Kept {A : Type 0} : Result Error (A × Db) → Type 0 where
  done : (a : A) (db : Db) → Orderly db → Kept (ok (a, db))
  raised : (e : Error) → Kept (err e)

pub continue-Kept :
    {A B : Type 0} {r : Result Error (A × Db)} {f : A → Tx B}
    → Kept r
    → ((a : A) (db : Db) → Orderly db → Kept (f a db))
    → Kept (continue r f)
continue-Kept (done a db h) next = next a db h
continue-Kept (raised e) next = raised e

module _ (db : Db) (h : Orderly db) where
  pub expect-Kept : {A : Type 0} (o : Option A) (e : AppError) → Kept (expect o e db)
  expect-Kept none e = raised _
  expect-Kept (some a) e = done a db h

  pub raise_when-Kept : (b : Bool) (e : AppError) → Kept (raise_when b e db)
  raise_when-Kept true e = raised _
  raise_when-Kept false e = done tt db h

  pub lift-Kept : {A : Type 0} (r : Result Error A) → Kept (lift r db)
  lift-Kept (ok a) = done a db h
  lift-Kept (err e) = raised e

  pub finish-Orderly : {A : Type 0} (r : Result Error (A × Db)) → Kept r → Orderly (finish db r).1
  finish-Orderly (ok (a, db')) (done _ _ k) = k
  finish-Orderly (err e) (raised _) = h

  pub if-Kept :
      {A : Type 0} (b : Bool) (m n : Tx A)
      → Kept (m db)
      → Kept (n db)
      → Kept ((if b then m else n) db)
  if-Kept true m n km kn = km
  if-Kept false m n km kn = kn

-- What is committed, and the response that follows
pub respond_with-Orderly :
    {A B : Type 0} (respond : A → Db → Result Error B) (x : Result Error A × Db)
    → Orderly x.1
    → Orderly (respond_with respond x).1
respond_with-Orderly respond (ok a, db) h = h
respond_with-Orderly respond (err e, db) h = h

pub if-Orderly : (b : Bool) (x y : Db) → Orderly x → Orderly y → Orderly (if b then x else y)
if-Orderly true x y hx hy = hx
if-Orderly false x y hx hy = hy

pub ruleset keeping = (
  continue-Kept, expect-Kept, raise_when-Kept, lift-Kept, if-Kept, done, raised,
  publish_event-Orderly, if-Orderly, finish-Orderly, respond_with-Orderly,
)
