-- ===== src/Events/Bus.antt =====
-- The event classes (app/events/offer_events.py, execution_events.py) and `EventBus`
-- (app/events/base.py): handlers are registered once for a type, run in order, and a handler that
-- raises is logged and passed over.
use order_run_be.Base.{
  ℕ, String, Bool, false, List, [], ◌∷◌, ◌++◌, ◌==◌, ◌||◌, if◌then◌else◌, UserId, Result,
}
use order_run_be.Errors.{Error}
use order_run_be.Db.{Db}

-- The fields of every event but `OfferAcceptedEvent`.
pub record Parties : Type 0 where
  pub offer_id : ℕ
  pub proposal_id : ℕ
  pub runner_id : UserId
  pub orderer_id : UserId
  pub proposal_title : String

-- The fields of `OfferAcceptedEvent`
pub record Acceptance : Type 0 where
  pub offer_id : ℕ
  pub proposal_id : ℕ
  pub accepted_runner_id : UserId
  pub rejected_runner_ids : List UserId
  pub orderer_id : UserId
  pub proposal_title : String

-- `DomainEvent` and its subclasses
pub data DomainEvent : Type 0 where
  offer_created : Parties → DomainEvent
  offer_accepted : Acceptance → DomainEvent
  meeting_confirmed_by_runner : Parties → DomainEvent
  meeting_confirmed_by_orderer : Parties → DomainEvent
  dispute_raised_by_orderer : Parties → DomainEvent
  dispute_raised_by_runner : Parties → DomainEvent

-- `type(event)`, the classes numbered.
unfoldable pub type_of : DomainEvent → ℕ
type_of (offer_created _) = 0
type_of (offer_accepted _) = 1
type_of (meeting_confirmed_by_runner _) = 2
type_of (meeting_confirmed_by_orderer _) = 3
type_of (dispute_raised_by_orderer _) = 4
type_of (dispute_raised_by_runner _) = 5

module _ (H : Type 0) (same : H → H → Bool) where
  -- `EventBus._handlers`: the handlers of each type.
  abbrev pub Registry : Type 0
  Registry = ℕ → List H

  -- `handler in handlers`
  abbrev pub listed : H → List H → Bool
  listed h [] = false
  listed h (k ∷ ks) = same h k || listed h ks

  -- `if handler not in handlers: handlers.append(handler)`
  unfoldable pub add_handler : H → List H → List H
  add_handler handler handlers =
      if listed handler handlers then handlers else handlers ++ handler ∷ []

  unfoldable pub register : ℕ → H → Registry → Registry
  register event_type handler handlers t =
      if t == event_type then add_handler handler (handlers t) else handlers t

  module _ (run : H → DomainEvent → Db → Result Error (Unit {0}) × Db) where
    -- The loop of `publish`: what a handler wrote stays, whether or not it then raised.
    abbrev pub run_all : List H → DomainEvent → Db → Db
    run_all [] event db = db
    run_all (handler ∷ rest) event db = run_all rest event (run handler event db).1

    unfoldable pub publish : Registry → DomainEvent → Db → Db
    unfolding type_of
    publish handlers event db = run_all (handlers (type_of event)) event db
