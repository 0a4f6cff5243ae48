-- ===== src/Events.antt =====
-- Domain events and the in-process event bus (app/events), with the handlers of the notification
-- listener (app/listeners/notification_listener.py) in a child module.
pub mod Bus
pub mod Listener
pub mod Dispatch
pub mod Recipients
