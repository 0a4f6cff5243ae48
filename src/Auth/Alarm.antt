-- ===== src/Auth/Alarm.antt =====
-- The alarm setting of a user and the listener
-- (app/services/user_auth/user_profile_service.py, app/listeners/notification_listener.py).
use order_run_be.Base.{
  ◌≡◌, refl, sym, Bool, true, false, some, ok, UserId, Option-cases, inl, inr, find_by-update,
  arith, first-mem, mem-first, Memᴰ, ==_iff, ◌==◌, Moment,
}
use order_run_be.Models.User
use order_run_be.Models.User.{User}
use order_run_be.Models.Notification.{Notification}
use order_run_be.Security.{find_active_user}
use order_run_be.Auth.Sessions.{save_user}
use order_run_be.Auth.Profile.{update_alarm}
use order_run_be.Db.{Db}
use order_run_be.Events.Bus.{DomainEvent}
use order_run_be.Events.Listener.{alarm_enabled, publish_event}
use order_run_be.Events.Recipients.{publish_event-Notifies}

id_of : (u : UserId) (x : User) → (x.id == u) ≡ true → x.id ≡ u
id_of u x h = (==_iff _ _).0 h

active-id :
    (u : UserId) (db : Db) {user : User}
    → find_active_user u db ≡ some user
    → Memᴰ user db.users × (user.id ≡ u)
active-id u db e = let (m, t) = first-mem _ db.users e in (m, ground (arith, t))

saved_alarm :
    (u : UserId) (b : Bool) (db : Db) (user : User)
    → find_active_user u db ≡ some user
    → alarm_enabled u (save_user (User.update_alarm_setting b user) db) ≡ b
unfolding alarm_enabled User.update_alarm_setting
saved_alarm u b db user e =
    let (m, key) = active-id u db e in
    let (old, before) = mem-first (λ (x : User). x.id == user.id) db.users m (ground arith) in
    let after =
      find_by-update (λ (x : User). x.id) (User.update_alarm_setting b user) old db.users before in
    rw (sym key, after) refl

update_alarm-alarm_enabled :
    (u : UserId) (b : Bool) (db : Db)
    → (update_alarm u b db).0 ≡ ok tt
    → alarm_enabled u (update_alarm u b db).1 ≡ b
unfolding update_alarm
update_alarm-alarm_enabled u b db h = elim (Option-cases (find_active_user u db)) [
  | inl e ↦ absurd (cc (rw e at h))
  | inr (user, e) ↦ rw e (saved_alarm u b db user e)
]

-- Once a user has turned the alarm off, the event that is published next adds no notification for
-- that user.
pub update_alarm-silences :
    (u : UserId) (db : Db) (now : Moment) (event : DomainEvent) (n : Notification)
    → (update_alarm u false db).0 ≡ ok tt
    → Memᴰ n (publish_event now event (update_alarm u false db).1).notifications.rows
    → n.user_id ≡ u
    → Memᴰ n (update_alarm u false db).1.notifications.rows
update_alarm-silences u db now event n h m mine =
    elim ((publish_event-Notifies now event (update_alarm u false db).1).new n m) [
      | inl old ↦ old
      | inr (on, status) ↦
          let off = update_alarm-alarm_enabled u false db h in absurd (cc (on, off, mine))
    ]
