-- ===== src/Delivery/Silent.antt =====
-- The dispatcher's notices and the alarm setting
-- (app/services/notification/notification_dispatcher.py).
use order_run_be.Base.{
  ℕ, ◌≡◌, refl, ◌∙◌, ap, true, false, String, List, [], ◌∷◌, ◌++◌, Option, none, some, Moment,
  UserId, where_all, Bool-cases, inl, inr, ◌==◌, ==_iff, arith,
}
use order_run_be.Models.Notification.{Notification, Value}
use order_run_be.Inbox.{is_owned}
use order_run_be.Events.Listener.{wants_alarm}
use order_run_be.Delivery.{FcmService}
use order_run_be.Delivery.{SendResult}
use order_run_be.Delivery.Direct.{Letter, settled, settle, send_to_user, tell, told_by, Told}
use order_run_be.Delivery.Notices.{
  notify_proposal_matched, notify_proposal_cancelled, notify_offer_received, notify_offer_accepted,
  notify_offer_rejected, notify_execution_started, notify_execution_completed,
  notify_payment_completed, notify_payment_failed, notify_system_announcement,
}
use order_run_be.Db.{Db, find_user}

-- The notices that the dispatcher can give
pub data Notice : Type 0 where
  proposal_matched : ℕ → UserId → UserId → String → Notice
  proposal_cancelled : ℕ → List UserId → String → Option String → Notice
  offer_received : ℕ → ℕ → UserId → UserId → String → ℕ → Notice
  offer_accepted : ℕ → ℕ → UserId → String → Notice
  offer_rejected : ℕ → ℕ → UserId → String → Notice
  execution_started : ℕ → ℕ → UserId → UserId → String → Notice
  execution_completed : ℕ → ℕ → UserId → UserId → String → Notice
  payment_completed : ℕ → UserId → ℕ → String → Notice
  payment_failed : ℕ → UserId → ℕ → String → Option String → Notice
  system_announcement : List UserId → String → String → Option (List (String × Value)) → Notice

abbrev pub owned : UserId → Db → List Notification
owned u db = where_all (is_owned u) db.notifications.rows

where_all-append :
    (u : UserId) (xs : List Notification) (x : Notification)
    → is_owned u x ≡ false
    → where_all (is_owned u) (xs ++ x ∷ []) ≡ where_all (is_owned u) xs
where_all-append u [] x h = rw h
where_all-append u (y ∷ ys) x h = ground (arith, where_all-append u ys x h)

user_id-settled :
    (now : Moment) (r : SendResult) (n : Notification) → (settled now r n).user_id ≡ n.user_id
user_id-settled now r n = ground arith

other_user :
    (u v : UserId) (db : Db)
    → wants_alarm (find_user u db) ≡ false
    → wants_alarm (find_user v db) ≡ true
    → (v == u) ≡ false
other_user u v db off on = elim (Bool-cases (v == u)) [
  | inl same ↦
      let e : v ≡ u = (==_iff v u).0 same in
      absurd (cc (ap (λ (w : UserId). wants_alarm (find_user w db)) e))
  | inr other ↦ other
]

-- Nothing new for the user, and the same accounts
record IsSilent (u : UserId) (db db' : Db) : Type 0 where
  users : db'.users ≡ db.users
  rows : owned u db' ≡ owned u db

IsSilent-refl : (u : UserId) (db : Db) → IsSilent u db db
IsSilent-refl u db = record { users = refl; rows = refl }

module _ (fcm : FcmService) (created sent : ℕ → Moment) where
  -- What is committed of a notice
  unfoldable pub give : Notice → Db → Db
  unfolding notify_proposal_matched notify_proposal_cancelled notify_offer_received
      notify_offer_accepted notify_offer_rejected notify_execution_started
      notify_execution_completed notify_payment_completed notify_payment_failed
      notify_system_announcement
  give (proposal_matched p c r t) db =
      (notify_proposal_matched fcm created sent p c r t (true, db)).1
  give (proposal_cancelled p us t r) db =
      (notify_proposal_cancelled fcm created sent p us t r (true, db)).1
  give (offer_received o p c r t a) db =
      (notify_offer_received fcm created sent o p c r t a (true, db)).1
  give (offer_accepted o p r t) db = (notify_offer_accepted fcm created sent o p r t (true, db)).1
  give (offer_rejected o p r t) db = (notify_offer_rejected fcm created sent o p r t (true, db)).1
  give (execution_started o p c r t) db =
      (notify_execution_started fcm created sent o p c r t (true, db)).1
  give (execution_completed o p c r t) db =
      (notify_execution_completed fcm created sent o p c r t (true, db)).1
  give (payment_completed i u a t) db =
      (notify_payment_completed fcm created sent i u a t (true, db)).1
  give (payment_failed i u a t r) db =
      (notify_payment_failed fcm created sent i u a t r (true, db)).1
  give (system_announcement us t b d) db =
      (notify_system_announcement fcm created sent us t b d (true, db)).1

  module _ (u : UserId) where
    told_by-IsSilent :
        (v : UserId) (l : Letter) (db : Db) (r : Option SendResult)
        → wants_alarm (find_user u db) ≡ false
        → wants_alarm (find_user v db) ≡ true
        → IsSilent u db (told_by db (settle fcm created sent v l db r)).1
    told_by-IsSilent v l db none off on = IsSilent-refl u db
    told_by-IsSilent v l db (some r) off on = record {
      users = refl;
      rows =
          where_all-append u db.notifications.rows _
            (rw (user_id-settled) (other_user u v db off on));
    }

    tell-IsSilent :
        (v : UserId) (l : Letter) (told : Told)
        → wants_alarm (find_user u told.1) ≡ false
        → IsSilent u told.1 (tell fcm created sent v l told).1
    unfolding tell send_to_user
    tell-IsSilent v l (false, db) off = IsSilent-refl u db
    tell-IsSilent v l (true, db) off = elim (Bool-cases (wants_alarm (find_user v db))) [
      | inl on ↦ rw on (told_by-IsSilent v l db _ off on)
      | inr silent ↦ rw silent (IsSilent-refl u db)
    ]

    follows :
        (db db' db'' : Db)
        → wants_alarm (find_user u db) ≡ false
        → IsSilent u db db'
        → (wants_alarm (find_user u db') ≡ false → IsSilent u db' db'')
        → IsSilent u db db''
    follows db db' db'' off s next =
        let off' : wants_alarm (find_user u db') ≡ false = rw (s.users) off in
        let s' = next off' in record { users = s'.users ∙ s.users; rows = s'.rows ∙ s.rows }

    tell_next :
        (v : UserId) (l : Letter) (db : Db) (told : Told)
        → wants_alarm (find_user u db) ≡ false
        → IsSilent u db told.1
        → IsSilent u db (tell fcm created sent v l told).1
    tell_next v l db told off silent = follows db told.1 _ off silent (tell-IsSilent v l told)

    cancelled-IsSilent :
        (p : ℕ) (us : List UserId) (t : String) (r : Option String) (told : Told)
        → wants_alarm (find_user u told.1) ≡ false
        → IsSilent u told.1 (notify_proposal_cancelled fcm created sent p us t r told).1
    unfolding notify_proposal_cancelled
    cancelled-IsSilent p [] t r told off = IsSilent-refl u told.1
    cancelled-IsSilent p (v ∷ vs) t r told off =
        follows told.1 _ _ off (tell-IsSilent v _ told off) (cancelled-IsSilent p vs t r _)

    announced-IsSilent :
        (us : List UserId) (t b : String) (d : Option (List (String × Value))) (told : Told)
        → wants_alarm (find_user u told.1) ≡ false
        → IsSilent u told.1 (notify_system_announcement fcm created sent us t b d told).1
    unfolding notify_system_announcement
    announced-IsSilent [] t b d told off = IsSilent-refl u told.1
    announced-IsSilent (v ∷ vs) t b d told off =
        follows told.1 _ _ off (tell-IsSilent v _ told off) (announced-IsSilent vs t b d _)

    give-IsSilent :
        (n : Notice) (db : Db) → wants_alarm (find_user u db) ≡ false → IsSilent u db (give n db)
    unfolding give
    give-IsSilent (proposal_matched p c r t) db off =
        tell_next r _ db _ off (tell-IsSilent c _ (true, db) off)
    give-IsSilent (offer_received o p c r t a) db off = tell-IsSilent c _ (true, db) off
    give-IsSilent (offer_accepted o p r t) db off = tell-IsSilent r _ (true, db) off
    give-IsSilent (offer_rejected o p r t) db off = tell-IsSilent r _ (true, db) off
    give-IsSilent (execution_started o p c r t) db off =
        tell_next r _ db _ off (tell-IsSilent c _ (true, db) off)
    give-IsSilent (execution_completed o p c r t) db off =
        tell_next r _ db _ off (tell-IsSilent c _ (true, db) off)
    give-IsSilent (payment_completed i v a t) db off = tell-IsSilent v _ (true, db) off
    give-IsSilent (payment_failed i v a t r) db off = tell-IsSilent v _ (true, db) off
    give-IsSilent (proposal_cancelled p us t r) db off = cancelled-IsSilent p us t r (true, db) off
    give-IsSilent (system_announcement us t b d) db off = announced-IsSilent us t b d (true, db) off

-- A notice of the dispatcher adds no notification for a user who does not want alarms, whoever
-- else receives it.
pub give-silences :
    (fcm : FcmService) (created sent : ℕ → Moment) (n : Notice) (u : UserId) (db : Db)
    → wants_alarm (find_user u db) ≡ false
    → owned u (give fcm created sent n db) ≡ owned u db
give-silences fcm created sent n u db off = (give-IsSilent fcm created sent u n db off).rows
