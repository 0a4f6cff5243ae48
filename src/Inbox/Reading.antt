-- ===== src/Inbox/Reading.antt =====
-- Marking notifications as read, and the statistics
-- (app/services/notification/notification_service.py).
use order_run_be.Base.{
  ℕ, ◌+◌, ◌≡◌, refl, ap, List, [], ◌∷◌, ok, UserId, Moment, Bool-cases, inl, inr, update_where,
  count_where, arith,
}
use order_run_be.Models.Notification.{Notification}
use order_run_be.Db.{Db}
use order_run_be.Profiles.{one_of}
use order_run_be.Inbox.{
  is_owned, is_unread, is_marked, mark, get_notification_stats, mark_notifications_read,
}

count-unread :
    (now : Moment) (u : UserId) (is : List ℕ) (ns : List Notification)
    → count_where (is_unread u) (update_where (is_marked u is) (mark now) ns)
        + count_where (is_marked u is) ns
      ≡ count_where (is_unread u) ns
count-unread now u is [] = omega arith
count-unread now u is (n ∷ ns) = elim (Bool-cases (one_of n.id is)) [
  | inl h ↦ rw h (ground (arith, count-unread now u is ns))
  | inr h ↦ rw h (ground (arith, count-unread now u is ns))
]

count-owned :
    (now : Moment) (u : UserId) (is : List ℕ) (ns : List Notification)
    → count_where (is_owned u) (update_where (is_marked u is) (mark now) ns)
      ≡ count_where (is_owned u) ns
count-owned now u is [] = refl
count-owned now u is (n ∷ ns) = elim (Bool-cases (one_of n.id is)) [
  | inl h ↦ rw h (ground (arith, count-owned now u is ns))
  | inr h ↦ rw h (ground (arith, count-owned now u is ns))
]

count-marked :
    (now : Moment) (u : UserId) (is : List ℕ) (ns : List Notification)
    → count_where (is_marked u is) (update_where (is_marked u is) (mark now) ns) ≡ 0
count-marked now u is [] = refl
count-marked now u is (n ∷ ns) = elim (Bool-cases (one_of n.id is)) [
  | inl h ↦ rw h (ground (arith, count-marked now u is ns, h))
  | inr h ↦ rw h (ground (arith, count-marked now u is ns, h))
]

-- If marking notifications as read marks k of them, the user's unread count falls by k and the
-- total stays.
pub mark_notifications_read-stats :
    (now : Moment) (u : UserId) (is : List ℕ) (db : Db) (k : ℕ)
    → (mark_notifications_read now u is db).0 ≡ ok k
    → ((get_notification_stats u (mark_notifications_read now u is db).1).total_notifications
        ≡ (get_notification_stats u db).total_notifications)
      × ((get_notification_stats u (mark_notifications_read now u is db).1).unread_count + k
          ≡ (get_notification_stats u db).unread_count)
unfolding mark_notifications_read get_notification_stats
mark_notifications_read-stats now u is db k h = (
  count-owned now u is db.notifications.rows,
  omega (arith, count-unread now u is db.notifications.rows, same),
)
  where
    same : count_where (is_marked u is) db.notifications.rows ≡ k
    same = ground (arith, h)

-- Marking the same notifications of a user as read again marks none.
mark_notifications_read-again :
    (s t : Moment) (u : UserId) (is : List ℕ) (db : Db)
    → (mark_notifications_read t u is (mark_notifications_read s u is db).1).0 ≡ ok 0
unfolding mark_notifications_read
mark_notifications_read-again s t u is db = ap ok (count-marked s u is db.notifications.rows)
