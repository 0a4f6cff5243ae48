-- ===== src/Events/Listener.antt =====
-- The notification listener (app/listeners/notification_listener.py): a domain event becomes
-- pending notifications for the users who want them. The rows are stamped when they are flushed,
-- at `now`.
use order_run_be.Base.{
  ℕ, String, Bool, false, List, [], ◌∷◌, Option, none, some, ◌==◌, if◌then◌else◌, Moment, UserId,
  Result, ok, err,
}
use order_run_be.Errors.{Error, value_error}
use order_run_be.Models.User.{User}
use order_run_be.Models.Notification.{NotificationType, NotificationStatus, Notification, number}
use order_run_be.Db.{Db, add_row, find_user}
use order_run_be.Events.Bus.{
  DomainEvent, Parties, Acceptance, Registry, offer_created, offer_accepted,
  meeting_confirmed_by_runner, meeting_confirmed_by_orderer, dispute_raised_by_orderer,
  dispute_raised_by_runner, register, publish,
}

-- `user is not None and user.alarm_enabled`; a missing setting counts as off.
abbrev pub wants_alarm : Option User → Bool
wants_alarm none = false
wants_alarm (some u) = elim u.alarm_enabled [ none ↦ false | some b ↦ b ]

-- `_alarm_enabled`
unfoldable pub alarm_enabled : UserId → Db → Bool
alarm_enabled user_id db = wants_alarm (find_user user_id db)

-- `_pending`, for an offer: all callers name the entity "offer" and the two ids as data.
unfoldable pub pending :
    UserId → NotificationType → String → String → ℕ → ℕ → ℕ → Moment → Notification
pending user_id notification_type title body offer_id proposal_id id created_at = record {
  id = id;
  user_id = user_id;
  notification_type = notification_type;
  title = title;
  body = body;
  payload = some (("offer_id", number offer_id) ∷ ("proposal_id", number proposal_id) ∷ []);
  related_entity_type = some "offer";
  related_entity_id = some offer_id;
  status = NotificationStatus.pending;
  fcm_message_id = none;
  error_message = none;
  created_at = created_at;
  sent_at = none;
  delivered_at = none;
  read_at = none;
  retry_count = 0;
}

-- `if _alarm_enabled(db, user_id): db.add(_pending(…))`
unfoldable pub add_pending : Moment → UserId → NotificationType → String → String → ℕ → ℕ → Db → Db
unfolding alarm_enabled pending
add_pending now user_id notification_type title body offer_id proposal_id db =
    if alarm_enabled user_id db
    then record db {
      notifications =
          add_row (λ id. pending user_id notification_type title body offer_id proposal_id id now)
            db.notifications;
    }
    else db

unfoldable pub on_offer_created : Moment → Parties → Db → Db
on_offer_created now e db =
    add_pending now (e.runner_id) NotificationType.offer_submitted "지원 완료! ✅"
      "지원이 정상적으로 접수됐어요. 요청자의 선택을 기다려주세요." e.offer_id e.proposal_id
      (add_pending now (e.orderer_id) NotificationType.offer_new "누군가 지원했어요! 👀"
        "회원님의 요청에 새로운 지원자가 생겼어요. 확인해보세요!" e.offer_id e.proposal_id db)

-- The loop over the rejected runners.
unfoldable pub tell_rejected : Moment → List UserId → Acceptance → Db → Db
tell_rejected now [] e db = db
tell_rejected now (runner_id ∷ rest) e db = tell_rejected now rest e (
    add_pending now (runner_id) NotificationType.offer_rejected "이번엔 아쉽게 됐어요 😢"
      "이번엔 선택받지 못했지만 다음 기회가 분명 있을 거예요." e.offer_id e.proposal_id db)

unfoldable pub on_offer_accepted : Moment → Acceptance → Db → Db
on_offer_accepted now e db = tell_rejected now e.rejected_runner_ids e (
    add_pending now (e.accepted_runner_id) NotificationType.offer_accepted "선택받으셨어요! 🙌"
      "요청자가 회원님을 선택했어요." e.offer_id e.proposal_id db)

unfoldable pub on_meeting_confirmed_by_runner : Moment → Parties → Db → Db
on_meeting_confirmed_by_runner now e db =
    add_pending now (e.orderer_id) NotificationType.meeting_confirmed "지원자가 만남을 확인했어요! 🤝"
      "지원자가 만남을 확인했어요. 회원님도 확인해주시면 정산이 바로 진행돼요." e.offer_id e.proposal_id db

-- The loop over the two parties at the end of `on_meeting_confirmed_by_orderer`.
unfoldable pub tell_completed : Moment → List UserId → Parties → Db → Db
tell_completed now [] e db = db
tell_completed now (user_id ∷ rest) e db = tell_completed now rest e (
    add_pending now (user_id) NotificationType.execution_completed "완료! 수고하셨어요 🎊"
      "양측 만남이 모두 확인됐어요. 성공적으로 완료됐습니다!" e.offer_id e.proposal_id db)

unfoldable pub on_meeting_confirmed_by_orderer : Moment → Parties → Db → Db
on_meeting_confirmed_by_orderer now e db = tell_completed now (e.orderer_id ∷ e.runner_id ∷ []) e (
    add_pending now (e.runner_id) NotificationType.meeting_confirmed "요청자가 만남을 확인했어요! 🤝"
      "요청자가 만남을 확인했어요. 회원님도 앱에서 만남을 확인해주시면 정산이 진행돼요!" e.offer_id e.proposal_id db)

unfoldable pub on_dispute_raised_by_orderer : Moment → Parties → Db → Db
on_dispute_raised_by_orderer now e db =
    add_pending now (e.runner_id) NotificationType.dispute_raised "분쟁이 접수되었어요"
      "요청자가 분쟁을 접수했어요. 앱에서 내용을 확인해주세요." e.offer_id e.proposal_id db

unfoldable pub on_dispute_raised_by_runner : Moment → Parties → Db → Db
on_dispute_raised_by_runner now e db =
    add_pending now (e.orderer_id) NotificationType.dispute_raised "분쟁이 접수되었어요"
      "지원자가 분쟁을 접수했어요. 앱에서 내용을 확인해주세요." e.offer_id e.proposal_id db

-- The handlers by name, since the bus compares handlers.
pub data Handler : Type 0 where
  offer_created_handler offer_accepted_handler runner_confirmed_handler orderer_confirmed_handler
        orderer_dispute_handler runner_dispute_handler :
      Handler

abbrev pub handler_rank : Handler → ℕ
handler_rank offer_created_handler = 0
handler_rank offer_accepted_handler = 1
handler_rank runner_confirmed_handler = 2
handler_rank orderer_confirmed_handler = 3
handler_rank orderer_dispute_handler = 4
handler_rank runner_dispute_handler = 5

abbrev pub same_handler : Handler → Handler → Bool
same_handler a b = handler_rank a == handler_rank b

-- A call `handler(event, db)`. `register_all` pairs each handler with the class of events that it
-- takes; a call with any other class, which the program never makes, counts as one that raises.
unfoldable pub run_handler : Moment → Handler → DomainEvent → Db → Result Error (Unit {0}) × Db
unfolding on_offer_created on_offer_accepted on_meeting_confirmed_by_runner
    on_meeting_confirmed_by_orderer on_dispute_raised_by_orderer on_dispute_raised_by_runner
run_handler now offer_created_handler (offer_created e) db = (ok tt, on_offer_created now e db)
run_handler now offer_accepted_handler (offer_accepted e) db = (ok tt, on_offer_accepted now e db)
run_handler now runner_confirmed_handler (meeting_confirmed_by_runner e) db =
    (ok tt, on_meeting_confirmed_by_runner now e db)
run_handler now orderer_confirmed_handler (meeting_confirmed_by_orderer e) db =
    (ok tt, on_meeting_confirmed_by_orderer now e db)
run_handler now orderer_dispute_handler (dispute_raised_by_orderer e) db =
    (ok tt, on_dispute_raised_by_orderer now e db)
run_handler now runner_dispute_handler (dispute_raised_by_runner e) db =
    (ok tt, on_dispute_raised_by_runner now e db)
run_handler now _ _ db = (err value_error, db)

abbrev pub Handlers : Type 0
Handlers = Registry Handler same_handler

abbrev pub no_handlers : Handlers
no_handlers t = []

unfoldable pub register_all : Handlers → Handlers
unfolding register
register_all r = register Handler same_handler 5 runner_dispute_handler (
    register Handler same_handler 4 orderer_dispute_handler (
      register Handler same_handler 3 orderer_confirmed_handler (
        register Handler same_handler 2 runner_confirmed_handler (
          register Handler same_handler 1 offer_accepted_handler
            (register Handler same_handler 0 offer_created_handler r)))))

-- `EventBus.publish` in the running application, which calls `register_all` once at its start.
unfoldable pub publish_event : Moment → DomainEvent → Db → Db
unfolding publish register_all run_handler
publish_event now event db =
    publish Handler same_handler (run_handler now) (register_all no_handlers) event db
