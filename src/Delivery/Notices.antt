-- ===== src/Delivery/Notices.antt =====
-- The business notices of the dispatcher
-- (app/services/notification/notification_dispatcher.py). Ids and amounts are not negative.
use Prim.Native.String.{◌++◌ as join}
use order_run_be.Base.{ℕ, String, List, [], ◌∷◌, Option, none, some, Moment, UserId}
use order_run_be.Models.Notification.{NotificationType, Value, number, text}
use order_run_be.Delivery.{FcmService}
use order_run_be.Delivery.Direct.{tell, Told}
use order_run_be.Delivery.Wording.{with_commas, quoted, or_empty, with_reason}

module _ (fcm : FcmService) (created sent : ℕ → Moment) where
  unfoldable pub notify_proposal_matched : ℕ → UserId → UserId → String → Told → Told
  notify_proposal_matched proposal_id customer_id runner_id title told =
      tell fcm created sent runner_id
        (record {
          notification_type = NotificationType.proposal_matched;
          title = "새로운 미션이 배정되었습니다!";
          body = (quoted title " 미션을 시작하세요.");
          entries =
              some (("proposal_id", number proposal_id) ∷ ("customer_id", number customer_id) ∷ []);
          related_entity_type = some "proposal";
          related_entity_id = some proposal_id;
          image = none;
        })
        (tell fcm created sent customer_id
          (record {
            notification_type = NotificationType.proposal_matched;
            title = "의뢰가 매칭되었습니다!";
            body = (quoted title " 의뢰에 러너가 배정되었습니다.");
            entries =
                some (("proposal_id", number proposal_id) ∷ ("runner_id", number runner_id) ∷ []);
            related_entity_type = some "proposal";
            related_entity_id = some proposal_id;
            image = none;
          })
          told)

  -- The loop over the affected users
  unfoldable pub notify_proposal_cancelled : ℕ → List UserId → String → Option String → Told → Told
  notify_proposal_cancelled proposal_id [] title reason told = told
  notify_proposal_cancelled proposal_id (user_id ∷ rest) title reason told =
      notify_proposal_cancelled proposal_id rest title reason (
        tell fcm created sent user_id
          (record {
            notification_type = NotificationType.proposal_cancelled;
            title = "의뢰가 취소되었습니다";
            body = with_reason (quoted title " 의뢰가 취소되었습니다.") reason;
            entries =
                some
                  (("proposal_id", number proposal_id) ∷ ("reason", text (or_empty reason)) ∷ []);
            related_entity_type = some "proposal";
            related_entity_id = some proposal_id;
            image = none;
          })
          told)

  unfoldable pub notify_offer_received : ℕ → ℕ → UserId → UserId → String → ℕ → Told → Told
  notify_offer_received offer_id proposal_id customer_id runner_id title amount told =
      tell fcm created sent customer_id
        (record {
          notification_type = NotificationType.offer_new;
          title = "새로운 제안이 도착했습니다!";
          body = (quoted title (join " 의뢰에 " (join (with_commas amount) "원의 제안이 왔습니다.")));
          entries = some (
              ("offer_id", number offer_id)
              ∷ ("proposal_id", number proposal_id)
              ∷ ("runner_id", number runner_id)
              ∷ ("amount", number amount)
              ∷ []);
          related_entity_type = some "offer";
          related_entity_id = some offer_id;
          image = none;
        })
        told

  unfoldable pub notify_offer_accepted : ℕ → ℕ → UserId → String → Told → Told
  notify_offer_accepted offer_id proposal_id runner_id title told =
      tell fcm created sent runner_id
        (record {
          notification_type = NotificationType.offer_accepted;
          title = "제안이 수락되었습니다!";
          body = (quoted title " 제안이 수락되었습니다. 미션을 시작하세요!");
          entries = some (("offer_id", number offer_id) ∷ ("proposal_id", number proposal_id) ∷ []);
          related_entity_type = some "offer";
          related_entity_id = some offer_id;
          image = none;
        })
        told

  unfoldable pub notify_offer_rejected : ℕ → ℕ → UserId → String → Told → Told
  notify_offer_rejected offer_id proposal_id runner_id title told =
      tell fcm created sent runner_id
        (record {
          notification_type = NotificationType.offer_rejected;
          title = "제안이 거절되었습니다";
          body = (quoted title " 제안이 거절되었습니다.");
          entries = some (("offer_id", number offer_id) ∷ ("proposal_id", number proposal_id) ∷ []);
          related_entity_type = some "offer";
          related_entity_id = some offer_id;
          image = none;
        })
        told

  unfoldable pub notify_execution_started : ℕ → ℕ → UserId → UserId → String → Told → Told
  notify_execution_started offer_id proposal_id customer_id runner_id title told =
      tell fcm created sent runner_id
        (record {
          notification_type = NotificationType.execution_started;
          title = "수행을 시작하세요";
          body = (quoted title " 요청이 시작되었습니다.");
          entries = some (
              ("offer_id", number offer_id)
              ∷ ("proposal_id", number proposal_id)
              ∷ ("customer_id", number customer_id)
              ∷ []);
          related_entity_type = some "offer";
          related_entity_id = some offer_id;
          image = none;
        })
        (tell fcm created sent customer_id
          (record {
            notification_type = NotificationType.execution_started;
            title = "수행이 시작되었습니다";
            body = (quoted title " 요청이 진행 중입니다.");
            entries = some (
                ("offer_id", number offer_id)
                ∷ ("proposal_id", number proposal_id)
                ∷ ("runner_id", number runner_id)
                ∷ []);
            related_entity_type = some "offer";
            related_entity_id = some offer_id;
            image = none;
          })
          told)

  unfoldable pub notify_execution_completed : ℕ → ℕ → UserId → UserId → String → Told → Told
  notify_execution_completed offer_id proposal_id customer_id runner_id title told =
      tell fcm created sent runner_id
        (record {
          notification_type = NotificationType.execution_completed;
          title = "수행 완료!";
          body = (quoted title " 요청을 완료했습니다. 수고하셨습니다!");
          entries = some (
              ("offer_id", number offer_id)
              ∷ ("proposal_id", number proposal_id)
              ∷ ("customer_id", number customer_id)
              ∷ []);
          related_entity_type = some "offer";
          related_entity_id = some offer_id;
          image = none;
        })
        (tell fcm created sent customer_id
          (record {
            notification_type = NotificationType.execution_completed;
            title = "수행이 완료되었습니다!";
            body = (quoted title " 요청이 성공적으로 완료되었습니다.");
            entries = some (
                ("offer_id", number offer_id)
                ∷ ("proposal_id", number proposal_id)
                ∷ ("runner_id", number runner_id)
                ∷ []);
            related_entity_type = some "offer";
            related_entity_id = some offer_id;
            image = none;
          })
          told)

  unfoldable pub notify_payment_completed : ℕ → UserId → ℕ → String → Told → Told
  notify_payment_completed payment_id user_id amount title told =
      tell fcm created sent user_id
        (record {
          notification_type = NotificationType.payment_completed;
          title = "결제가 완료되었습니다";
          body = (quoted title (join " 요청 결제 " (join (with_commas amount) "원이 완료되었습니다.")));
          entries = some (("payment_id", number payment_id) ∷ ("amount", number amount) ∷ []);
          related_entity_type = some "payment";
          related_entity_id = some payment_id;
          image = none;
        })
        told

  unfoldable pub notify_payment_failed : ℕ → UserId → ℕ → String → Option String → Told → Told
  notify_payment_failed payment_id user_id amount title reason told =
      tell fcm created sent user_id
        (record {
          notification_type = NotificationType.payment_failed;
          title = "결제가 실패했습니다";
          body =
              (with_reason (quoted title (join " 요청 결제 " (join (with_commas amount) "원이 실패했습니다.")))
                reason);
          entries = some (
              ("payment_id", number payment_id)
              ∷ ("amount", number amount)
              ∷ ("reason", text (or_empty reason))
              ∷ []);
          related_entity_type = some "payment";
          related_entity_id = some payment_id;
          image = none;
        })
        told

  -- The loop over the users
  unfoldable pub notify_system_announcement :
      List UserId → String → String → Option (List (String × Value)) → Told → Told
  notify_system_announcement [] title body entries told = told
  notify_system_announcement (user_id ∷ rest) title body entries told =
      notify_system_announcement rest title body entries (
        tell fcm created sent user_id
          (record {
            notification_type = NotificationType.system_announcement;
            title = title;
            body = body;
            entries = entries;
            related_entity_type = none;
            related_entity_id = none;
            image = none;
          })
          told)
