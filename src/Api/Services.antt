-- ===== src/Api/Services.antt =====
-- Every service keeps the database sound (app/services).
use order_run_be.Base.{ℕ, String, List, Option, none, some, UserId, Moment, Bool}
use order_run_be.Proposals.Commands as Drafts
use order_run_be.Proposals.Commands.{ProposalRequest}
use order_run_be.Proposals.Execution as Orderer
use order_run_be.Offers.Commands as Bids
use order_run_be.Offers.Execution as Runner
use order_run_be.Reports
use order_run_be.Withdrawal
use order_run_be.Terms
use order_run_be.Terms.{TermsAgreementRequest}
use order_run_be.Settlement
use order_run_be.Settlement.{SettlementAccountRequest}
use order_run_be.Inbox
use order_run_be.Inbox.{NotificationSendRequest}
use order_run_be.Delivery.{FcmService, SendResult}
use order_run_be.Delivery.Direct
use order_run_be.Delivery.Direct.{Letter, settle, row_of, kept_by}
use order_run_be.Auth.Sessions
use order_run_be.Auth.Profile
use order_run_be.Security.{Jwt, Lifetimes}
use order_run_be.Consistency.Drafts as Opened
use order_run_be.Consistency.Bids as Offered
use order_run_be.Consistency.Executions
use order_run_be.Consistency.Deliveries
use order_run_be.Consistency.Moderation
use order_run_be.Consistency.Withdrawals
use order_run_be.Commands.Mail
use order_run_be.Delivery.Upkeep
use order_run_be.Delivery.Upkeep.{letter_of}
use order_run_be.Consistency.{Consistent}
use order_run_be.Api.Aside
use order_run_be.Api.Sound.{IsSound, aside-IsSound}
use order_run_be.Db.{Db}

settle-Consistent :
    (fcm : FcmService) (created sent : ℕ → Moment) (u : UserId) (l : Letter) (db : Db)
    (r : Option SendResult)
    → Consistent db
    → Consistent (kept_by db (row_of (settle fcm created sent u l db r)))
settle-Consistent fcm created sent u l db none h = h
settle-Consistent fcm created sent u l db (some r) h = h

module _ (db : Db) (h : IsSound db) where
  pub drafts_create-IsSound :
      (t s : Moment) (r : ProposalRequest) (u : UserId) → IsSound (Drafts.create t s r u db).1
  drafts_create-IsSound t s r u = record {
    consistent = Opened.create-Consistent t s r u db h.consistent;
    orderly = Mail.drafts_create-Orderly t s r u db h.orderly;
  }

  pub drafts_update-IsSound :
      (t : Moment) (i : ℕ) (r : ProposalRequest) (u : UserId) → IsSound (Drafts.update t i r u db).1
  drafts_update-IsSound t i r u = record {
    consistent = Opened.update-Consistent t i r u db h.consistent;
    orderly = Mail.drafts_update-Orderly t i r u db h.orderly;
  }

  pub drafts_cancel-IsSound : (i : ℕ) (u : UserId) → IsSound (Drafts.cancel i u db).1
  drafts_cancel-IsSound i u = record {
    consistent = Opened.cancel-Consistent i u db h.consistent;
    orderly = Mail.drafts_cancel-Orderly i u db h.orderly;
  }

  pub drafts_confirm_payment-IsSound : (i : ℕ) → IsSound (Drafts.confirm_payment i db).1
  drafts_confirm_payment-IsSound i = record {
    consistent = Opened.confirm_payment-Consistent i db h.consistent;
    orderly = Mail.drafts_confirm_payment-Orderly i db h.orderly;
  }

  pub bids_create-IsSound : (t : Moment) (i : ℕ) (u : UserId) → IsSound (Bids.create t i u db).1
  bids_create-IsSound t i u = record {
    consistent = Offered.create-Consistent t i u db h.consistent;
    orderly = Mail.bids_create-Orderly t i u db h.orderly;
  }

  pub bids_cancel-IsSound : (i : ℕ) (u : UserId) → IsSound (Bids.cancel i u db).1
  bids_cancel-IsSound i u = record {
    consistent = Offered.cancel-Consistent i u db h.consistent;
    orderly = Mail.bids_cancel-Orderly i u db h.orderly;
  }

  pub bids_accept-IsSound : (s t : Moment) (i : ℕ) (u : UserId) → IsSound (Bids.accept s t i u db).1
  bids_accept-IsSound s t i u = record {
    consistent = Offered.accept-Consistent s t i u db h.consistent;
    orderly = Mail.bids_accept-Orderly s t i u db h.orderly;
  }

  pub orderer_confirm_received-IsSound :
      (s t v : Moment) (i : ℕ) (u : UserId) → IsSound (Orderer.confirm_received s t v i u db).1
  orderer_confirm_received-IsSound s t v i u = record {
    consistent = Executions.confirm_received-Consistent s t v i u db h.consistent;
    orderly = Mail.orderer_confirm_received-Orderly s t v i u db h.orderly;
  }

  pub orderer_raise_dispute-IsSound :
      (s t v : Moment) (i : ℕ) (u : UserId) (q : ℕ) (m : String)
      → IsSound (Orderer.raise_dispute s t v i u q m db).1
  orderer_raise_dispute-IsSound s t v i u q m = record {
    consistent = Executions.raise_dispute-Consistent s t v i u q m db h.consistent;
    orderly = Mail.orderer_raise_dispute-Orderly s t v i u q m db h.orderly;
  }

  pub runner_complete_delivery-IsSound :
      (s t v w : Moment) (i : ℕ) (u : UserId) → IsSound (Runner.complete_delivery s t v w i u db).1
  runner_complete_delivery-IsSound s t v w i u = record {
    consistent = Deliveries.complete_delivery-Consistent s t v w i u db h.consistent;
    orderly = Mail.runner_complete_delivery-Orderly s t v w i u db h.orderly;
  }

  pub runner_raise_dispute-IsSound :
      (s t v : Moment) (i : ℕ) (u : UserId) (q : ℕ) (m : String)
      → IsSound (Runner.raise_dispute s t v i u q m db).1
  runner_raise_dispute-IsSound s t v i u q m = record {
    consistent = Deliveries.raise_dispute-Consistent s t v i u q m db h.consistent;
    orderly = Mail.runner_raise_dispute-Orderly s t v i u q m db h.orderly;
  }

  pub runner_resolve-IsSound : (s t : Moment) (i : ℕ) → IsSound (Runner.resolve s t i db).1
  runner_resolve-IsSound s t i = record {
    consistent = Deliveries.resolve-Consistent s t i db h.consistent;
    orderly = Mail.runner_resolve-Orderly s t i db h.orderly;
  }

  pub reports_create-IsSound :
      (t : Moment) (i : ℕ) (u : UserId) (k : ℕ) (d : Option String)
      → IsSound (Reports.create t i u k d db).1
  reports_create-IsSound t i u k d = record {
    consistent = Moderation.create-Consistent t i u k d db h.consistent;
    orderly = Mail.reports_create-Orderly t i u k d db h.orderly;
  }

  pub reports_accept-IsSound : (t : Moment) (i : ℕ) → IsSound (Reports.accept t i db).1
  reports_accept-IsSound t i = record {
    consistent = Moderation.accept-Consistent t i db h.consistent;
    orderly = Mail.reports_accept-Orderly t i db h.orderly;
  }

  pub reports_reject-IsSound : (t : Moment) (i : ℕ) → IsSound (Reports.reject t i db).1
  reports_reject-IsSound t i = record {
    consistent = Moderation.reject-Consistent t i db h.consistent;
    orderly = Mail.reports_reject-Orderly t i db h.orderly;
  }

  pub withdraw_user-IsSound :
      (t : Moment) (u : UserId) → IsSound (Withdrawal.withdraw_user t u db).1
  withdraw_user-IsSound t u = record {
    consistent = Withdrawals.withdraw_user-Consistent t u db h.consistent;
    orderly = Mail.withdraw_user-Orderly t u db h.orderly;
  }

  pub mark_notifications_read-IsSound :
      (now : Moment) (u : UserId) (is : List ℕ)
      → IsSound (Inbox.mark_notifications_read now u is db).1
  unfolding Inbox.mark_notifications_read
  mark_notifications_read-IsSound now u is = record {
    consistent = h.consistent;
    orderly = Upkeep.mark_notifications_read-Orderly now u is db h.orderly;
  }

  pub send_custom_notification-IsSound :
      (fcm : FcmService) (created sent : ℕ → Moment) (u : UserId) (r : NotificationSendRequest)
      → IsSound (kept_by db (Inbox.send_custom_notification fcm created sent u r db))
  unfolding Inbox.send_custom_notification Direct.send_custom_notification Direct.send_to_user
  send_custom_notification-IsSound fcm created sent u r = record {
    consistent = settle-Consistent fcm created sent u (letter_of r) db _ h.consistent;
    orderly = Upkeep.send_custom_notification-Orderly fcm created sent u r db h.orderly;
  }

  pub update_alarm-IsSound : (u : UserId) (b : Bool) → IsSound (Profile.update_alarm u b db).1
  update_alarm-IsSound u b = aside-IsSound db _ (Aside.update_alarm-IsAside u b db) h

  pub update_name-IsSound : (u : UserId) (n : String) → IsSound (Profile.update_name u n db).1
  update_name-IsSound u n = aside-IsSound db _ (Aside.update_name-IsAside u n db) h

  pub update_fcm_token-IsSound :
      (u : UserId) (t : String) → IsSound (Profile.update_fcm_token u t db).1
  update_fcm_token-IsSound u t = aside-IsSound db _ (Aside.update_fcm_token-IsAside u t db) h

  pub agree-IsSound :
      (now : Moment) (u : UserId) (r : TermsAgreementRequest) → IsSound (Terms.agree now u r db).1
  agree-IsSound now u r = aside-IsSound db _ (Aside.agree-IsAside now u r db) h

  pub save_account-IsSound :
      (u : UserId) (r : SettlementAccountRequest) → IsSound (Settlement.save_account u r db).1
  save_account-IsSound u r = aside-IsSound db _ (Aside.save_account-IsAside u r db) h

  pub signup_send-IsSound :
      (hash : String → String) (jwt : Jwt String) (settings : Lifetimes) (s : Bool)
      (checked now : Moment) (c : String) (n : List ℕ) (name carrier : String)
      → IsSound
          (Sessions.send_signup_verification hash jwt settings s checked now c n name carrier db).1
  signup_send-IsSound hash jwt settings s checked now c n name carrier =
      aside-IsSound db _
        (Aside.signup_send-IsAside hash jwt settings s checked now c n name carrier db) h

  pub login_send-IsSound :
      (hash : String → String) (jwt : Jwt String) (settings : Lifetimes) (s : Bool)
      (checked now : Moment) (c : String) (n : List ℕ)
      → IsSound (Sessions.send_login_verification hash jwt settings s checked now c n db).1
  login_send-IsSound hash jwt settings s checked now c n =
      aside-IsSound db _ (Aside.login_send-IsAside hash jwt settings s checked now c n db) h

  pub confirm_signup-IsSound :
      (hash : String → String) (jwt : Jwt String) (settings : Lifetimes) (id : UserId)
      (checked now flushed issued : Moment) (n : List ℕ) (c : String)
      → IsSound (Sessions.confirm_signup hash jwt settings id checked now flushed issued n c db).1
  confirm_signup-IsSound hash jwt settings id checked now flushed issued n c =
      aside-IsSound db _
        (Aside.confirm_signup-IsAside hash jwt settings id checked now flushed issued n c db) h

  pub confirm_login-IsSound :
      (hash : String → String) (jwt : Jwt String) (settings : Lifetimes) (env : String)
      (checked now issued : Moment) (n : List ℕ) (c : String) (t : Option String)
      → IsSound (Sessions.confirm_login hash jwt settings env checked now issued n c t db).1
  confirm_login-IsSound hash jwt settings env checked now issued n c t =
      aside-IsSound db _
        (Aside.confirm_login-IsAside hash jwt settings env checked now issued n c t db) h

pub ruleset services = (
  drafts_create-IsSound, drafts_update-IsSound, drafts_cancel-IsSound,
  drafts_confirm_payment-IsSound, bids_create-IsSound, bids_cancel-IsSound, bids_accept-IsSound,
  orderer_confirm_received-IsSound, orderer_raise_dispute-IsSound, runner_complete_delivery-IsSound,
  runner_raise_dispute-IsSound, runner_resolve-IsSound, reports_create-IsSound,
  reports_accept-IsSound, reports_reject-IsSound, withdraw_user-IsSound, update_alarm-IsSound,
  update_name-IsSound, update_fcm_token-IsSound, agree-IsSound, save_account-IsSound,
  signup_send-IsSound, login_send-IsSound, confirm_signup-IsSound, confirm_login-IsSound,
  mark_notifications_read-IsSound, send_custom_notification-IsSound,
)
