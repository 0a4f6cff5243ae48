-- ===== src/Scenarios/Accounts.antt =====
-- The theorems on phones, codes, tokens, notifications and settlement accounts at work.
use text.Mathlib.Text.{◌==◌ as same_string}
use order_run_be.Base.{false}
use order_run_be.Base.{
  ℕ, ◌+◌, ◌<◌, ◌≡◌, refl, String, List, [], ◌∷◌, none, some, true, ok, err, length, take, ltb,
  if◌then◌else◌, Memᴰ, arith, Moment, ltb, inl, inr,
}
use mathlib.Core.List.Memᴰ
use order_run_be.Errors.{api, AppError}
use order_run_be.Models.User.{
  AuthPhoneVerification, PhoneVerificationPurpose, PhoneVerificationStatus,
}
use order_run_be.Models.Notification.{Notification, NotificationType}
use order_run_be.Phone
use order_run_be.Phone.{normalize_phone, to_e164_kr}
use order_run_be.Phone.Normal
use order_run_be.Auth.Verification.{
  new_verification, verify, is_waiting_for, newest_pending, check_code,
}
use order_run_be.Auth.Attempts
use order_run_be.Auth.Attempts.{AreBounded, IsBounded}
use order_run_be.Security.{
  Payload, Jwt, Lifetimes, create_access_token, create_refresh_token, get_current_user,
  refreshed_user,
}
use order_run_be.Security.Types
use order_run_be.Events.Listener.{pending}
use order_run_be.Inbox.{get_notification_stats, mark_notifications_read}
use order_run_be.Inbox.Reading
use order_run_be.Settlement.{
  mask_account_number, stars, SettlementAccountRequest, get_account, save_account,
}
use order_run_be.Settlement.Masks
use order_run_be.Db.{Db}
use order_run_be.Auth.Profile.{update_alarm}
use order_run_be.Auth.Alarm
use order_run_be.Events.Bus.{DomainEvent, offer_created, add_handler}
use order_run_be.Events.Listener.{publish_event, on_offer_created, add_pending, alarm_enabled}
use order_run_be.Scenarios.{start, user}

-- "+82 1-2" and a number that it names
abbrev typed : List ℕ
typed = 43 ∷ 56 ∷ 50 ∷ 32 ∷ 49 ∷ 45 ∷ 50 ∷ []

normalize_phone-to_e164_kr_example : normalize_phone (to_e164_kr typed) ≡ normalize_phone typed
unfolding Phone.is_blank
normalize_phone-to_e164_kr_example = Normal.normalize_phone-to_e164_kr typed refl

-- A code was sent at moment 10; the hash is the code itself.
abbrev plain : String → String
plain s = s

abbrev sent : AuthPhoneVerification
sent = new_verification PhoneVerificationPurpose.login (48 ∷ 49 ∷ []) none none "123" 10 1

abbrev waiting : Db
waiting = record start { verifications = record { rows = sent ∷ []; next = 2 } }

waiting-AreBounded : AreBounded waiting
waiting-AreBounded v m = elim (Memᴰ.cases_cons m) [
  | inl e ↦ rw e (record { most = omega arith; waiting = λ h. omega arith })
  | inr k ↦ absurd (Memᴰ.not-nil k)
]

verify-AreBounded_example :
    AreBounded (verify plain 20 PhoneVerificationPurpose.login (48 ∷ 49 ∷ []) "999" waiting).1
verify-AreBounded_example =
    Attempts.verify-AreBounded plain 20 PhoneVerificationPurpose.login (48 ∷ 49 ∷ []) "999" waiting
      waiting-AreBounded

abbrev confirmed : AuthPhoneVerification
confirmed = record sent { status = PhoneVerificationStatus.verified; verified_at = some 20 }

right_code :
    (verify plain 20 PhoneVerificationPurpose.login (48 ∷ 49 ∷ []) "123" waiting).0 ≡ ok confirmed
unfolding verify newest_pending check_code
right_code = refl

verify-accepts_example :
    (w : AuthPhoneVerification) × Memᴰ w waiting.verifications.rows
    × (is_waiting_for PhoneVerificationPurpose.login (48 ∷ 49 ∷ []) w ≡ true)
    × (20 < w.expires_at)
    × (same_string w.code_hash (plain "123") ≡ true)
    × (confirmed ≡ record w { status = PhoneVerificationStatus.verified; verified_at = some 20 })
verify-accepts_example =
    Attempts.verify-accepts plain 20 PhoneVerificationPurpose.login (48 ∷ 49 ∷ []) "123" waiting
      confirmed right_code

-- Tokens that are their payloads
abbrev clear : Jwt Payload
clear = record { encode = λ p. p; decode = λ now p. if ltb now p.exp then some p else none }

clear_decodes :
    (now : Moment) (p : Payload) → now < p.exp → clear.decode now (clear.encode p) ≡ some p
clear_decodes now p h = ground arith

abbrev settings : Lifetimes
settings = record { access_minutes = 30; refresh_days = 14 }

access_token-names_example :
    (get_current_user clear 20 (some (create_access_token clear settings 10 7)) start
      ≡ ok (user 7 "mina"))
    × (refreshed_user clear 20 (create_access_token clear settings 10 7) start
        ≡ err (api AppError.invalid_token_type))
access_token-names_example =
    Types.access_token-names clear settings clear_decodes 10 20 7 start (user 7 "mina")
      (omega arith) refl

refresh_token-names_example :
    (refreshed_user clear 20 (create_refresh_token clear settings 10 7) start ≡ ok (user 7 "mina"))
    × (get_current_user clear 20 (some (create_refresh_token clear settings 10 7)) start
        ≡ err (api AppError.invalid_token_type))
refresh_token-names_example =
    Types.refresh_token-names clear settings clear_decodes 10 20 7 start (user 7 "mina")
      (omega arith) refl

-- User 7 has one notification, number 4.
abbrev notified : Db
notified = record start {
  notifications = record {
    rows = pending 7 NotificationType.offer_new "title" "body" 1 1 4 5 ∷ [];
    next = 5;
  };
}

one_marked : (mark_notifications_read 9 7 (4 ∷ []) notified).0 ≡ ok 1
unfolding mark_notifications_read pending
one_marked = refl

mark_notifications_read-stats_example :
    ((get_notification_stats 7
        (mark_notifications_read 9 7 (4 ∷ []) notified).1).total_notifications
      ≡ (get_notification_stats 7 notified).total_notifications)
    × ((get_notification_stats 7 (mark_notifications_read 9 7 (4 ∷ []) notified).1).unread_count + 1
        ≡ (get_notification_stats 7 notified).unread_count)
mark_notifications_read-stats_example =
    Reading.mark_notifications_read-stats 9 7 (4 ∷ []) notified 1 one_marked

abbrev number : List ℕ
number = 49 ∷ 50 ∷ 51 ∷ 52 ∷ 53 ∷ 54 ∷ []

mask_account_number-hides_example :
    (length (mask_account_number number) ≡ 6) × (take 2 (mask_account_number number) ≡ stars 2)
mask_account_number-hides_example = Masks.mask_account_number-hides number (omega arith)

abbrev request : SettlementAccountRequest
request = record { bank_name = "bank"; account_number = number; account_holder = "mina" }

get_account-save_account_example :
    (get_account 7 (save_account 7 request start).1
      ≡ some (record {
        bank_name = "bank";
        account_holder = "mina";
        masked_account_number = mask_account_number number;
      }))
    × (get_account 8 (save_account 7 request start).1 ≡ get_account 8 start)
get_account-save_account_example =
    Masks.get_account-save_account 7 8 request start (λ e. omega arith)

turned_off : (update_alarm 7 false notified).0 ≡ ok tt
unfolding update_alarm
turned_off = refl

abbrev news : Notification
news = pending 7 NotificationType.offer_new "title" "body" 1 1 4 5

abbrev offering : DomainEvent
offering = offer_created (record {
  offer_id = 1;
  proposal_id = 1;
  runner_id = 8;
  orderer_id = 7;
  proposal_title = "coffee";
})

kept_news :
    Memᴰ news (publish_event 90 offering (update_alarm 7 false notified).1).notifications.rows
unfolding update_alarm publish_event on_offer_created add_pending add_handler alarm_enabled
kept_news = Memᴰ.head refl

update_alarm-silences_example : Memᴰ news (update_alarm 7 false notified).1.notifications.rows
unfolding pending
update_alarm-silences_example =
    Alarm.update_alarm-silences 7 notified 90 offering news turned_off kept_news refl
