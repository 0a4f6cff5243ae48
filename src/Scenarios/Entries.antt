-- ===== src/Scenarios/Entries.antt =====
-- The theorems on sign-up and login at work.
use order_run_be.Base.{
  ℕ, ◌<◌, ◌≡◌, refl, String, List, [], ◌∷◌, none, some, Moment, if◌then◌else◌, ltb, arith,
}
use order_run_be.Models.User.{
  AuthPhoneVerification, PhoneVerificationPurpose, PhoneVerificationStatus, update_last_login_at,
}
use order_run_be.Security.{Jwt, Payload, Lifetimes}
use order_run_be.Phone.{normalize_phone, is_blank}
use order_run_be.Auth.Verification.{verify, newest_pending, check_code}
use order_run_be.Auth.Sessions.{build_tokens, confirm_signup, confirm_login, upsert_fcm_token}
use order_run_be.Auth.Entry
use order_run_be.Auth.Entry.{IsSession}
use order_run_be.Db.{Db}
use order_run_be.Scenarios.{start, user}

-- Codes are their own hashes, tokens their payloads.
abbrev plain : String → String
plain code = code

abbrev clear : Jwt Payload
clear = record { encode = λ p. p; decode = λ now p. if ltb now p.exp then some p else none }

clear_decodes :
    (now : Moment) (p : Payload) → now < p.exp → clear.decode now (clear.encode p) ≡ some p
clear_decodes now p h = ground arith

abbrev settings : Lifetimes
settings = record { access_minutes = 30; refresh_days = 14 }

abbrev phone : List ℕ
phone = 48 ∷ 49 ∷ []

abbrev code_for : PhoneVerificationPurpose → AuthPhoneVerification
code_for purpose = record {
  id = 1;
  purpose = purpose;
  phone = phone;
  name = some "hana";
  carrier = none;
  code_hash = "123";
  status = PhoneVerificationStatus.pending;
  expires_at = 100;
  sent_at = 10;
  verified_at = none;
  attempt_count = 0;
}

abbrev signing : Db
signing = record start {
  verifications = record { rows = code_for PhoneVerificationPurpose.signup ∷ []; next = 2 };
}

confirm_signup-IsSession_example :
    IsSession clear 30
      (build_tokens clear settings 23 5).access_token
      5
      (normalize_phone phone)
      (confirm_signup plain clear settings 5 20 21 22 23 phone "123" signing).1
unfolding confirm_signup verify newest_pending check_code normalize_phone is_blank build_tokens
confirm_signup-IsSession_example =
    Entry.confirm_signup-IsSession plain clear settings clear_decodes 5 20 21 22 23 30 phone "123"
      signing refl refl (omega arith)

abbrev returning : Db
returning = record start {
  users = record (user 7 "mina") { phone = some phone } ∷ [];
  verifications = record { rows = code_for PhoneVerificationPurpose.login ∷ []; next = 2 };
}

confirm_login-IsSession_example :
    IsSession clear 30
      (build_tokens clear settings 22 7).access_token
      7
      (normalize_phone phone)
      (confirm_login plain clear settings "production" 20 21 22 phone "123"
        (some "device")
        returning).1
unfolding confirm_login verify newest_pending check_code normalize_phone is_blank build_tokens
    update_last_login_at upsert_fcm_token
confirm_login-IsSession_example =
    Entry.confirm_login-IsSession plain clear settings clear_decodes "production" 20 21 22 30 phone
      "123" (some "device") returning refl (omega arith)
