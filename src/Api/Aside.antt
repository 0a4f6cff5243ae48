-- ===== src/Api/Aside.antt =====
-- The services of accounts leave the proposals, the offers and the notifications alone
-- (app/services/user_auth, app/services/terms, app/services/settlement).
use order_run_be.Base.{ℕ, ◌≡◌, refl, Bool, String, List, Option, UserId, Moment, arith}
use order_run_be.Models.User.{PhoneVerificationPurpose}
use order_run_be.Security.{Jwt, Lifetimes}
use order_run_be.Auth.Verification as Codes
use order_run_be.Auth.Sessions
use order_run_be.Auth.Profile
use order_run_be.Terms
use order_run_be.Terms.{TermsAgreementRequest}
use order_run_be.Settlement
use order_run_be.Settlement.{SettlementAccountRequest}
use order_run_be.Db.{Db}

abbrev pub IsAside : Db → Db → Type 0
IsAside before after =
    (after.proposals ≡ before.proposals)
    × (after.offers ≡ before.offers)
    × (after.notifications ≡ before.notifications)

pub update_alarm-IsAside :
    (u : UserId) (b : Bool) (db : Db) → IsAside db (Profile.update_alarm u b db).1
unfolding Profile.update_alarm
update_alarm-IsAside u b db = ground arith

pub update_fcm_token-IsAside :
    (u : UserId) (t : String) (db : Db) → IsAside db (Profile.update_fcm_token u t db).1
unfolding Profile.update_fcm_token Sessions.upsert_fcm_token
update_fcm_token-IsAside u t db = ground arith

pub agree-IsAside :
    (now : Moment) (u : UserId) (r : TermsAgreementRequest) (db : Db)
    → IsAside db (Terms.agree now u r db).1
unfolding Terms.agree
agree-IsAside now u r db = ground arith

pub save_account-IsAside :
    (u : UserId) (r : SettlementAccountRequest) (db : Db)
    → IsAside db (Settlement.save_account u r db).1
unfolding Settlement.save_account
save_account-IsAside u r db = (refl, refl, refl)

verify-IsAside :
    (h : String → String) (now : Moment) (p : PhoneVerificationPurpose) (n : List ℕ) (c : String)
    (db : Db)
    → IsAside db (Codes.verify h now p n c db).1
unfolding Codes.verify Codes.check_code
verify-IsAside h now p n c db = ground arith

pub update_name-IsAside :
    (u : UserId) (n : String) (db : Db) → IsAside db (Profile.update_name u n db).1
unfolding Profile.update_name
update_name-IsAside u n db = ground arith

module _ {Token : Type 0} (h : String → String) (jwt : Jwt Token) (settings : Lifetimes) where
  send-IsAside :
      (s : Bool) (checked now : Moment) (c : String) (p : PhoneVerificationPurpose) (n : List ℕ)
      (name carrier : Option String) (db : Db)
      → IsAside db (Codes.send h s checked now c p n name carrier db).1
  unfolding Codes.send
  send-IsAside s checked now c p n name carrier db = ground arith

  pub signup_send-IsAside :
      (s : Bool) (checked now : Moment) (c : String) (n : List ℕ) (name carrier : String) (db : Db)
      → IsAside db
          (Sessions.send_signup_verification h jwt settings s checked now c n name carrier db).1
  unfolding Sessions.send_signup_verification Codes.send
  signup_send-IsAside s checked now c n name carrier db = ground arith

  pub login_send-IsAside :
      (s : Bool) (checked now : Moment) (c : String) (n : List ℕ) (db : Db)
      → IsAside db (Sessions.send_login_verification h jwt settings s checked now c n db).1
  unfolding Sessions.send_login_verification Codes.send
  login_send-IsAside s checked now c n db = ground arith

  pub confirm_signup-IsAside :
      (id : UserId) (checked now flushed issued : Moment) (n : List ℕ) (c : String) (db : Db)
      → IsAside db (Sessions.confirm_signup h jwt settings id checked now flushed issued n c db).1
  unfolding Sessions.confirm_signup Codes.verify Codes.check_code
  confirm_signup-IsAside id checked now flushed issued n c db = ground arith

  pub confirm_login-IsAside :
      (env : String) (checked now issued : Moment) (n : List ℕ) (c : String) (t : Option String)
      (db : Db)
      → IsAside db (Sessions.confirm_login h jwt settings env checked now issued n c t db).1
  unfolding Sessions.confirm_login Codes.verify Codes.check_code Sessions.upsert_fcm_token
  confirm_login-IsAside env checked now issued n c t db = ground arith
