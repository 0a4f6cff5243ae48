-- ===== src/Models/User.antt =====
-- Account rows, phone verification records and device tokens (app/models/user.py).
use order_run_be.Base.{ℕ, String, List, Bool, true, false, Option, none, some, UserId, Moment}

-- `PhoneVerificationPurpose`
pub data PhoneVerificationPurpose : Type 0 where
  signup login : PhoneVerificationPurpose

abbrev pub is_purpose : PhoneVerificationPurpose → PhoneVerificationPurpose → Bool
is_purpose signup signup = true
is_purpose login login = true
is_purpose _ _ = false

-- `PhoneVerificationStatus`
pub data PhoneVerificationStatus : Type 0 where
  pending verified expired : PhoneVerificationStatus

abbrev pub is_pending : PhoneVerificationStatus → Bool
is_pending pending = true
is_pending _ = false

-- The columns of `class User`; a phone number is the list of its characters.
pub record User : Type 0 where
  pub id : UserId
  pub password_hash : Option String
  pub name : Option String
  pub phone : Option (List ℕ)
  pub phone_verified_at : Option Moment
  pub last_login_at : Option Moment
  pub alarm_enabled : Option Bool
  pub level : ℕ
  pub deleted : Bool
  pub deleted_at : Option Moment
  pub created_at : Moment

unfoldable pub update_last_login_at : Moment → User → User
update_last_login_at current_time u = record u { last_login_at = some current_time }

unfoldable pub update_alarm_setting : Bool → User → User
update_alarm_setting alarm_enabled u = record u { alarm_enabled = some alarm_enabled }

unfoldable pub update_name : String → User → User
update_name name u = record u { name = some name }

unfoldable pub verify_phone : List ℕ → Moment → User → User
verify_phone phone verified_at u = record u {
  phone = some phone;
  phone_verified_at = some verified_at;
}

unfoldable pub withdraw : Moment → User → User
withdraw withdrawn_at u = record u {
  deleted = true;
  deleted_at = some withdrawn_at;
  password_hash = none;
  name = none;
  phone = none;
  phone_verified_at = none;
  last_login_at = none;
  alarm_enabled = none;
}

-- The columns of `class AuthPhoneVerification`
pub record AuthPhoneVerification : Type 0 where
  pub id : ℕ
  pub purpose : PhoneVerificationPurpose
  pub phone : List ℕ
  pub name : Option String
  pub carrier : Option String
  pub code_hash : String
  pub status : PhoneVerificationStatus
  pub expires_at : Moment
  pub sent_at : Moment
  pub verified_at : Option Moment
  pub attempt_count : ℕ

-- The columns of `class UserFcmToken`
pub record UserFcmToken : Type 0 where
  pub user_id : UserId
  pub fcm_token : String
