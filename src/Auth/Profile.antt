-- ===== src/Auth/Profile.antt =====
-- The profile of a user (app/services/user_auth/user_profile_service.py). A new name and a device
-- token come stripped.
use order_run_be.Base.{ℕ, Bool, String, List, Option, none, some, UserId, Moment, Result, ok, err}
use order_run_be.Errors.{Error, api, AppError}
use order_run_be.Models.User
use order_run_be.Models.User.{User}
use order_run_be.Security.{find_active_user}
use order_run_be.Auth.Sessions.{save_user, upsert_fcm_token}
use order_run_be.Db.{Db, Tx, ◌>>=◌, modify, found, Request, commit}

-- `UserDetailResponse`
pub record UserDetailResponse : Type 0 where
  pub id : UserId
  pub name : Option String
  pub phone : Option (List ℕ)
  pub phone_verified_at : Option Moment
  pub created_at : Moment
  pub last_login_at : Option Moment
  pub alarm_enabled : Option Bool
  pub level : ℕ

unfoldable pub get_user_detail : UserId → Db → Result Error UserDetailResponse
get_user_detail user_id db = elim (find_active_user user_id db) [
  | none ↦ err (api AppError.user_not_found)
  | some u ↦ ok (record {
    id = u.id;
    name = u.name;
    phone = u.phone;
    phone_verified_at = u.phone_verified_at;
    created_at = u.created_at;
    last_login_at = u.last_login_at;
    alarm_enabled = u.alarm_enabled;
    level = u.level;
  })
]

-- `_get_active_user`
abbrev pub get_active_user : UserId → Tx User
get_active_user user_id = found (find_active_user user_id) AppError.user_not_found

unfoldable pub update_alarm : UserId → Bool → Request (Unit {0})
unfolding User.update_alarm_setting
update_alarm user_id alarm_enabled = commit do
  fresh_user ← get_active_user user_id
  modify (save_user (User.update_alarm_setting alarm_enabled fresh_user))

unfoldable pub update_name : UserId → String → Request (Unit {0})
unfolding User.update_name
update_name user_id name =
    commit
      do fresh_user ← get_active_user user_id; modify (save_user (User.update_name name fresh_user))

unfoldable pub update_fcm_token : UserId → String → Request (Unit {0})
unfolding upsert_fcm_token
update_fcm_token user_id fcm_token =
    commit
      do fresh_user ← get_active_user user_id; modify (upsert_fcm_token fresh_user.id fcm_token)
