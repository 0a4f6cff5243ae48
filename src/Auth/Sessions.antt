-- ===== src/Auth/Sessions.antt =====
-- Sign-up, login and refresh (app/services/user_auth/user_auth_service.py). A request's name,
-- carrier and device token come stripped. `commit()` fails where the unique phone number is taken.
use text.Mathlib.Text.{◌==◌ as same_string}
use order_run_be.Base.{
  ℕ, Bool, false, String, List, [], ◌∷◌, ◌++◌, Option, none, some, ◌==◌, ◌||◌, ◌&&◌, not,
  if◌then◌else◌, UserId, Moment, first, update_where, is_some, Result, ok, err,
}
use order_run_be.Errors.{Error, api, AppError}
use order_run_be.Models.User
use order_run_be.Models.User.{User, UserFcmToken, AuthPhoneVerification, PhoneVerificationPurpose}
use order_run_be.Phone.{normalize_phone, same_text}
use order_run_be.Security.{
  Jwt, Lifetimes, create_access_token, create_refresh_token, access_token_expires_in_ms,
  refreshed_user,
}
use order_run_be.Db.{Db, Request}
use order_run_be.Auth.Verification.{send, verify, SendResponse}

abbrev pub has_phone : List ℕ → Option (List ℕ) → Bool
has_phone phone none = false
has_phone phone (some other) = same_text other phone

-- `_find_user_by_phone`
abbrev pub find_user_by_phone : List ℕ → Db → Option User
find_user_by_phone phone db = first (λ u. has_phone phone u.phone && not u.deleted) db.users

-- `AuthTokenResponse`
pub record AuthTokenResponse (Token : Type 0) : Type 0 where
  pub access_token : Token
  pub refresh_token : Token
  pub expires_in : ℕ
  pub user_id : UserId

-- `_build_tokens`
unfoldable pub build_tokens :
    {Token : Type 0} → Jwt Token → Lifetimes → Moment → UserId → AuthTokenResponse Token
unfolding create_access_token create_refresh_token access_token_expires_in_ms
build_tokens jwt settings now user_id = record {
  access_token = create_access_token jwt settings now user_id;
  refresh_token = create_refresh_token jwt settings now user_id;
  expires_in = access_token_expires_in_ms settings;
  user_id = user_id;
}

-- `User(name=verification.name or "", phone=phone, …)`, with the drawn id
abbrev pub new_user : UserId → Option String → List ℕ → Moment → Moment → User
new_user id name phone now created_at = record {
  id = id;
  password_hash = none;
  name = some (elim name [ none ↦ "" | some n ↦ n ]);
  phone = some phone;
  phone_verified_at = some now;
  last_login_at = some now;
  alarm_enabled = some false;
  level = 0;
  deleted = false;
  deleted_at = none;
  created_at = created_at;
}

-- `upsert_fcm_token` (app/services/user_auth/user_profile_service.py)
unfoldable pub upsert_fcm_token : UserId → String → Db → Db
upsert_fcm_token user_id fcm_token db =
    elim (first (λ (t : UserFcmToken). t.user_id == user_id) db.fcm_tokens) [
      | none ↦ record db {
        fcm_tokens = db.fcm_tokens ++ record { user_id = user_id; fcm_token = fcm_token } ∷ [];
      }
      | some _ ↦ record db {
        fcm_tokens =
            update_where (λ t. t.user_id == user_id) (λ t. record t { fcm_token = fcm_token })
              db.fcm_tokens;
      }
    ]

abbrev pub save_user : User → Db → Db
save_user u db = record db { users = update_where (λ v. v.id == u.id) (λ _. u) db.users }

-- `is_login_test_code_allowed` (app/services/user_auth/phone_verification.py), with the lower-case
-- name of the environment
abbrev pub is_login_test_code_allowed : String → String → Bool
is_login_test_code_allowed app_env code =
    same_string code "123456"
    && (same_string app_env "development"
        || same_string app_env "local"
        || same_string app_env "staging")

abbrev without_value : {A : Type 0} → Result Error A × Db → Result Error (Unit {0}) × Db
without_value (ok a, db) = (ok tt, db)
without_value (err e, db) = (err e, db)

module _ {Token : Type 0} (hash_code : String → String) (jwt : Jwt Token)
    (settings : Lifetimes) where
  unfoldable pub send_signup_verification :
      Bool → Moment → Moment → String → List ℕ → String → String → Request SendResponse
  unfolding send normalize_phone
  send_signup_verification has_sender checked now code raw_phone name carrier db =
      let phone = normalize_phone raw_phone in
      let sent =
        send hash_code has_sender checked now code PhoneVerificationPurpose.signup phone (some name)
          (some carrier) db in
      if is_some (find_user_by_phone phone db)
      then (err (api AppError.phone_already_exists), db)
      else sent

  unfoldable pub send_login_verification :
      Bool → Moment → Moment → String → List ℕ → Request SendResponse
  unfolding send normalize_phone
  send_login_verification has_sender checked now code raw_phone db =
      let phone = normalize_phone raw_phone in
      let sent =
        send hash_code has_sender checked now code PhoneVerificationPurpose.login phone none none
          db in
      if is_some (find_user_by_phone phone db)
      then sent
      else (err (api AppError.invalid_credentials), db)

  -- After the code is verified: `before` is the database that a rollback returns to.
  abbrev pub sign_up :
      Db
      → UserId
      → Moment
      → Moment
      → Moment
      → List ℕ
      → Result Error AuthPhoneVerification × Db
      → Result Error (AuthTokenResponse Token) × Db
  sign_up before id now flushed issued phone (err e, db) = (err e, db)
  sign_up before id now flushed issued phone (ok verification, db) =
      if is_some (find_user_by_phone phone before)
        || is_some (first (λ u. has_phone phone u.phone) before.users)
      then (err (api AppError.phone_already_exists), before)
      else (
        ok (build_tokens jwt settings issued id),
        record db { users = db.users ++ new_user id verification.name phone now flushed ∷ [] },
      )

  unfoldable pub confirm_signup :
      UserId
      → Moment
      → Moment
      → Moment
      → Moment
      → List ℕ
      → String
      → Request (AuthTokenResponse Token)
  unfolding verify normalize_phone build_tokens
  confirm_signup id checked now flushed issued raw_phone code db =
      let phone = normalize_phone raw_phone in
      sign_up db id now flushed issued phone
        (verify hash_code checked PhoneVerificationPurpose.signup phone code db)

  -- The end of a login: the moment of the login, the device token, and the commit.
  abbrev pub log_in :
      User
      → Moment
      → Moment
      → Option String
      → Result Error (Unit {0}) × Db
      → Result Error (AuthTokenResponse Token) × Db
  log_in user now issued fcm_token (err e, db) = (err e, db)
  log_in user now issued fcm_token (ok _, db) =
      let touched = save_user (User.update_last_login_at now user) db in
      (
        ok (build_tokens jwt settings issued user.id),
        elim fcm_token [ none ↦ touched | some t ↦ upsert_fcm_token user.id t touched ],
      )

  -- The code of a login: the fixed one, where the environment allows it, or the one that was sent.
  abbrev pub check_login_code : String → Moment → List ℕ → String → Request (Unit {0})
  check_login_code app_env now phone code db =
      let sent = verify hash_code now PhoneVerificationPurpose.login phone code db in
      if is_login_test_code_allowed app_env code then (ok tt, db) else without_value sent

  unfoldable pub confirm_login :
      String
      → Moment
      → Moment
      → Moment
      → List ℕ
      → String
      → Option String
      → Request (AuthTokenResponse Token)
  unfolding verify normalize_phone build_tokens User.update_last_login_at upsert_fcm_token
  confirm_login app_env checked now issued raw_phone code fcm_token db =
      let phone = normalize_phone raw_phone in
      elim (find_user_by_phone phone db) [
        | none ↦ (err (api AppError.user_not_found), db)
        | some user ↦
            log_in user now issued fcm_token (check_login_code app_env checked phone code db)
      ]

  -- `refresh_access_token`: the access token and its lifetime
  unfoldable pub refresh_access_token : Moment → Moment → Token → Db → Result Error (Token × ℕ)
  unfolding refreshed_user create_access_token access_token_expires_in_ms
  refresh_access_token now issued token db = elim (refreshed_user jwt now token db) [
    | err e ↦ err e
    | ok user ↦
        ok (create_access_token jwt settings issued user.id, access_token_expires_in_ms settings)
  ]
