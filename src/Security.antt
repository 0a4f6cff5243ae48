-- ===== src/Security.antt =====
-- Tokens (app/core/security.py). `jwt` is a parameter: `encode` signs a payload, `decode` answers
-- none where it raises `JWTError`, as for a token that has expired at that moment.
pub mod Types
use order_run_be.Base.{
  ℕ, ◌+◌, ◌*◌, Bool, true, false, String, Option, none, some, ◌==◌, not, UserId, Moment, Result, ok,
  err, first, ◌&&◌, if◌then◌else◌,
}
use order_run_be.Errors.{Error, api, AppError}
use order_run_be.Models.User.{User}
use order_run_be.Db.{Db}

-- The values of `type` in a payload
pub data TokenType : Type 0 where
  access refresh : TokenType

abbrev pub is_type : TokenType → TokenType → Bool
is_type access access = true
is_type refresh refresh = true
is_type _ _ = false

pub record Payload : Type 0 where
  pub sub : Option UserId
  pub exp : Moment
  pub type_name : TokenType

-- A JWT library with the secret and the algorithm of the settings, over its texts of tokens, which
-- the program only passes on
pub record Jwt (Token : Type 0) : Type 0 where
  pub encode : Payload → Token
  pub decode : Moment → Token → Option Payload

-- `settings.jwt_access_token_expire_minutes` and `settings.jwt_refresh_token_expire_days`
pub record Lifetimes : Type 0 where
  pub access_minutes : ℕ
  pub refresh_days : ℕ

unfoldable pub access_token_expires_in_ms : Lifetimes → ℕ
access_token_expires_in_ms settings = settings.access_minutes * 60 * 1000

-- With the default `expires_delta`, which all callers leave.
abbrev pub access_payload : Lifetimes → Moment → UserId → Payload
access_payload settings now sub = record {
  sub = some sub;
  exp = now + settings.access_minutes * 60000000;
  type_name = access;
}

unfoldable pub create_access_token :
    {Token : Type 0} → Jwt Token → Lifetimes → Moment → UserId → Token
create_access_token jwt settings now sub = jwt.encode (access_payload settings now sub)

abbrev pub refresh_payload : Lifetimes → Moment → UserId → Payload
refresh_payload settings now sub = record {
  sub = some sub;
  exp = now + settings.refresh_days * 86400000000;
  type_name = refresh;
}

unfoldable pub create_refresh_token :
    {Token : Type 0} → Jwt Token → Lifetimes → Moment → UserId → Token
create_refresh_token jwt settings now sub = jwt.encode (refresh_payload settings now sub)

abbrev check_type : TokenType → Option Payload → Result Error Payload
check_type token_type none = err (api AppError.invalid_token_credentials)
check_type token_type (some payload) =
    if is_type payload.type_name token_type
    then ok payload
    else err (api AppError.invalid_token_type)

unfoldable pub verify_token :
    {Token : Type 0} → Jwt Token → Moment → Token → TokenType → Result Error Payload
verify_token jwt now token token_type = check_type token_type (jwt.decode now token)

abbrev pub find_active_user : UserId → Db → Option User
find_active_user user_id db = first (λ u. u.id == user_id && not u.deleted) db.users

abbrev pub subject : AppError → Db → Option UserId → Result Error User
subject missing db none = err (api missing)
subject missing db (some user_id) = elim (find_active_user user_id db) [
  | none ↦ err (api AppError.user_not_found)
  | some user ↦ ok user
]

abbrev subject_of : AppError → Db → Result Error Payload → Result Error User
subject_of missing db (err e) = err e
subject_of missing db (ok payload) = subject missing db payload.sub

-- `get_current_user`; no credentials are `none`.
unfoldable pub get_current_user :
    {Token : Type 0} → Jwt Token → Moment → Option Token → Db → Result Error User
unfolding verify_token
get_current_user jwt now none db = err (api AppError.missing_credentials)
get_current_user jwt now (some token) db =
    subject_of AppError.invalid_authentication_credentials db (verify_token jwt now token access)

-- The user whom a refresh token names, as `UserAuthService.refresh_access_token` finds it.
unfoldable pub refreshed_user :
    {Token : Type 0} → Jwt Token → Moment → Token → Db → Result Error User
unfolding verify_token
refreshed_user jwt now token db =
    subject_of AppError.invalid_token db (verify_token jwt now token refresh)
