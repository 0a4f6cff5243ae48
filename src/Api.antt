-- ===== src/Api.antt =====
-- HTTP: what a request brings, the response to it, the exception handlers (app/core/exceptions.py),
-- the errors that become responses (app/core/errors.py), and what the routes share (app/api/v1).
-- The middleware's timestamps and the details of an error are left out.
pub mod Accounts
pub mod Errands
pub mod Messages
pub mod Admin
pub mod Calls
pub mod Access
pub mod Aside
pub mod Sound
pub mod Services
pub mod Reach
pub mod Refused
pub mod Late
pub mod Undone
use package.text.Mathlib.Text.{◌==◌ as same_string}
use order_run_be.Base.{
  ℕ, Bool, true, false, String, List, [], ◌∷◌, Option, none, some, ◌&&◌, ◌||◌, if◌then◌else◌,
  Moment, UserId, Result, ok, err,
}
use order_run_be.Errors.{Error, api, value_error, no_result, AppError, errors}
use order_run_be.Models.User.{User}
use order_run_be.Security.{Jwt, Lifetimes, get_current_user}
use order_run_be.Delivery.Drain.{Round}
use order_run_be.Delivery.Worker.{flush_pending}
use order_run_be.Schemas.Errands.{FieldError}
use order_run_be.Db.{Db}

-- The application: the token library, the settings, the hash of a code, and whether an SMS sender
-- is set up
pub record App : Type 0 where
  pub jwt : Jwt String
  pub settings : Lifetimes
  pub app_env : String
  pub hash_code : String → String
  pub has_sender : Bool

-- What the world gives to one request: the bearer token of the header, the readings of the clock in
-- their order, the code and the id that are drawn, and a run of the worker in the background.
pub record Visit : Type 0 where
  pub token : Option String
  pub clock : ℕ → Moment
  pub drawn_code : String
  pub drawn_id : UserId
  pub round : Round

-- `ApiResponse`, `ErrorResponse`, or the server's answer to an exception without a handler
pub data Response (A : Type 0) : Type 0 where
  success : ℕ → Option A → Option String → Response A
  failure : ℕ → String → String → Response A
  crash : Response A

abbrev pub status_of : {A : Type 0} → Response A → ℕ
status_of (success status body message) = status
status_of (failure status code message) = status
status_of crash = 500

-- An exception as the handlers see it: `HTTPException` with a dictionary or a text, or another one
pub data Raised : Type 0 where
  http_exception : ℕ → String → String → Raised
  http_text : ℕ → String → Raised
  other : Raised

unfoldable pub http_exception_handler : {A : Type 0} → Raised → Response A
http_exception_handler (http_exception status code message) = failure status code message
http_exception_handler (http_text status detail) = failure status "ERROR" detail
http_exception_handler other = failure 500 "INTERNAL_SERVER_ERROR" "서버 내부 오류가 발생했습니다."

-- `error_detail` and `api_error`
unfoldable pub api_error : AppError → Raised
unfolding errors
api_error e = http_exception (errors e).http_status (errors e).code (errors e).message

abbrev pub is_datetime_error : FieldError → Bool
is_datetime_error e =
    same_string e.field "deadline"
    && (same_string e.kind "datetime_from_date_parsing"
        || (same_string e.kind "datetime_parsing" || same_string e.kind "invalid_datetime_offset"))

abbrev pub validation_error_of : List FieldError → AppError
validation_error_of [] = AppError.validation_error
validation_error_of (e ∷ es) =
    if is_datetime_error e then AppError.invalid_date_time_format else AppError.validation_error

unfoldable pub validation_exception_handler : {A : Type 0} → List FieldError → Response A
unfolding errors
validation_exception_handler es =
    let error = validation_error_of es in failure 400 (errors error).code (errors error).message

-- The application has a handler for `HTTPException` and none for `ValueError` or `NoResultFound`.
unfoldable pub error_response : {A : Type 0} → Error → Response A
unfolding http_exception_handler api_error
error_response (api e) = http_exception_handler (api_error e)
error_response value_error = crash
error_response no_result = crash

abbrev pub Route : Type 0 → Type 0
Route A = Db → Response A × Db

-- `return ApiResponse(success=True, data=…, message=…)`, and the same without data
abbrev pub reply : {A : Type 0} → ℕ → Option String → Result Error A × Db → Response A × Db
reply status message (ok a, db) = (success status (some a) message, db)
reply status message (err e, db) = (error_response e, db)

abbrev pub reply_empty :
    {A : Type 0} → ℕ → Option String → Result Error A × Db → Response (Unit {0}) × Db
reply_empty status message (ok a, db) = (success status none message, db)
reply_empty status message (err e, db) = (error_response e, db)

-- `current_user: User = Depends(get_current_user)`
abbrev pub identified : {A : Type 0} → Result Error User → (User → Route A) → Route A
identified (ok user) route db = route user db
identified (err e) route db = (error_response e, db)

unfoldable pub secured : {A : Type 0} → App → Visit → (User → Route A) → Route A
secured app visit route db =
    identified (get_current_user app.jwt (visit.clock 0) visit.token db) route db

-- A body or a query that is refused has no wrong field `deadline`, unless its errors are given.
abbrev pub given : {A B : Type 0} → Option B → (B → Route A) → Route A
given none route db = (validation_exception_handler [], db)
given (some body) route db = route body db

abbrev pub checked : {A B : Type 0} → Result (List FieldError) B → (B → Route A) → Route A
checked (err es) route db = (validation_exception_handler es, db)
checked (ok body) route db = route body db

abbrev pub require : {A : Type 0} → Bool → Route A → Route A
require true route db = route db
require false route db = (validation_exception_handler [], db)

-- `background_tasks.add_task(get_notification_worker().flush_pending, SessionLocal)`: the task runs
-- after a response, and not if the route raised.
abbrev pub flushing : {A : Type 0} → Round → Response A × Db → Response A × Db
flushing (fcm, times) (success status body message, db) =
    (success status body message, flush_pending fcm times db)
flushing round (failure status code message, db) = (failure status code message, db)
flushing round (crash, db) = (crash, db)
