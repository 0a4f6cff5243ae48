-- ===== src/Api/Refused.antt =====
-- Routes that leave the database as it was unless they succeed (app/api/v1, app/core/exceptions.py).
use order_run_be.Base.{
  ℕ, ◌≡◌, ◌≤◌, ◌<◌, refl, Bool, true, false, String, List, Option, none, some, Result, ok, err,
  arith, if◌then◌else◌,
}
use order_run_be.Errors.{Error, api, value_error, no_result}
use order_run_be.Models.User.{User}
use order_run_be.Models.Notification.{Notification}
use order_run_be.Schemas.Errands.{FieldError}
use order_run_be.Security.{get_current_user}
use order_run_be.Delivery.Drain.{Round}
use order_run_be.Api.{
  App, Visit, Response, success, failure, crash, Route, reply, reply_empty, identified, secured,
  given, checked, require, flushing, error_response, http_exception_handler, api_error,
  validation_exception_handler,
}
use order_run_be.Api.Calls.{told}
use order_run_be.Api.Errands.{created}
use order_run_be.Api.Messages.{sent}
use order_run_be.Db.{Db, finish, respond_with}

-- A service that raises leaves the database as it was.
pub data Undone {A : Type 0} (db : Db) : Result Error A × Db → Type 0 where
  did : (a : A) (after : Db) → Undone db (ok a, after)
  raised : (e : Error) → Undone db (err e, db)

-- So does a route that does not answer with a success.
pub data Refused {A : Type 0} (db : Db) : Response A × Db → Type 0 where
  answered :
      (status : ℕ) (body : Option A) (message : Option String) (after : Db)
      → status < 400
      → Refused db (success status body message, after)
  failed : (status : ℕ) (code message : String) → Refused db (failure status code message, db)
  crashed : Refused db (crash, db)

pub record Leaves (db : Db) (answer : ℕ × Db) : Type 0 where
  pub unchanged : 400 ≤ answer.0 → answer.1 ≡ db

module _ (db : Db) where
  pub finish-Undone : {A : Type 0} (r : Result Error (A × Db)) → Undone db (finish db r)
  finish-Undone (ok (a, after)) = did a after
  finish-Undone (err e) = raised e

  pub read-Undone : {A : Type 0} (r : Result Error A) → Undone db (r, db)
  read-Undone (ok a) = did a db
  read-Undone (err e) = raised e

  pub if-Undone :
      {A : Type 0} (b : Bool) (x y : Result Error A × Db)
      → Undone db x
      → Undone db y
      → Undone db (if b then x else y)
  if-Undone true x y hx hy = hx
  if-Undone false x y hx hy = hy

  -- A response that cannot fail
  pub respond_with-Undone :
      {A B : Type 0} (respond : A → Db → Result Error B) (shown : A → Db → B)
      (x : Result Error A × Db)
      → ((a : A) (after : Db) → respond a after ≡ ok (shown a after))
      → Undone db x
      → Undone db (respond_with respond x)
  respond_with-Undone respond shown x total (did a after) =
      rw (total a after) (did (shown a after) after)
  respond_with-Undone respond shown x total (raised e) = raised e

  pub error_response-Refused : {A : Type 0} (e : Error) → Refused {A = A} db (error_response e, db)
  unfolding error_response http_exception_handler api_error
  error_response-Refused (api e) = failed _ _ _
  error_response-Refused value_error = crashed
  error_response-Refused no_result = crashed

  pub told-Leaves : {A : Type 0} (x : Response A × Db) → Refused db x → Leaves db (told x)
  told-Leaves x (answered status body message after lt) = record {
    unchanged = λ h. absurd (omega arith);
  }
  told-Leaves x (failed status code message) = record { unchanged = λ h. refl }
  told-Leaves x crashed = record { unchanged = λ h. refl }

  pub reply-Refused :
      {A : Type 0} (status : ℕ) (message : Option String) (x : Result Error A × Db)
      → status < 400
      → Undone db x
      → Refused db (reply status message x)
  reply-Refused status message x lt (did a after) = answered status (some a) message after lt
  reply-Refused status message x lt (raised e) = error_response-Refused e

  pub reply_empty-Refused :
      {A : Type 0} (status : ℕ) (message : Option String) (x : Result Error A × Db)
      → status < 400
      → Undone db x
      → Refused db (reply_empty status message x)
  reply_empty-Refused status message x lt (did a after) = answered status none message after lt
  reply_empty-Refused status message x lt (raised e) = error_response-Refused e

  pub flushing-Refused :
      {A : Type 0} (round : Round) (x : Response A × Db)
      → Refused db x
      → Refused db (flushing round x)
  flushing-Refused round x (answered status body message after lt) =
      answered status body message _ lt
  flushing-Refused round x (failed status code message) = failed status code message
  flushing-Refused round x crashed = crashed

  pub created-Refused :
      (app : App) (visit : Visit) (x : Result Error ℕ × Db)
      → Undone db x
      → Refused db (created app visit x)
  created-Refused app visit x (did id after) = answered _ _ _ after (omega arith)
  created-Refused app visit x (raised e) = error_response-Refused e

  pub sent-Refused :
      (app : App) (visit : Visit) (x : Option (Notification × Db))
      → Refused db (sent app visit db x)
  sent-Refused app visit none = crashed
  sent-Refused app visit (some (row, after)) = answered _ _ _ after (omega arith)

  module _ {A : Type 0} where
    pub identified-Refused :
        (caller : Result Error User) (route : User → Route A)
        → ((user : User) → Refused db (route user db))
        → Refused db (identified caller route db)
    identified-Refused (ok user) route h = h user
    identified-Refused (err e) route h = error_response-Refused e

    pub secured-Refused :
        (app : App) (visit : Visit) (route : User → Route A)
        → ((user : User) → Refused db (route user db))
        → Refused db (secured app visit route db)
    unfolding secured
    secured-Refused app visit route h =
        identified-Refused (get_current_user app.jwt (visit.clock 0) visit.token db) route h

    pub given-Refused :
        {B : Type 0} (body : Option B) (route : B → Route A)
        → ((b : B) → Refused db (route b db))
        → Refused db (given body route db)
    unfolding validation_exception_handler
    given-Refused none route h = failed _ _ _
    given-Refused (some b) route h = h b

    pub checked-Refused :
        {B : Type 0} (body : Result (List FieldError) B) (route : B → Route A)
        → ((b : B) → Refused db (route b db))
        → Refused db (checked body route db)
    unfolding validation_exception_handler
    checked-Refused (err es) route h = failed _ _ _
    checked-Refused (ok b) route h = h b

    pub require-Refused :
        (b : Bool) (route : Route A) → Refused db (route db) → Refused db (require b route db)
    unfolding validation_exception_handler
    require-Refused true route h = h
    require-Refused false route h = failed _ _ _

pub ruleset refusing = (
  told-Leaves, finish-Undone, read-Undone, if-Undone, reply-Refused, reply_empty-Refused,
  flushing-Refused, created-Refused, sent-Refused, secured-Refused, given-Refused, checked-Refused,
  require-Refused, answered,
)
