-- ===== src/Scenarios/Requests.antt =====
-- The theorems on the routes at work.
use order_run_be.Base.{arith, ◌≡◌, refl, List, [], ◌∷◌, none, some, true, Option, String, ◌⊎◌}
use order_run_be.Models.User.{User}
use order_run_be.Security.{get_current_user, verify_token, Jwt, access}
use order_run_be.Errors.{errors}
use order_run_be.Api.{App, Visit, secured, error_response, http_exception_handler, api_error}
use order_run_be.Api.Calls.{Call, handle, Event, request, retry_job, happen_all}
use order_run_be.Commands.Reach.{nothing_yet}
use order_run_be.Api.Reach
use order_run_be.Schemas.{LoginConfirm, login_confirm_request}
use order_run_be.Schemas.Settled
use order_run_be.Schemas.Settled.{AreTrimmed}
use order_run_be.Schemas.Texts.{stripped_text, stripped_phone, is_not_blank}
use order_run_be.Phone.{is_blank}
use order_run_be.Api.Undone
use order_run_be.Api.Errands
use order_run_be.Proposals.Commands as Drafts
use order_run_be.Api.Sound.{IsSound}
use order_run_be.Models.Notification.{NotificationType}
use order_run_be.Inbox.{NotificationSendRequest}
use order_run_be.Api.Access
use order_run_be.Api.Access.{IsCaller, IsRefusal}
use order_run_be.Scenarios.{start}
use order_run_be.Scenarios.Deliveries.{open_fcm}

-- A library with one token, which is the one of user 7
abbrev token_of_7 : Jwt String
token_of_7 = record {
  encode = λ payload. "token";
  decode = λ now token. some (record { sub = some 7; exp = 100; type_name = access });
}

abbrev app : App
app = record {
  jwt = token_of_7;
  settings = record { access_minutes = 30; refresh_days = 14 };
  app_env = "local";
  hash_code = λ code. code;
  has_sender = true;
}

abbrev visit : Option String → Visit
visit token = record {
  token = token;
  clock = λ i. 30;
  drawn_code = "123456";
  drawn_id = 9;
  round = (open_fcm, λ i. 30);
}

handle-identified_example :
    ((user : User) × IsCaller app (visit (some "token")) start user)
    ⊎ (IsRefusal (handle app (visit (some "token")) (Call.get_offer 5) start).0
        × ((handle app (visit (some "token")) (Call.get_offer 5) start).1 ≡ start))
handle-identified_example =
    Access.handle-identified app (visit (some "token")) (Call.get_offer 5) start refl

abbrev greeting : NotificationSendRequest
greeting = record {
  notification_type = NotificationType.custom;
  title = "hello";
  body = "there";
  entries = none;
  related_entity_type = none;
  related_entity_id = none;
}

-- A notification to oneself, a request without a token, and the scheduled job
abbrev day : List Event
day =
    request (visit (some "token")) (Call.send_notification greeting)
    ∷ request (visit none) (Call.cancel_proposal 1)
    ∷ retry_job (open_fcm, λ i. 30)
    ∷ []

happen_all-IsSound_example : IsSound (happen_all app day start)
happen_all-IsSound_example = Reach.happen_all-IsSound app day start refl refl refl

-- There is no errand yet.
handle-undone_example : (handle app (visit (some "token")) (Call.cancel_proposal 1) start).1 ≡ start
unfolding handle Errands.cancel_proposal secured get_current_user verify_token error_response
    http_exception_handler api_error errors Drafts.cancel
handle-undone_example =
    Undone.handle-undone app (visit (some "token")) (Call.cancel_proposal 1) start
      (nothing_yet _ _ refl refl) refl (omega arith)

abbrev stripped : LoginConfirm
stripped = record { phone = 48 ∷ 49 ∷ []; code = "123"; fcm_token = some "device" }

abbrev typed : LoginConfirm
typed = record { phone = 32 ∷ 48 ∷ 49 ∷ []; code = " 123 "; fcm_token = some "device " }

login_confirm_request-settles_example :
    AreTrimmed stripped × (login_confirm_request stripped ≡ some stripped)
unfolding login_confirm_request stripped_text stripped_phone is_not_blank is_blank
login_confirm_request-settles_example = Settled.login_confirm_request-settles typed refl
