-- ===== src/Delivery.antt =====
-- Push messages: the FCM service (app/services/fcm_service.py). The Firebase library is a parameter:
-- what it answers to a message, or to a message for a topic, and whether its setup succeeded.
pub mod Worker
pub mod Keys
pub mod Batch
pub mod Outbox
pub mod Quiet
pub mod Drain
pub mod Stuck
pub mod Genuine
pub mod Orderly
pub mod Kept
pub mod Upkeep
pub mod Direct
pub mod Wording
pub mod Notices
pub mod Silent
use package.text.Mathlib.Text.{◌==◌ as same_string}
use order_run_be.Base.{
  ℕ, Bool, true, false, not, String, List, [], ◌∷◌, ◌++◌, Option, none, some, ◌==◌, if◌then◌else◌,
  ◌&&◌, ◌||◌, map, Result, ok, err,
}
use Prim.Native.String.{◌++◌ as join}
use order_run_be.Models.Notification.{NotificationType, Value, text, number}

-- `FCMSendResult` (app/schemas/notification.py)
pub record SendResult : Type 0 where
  pub success : Bool
  pub message_id : Option String
  pub error_code : Option String
  pub error_message : Option String

-- `messaging.Message`, with the Android and Apple settings that `send_notification` fills in; a
-- number in the data stands for its decimal text.
pub record Message : Type 0 where
  pub token : String
  pub title : String
  pub body : String
  pub image : Option String
  pub payload : List (String × Value)
  pub android_priority : String
  pub android_sound : String
  pub notification_priority : String
  pub apns_sound : String
  pub apns_badge : ℕ
  pub content_available : Bool

-- A message for the devices that follow a topic
pub record TopicMessage : Type 0 where
  pub topic : String
  pub title : String
  pub body : String
  pub image : Option String
  pub payload : List (String × Value)

-- What `messaging.send` does: it returns a message id, or raises one of the exceptions by which
-- the service tells the reasons apart, or another one with that text.
pub data Answer : Type 0 where
  accepted : String → Answer
  unregistered : Answer
  invalid_argument : String → Answer
  sender_id_mismatch : Answer
  other_error : String → Answer

-- `FCMService`, with the library behind it. The library tells whether `AndroidNotification` takes the
-- argument `notification_priority`, and whether the module `messaging` has an `InvalidArgumentError`;
-- Firebase documents neither. A message to a topic is answered by a message id or an exception's text.
pub record FcmService : Type 0 where
  pub initialized : Bool
  pub takes_notification_priority : Bool
  pub has_invalid_argument_error : Bool
  pub send : Message → Answer
  pub send_topic : TopicMessage → Result String String

abbrev pub failure : String → String → SendResult
failure error_code error_message = record {
  success = false;
  message_id = none;
  error_code = some error_code;
  error_message = some error_message;
}

abbrev pub success : String → SendResult
success message_id = record {
  success = true;
  message_id = some message_id;
  error_code = none;
  error_message = none;
}

-- The `except` clauses of `send_notification` from the second on: to try that one, Python reads
-- `messaging.InvalidArgumentError`, and where the module has no such name an `AttributeError` leaves
-- the function, which is `none`.
abbrev pub later_clauses : Bool → SendResult → Option SendResult
later_clauses true result = some result
later_clauses false result = none

abbrev pub result_of : Bool → Answer → Option SendResult
result_of named (accepted message_id) = some (success message_id)
result_of named unregistered = some (failure "UNREGISTERED" "Device token is no longer valid")
result_of named (invalid_argument message) =
    later_clauses named (failure "INVALID_ARGUMENT" message)
result_of named sender_id_mismatch =
    later_clauses named (failure "SENDER_ID_MISMATCH" "Token is not registered for this sender")
result_of named (other_error message) = later_clauses named (failure "UNKNOWN" message)

-- `messaging.Message(…)` as `send_notification` builds it
abbrev pub message_of :
    String → String → String → List (String × Value) → Option String → String → Message
message_of token title body payload image priority = record {
  token = token;
  title = title;
  body = body;
  image = image;
  payload = payload;
  android_priority = priority;
  android_sound = "default";
  notification_priority =
      if same_string priority "high" then "PRIORITY_HIGH" else "PRIORITY_DEFAULT";
  apns_sound = "default";
  apns_badge = 1;
  content_available = true;
}

abbrev pub not_initialized : SendResult
not_initialized = failure "NOT_INITIALIZED" "FCM service not initialized"

-- The message is built and sent; an unknown argument is a `TypeError` before anything is sent.
abbrev pub answer_to : FcmService → Message → Answer
answer_to fcm message =
    if fcm.takes_notification_priority
    then fcm.send message
    else other_error
        "AndroidNotification.__init__() got an unexpected keyword argument 'notification_priority'"

-- `none` where an exception leaves the function
unfoldable pub send_notification :
    FcmService
    → String
    → String
    → String
    → List (String × Value)
    → Option String
    → String
    → Option SendResult
send_notification fcm token title body payload image priority =
    if fcm.initialized
    then result_of fcm.has_invalid_argument_error
        (answer_to fcm (message_of token title body payload image priority))
    else some not_initialized

-- `send_to_topic`, whose one `except` clause reports the text of any exception
abbrev pub topic_result : Result String String → SendResult
topic_result (ok message_id) = success message_id
topic_result (err message) = failure "TOPIC_SEND_FAILED" message

unfoldable pub send_to_topic :
    FcmService → String → String → String → List (String × Value) → Option String → SendResult
send_to_topic fcm topic title body payload image =
    if fcm.initialized
    then topic_result (
        fcm.send_topic
          (record { topic = topic; title = title; body = body; image = image; payload = payload }))
    else not_initialized

-- `if value:` for an optional text, and for an optional number
abbrev pub given_text : Option String → Bool
given_text none = false
given_text (some s) = not (same_string s "")

abbrev pub given_number : Option ℕ → Bool
given_number none = false
given_number (some n) = not (n == 0)

-- Where the Firebase app takes its credentials from
pub data Credentials : Type 0 where
  from_json from_file : String → Credentials
  default_credentials : Credentials

abbrev pub path_credentials : Option String → Credentials
path_credentials none = default_credentials
path_credentials (some path) = if same_string path "" then default_credentials else from_file path

abbrev pub credentials_of : Option String → Option String → Credentials
credentials_of credentials_path none = path_credentials credentials_path
credentials_of credentials_path (some json) =
    if same_string json "" then path_credentials credentials_path else from_json json

-- `FCMService.__init__`: whether the service is initialized. The library is there or not, may have
-- an app already, and `set_up` says whether it raises nothing with the credentials.
unfoldable pub is_initialized :
    Bool → Bool → (Credentials → Bool) → Option String → Option String → Bool
is_initialized available has_app set_up credentials_path credentials_json =
    available && (has_app || set_up (credentials_of credentials_path credentials_json))

-- The entries that a message carries about the entity of a notification
abbrev pub text_entry : String → Option String → List (String × Value)
text_entry key none = []
text_entry key (some s) = if same_string s "" then [] else (key, text s) ∷ []

abbrev pub number_entry : String → Option ℕ → List (String × Value)
number_entry key none = []
number_entry key (some n) = if n == 0 then [] else (key, number n) ∷ []

-- `{f"{prefix}{k}": str(v) …}`
abbrev pub prefixed : String → Option (List (String × Value)) → List (String × Value)
prefixed prefix none = []
prefixed prefix (some entries) = map (λ (k, v). (join prefix k, v)) entries

-- `NotificationType.value`
abbrev pub type_value : NotificationType → String
type_value NotificationType.proposal_new = "proposal_new"
type_value NotificationType.proposal_matched = "proposal_matched"
type_value NotificationType.proposal_cancelled = "proposal_cancelled"
type_value NotificationType.offer_new = "offer_new"
type_value NotificationType.offer_accepted = "offer_accepted"
type_value NotificationType.offer_rejected = "offer_rejected"
type_value NotificationType.execution_started = "execution_started"
type_value NotificationType.execution_completed = "execution_completed"
type_value NotificationType.payment_completed = "payment_completed"
type_value NotificationType.payment_failed = "payment_failed"
type_value NotificationType.system_announcement = "system_announcement"
type_value NotificationType.custom = "custom"
type_value NotificationType.offer_submitted = "offer_submitted"
type_value NotificationType.meeting_confirmed = "meeting_confirmed"
type_value NotificationType.dispute_raised = "dispute_raised"
