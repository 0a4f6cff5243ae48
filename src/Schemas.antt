-- ===== src/Schemas.antt =====
-- The request bodies (app/schemas): what pydantic checks of each field, and the validators. A body
-- has the right keys and types; anything else is refused before. The length limits are those that
-- the fields declare, on the text as it was sent. A refused body is `none`.
pub mod Texts
pub mod Errands
pub mod Accounts
pub mod Strips
pub mod Settled
use package.text.Mathlib.Text.{◌==◌ as same_string}
use Prim.Native.String.{count}
use order_run_be.Base.{
  ℕ, Bool, true, false, not, String, List, [], ◌∷◌, Option, none, some, ◌==◌, ltb, leb, ◌&&◌, ◌||◌,
  if◌then◌else◌, Moment, ℤ, pos, negsuc, length,
}
use order_run_be.Phone
use order_run_be.Terms.{TermsAgreementRequest}
use order_run_be.Settlement.{SettlementAccountRequest}
use order_run_be.Proposals.Commands.{ProposalRequest}
use order_run_be.Schemas.Texts.{strip_text, stripped_text, stripped_phone, is_not_blank}

-- `AuthSignupSendRequest`
pub record SignupSend : Type 0 where
  pub name : String
  pub phone : List ℕ
  pub carrier : String

-- The fields are checked one after the other, and all must pass.
abbrev both : {A B : Type 0} → Option A → (A → Option B) → Option B
both none f = none
both (some a) f = f a

unfoldable pub signup_send_request : SignupSend → Option SignupSend
unfolding stripped_text stripped_phone
signup_send_request r = both (stripped_text 100 r.name) λ name.
    both (stripped_phone 20 r.phone) λ phone.
      both (stripped_text 50 r.carrier)
        λ carrier. some (record { name = name; phone = phone; carrier = carrier })

-- `AuthPhoneConfirmRequest`
pub record PhoneConfirm : Type 0 where
  pub phone : List ℕ
  pub code : String

unfoldable pub phone_confirm_request : PhoneConfirm → Option PhoneConfirm
unfolding stripped_text stripped_phone
phone_confirm_request r =
    both (stripped_phone 20 r.phone)
      λ phone. both (stripped_text 20 r.code) λ code. some (record { phone = phone; code = code })

-- `AuthLoginSendRequest`
unfoldable pub login_send_request : List ℕ → Option (List ℕ)
unfolding stripped_phone
login_send_request phone = stripped_phone 20 phone

-- `AuthLoginConfirmRequest`
pub record LoginConfirm : Type 0 where
  pub phone : List ℕ
  pub code : String
  pub fcm_token : Option String

abbrev pub optional_text : ℕ → Option String → Option (Option String)
optional_text limit none = some none
optional_text limit (some value) = both (stripped_text limit value) λ s. some (some s)

unfoldable pub login_confirm_request : LoginConfirm → Option LoginConfirm
unfolding stripped_text stripped_phone
login_confirm_request r = both (stripped_phone 20 r.phone) λ phone.
    both (stripped_text 20 r.code) λ code.
      both (optional_text 4096 r.fcm_token)
        λ fcm_token. some (record { phone = phone; code = code; fcm_token = fcm_token })

-- `AuthRefreshRequest` and `AuthLogoutRequest`, without a limit on the length
unfoldable pub refresh_request : String → Option String
unfolding is_not_blank
refresh_request token = if is_not_blank token then some (strip_text token) else none

-- `UserNameUpdateRequest` and `UserFcmTokenRequest`
unfoldable pub name_update_request : String → Option String
unfolding stripped_text
name_update_request name = stripped_text 100 name

unfoldable pub fcm_token_request : String → Option String
unfolding stripped_text
fcm_token_request token = stripped_text 4096 token

-- `TermsAgreementRequest`
unfoldable pub terms_request : TermsAgreementRequest → Option TermsAgreementRequest
terms_request r =
    if r.terms_of_service && (r.privacy_policy && r.payment_refund_policy) then some r else none
