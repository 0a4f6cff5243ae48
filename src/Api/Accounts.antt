-- ===== src/Api/Accounts.antt =====
-- The routes of accounts (app/api/v1/user_auth/auth_router.py, app/api/v1/user_auth/user_router.py,
-- app/api/v1/terms_agreement/terms_router.py, app/api/v1/settlement/settlement_router.py).
use order_run_be.Base.{ℕ, Bool, String, List, none, some}
use order_run_be.Models.Account.{TermsAgreement}
use order_run_be.Auth.Verification.{SendResponse}
use order_run_be.Auth.Sessions
use order_run_be.Auth.Sessions.{AuthTokenResponse}
use order_run_be.Auth.Profile
use order_run_be.Auth.Profile.{UserDetailResponse}
use order_run_be.Withdrawal
use order_run_be.Terms
use order_run_be.Terms.{TermsAgreementRequest}
use order_run_be.Settlement
use order_run_be.Settlement.{SettlementAccountRequest, SettlementAccountResponse}
use order_run_be.Schemas
use order_run_be.Schemas.{SignupSend, PhoneConfirm, LoginConfirm}
use order_run_be.Schemas.Accounts.{settlement_request, bank_names}
use order_run_be.Api.{App, Visit, Route, success, reply, reply_empty, secured, given}
use order_run_be.Db.{query}

module _ (app : App) (visit : Visit) where
  unfoldable pub signup_send : SignupSend → Route SendResponse
  signup_send body = given (Schemas.signup_send_request body) λ r db. reply 200 none (
      Sessions.send_signup_verification app.hash_code app.jwt app.settings app.has_sender
        (visit.clock 0) (visit.clock 1) visit.drawn_code r.phone r.name r.carrier db)

  unfoldable pub signup_confirm : PhoneConfirm → Route (AuthTokenResponse String)
  signup_confirm body = given (Schemas.phone_confirm_request body) λ r db. reply 200 none (
      Sessions.confirm_signup app.hash_code app.jwt app.settings visit.drawn_id (visit.clock 0)
        (visit.clock 1) (visit.clock 2) (visit.clock 3) r.phone r.code db)

  unfoldable pub login_send : List ℕ → Route SendResponse
  login_send body = given (Schemas.login_send_request body) λ phone db. reply 200 none (
      Sessions.send_login_verification app.hash_code app.jwt app.settings app.has_sender
        (visit.clock 0) (visit.clock 1) visit.drawn_code phone db)

  unfoldable pub login_confirm : LoginConfirm → Route (AuthTokenResponse String)
  login_confirm body = given (Schemas.login_confirm_request body) λ r db. reply 200 none (
      Sessions.confirm_login app.hash_code app.jwt app.settings app.app_env (visit.clock 0)
        (visit.clock 1) (visit.clock 2) r.phone r.code r.fcm_token db)

  -- The access token and its lifetime
  unfoldable pub refresh_token : String → Route (String × ℕ)
  refresh_token body = given (Schemas.refresh_request body) λ token db. reply 200 none (
      query
        (Sessions.refresh_access_token app.hash_code app.jwt app.settings (visit.clock 0)
          (visit.clock 1) token)
        db)

  unfoldable pub logout : String → Route (Unit {0})
  logout body = secured app visit λ user.
      given (Schemas.refresh_request body) λ token db. (success 200 none (some "로그아웃 되었습니다."), db)

  unfoldable pub get_user_detail : Route UserDetailResponse
  get_user_detail =
      secured app visit λ user db. reply 200 none (query (Profile.get_user_detail user.id) db)

  unfoldable pub update_alarm : Bool → Route (Unit {0})
  update_alarm alarm_enabled = secured app visit λ user db.
      reply_empty 200 (some "알람 설정이 업데이트되었습니다.") (Profile.update_alarm user.id alarm_enabled db)

  unfoldable pub update_name : String → Route (Unit {0})
  update_name body = secured app visit λ user.
      given (Schemas.name_update_request body)
        λ name db. reply_empty 200 (some "닉네임이 업데이트되었습니다.") (Profile.update_name user.id name db)

  unfoldable pub update_fcm_token : String → Route (Unit {0})
  update_fcm_token body = secured app visit λ user.
      given (Schemas.fcm_token_request body)
        λ t db. reply_empty 200 (some "FCM 토큰이 업데이트되었습니다.") (Profile.update_fcm_token user.id t db)

  unfoldable pub withdraw_user : Route (Unit {0})
  withdraw_user = secured app visit λ user db.
      reply_empty 200 (some "회원 탈퇴가 완료되었습니다.") (Withdrawal.withdraw_user (visit.clock 1) user.id db)

  unfoldable pub agree_terms : TermsAgreementRequest → Route TermsAgreement
  agree_terms body = secured app visit λ user.
      given (Schemas.terms_request body)
        λ r db. reply 201 (some "약관 동의가 완료되었습니다.") (Terms.agree (visit.clock 1) user.id r db)

  -- The data is null where the user has no account.
  unfoldable pub get_settlement_account : Route SettlementAccountResponse
  get_settlement_account =
      secured app visit
        λ user db. (success 200 (Settlement.get_account user.id db) (some "Success"), db)

  unfoldable pub save_settlement_account :
      SettlementAccountRequest → Route SettlementAccountResponse
  save_settlement_account body = secured app visit λ user.
      given (settlement_request body)
        λ r db. reply 200 (some "정산 계좌가 저장되었습니다.") (Settlement.save_account user.id r db)

  unfoldable pub get_settlement_banks : Route (List String)
  get_settlement_banks =
      secured app visit λ user db. (success 200 (some bank_names) (some "Success"), db)
