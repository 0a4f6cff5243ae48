-- ===== src/Errors.antt =====
-- The catalogue of API errors (app/core/errors.py): the members of `AppError`, the table `ERRORS`
-- with each entry's HTTP status, code and message, and what a raise may carry.
use order_run_be.Base.{ℕ, String}

-- `AppError`
pub data AppError : Type 0 where
  user_not_found user_withdrawal_blocked validation_error required_terms_invalid : AppError
  invalid_token invalid_token_credentials invalid_token_type missing_credentials : AppError
  invalid_authentication_credentials sms_sender_not_configured sms_send_failed : AppError
  phone_already_exists phone_verification_already_sent phone_verification_not_found : AppError
  phone_verification_expired phone_verification_code_mismatch invalid_credentials : AppError
  invalid_date_time_format proposal_deadline_invalid proposal_errand_fee_invalid : AppError
  proposal_not_found offer_proposal_not_found proposal_not_editable : AppError
  proposal_not_cancellable proposal_not_open proposal_not_matchable : AppError
  proposal_not_updatable proposal_not_reportable proposal_self_report_not_allowed : AppError
  duplicate_proposal_report proposal_report_not_found proposal_report_not_reviewable : AppError
  invalid_status forbidden offer_not_found self_offer_not_allowed duplicate_offer : AppError
  offer_not_cancellable offer_not_acceptable offer_not_updatable : AppError
  dispute_evidence_not_found notification_not_found : AppError

-- `ApiErrorSpec`
pub record ApiErrorSpec : Type 0 where
  pub http_status : ℕ
  pub code : String
  pub message : String

-- The table `ERRORS`. Every member of `AppError` has an entry, so the lookup `ERRORS[error]` is total.
unfoldable pub errors : AppError → ApiErrorSpec
errors user_not_found = record {
  http_status = 404;
  code = "USER_NOT_FOUND";
  message = "User not found";
}
errors user_withdrawal_blocked = record {
  http_status = 409;
  code = "USER_WITHDRAWAL_BLOCKED";
  message = "진행 중인 임무, 분쟁 또는 정산이 있어 탈퇴할 수 없습니다. 모든 절차가 완료된 후 다시 이용해주세요.";
}
errors validation_error = record {
  http_status = 400;
  code = "VALIDATION_ERROR";
  message = "요청 값이 올바르지 않습니다.";
}
errors required_terms_invalid = record {
  http_status = 400;
  code = "VALIDATION_ERROR";
  message = "Required terms must be true";
}
errors invalid_token = record {
  http_status = 401;
  code = "INVALID_TOKEN";
  message = "Invalid token";
}
errors invalid_token_credentials = record {
  http_status = 401;
  code = "INVALID_TOKEN";
  message = "Could not validate credentials";
}
errors invalid_token_type = record {
  http_status = 401;
  code = "INVALID_TOKEN";
  message = "Invalid token type";
}
errors missing_credentials = record {
  http_status = 401;
  code = "INVALID_TOKEN";
  message = "Missing credentials";
}
errors invalid_authentication_credentials = record {
  http_status = 401;
  code = "INVALID_TOKEN";
  message = "Invalid authentication credentials";
}
errors sms_sender_not_configured = record {
  http_status = 500;
  code = "SMS_SENDER_NOT_CONFIGURED";
  message = "SMS sender not configured";
}
errors sms_send_failed = record {
  http_status = 502;
  code = "SMS_SEND_FAILED";
  message = "SMS sending failed";
}
errors phone_already_exists = record {
  http_status = 409;
  code = "PHONE_ALREADY_EXISTS";
  message = "Phone number already exists";
}
errors phone_verification_already_sent = record {
  http_status = 409;
  code = "PHONE_VERIFICATION_ALREADY_SENT";
  message = "Verification already sent";
}
errors phone_verification_not_found = record {
  http_status = 404;
  code = "PHONE_VERIFICATION_NOT_FOUND";
  message = "Phone verification not found";
}
errors phone_verification_expired = record {
  http_status = 400;
  code = "PHONE_VERIFICATION_EXPIRED";
  message = "Phone verification expired";
}
errors phone_verification_code_mismatch = record {
  http_status = 400;
  code = "PHONE_VERIFICATION_CODE_MISMATCH";
  message = "Phone verification code mismatch";
}
errors invalid_credentials = record {
  http_status = 401;
  code = "INVALID_CREDENTIALS";
  message = "Invalid credentials";
}
errors invalid_date_time_format = record {
  http_status = 400;
  code = "INVALID_DATE_TIME_FORMAT";
  message = "deadline 형식이 올바르지 않습니다.";
}
errors proposal_deadline_invalid = record {
  http_status = 400;
  code = "PROPOSAL_DEADLINE_INVALID";
  message = "마감 시각은 현재 시각보다 이후여야 합니다.";
}
errors proposal_errand_fee_invalid = record {
  http_status = 400;
  code = "PROPOSAL_ERRAND_FEE_INVALID";
  message = "심부름비는 1000원 이상이어야 합니다.";
}
errors proposal_not_found = record {
  http_status = 404;
  code = "PROPOSAL_NOT_FOUND";
  message = "제안을 찾을 수 없습니다.";
}
errors offer_proposal_not_found = record {
  http_status = 404;
  code = "PROPOSAL_NOT_FOUND";
  message = "요청을 찾을 수 없습니다.";
}
errors proposal_not_editable = record {
  http_status = 409;
  code = "PROPOSAL_NOT_EDITABLE";
  message = "수정할 수 없는 제안 상태입니다.";
}
errors proposal_not_cancellable = record {
  http_status = 409;
  code = "PROPOSAL_NOT_CANCELLABLE";
  message = "취소할 수 없는 제안 상태입니다.";
}
errors proposal_not_open = record {
  http_status = 409;
  code = "PROPOSAL_NOT_OPEN";
  message = "제안을 받을 수 없는 요청 상태입니다.";
}
errors proposal_not_matchable = record {
  http_status = 409;
  code = "PROPOSAL_NOT_MATCHABLE";
  message = "매칭할 수 없는 요청 상태입니다.";
}
errors proposal_not_updatable = record {
  http_status = 409;
  code = "PROPOSAL_NOT_UPDATABLE";
  message = "업데이트할 수 없는 요청 상태입니다.";
}
errors proposal_not_reportable = record {
  http_status = 409;
  code = "PROPOSAL_NOT_REPORTABLE";
  message = "신고할 수 없는 요청 상태입니다.";
}
errors proposal_self_report_not_allowed = record {
  http_status = 403;
  code = "PROPOSAL_SELF_REPORT_NOT_ALLOWED";
  message = "본인의 요청은 신고할 수 없습니다.";
}
errors duplicate_proposal_report = record {
  http_status = 409;
  code = "DUPLICATE_PROPOSAL_REPORT";
  message = "이미 해당 요청을 신고했습니다.";
}
errors proposal_report_not_found = record {
  http_status = 404;
  code = "PROPOSAL_REPORT_NOT_FOUND";
  message = "신고 내역을 찾을 수 없습니다.";
}
errors proposal_report_not_reviewable = record {
  http_status = 409;
  code = "PROPOSAL_REPORT_NOT_REVIEWABLE";
  message = "이미 처리된 신고입니다.";
}
errors invalid_status = record {
  http_status = 400;
  code = "INVALID_STATUS";
  message = "입금 확인 대기 상태가 아닙니다.";
}
errors forbidden = record { http_status = 403; code = "FORBIDDEN"; message = "권한이 없습니다." }
errors offer_not_found = record {
  http_status = 404;
  code = "OFFER_NOT_FOUND";
  message = "제안을 찾을 수 없습니다.";
}
errors self_offer_not_allowed = record {
  http_status = 400;
  code = "SELF_OFFER_NOT_ALLOWED";
  message = "오더러는 본인의 요청에 러너로 제안할 수 없습니다.";
}
errors duplicate_offer = record {
  http_status = 409;
  code = "DUPLICATE_OFFER";
  message = "이미 해당 요청에 제안을 제출했습니다.";
}
errors offer_not_cancellable = record {
  http_status = 409;
  code = "OFFER_NOT_CANCELLABLE";
  message = "취소할 수 없는 제안 상태입니다.";
}
errors offer_not_acceptable = record {
  http_status = 409;
  code = "OFFER_NOT_ACCEPTABLE";
  message = "수락할 수 없는 제안 상태입니다.";
}
errors offer_not_updatable = record {
  http_status = 409;
  code = "OFFER_NOT_UPDATABLE";
  message = "업데이트할 수 없는 제안 상태입니다.";
}
errors dispute_evidence_not_found = record {
  http_status = 404;
  code = "DISPUTE_EVIDENCE_NOT_FOUND";
  message = "분쟁 증빙을 찾을 수 없습니다.";
}
errors notification_not_found = record {
  http_status = 404;
  code = "ERROR";
  message = "Notification not found";
}

-- What a handler may raise: an API error, the `ValueError` of a model's own guard, or the
-- `NoResultFound` of `.one()`. The details of an API error are text for the client and are left out.
pub data Error : Type 0 where
  api : AppError → Error
  value_error : Error
  no_result : Error
