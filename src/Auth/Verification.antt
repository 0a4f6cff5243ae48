-- ===== src/Auth/Verification.antt =====
-- Verification codes by SMS (app/services/user_auth/phone_verification_service.py). What the
-- program calls and does not define is a parameter: `hash_code` is `hash_verification_code`, the
-- SHA-256 of the secret key and the code; a code is what `generate_verification_code` drew.
use text.Mathlib.Text.{◌==◌ as same_string}
use order_run_be.Base.{
  ℕ, ◌+◌, Bool, String, List, Option, none, some, ◌==◌, ◌||◌, ◌&&◌, not, ltb, leb, if◌then◌else◌,
  Moment, first, where_all, update_where, order_by, is_some, ok, err,
}
use order_run_be.Errors.{api, AppError}
use order_run_be.Models.User.{
  AuthPhoneVerification, PhoneVerificationPurpose, PhoneVerificationStatus, is_purpose, is_pending,
}
use order_run_be.Phone.{same_text}
use order_run_be.Proposals.Queries.{head?}
use order_run_be.Db.{
  Db, ◌>>=◌, ◌>>◌, pure, gets, modify, raise_when, Request, commit, add_row, set_rows,
}

-- `VERIFICATION_CODE_TTL`, in microseconds, and `VERIFICATION_CODE_MAX_ATTEMPTS`
abbrev pub verification_code_ttl : ℕ
verification_code_ttl = 300000000

abbrev pub verification_code_max_attempts : ℕ
verification_code_max_attempts = 5

abbrev pub is_waiting_for : PhoneVerificationPurpose → List ℕ → AuthPhoneVerification → Bool
is_waiting_for purpose phone v =
    is_purpose v.purpose purpose && (same_text v.phone phone && is_pending v.status)

unfoldable pub has_active_pending : Moment → PhoneVerificationPurpose → List ℕ → Db → Bool
has_active_pending now purpose phone db =
    is_some
      (first (λ v. is_waiting_for purpose phone v && ltb now v.expires_at) db.verifications.rows)

abbrev pub new_verification :
    PhoneVerificationPurpose
    → List ℕ
    → Option String
    → Option String
    → String
    → Moment
    → ℕ
    → AuthPhoneVerification
new_verification purpose phone name carrier code_hash now id = record {
  id = id;
  purpose = purpose;
  phone = phone;
  name = name;
  carrier = carrier;
  code_hash = code_hash;
  status = PhoneVerificationStatus.pending;
  expires_at = now + verification_code_ttl;
  sent_at = now;
  verified_at = none;
  attempt_count = 0;
}

-- `AuthVerificationSendResponse`, and the code that the background task then sends to the phone
pub record SendResponse : Type 0 where
  pub phone : List ℕ
  pub expires_at : Moment
  pub sent_code : String

-- `order_by(AuthPhoneVerification.sent_at.desc(), AuthPhoneVerification.id.desc())`
abbrev pub latest_sent : AuthPhoneVerification → AuthPhoneVerification → Bool
latest_sent a b = ltb b.sent_at a.sent_at || (a.sent_at == b.sent_at && ltb b.id a.id)

unfoldable pub newest_pending :
    PhoneVerificationPurpose → List ℕ → Db → Option AuthPhoneVerification
newest_pending purpose phone db =
    head? (order_by latest_sent (where_all (is_waiting_for purpose phone) db.verifications.rows))

abbrev pub save_verification : AuthPhoneVerification → Db → Db
save_verification v db = record db {
  verifications =
      set_rows (update_where (λ w. w.id == v.id) (λ _. v) db.verifications.rows) db.verifications;
}

-- A wrong code: one attempt more, and the last one ends the code.
abbrev pub count_attempt : AuthPhoneVerification → AuthPhoneVerification
count_attempt v = record v {
  attempt_count = v.attempt_count + 1;
  status =
      if leb verification_code_max_attempts (v.attempt_count + 1)
      then PhoneVerificationStatus.expired
      else v.status;
}

module _ (hash_code : String → String) where
  -- `send`. `checked` is the moment of `has_active_pending`, `now` that of the record.
  unfoldable pub send :
      Bool
      → Moment
      → Moment
      → String
      → PhoneVerificationPurpose
      → List ℕ
      → Option String
      → Option String
      → Request SendResponse
  unfolding has_active_pending
  send has_sender checked now code purpose phone name carrier = commit do
    active ← gets (has_active_pending checked purpose phone)
    raise_when active AppError.phone_verification_already_sent
    raise_when (not has_sender) AppError.sms_sender_not_configured
    modify (λ db. record db {
      verifications =
          add_row (new_verification purpose phone name carrier (hash_code code) now)
            db.verifications;
    })
    pure (record { phone = phone; expires_at = now + verification_code_ttl; sent_code = code })

  -- The tests on the record that was found. A raise here follows a commit, so what it wrote stays;
  -- after a success the caller commits.
  unfoldable pub check_code :
      Moment → String → AuthPhoneVerification → Request AuthPhoneVerification
  check_code now code v db =
      if leb v.expires_at now
      then (
        err (api AppError.phone_verification_expired),
        save_verification (record v { status = PhoneVerificationStatus.expired }) db,
      )
      else if not (same_string v.code_hash (hash_code code))
      then (
        err (api AppError.phone_verification_code_mismatch),
        save_verification (count_attempt v) db,
      )
      else (
        ok (record v { status = PhoneVerificationStatus.verified; verified_at = some now }),
        save_verification
            (record v { status = PhoneVerificationStatus.verified; verified_at = some now }) db,
      )

  unfoldable pub verify :
      Moment → PhoneVerificationPurpose → List ℕ → String → Request AuthPhoneVerification
  unfolding check_code
  verify now purpose phone code db = elim (newest_pending purpose phone db) [
    | none ↦ (err (api AppError.phone_verification_not_found), db)
    | some v ↦ check_code now code v db
  ]
