-- ===== src/Auth/Attempts.antt =====
-- What a verification code stands (app/services/user_auth/phone_verification_service.py).
use order_run_be.Base.{
  ℕ, ◌≤◌, ◌<◌, ◌≡◌, inl, inr, ◌⊎◌, true, String, List, some, Memᴰ, arith, ok, Option-cases,
  Bool-cases, Moment, mem-where_all, mem-order_by, ◌==◌, mem-update_where, change, leb,
}
use text.Mathlib.Text.{◌==◌ as same_string}
use order_run_be.Models.User.{
  AuthPhoneVerification, PhoneVerificationPurpose, PhoneVerificationStatus, is_pending,
}
use order_run_be.Db.{Db}
use order_run_be.Consistency.Advance.{head?-mem}
use order_run_be.Auth.Verification.{
  is_waiting_for, newest_pending, latest_sent, save_verification, count_attempt, check_code, verify,
}

-- No code has more than five failed attempts, and one that still waits has fewer.
pub record IsBounded (v : AuthPhoneVerification) : Type 0 where
  pub most : v.attempt_count ≤ 5
  pub waiting : is_pending v.status ≡ true → v.attempt_count < 5

abbrev pub AreBounded : Db → Type 0
AreBounded db = (v : AuthPhoneVerification) → Memᴰ v db.verifications.rows → IsBounded v

count_attempt-IsBounded :
    (v : AuthPhoneVerification) → v.attempt_count < 5 → IsBounded (count_attempt v)
count_attempt-IsBounded v h = record { most = omega arith; waiting = λ e. ground arith }

newest_pending-mem :
    (purpose : PhoneVerificationPurpose) (phone : List ℕ) (db : Db) {v : AuthPhoneVerification}
    → newest_pending purpose phone db ≡ some v
    → Memᴰ v db.verifications.rows × (is_waiting_for purpose phone v ≡ true)
unfolding newest_pending
newest_pending-mem purpose phone db h =
    mem-where_all (is_waiting_for purpose phone) db.verifications.rows
      (mem-order_by latest_sent _ (head?-mem _ h))

waiting-pending :
    (purpose : PhoneVerificationPurpose) (phone : List ℕ) (v : AuthPhoneVerification)
    → is_waiting_for purpose phone v ≡ true
    → is_pending v.status ≡ true
waiting-pending purpose phone v h = ground arith

changed_cases :
    (w : AuthPhoneVerification) (v u : AuthPhoneVerification)
    → u ≡ change (λ x. x.id == w.id) (λ _. w) v
    → u ≡ w ⊎ u ≡ v
changed_cases w v u e = elim (Bool-cases (v.id == w.id)) [
  | inl h ↦ inl (rw h at e)
  | inr h ↦ inr (rw h at e)
]

save-AreBounded :
    (w : AuthPhoneVerification) (db : Db)
    → IsBounded w
    → AreBounded db
    → AreBounded (save_verification w db)
save-AreBounded w db good old u m =
    let (v, mv, e) = mem-update_where (λ (x : AuthPhoneVerification). x.id == w.id) (λ _. w) _ m in
    elim (changed_cases w v u e) [ inl h ↦ rw h good | inr h ↦ rw h (old v mv) ]

module _ (hash_code : String → String) where
  check_code-AreBounded :
      (now : Moment) (code : String) (v : AuthPhoneVerification) (db : Db)
      → Memᴰ v db.verifications.rows
      → is_pending v.status ≡ true
      → AreBounded db
      → AreBounded (check_code hash_code now code v db).1
  unfolding check_code
  check_code-AreBounded now code v db m waits old =
      let was = old v m in
      elim (Bool-cases (leb v.expires_at now)) [
        | inl late ↦ rw late (
            save-AreBounded (record v { status = PhoneVerificationStatus.expired }) db
              (record { most = was.most; waiting = λ e. absurd (cc) }) old)
        | inr early ↦ elim (Bool-cases (same_string v.code_hash (hash_code code))) [
          | inl right ↦
              rw (early, right)
                (save-AreBounded
                  (record v { status = PhoneVerificationStatus.verified; verified_at = some now })
                  db (record { most = was.most; waiting = λ e. absurd (cc) }) old)
          | inr wrong ↦
              rw (early, wrong)
                (save-AreBounded (count_attempt v) db
                  (count_attempt-IsBounded v (was.waiting waits)) old)
        ]
      ]

  -- If no stored code has more than five failed attempts and each pending one has fewer, the same
  -- holds after any verification, whatever its end.
  pub verify-AreBounded :
      (now : Moment) (purpose : PhoneVerificationPurpose) (phone : List ℕ) (code : String) (db : Db)
      → AreBounded db
      → AreBounded (verify hash_code now purpose phone code db).1
  unfolding verify
  verify-AreBounded now purpose phone code db old =
      elim (Option-cases (newest_pending purpose phone db)) [
        | inl e ↦ rw (verify, e) old
        | inr (v, e) ↦
            let (m, waits) = newest_pending-mem purpose phone db e in
            rw (verify, e)
              (check_code-AreBounded now code v db m (waiting-pending purpose phone v waits) old)
      ]

  -- If a verification succeeds, a stored code of that purpose and phone was pending, had not
  -- expired and had the hash of the given code; it is returned as verified at that moment.
  pub verify-accepts :
      (now : Moment) (purpose : PhoneVerificationPurpose) (phone : List ℕ) (code : String) (db : Db)
      (v : AuthPhoneVerification)
      → (verify hash_code now purpose phone code db).0 ≡ ok v
      → (w : AuthPhoneVerification) × Memᴰ w db.verifications.rows
        × (is_waiting_for purpose phone w ≡ true)
        × (now < w.expires_at)
        × (same_string w.code_hash (hash_code code) ≡ true)
        × (v ≡ record w { status = PhoneVerificationStatus.verified; verified_at = some now })
  unfolding verify check_code
  verify-accepts now purpose phone code db v h =
      elim (Option-cases (newest_pending purpose phone db)) [
        | inl e ↦ absurd (cc (rw (verify, e) at h))
        | inr (w, e) ↦
            let (m, waits) = newest_pending-mem purpose phone db e in
            let tested = rw (verify, e) at h in
            (w, m, waits, ground arith, ground arith, ground arith)
      ]
