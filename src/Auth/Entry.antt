-- ===== src/Auth/Entry.antt =====
-- What a sign-up and a login lead to: a token that names the user
-- (app/services/user_auth/user_auth_service.py, app/core/security.py).
use order_run_be.Base.{
  ℕ, ◌+◌, ◌*◌, ◌<◌, ◌≡◌, refl, ap, inl, inr, Bool, true, false, String, List, [], ◌∷◌, ◌++◌, Option,
  none, some, Memᴰ, arith, Result, ok, err, Option-cases, Bool-cases, ◌==◌, ◌&&◌, not, first,
  first-mem, update_where, Moment, UserId,
}
use mathlib.Core.List.Memᴰ
use order_run_be.Errors.{Error}
use order_run_be.Models.User
use order_run_be.Models.User.{User, AuthPhoneVerification, PhoneVerificationPurpose}
use order_run_be.Phone.{normalize_phone, same_text}
use order_run_be.Db.{Db}
use order_run_be.Security.{Jwt, Payload, Lifetimes, find_active_user, get_current_user}
use order_run_be.Security.Types.{access_token-names}
use order_run_be.Auth.Verification.{verify, check_code}
use order_run_be.Auth.Sessions.{
  AuthTokenResponse, build_tokens, confirm_signup, confirm_login, sign_up, log_in, new_user,
  has_phone, find_user_by_phone, check_login_code, upsert_fcm_token,
}

first-append :
    {A : Type 0} (p : A → Bool) (xs ys : List A)
    → first p xs ≡ none
    → first p (xs ++ ys) ≡ first p ys
first-append p [] ys h = refl
first-append p (x ∷ xs) ys h = ground (arith, first-append p xs ys)

same_text-eq : (s t : List ℕ) → same_text s t ≡ true → s ≡ t
same_text-eq [] [] h = refl
same_text-eq [] (c ∷ t) h = absurd (cc)
same_text-eq (c ∷ s) [] h = absurd (cc)
same_text-eq (c ∷ s) (d ∷ t) h = ground (arith, same_text-eq s t)

has_phone-eq :
    (phone : List ℕ) (stored : Option (List ℕ))
    → has_phone phone stored ≡ true
    → stored ≡ some phone
has_phone-eq phone none h = absurd (cc)
has_phone-eq phone (some other) h = ap some (same_text-eq other phone h)

-- The row that replaces the user's is the one that is found.
first-update_where :
    (u u' : User) (us : List User)
    → u'.id ≡ u.id
    → u'.deleted ≡ false
    → Memᴰ u us
    → first (λ v. v.id == u.id && not v.deleted) (update_where (λ v. v.id == u'.id) (λ _. u') us)
      ≡ some u'
first-update_where u u' [] key active m = absurd (Memᴰ.not-nil m)
first-update_where u u' (v ∷ us) key active m = elim (Bool-cases (v.id == u'.id)) [
  | inl same ↦ ground arith
  | inr other ↦ elim (Memᴰ.cases_cons m) [
    | inl e ↦ absurd (ground (arith, ap (λ (k : User). k.id) e))
    | inr later ↦ ground (arith, first-update_where u u' us key active later)
  ]
]

-- The token names a user with that id and that phone number.
pub record IsSession {Token : Type 0} (jwt : Jwt Token) (at : Moment) (token : Token) (id : UserId)
    (phone : List ℕ) (db : Db) : Type 0 where
  pub user : User
  pub named : get_current_user jwt at (some token) db ≡ ok user
  pub key : user.id ≡ id
  pub number : user.phone ≡ some phone

verify-users :
    (hash : String → String) (now : Moment) (purpose : PhoneVerificationPurpose) (phone : List ℕ)
    (code : String) (db : Db)
    → (verify hash now purpose phone code db).1.users ≡ db.users
unfolding verify check_code
verify-users hash now purpose phone code db = ground arith

module _ {Token : Type 0} (hash : String → String) (jwt : Jwt Token) (settings : Lifetimes)
    (decodes : (now : Moment) (p : Payload)
      → now < p.exp
      → jwt.decode now (jwt.encode p) ≡ some p) where
  -- Tokens that were issued for a stored user
  issued-IsSession :
      (issued at : Moment) (u : User) (phone : List ℕ) (db : Db)
      → at < issued + settings.access_minutes * 60000000
      → find_active_user u.id db ≡ some u
      → u.phone ≡ some phone
      → IsSession jwt at (build_tokens jwt settings issued u.id).access_token u.id phone db
  unfolding build_tokens
  issued-IsSession issued at u phone db lives found number = record {
    user = u;
    named = (access_token-names jwt settings decodes issued at u.id db u lives found).0;
    key = refl;
    number = number;
  }

  build_tokens-user_id :
      (issued : Moment) (id : UserId) → (build_tokens jwt settings issued id).user_id ≡ id
  unfolding build_tokens
  build_tokens-user_id issued id = refl

  signed_up :
      (before : Db) (id : UserId) (now flushed issued at : Moment) (phone : List ℕ)
      (x : Result Error AuthPhoneVerification × Db) {r : AuthTokenResponse Token} {after : Db}
      → x.1.users ≡ before.users
      → find_active_user id before ≡ none
      → sign_up hash jwt settings before id now flushed issued phone x ≡ (ok r, after)
      → at < issued + settings.access_minutes * 60000000
      → IsSession jwt at r.access_token id phone after
  signed_up before id now flushed issued at phone (err e, db) same fresh h lives =
      absurd (ground arith)
  signed_up before id now flushed issued at phone (ok v, db) {r} {after} same fresh h lives =
      let u = new_user id v.name phone now flushed in
      let tokens : build_tokens jwt settings issued id ≡ r = ground arith in
      let stored : after.users ≡ db.users ++ u ∷ [] = ground arith in
      let found : find_active_user id after ≡ some u =
        rw
          (
            stored,
            first-append (λ v. v.id == id && not v.deleted) db.users (u ∷ []) (rw same fresh),
          )
          (ground arith) in
      rw (← tokens) (issued-IsSession issued at u phone after lives found refl)

  -- If the JWT library decodes what it encoded until it expires and the drawn id is not in use,
  -- then after a successful sign-up the access token that it returned names, within its lifetime,
  -- a user with that id and the normalized phone number.
  pub confirm_signup-IsSession :
      (id : UserId) (checked now flushed issued at : Moment) (raw_phone : List ℕ) (code : String)
      (db : Db) {r : AuthTokenResponse Token} {after : Db}
      → find_active_user id db ≡ none
      → confirm_signup hash jwt settings id checked now flushed issued raw_phone code db
        ≡ (ok r, after)
      → at < issued + settings.access_minutes * 60000000
      → IsSession jwt at r.access_token id (normalize_phone raw_phone) after
  unfolding confirm_signup
  confirm_signup-IsSession id checked now flushed issued at raw_phone code db fresh h lives =
      signed_up db id now flushed issued at (normalize_phone raw_phone)
        (verify hash checked PhoneVerificationPurpose.signup (normalize_phone raw_phone) code db)
        (verify-users hash checked PhoneVerificationPurpose.signup (normalize_phone raw_phone) code
          db)
        fresh h lives

  check_login_code-users :
      (env : String) (now : Moment) (phone : List ℕ) (code : String) (db : Db)
      → (check_login_code hash jwt settings env now phone code db).1.users ≡ db.users
  check_login_code-users env now phone code db =
      ground (arith, verify-users hash now PhoneVerificationPurpose.login phone code db)

  logged_in :
      (u : User) (now issued at : Moment) (phone : List ℕ) (fcm_token : Option String)
      (x : Result Error (Unit {0}) × Db) {r : AuthTokenResponse Token} {after : Db}
      → Memᴰ u x.1.users
      → u.deleted ≡ false
      → u.phone ≡ some phone
      → log_in hash jwt settings u now issued fcm_token x ≡ (ok r, after)
      → at < issued + settings.access_minutes * 60000000
      → (r.user_id ≡ u.id) × IsSession jwt at r.access_token u.id phone after
  unfolding User.update_last_login_at upsert_fcm_token
  logged_in u now issued at phone fcm_token (err e, db) m active number h lives =
      absurd (ground arith)
  logged_in u now issued at phone fcm_token (ok _, db) {r} {after} m active number h lives =
      let u' = User.update_last_login_at now u in
      let tokens : build_tokens jwt settings issued u.id ≡ r = ground arith in
      let stored : after.users ≡ update_where (λ v. v.id == u'.id) (λ _. u') db.users =
        ground arith in
      let found : find_active_user u'.id after ≡ some u' =
        rw stored (first-update_where u u' db.users refl active m) in
      (
        rw (← tokens) (build_tokens-user_id issued u.id),
        rw (← tokens) (issued-IsSession issued at u' phone after lives found number),
      )

  -- If the JWT library decodes what it encoded until it expires, then after a successful login the
  -- access token that it returned names, within its lifetime, the returned user, whose phone
  -- number is the normalized one.
  pub confirm_login-IsSession :
      (env : String) (checked now issued at : Moment) (raw_phone : List ℕ) (code : String)
      (fcm_token : Option String) (db : Db) {r : AuthTokenResponse Token} {after : Db}
      → confirm_login hash jwt settings env checked now issued raw_phone code fcm_token db
        ≡ (ok r, after)
      → at < issued + settings.access_minutes * 60000000
      → IsSession jwt at r.access_token r.user_id (normalize_phone raw_phone) after
  unfolding confirm_login
  confirm_login-IsSession env checked now issued at raw_phone code fcm_token db {r} {after} h
        lives =
      let phone = normalize_phone raw_phone in
      elim (Option-cases (find_user_by_phone phone db)) [
        | inl e ↦ absurd (ground arith)
        | inr (u, e) ↦
            let (m, t) = first-mem (λ v. has_phone phone v.phone && not v.deleted) db.users e in
            let same = check_login_code-users env checked phone code db in
            let (key, session) =
              logged_in u now issued at phone fcm_token
                (check_login_code hash jwt settings env checked phone code db) (rw same m)
                (ground arith) (has_phone-eq phone u.phone (ground arith))
                (rw (confirm_login, e) at h) lives in
            rw key session
      ]
