-- ===== src/Api/Access.antt =====
-- Who may call (app/core/security.py, app/api/v1).
use order_run_be.Base.{
  ℕ, ◌≡◌, refl, ap, ◌⊎◌, inl, inr, true, false, String, Memᴰ, Option, none, some, Result, err,
  UserId, ◌==◌, not, ◌&&◌, first-mem, Option-cases, arith,
}
use order_run_be.Errors.{Error, api, value_error, no_result, AppError, errors}
use order_run_be.Models.User.{User}
use order_run_be.Security.{
  Payload, TokenType, access, refresh, subject, get_current_user, verify_token, find_active_user,
}
use order_run_be.Api.{
  App, Visit, Route, secured, error_response, status_of, api_error, http_exception_handler,
}
use order_run_be.Api.Calls.{Call, needs_token, told, handle}
use order_run_be.Api.Accounts
use order_run_be.Api.Errands
use order_run_be.Api.Messages
use order_run_be.Db.{Db}

-- The token of the request is an access token that the library decodes, and it names a stored user
-- who has not withdrawn.
pub record IsCaller (app : App) (visit : Visit) (db : Db) (user : User) : Type 0 where
  pub token : String
  pub payload : Payload
  pub sent : visit.token ≡ some token
  pub decoded : app.jwt.decode (visit.clock 0) token ≡ some payload
  pub is_access : payload.type_name ≡ access
  pub names : payload.sub ≡ some user.id
  pub stored : Memᴰ user db.users
  pub active : user.deleted ≡ false

-- The answer to a caller who is not known: 401 for the token, 404 for the user
abbrev pub IsRefusal : ℕ → Type 0
IsRefusal status = (status ≡ 401) ⊎ (status ≡ 404)

abbrev pub error_status : Error → ℕ
error_status e = status_of {A = Unit {0}} (error_response e)

status-error : (A : Type 0) (e : Error) → status_of {A = A} (error_response e) ≡ error_status e
unfolding error_response http_exception_handler api_error
status-error A (api e) = refl
status-error A value_error = refl
status-error A no_result = refl

module _ (app : App) (visit : Visit) (db : Db) where
  abbrev pub caller : Result Error User
  caller = get_current_user app.jwt (visit.clock 0) visit.token db

  -- Why the caller of a request is not known
  pub record IsUnknown (e : Error) : Type 0 where
    pub raised : caller ≡ err e
    pub refusal : IsRefusal (error_status e)

  IsCaller-cases : ((user : User) × IsCaller app visit db user) ⊎ ((e : Error) × IsUnknown e)
  unfolding get_current_user verify_token error_response http_exception_handler api_error errors
  IsCaller-cases = elim (Option-cases visit.token) [
    | inl missing ↦
        inr (api AppError.missing_credentials, record { raised = rw missing; refusal = inl refl })
    | inr (token, t) ↦ elim (Option-cases (app.jwt.decode (visit.clock 0) token)) [
      | inl bad ↦ inr (
        api AppError.invalid_token_credentials,
        record { raised = rw (t, bad); refusal = inl refl },
      )
      | inr (payload, d) ↦ by_type token payload t d payload.type_name refl
    ]
  ]
    where
      by_subject :
          (token : String) (payload : Payload)
          → visit.token ≡ some token
          → app.jwt.decode (visit.clock 0) token ≡ some payload
          → payload.type_name ≡ access
          → (sub : Option UserId) → payload.sub ≡ sub
          → (((user : User) × IsCaller app visit db user) ⊎ ((e : Error) × IsUnknown e))
      by_subject token payload t d a none s = inr (
        api AppError.invalid_authentication_credentials,
        record { raised = rw (t, d, a, s); refusal = inl refl },
      )
      by_subject token payload t d a (some user_id) s =
          elim (Option-cases (find_active_user user_id db)) [
            | inl gone ↦ inr (
              api AppError.user_not_found,
              record { raised = rw (t, d, a, s, subject, gone); refusal = inr refl },
            )
            | inr (user, f) ↦
                let (m, p) = first-mem (λ u. u.id == user_id && not u.deleted) db.users f in
                inl (
                  user,
                  record {
                    token = token;
                    payload = payload;
                    sent = t;
                    decoded = d;
                    is_access = a;
                    names = ground (arith, s, p);
                    stored = m;
                    active = ground (arith, p);
                  },
                )
          ]

      by_type :
          (token : String) (payload : Payload)
          → visit.token ≡ some token
          → app.jwt.decode (visit.clock 0) token ≡ some payload
          → (type_name : TokenType) → payload.type_name ≡ type_name
          → (((user : User) × IsCaller app visit db user) ⊎ ((e : Error) × IsUnknown e))
      by_type token payload t d access a = by_subject token payload t d a payload.sub refl
      by_type token payload t d refresh a =
          inr
            (api AppError.invalid_token_type, record { raised = rw (t, d, a); refusal = inl refl })

  refused :
      {A : Type 0} (route : User → Route A) (e : Error)
      → caller ≡ err e
      → told (secured app visit route db) ≡ (error_status e, db)
  unfolding secured
  refused {A} route e h = rw h (ap (λ (k : ℕ). (k, db)) (status-error A e))

  handle-refused :
      (c : Call) (e : Error)
      → needs_token c ≡ true
      → caller ≡ err e
      → handle app visit c db ≡ (error_status e, db)
  unfolding handle Accounts.logout Accounts.get_user_detail Accounts.update_alarm
      Accounts.update_name Accounts.update_fcm_token Accounts.withdraw_user Accounts.agree_terms
      Accounts.get_settlement_account Accounts.save_settlement_account Accounts.get_settlement_banks
      Errands.list_proposals Errands.list_own_proposals Errands.get_proposal
      Errands.create_proposal_report Errands.create_proposal Errands.update_proposal
      Errands.cancel_proposal Errands.confirm_received Errands.raise_proposal_dispute
      Errands.list_proposal_report_reasons Errands.create_offer Errands.get_own_offers
      Errands.get_offers Errands.get_offer Errands.accept_offer Errands.complete_delivery
      Errands.raise_offer_dispute Errands.cancel_offer Messages.list_notifications
      Messages.get_notification_stats Messages.get_notification Messages.mark_notifications_read
      Messages.send_notification Messages.get_dispute_evidence
      Messages.list_dispute_survey_questions
  handle-refused (Call.signup_send a) e t h = absurd (cc)
  handle-refused (Call.signup_confirm a) e t h = absurd (cc)
  handle-refused (Call.login_send a) e t h = absurd (cc)
  handle-refused (Call.login_confirm a) e t h = absurd (cc)
  handle-refused (Call.refresh_token a) e t h = absurd (cc)
  handle-refused (Call.logout a) e t h = refused _ e h
  handle-refused Call.get_user_detail e t h = refused _ e h
  handle-refused (Call.update_alarm a) e t h = refused _ e h
  handle-refused (Call.update_name a) e t h = refused _ e h
  handle-refused (Call.update_fcm_token a) e t h = refused _ e h
  handle-refused Call.withdraw_user e t h = refused _ e h
  handle-refused (Call.agree_terms a) e t h = refused _ e h
  handle-refused Call.get_settlement_account e t h = refused _ e h
  handle-refused (Call.save_settlement_account a) e t h = refused _ e h
  handle-refused Call.get_settlement_banks e t h = refused _ e h
  handle-refused (Call.list_proposals a b c) e t h = refused _ e h
  handle-refused (Call.list_own_proposals a b c) e t h = refused _ e h
  handle-refused (Call.get_proposal a) e t h = refused _ e h
  handle-refused (Call.create_proposal_report a b) e t h = refused _ e h
  handle-refused (Call.create_proposal a) e t h = refused _ e h
  handle-refused (Call.update_proposal a b) e t h = refused _ e h
  handle-refused (Call.cancel_proposal a) e t h = refused _ e h
  handle-refused (Call.confirm_received a) e t h = refused _ e h
  handle-refused (Call.raise_proposal_dispute a b) e t h = refused _ e h
  handle-refused Call.list_proposal_report_reasons e t h = refused _ e h
  handle-refused (Call.create_offer a) e t h = refused _ e h
  handle-refused (Call.get_own_offers a b c) e t h = refused _ e h
  handle-refused (Call.get_offers a b) e t h = refused _ e h
  handle-refused (Call.get_offer a) e t h = refused _ e h
  handle-refused (Call.accept_offer a) e t h = refused _ e h
  handle-refused (Call.complete_delivery a) e t h = refused _ e h
  handle-refused (Call.raise_offer_dispute a b) e t h = refused _ e h
  handle-refused (Call.cancel_offer a) e t h = refused _ e h
  handle-refused (Call.list_notifications a b c) e t h = refused _ e h
  handle-refused Call.get_notification_stats e t h = refused _ e h
  handle-refused (Call.get_notification a) e t h = refused _ e h
  handle-refused (Call.mark_notifications_read a) e t h = refused _ e h
  handle-refused (Call.send_notification a) e t h = refused _ e h
  handle-refused (Call.get_dispute_evidence a b) e t h = refused _ e h
  handle-refused (Call.list_dispute_survey_questions a) e t h = refused _ e h
  handle-refused (Call.list_proposal_reports a b c) e t h = absurd (cc)
  handle-refused (Call.accept_proposal_report a) e t h = absurd (cc)
  handle-refused (Call.reject_proposal_report a) e t h = absurd (cc)
  handle-refused (Call.confirm_payment a) e t h = absurd (cc)
  handle-refused (Call.list_pending_payment_proposals a b) e t h = absurd (cc)
  handle-refused (Call.resolve_offer a) e t h = absurd (cc)

-- For every route that depends on the current user, the bearer token is an access token that the
-- JWT library decodes to a stored user who has not withdrawn, or the answer has status 401 or 404
-- and the database is as it was.
pub handle-identified :
    (app : App) (visit : Visit) (c : Call) (db : Db)
    → needs_token c ≡ true
    → (((user : User) × IsCaller app visit db user)
        ⊎ (IsRefusal (handle app visit c db).0 × ((handle app visit c db).1 ≡ db)))
handle-identified app visit c db t = elim (IsCaller-cases app visit db) [
  | inl known ↦ inl known
  | inr (e, unknown) ↦
      let h = handle-refused app visit db c e t unknown.raised in inr (rw h unknown.refusal, rw h)
]
