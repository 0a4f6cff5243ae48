-- ===== src/Api/Calls.antt =====
-- Every request that the routers take (app/api/v1/router.py), and what it leaves: the status of the
-- response, and the database.
use order_run_be.Base.{ℕ, Bool, true, false, String, List, [], ◌∷◌, Option}
use order_run_be.Models.Proposal.{ProposalStatus}
use order_run_be.Models.Offer.{OfferStatus}
use order_run_be.Models.Report.{ProposalReportStatus}
use order_run_be.Models.Dispute.{DisputeSurveyTargetType}
use order_run_be.Terms.{TermsAgreementRequest}
use order_run_be.Settlement.{SettlementAccountRequest}
use order_run_be.Inbox.{NotificationSendRequest}
use order_run_be.Schemas.{SignupSend, PhoneConfirm, LoginConfirm}
use order_run_be.Schemas.Errands.{ProposalBody, ReportBody, DisputeBody}
use order_run_be.Delivery.Drain.{Round}
use order_run_be.Delivery.Worker.{retry_failed}
use order_run_be.Api.{App, Visit, Response, status_of}
use order_run_be.Api.Accounts
use order_run_be.Api.Errands
use order_run_be.Api.Messages
use order_run_be.Api.Admin
use order_run_be.Db.{Db}

-- The requests, each with its body, its path and its query
pub data Call : Type 0 where
  signup_send : SignupSend → Call
  signup_confirm : PhoneConfirm → Call
  login_send : List ℕ → Call
  login_confirm : LoginConfirm → Call
  refresh_token : String → Call
  logout : String → Call
  get_user_detail : Call
  update_alarm : Bool → Call
  update_name : String → Call
  update_fcm_token : String → Call
  withdraw_user : Call
  agree_terms : TermsAgreementRequest → Call
  get_settlement_account : Call
  save_settlement_account : SettlementAccountRequest → Call
  get_settlement_banks : Call
  list_proposals : List ProposalStatus → ℕ → ℕ → Call
  list_own_proposals : List ProposalStatus → ℕ → ℕ → Call
  get_proposal : ℕ → Call
  create_proposal_report : ℕ → ReportBody → Call
  create_proposal : ProposalBody → Call
  update_proposal : ℕ → ProposalBody → Call
  cancel_proposal : ℕ → Call
  confirm_received : ℕ → Call
  raise_proposal_dispute : ℕ → DisputeBody → Call
  list_proposal_report_reasons : Call
  create_offer : ℕ → Call
  get_own_offers : List OfferStatus → ℕ → ℕ → Call
  get_offers : ℕ → List OfferStatus → Call
  get_offer : ℕ → Call
  accept_offer : ℕ → Call
  complete_delivery : ℕ → Call
  raise_offer_dispute : ℕ → DisputeBody → Call
  cancel_offer : ℕ → Call
  list_notifications : ℕ → ℕ → Bool → Call
  get_notification_stats : Call
  get_notification : ℕ → Call
  mark_notifications_read : List ℕ → Call
  send_notification : NotificationSendRequest → Call
  get_dispute_evidence : Option ℕ → Option ℕ → Call
  list_dispute_survey_questions : DisputeSurveyTargetType → Call
  list_proposal_reports : Option ProposalReportStatus → ℕ → ℕ → Call
  accept_proposal_report : ℕ → Call
  reject_proposal_report : ℕ → Call
  confirm_payment : ℕ → Call
  list_pending_payment_proposals : ℕ → ℕ → Call
  resolve_offer : ℕ → Call

-- The routes that depend on the current user
abbrev pub needs_token : Call → Bool
needs_token (signup_send _) = false
needs_token (signup_confirm _) = false
needs_token (login_send _) = false
needs_token (login_confirm _) = false
needs_token (refresh_token _) = false
needs_token (list_proposal_reports _ _ _) = false
needs_token (accept_proposal_report _) = false
needs_token (reject_proposal_report _) = false
needs_token (confirm_payment _) = false
needs_token (list_pending_payment_proposals _ _) = false
needs_token (resolve_offer _) = false
needs_token _ = true

abbrev pub told : {A : Type 0} → Response A × Db → ℕ × Db
told (response, db) = (status_of response, db)

unfoldable pub handle : App → Visit → Call → Db → ℕ × Db
handle app visit (signup_send a) db = told (Accounts.signup_send app visit a db)
handle app visit (signup_confirm a) db = told (Accounts.signup_confirm app visit a db)
handle app visit (login_send a) db = told (Accounts.login_send app visit a db)
handle app visit (login_confirm a) db = told (Accounts.login_confirm app visit a db)
handle app visit (refresh_token a) db = told (Accounts.refresh_token app visit a db)
handle app visit (logout a) db = told (Accounts.logout app visit a db)
handle app visit get_user_detail db = told (Accounts.get_user_detail app visit db)
handle app visit (update_alarm a) db = told (Accounts.update_alarm app visit a db)
handle app visit (update_name a) db = told (Accounts.update_name app visit a db)
handle app visit (update_fcm_token a) db = told (Accounts.update_fcm_token app visit a db)
handle app visit withdraw_user db = told (Accounts.withdraw_user app visit db)
handle app visit (agree_terms a) db = told (Accounts.agree_terms app visit a db)
handle app visit get_settlement_account db = told (Accounts.get_settlement_account app visit db)
handle app visit (save_settlement_account a) db =
    told (Accounts.save_settlement_account app visit a db)
handle app visit get_settlement_banks db = told (Accounts.get_settlement_banks app visit db)
handle app visit (list_proposals a b c) db = told (Errands.list_proposals app visit a b c db)
handle app visit (list_own_proposals a b c) db =
    told (Errands.list_own_proposals app visit a b c db)
handle app visit (get_proposal a) db = told (Errands.get_proposal app visit a db)
handle app visit (create_proposal_report a b) db =
    told (Errands.create_proposal_report app visit a b db)
handle app visit (create_proposal a) db = told (Errands.create_proposal app visit a db)
handle app visit (update_proposal a b) db = told (Errands.update_proposal app visit a b db)
handle app visit (cancel_proposal a) db = told (Errands.cancel_proposal app visit a db)
handle app visit (confirm_received a) db = told (Errands.confirm_received app visit a db)
handle app visit (raise_proposal_dispute a b) db =
    told (Errands.raise_proposal_dispute app visit a b db)
handle app visit list_proposal_report_reasons db =
    told (Errands.list_proposal_report_reasons app visit db)
handle app visit (create_offer a) db = told (Errands.create_offer app visit a db)
handle app visit (get_own_offers a b c) db = told (Errands.get_own_offers app visit a b c db)
handle app visit (get_offers a b) db = told (Errands.get_offers app visit a b db)
handle app visit (get_offer a) db = told (Errands.get_offer app visit a db)
handle app visit (accept_offer a) db = told (Errands.accept_offer app visit a db)
handle app visit (complete_delivery a) db = told (Errands.complete_delivery app visit a db)
handle app visit (raise_offer_dispute a b) db = told (Errands.raise_offer_dispute app visit a b db)
handle app visit (cancel_offer a) db = told (Errands.cancel_offer app visit a db)
handle app visit (list_notifications a b c) db =
    told (Messages.list_notifications app visit a b c db)
handle app visit get_notification_stats db = told (Messages.get_notification_stats app visit db)
handle app visit (get_notification a) db = told (Messages.get_notification app visit a db)
handle app visit (mark_notifications_read a) db =
    told (Messages.mark_notifications_read app visit a db)
handle app visit (send_notification a) db = told (Messages.send_notification app visit a db)
handle app visit (get_dispute_evidence a b) db =
    told (Messages.get_dispute_evidence app visit a b db)
handle app visit (list_dispute_survey_questions a) db =
    told (Messages.list_dispute_survey_questions app visit a db)
handle app visit (list_proposal_reports a b c) db =
    told (Admin.list_proposal_reports visit a b c db)
handle app visit (accept_proposal_report a) db = told (Admin.accept_proposal_report visit a db)
handle app visit (reject_proposal_report a) db = told (Admin.reject_proposal_report visit a db)
handle app visit (confirm_payment a) db = told (Admin.confirm_payment visit a db)
handle app visit (list_pending_payment_proposals a b) db =
    told (Admin.list_pending_payment_proposals visit a b db)
handle app visit (resolve_offer a) db = told (Admin.resolve_offer visit a db)

-- What happens to the database: a request, or the scheduled job of the worker (app/main.py)
pub data Event : Type 0 where
  request : Visit → Call → Event
  retry_job : Round → Event

unfoldable pub happen : App → Event → Db → Db
happen app (request visit call) db = (handle app visit call db).1
happen app (retry_job (fcm, times)) db = retry_failed fcm times db

unfoldable pub happen_all : App → List Event → Db → Db
happen_all app [] db = db
happen_all app (e ∷ es) db = happen_all app es (happen app e db)
