-- ===== src/Api/Undone.antt =====
-- What a request that fails leaves behind (app/api/v1).
use order_run_be.Base.{◌≡◌, ◌≤◌, Bool, true, false, arith}
use order_run_be.Auth.Verification as Codes
use order_run_be.Auth.Sessions
use order_run_be.Auth.Profile
use order_run_be.Withdrawal
use order_run_be.Terms
use order_run_be.Settlement
use order_run_be.Inbox
use order_run_be.Proposals.Commands as Drafts
use order_run_be.Offers.Commands as Bids
use order_run_be.Reports
use order_run_be.Api.{App, Visit, secured}
use order_run_be.Api.Calls.{Call, handle}
use order_run_be.Api.Accounts
use order_run_be.Api.Errands
use order_run_be.Api.Errands.{created}
use order_run_be.Api.Messages
use order_run_be.Api.Messages.{sent}
use order_run_be.Api.Admin
use order_run_be.Consistency.{Consistent}
use order_run_be.Api.Late.{answering}
use order_run_be.Api.Refused.{Leaves, refusing}
use order_run_be.Db.{Db}

-- The two confirmations of a code, which count a failed attempt, and the two answers to a report,
-- which read the text of its question after the commit: a failure of these may come after a commit.
abbrev pub may_fail_late : Call → Bool
may_fail_late (Call.signup_confirm _) = true
may_fail_late (Call.login_confirm _) = true
may_fail_late (Call.accept_proposal_report _) = true
may_fail_late (Call.reject_proposal_report _) = true
may_fail_late _ = false

handle-Leaves :
    (app : App) (visit : Visit) (c : Call) (db : Db)
    → Consistent db
    → may_fail_late c ≡ false
    → Leaves db (handle app visit c db)
unfolding handle Accounts.signup_send Accounts.login_send Accounts.refresh_token Accounts.logout
    Accounts.get_user_detail Accounts.update_alarm Accounts.update_name Accounts.update_fcm_token
    Accounts.withdraw_user Accounts.agree_terms Accounts.get_settlement_account
    Accounts.save_settlement_account Accounts.get_settlement_banks Errands.list_proposals
    Errands.list_own_proposals Errands.get_proposal Errands.create_proposal_report
    Errands.create_proposal Errands.update_proposal Errands.cancel_proposal
    Errands.list_proposal_report_reasons Errands.get_own_offers Errands.get_offers Errands.get_offer
    Errands.accept_offer Errands.confirm_received Errands.raise_proposal_dispute
    Errands.create_offer Errands.complete_delivery Errands.raise_offer_dispute Admin.resolve_offer
    Errands.cancel_offer Messages.list_notifications Messages.get_notification_stats
    Messages.get_notification Messages.mark_notifications_read Messages.send_notification
    Messages.get_dispute_evidence Messages.list_dispute_survey_questions Admin.list_proposal_reports
    Admin.confirm_payment Admin.list_pending_payment_proposals Sessions.send_signup_verification
    Sessions.send_login_verification Codes.send Profile.update_alarm Profile.update_name
    Profile.update_fcm_token Withdrawal.withdraw_user Terms.agree Settlement.save_account
    Inbox.mark_notifications_read Drafts.create Drafts.update Drafts.cancel Drafts.confirm_payment
    Bids.accept Bids.cancel Reports.create secured
handle-Leaves app visit (Call.signup_send a) db k late = search (refusing, arith) depth 30
handle-Leaves app visit (Call.signup_confirm a) db k late = absurd (cc)
handle-Leaves app visit (Call.login_send a) db k late = search (refusing, arith) depth 30
handle-Leaves app visit (Call.login_confirm a) db k late = absurd (cc)
handle-Leaves app visit (Call.refresh_token a) db k late = search (refusing, arith) depth 30
handle-Leaves app visit (Call.logout a) db k late = search (refusing, arith) depth 30
handle-Leaves app visit Call.get_user_detail db k late = search (refusing, arith) depth 30
handle-Leaves app visit (Call.update_alarm a) db k late = search (refusing, arith) depth 30
handle-Leaves app visit (Call.update_name a) db k late = search (refusing, arith) depth 30
handle-Leaves app visit (Call.update_fcm_token a) db k late = search (refusing, arith) depth 30
handle-Leaves app visit Call.withdraw_user db k late = search (refusing, arith) depth 30
handle-Leaves app visit (Call.agree_terms a) db k late = search (refusing, arith) depth 30
handle-Leaves app visit Call.get_settlement_account db k late = search (refusing, arith) depth 30
handle-Leaves app visit (Call.save_settlement_account a) db k late =
    search (refusing, arith) depth 30
handle-Leaves app visit Call.get_settlement_banks db k late = search (refusing, arith) depth 30
handle-Leaves app visit (Call.list_proposals a b c) db k late = search (refusing, arith) depth 30
handle-Leaves app visit (Call.list_own_proposals a b c) db k late =
    search (refusing, arith) depth 30
handle-Leaves app visit (Call.get_proposal a) db k late = search (refusing, arith) depth 30
handle-Leaves app visit (Call.create_proposal_report a b) db k late =
    search (refusing, arith) depth 30
handle-Leaves app visit (Call.create_proposal a) db k late = search (refusing, arith) depth 30
handle-Leaves app visit (Call.update_proposal a b) db k late = search (refusing, arith) depth 30
handle-Leaves app visit (Call.cancel_proposal a) db k late = search (refusing, arith) depth 30
handle-Leaves app visit (Call.confirm_received a) db k late =
    search (refusing, answering, arith) depth 30
handle-Leaves app visit (Call.raise_proposal_dispute a b) db k late =
    search (refusing, answering, arith) depth 30
handle-Leaves app visit Call.list_proposal_report_reasons db k late =
    search (refusing, arith) depth 30
handle-Leaves app visit (Call.create_offer a) db k late =
    search (refusing, answering, arith) depth 30
handle-Leaves app visit (Call.get_own_offers a b c) db k late = search (refusing, arith) depth 30
handle-Leaves app visit (Call.get_offers a b) db k late = search (refusing, arith) depth 30
handle-Leaves app visit (Call.get_offer a) db k late = search (refusing, arith) depth 30
handle-Leaves app visit (Call.accept_offer a) db k late = search (refusing, arith) depth 30
handle-Leaves app visit (Call.complete_delivery a) db k late =
    search (refusing, answering, arith) depth 30
handle-Leaves app visit (Call.raise_offer_dispute a b) db k late =
    search (refusing, answering, arith) depth 30
handle-Leaves app visit (Call.cancel_offer a) db k late = search (refusing, arith) depth 30
handle-Leaves app visit (Call.list_notifications a b c) db k late =
    search (refusing, arith) depth 30
handle-Leaves app visit Call.get_notification_stats db k late = search (refusing, arith) depth 30
handle-Leaves app visit (Call.get_notification a) db k late = search (refusing, arith) depth 30
handle-Leaves app visit (Call.mark_notifications_read a) db k late =
    search (refusing, arith) depth 30
handle-Leaves app visit (Call.send_notification a) db k late = search (refusing, arith) depth 30
handle-Leaves app visit (Call.get_dispute_evidence a b) db k late =
    search (refusing, arith) depth 30
handle-Leaves app visit (Call.list_dispute_survey_questions a) db k late =
    search (refusing, arith) depth 30
handle-Leaves app visit (Call.list_proposal_reports a b c) db k late =
    search (refusing, arith) depth 30
handle-Leaves app visit (Call.accept_proposal_report a) db k late = absurd (cc)
handle-Leaves app visit (Call.reject_proposal_report a) db k late = absurd (cc)
handle-Leaves app visit (Call.confirm_payment a) db k late = search (refusing, arith) depth 30
handle-Leaves app visit (Call.list_pending_payment_proposals a b) db k late =
    search (refusing, arith) depth 30
handle-Leaves app visit (Call.resolve_offer a) db k late =
    search (refusing, answering, arith) depth 30

-- In a Consistent database, a request that is answered with a status of 400 or more leaves the
-- database as it was, on every route but four: the two confirmations of a code, which count a
-- failed attempt, and the two answers to a report, which read the text of its question after the
-- commit.
pub handle-undone :
    (app : App) (visit : Visit) (c : Call) (db : Db)
    → Consistent db
    → may_fail_late c ≡ false
    → 400 ≤ (handle app visit c db).0
    → (handle app visit c db).1 ≡ db
handle-undone app visit c db k late = (handle-Leaves app visit c db k late).unchanged
