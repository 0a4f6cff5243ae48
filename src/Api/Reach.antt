-- ===== src/Api/Reach.antt =====
-- What holds of every database that the requests and the worker lead to (app/api/v1, app/main.py).
use order_run_be.Base.{◌≡◌, List, [], ◌∷◌}
use order_run_be.Commands.Reach.{nothing_yet}
use order_run_be.Delivery.Orderly.{none_yet}
use order_run_be.Delivery.Upkeep.{retry_failed-Orderly}
use order_run_be.Delivery.Worker.{retry_failed, send_batch}
use order_run_be.Api.{App, Visit}
use order_run_be.Api.Calls.{Call, Event, request, retry_job, handle, happen, happen_all}
use order_run_be.Api.Sound.{
  IsSound, committed-Consistent, told-IsSound, reply-IsSound, reply_empty-IsSound, flushing-IsSound,
  created-IsSound, sent-IsSound, secured-IsSound, given-IsSound, checked-IsSound, require-IsSound,
}
use order_run_be.Api.Services.{services}
use order_run_be.Api.Accounts
use order_run_be.Api.Errands
use order_run_be.Api.Messages
use order_run_be.Api.Admin
use order_run_be.Db.{Db}

ruleset routing = (
  told-IsSound, reply-IsSound, reply_empty-IsSound, flushing-IsSound, created-IsSound, sent-IsSound,
  secured-IsSound, given-IsSound, checked-IsSound, require-IsSound,
)

handle-IsSound :
    (app : App) (visit : Visit) (c : Call) (db : Db)
    → IsSound db
    → IsSound (handle app visit c db).1
unfolding handle Accounts.signup_send Accounts.signup_confirm Accounts.login_send
    Accounts.login_confirm Accounts.refresh_token Accounts.logout Accounts.get_user_detail
    Accounts.update_alarm Accounts.update_name Accounts.update_fcm_token Accounts.withdraw_user
    Accounts.agree_terms Accounts.get_settlement_account Accounts.save_settlement_account
    Accounts.get_settlement_banks Errands.list_proposals Errands.list_own_proposals
    Errands.get_proposal Errands.create_proposal_report Errands.create_proposal
    Errands.update_proposal Errands.cancel_proposal Errands.confirm_received
    Errands.raise_proposal_dispute Errands.list_proposal_report_reasons Errands.create_offer
    Errands.get_own_offers Errands.get_offers Errands.get_offer Errands.accept_offer
    Errands.complete_delivery Errands.raise_offer_dispute Errands.cancel_offer
    Messages.list_notifications Messages.get_notification_stats Messages.get_notification
    Messages.mark_notifications_read Messages.send_notification Messages.get_dispute_evidence
    Messages.list_dispute_survey_questions Admin.list_proposal_reports Admin.accept_proposal_report
    Admin.reject_proposal_report Admin.confirm_payment Admin.list_pending_payment_proposals
    Admin.resolve_offer
handle-IsSound app visit (Call.signup_send a) db s = search (routing, services) depth 30
handle-IsSound app visit (Call.signup_confirm a) db s = search (routing, services) depth 30
handle-IsSound app visit (Call.login_send a) db s = search (routing, services) depth 30
handle-IsSound app visit (Call.login_confirm a) db s = search (routing, services) depth 30
handle-IsSound app visit (Call.refresh_token a) db s = search (routing, services) depth 30
handle-IsSound app visit (Call.logout a) db s = search (routing, services) depth 30
handle-IsSound app visit Call.get_user_detail db s = search (routing, services) depth 30
handle-IsSound app visit (Call.update_alarm a) db s = search (routing, services) depth 30
handle-IsSound app visit (Call.update_name a) db s = search (routing, services) depth 30
handle-IsSound app visit (Call.update_fcm_token a) db s = search (routing, services) depth 30
handle-IsSound app visit Call.withdraw_user db s = search (routing, services) depth 30
handle-IsSound app visit (Call.agree_terms a) db s = search (routing, services) depth 30
handle-IsSound app visit Call.get_settlement_account db s = search (routing, services) depth 30
handle-IsSound app visit (Call.save_settlement_account a) db s = search (routing, services) depth 30
handle-IsSound app visit Call.get_settlement_banks db s = search (routing, services) depth 30
handle-IsSound app visit (Call.list_proposals a b c) db s = search (routing, services) depth 30
handle-IsSound app visit (Call.list_own_proposals a b c) db s = search (routing, services) depth 30
handle-IsSound app visit (Call.get_proposal a) db s = search (routing, services) depth 30
handle-IsSound app visit (Call.create_proposal_report a b) db s =
    search (routing, services) depth 30
handle-IsSound app visit (Call.create_proposal a) db s = search (routing, services) depth 30
handle-IsSound app visit (Call.update_proposal a b) db s = search (routing, services) depth 30
handle-IsSound app visit (Call.cancel_proposal a) db s = search (routing, services) depth 30
handle-IsSound app visit (Call.confirm_received a) db s = search (routing, services) depth 30
handle-IsSound app visit (Call.raise_proposal_dispute a b) db s =
    search (routing, services) depth 30
handle-IsSound app visit Call.list_proposal_report_reasons db s =
    search (routing, services) depth 30
handle-IsSound app visit (Call.create_offer a) db s = search (routing, services) depth 30
handle-IsSound app visit (Call.get_own_offers a b c) db s = search (routing, services) depth 30
handle-IsSound app visit (Call.get_offers a b) db s = search (routing, services) depth 30
handle-IsSound app visit (Call.get_offer a) db s = search (routing, services) depth 30
handle-IsSound app visit (Call.accept_offer a) db s = search (routing, services) depth 30
handle-IsSound app visit (Call.complete_delivery a) db s = search (routing, services) depth 30
handle-IsSound app visit (Call.raise_offer_dispute a b) db s = search (routing, services) depth 30
handle-IsSound app visit (Call.cancel_offer a) db s = search (routing, services) depth 30
handle-IsSound app visit (Call.list_notifications a b c) db s = search (routing, services) depth 30
handle-IsSound app visit Call.get_notification_stats db s = search (routing, services) depth 30
handle-IsSound app visit (Call.get_notification a) db s = search (routing, services) depth 30
handle-IsSound app visit (Call.mark_notifications_read a) db s = search (routing, services) depth 30
handle-IsSound app visit (Call.send_notification a) db s = search (routing, services) depth 30
handle-IsSound app visit (Call.get_dispute_evidence a b) db s = search (routing, services) depth 30
handle-IsSound app visit (Call.list_dispute_survey_questions a) db s =
    search (routing, services) depth 30
handle-IsSound app visit (Call.list_proposal_reports a b c) db s =
    search (routing, services) depth 30
handle-IsSound app visit (Call.accept_proposal_report a) db s = search (routing, services) depth 30
handle-IsSound app visit (Call.reject_proposal_report a) db s = search (routing, services) depth 30
handle-IsSound app visit (Call.confirm_payment a) db s = search (routing, services) depth 30
handle-IsSound app visit (Call.list_pending_payment_proposals a b) db s =
    search (routing, services) depth 30
handle-IsSound app visit (Call.resolve_offer a) db s = search (routing, services) depth 30

happen-IsSound : (app : App) (e : Event) (db : Db) → IsSound db → IsSound (happen app e db)
unfolding happen retry_failed send_batch
happen-IsSound app (request visit call) db s = handle-IsSound app visit call db s
happen-IsSound app (retry_job (fcm, times)) db s = record {
  consistent = committed-Consistent db _ s.consistent;
  orderly = retry_failed-Orderly fcm times db s.orderly;
}

happen_all-keeps :
    (app : App) (es : List Event) (db : Db) → IsSound db → IsSound (happen_all app es db)
unfolding happen_all
happen_all-keeps app [] db s = s
happen_all-keeps app (e ∷ es) db s =
    happen_all-keeps app es (happen app e db) (happen-IsSound app e db s)

-- From a database without proposals, offers and notifications, every sequence of HTTP requests
-- (whatever their tokens and bodies, failed ones included) and of runs of the scheduled worker
-- leads to a database in which proposals and offers are Consistent, and the notifications have
-- keys of their own below the next key, count at most three failures, and count none while they
-- are pending.
pub happen_all-IsSound :
    (app : App) (es : List Event) (db : Db)
    → db.proposals.rows ≡ []
    → db.offers.rows ≡ []
    → db.notifications.rows ≡ []
    → IsSound (happen_all app es db)
happen_all-IsSound app es db hp ho hn =
    happen_all-keeps app es db
      (record { consistent = nothing_yet _ _ hp ho; orderly = none_yet db.notifications hn })
