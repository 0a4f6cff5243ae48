-- ===== src/Commands/Mail.antt =====
-- The commands leave the notifications in order.
use order_run_be.Base.{ℕ, List, [], ◌∷◌, Option, String, UserId, Moment}
use order_run_be.Delivery.Kept.{Orderly, Kept, done, continue-Kept, lift-Kept, keeping}
use order_run_be.Proposals.Commands as Drafts
use order_run_be.Proposals.Commands.{ProposalRequest}
use order_run_be.Proposals.Execution as Orderer
use order_run_be.Offers.Commands as Bids
use order_run_be.Offers.Execution as Runner
use order_run_be.Reports
use order_run_be.Withdrawal
use order_run_be.Withdrawal.{cancel_offers, cancel_proposals, forget, withdraw_work, auto_cancel}
use order_run_be.Delivery.Orderly.{delete_where-IsOrderly}
use order_run_be.Models.User.{User}
use order_run_be.Models.Offer
use order_run_be.Models.Offer.{Offer}
use order_run_be.Models.Proposal
use order_run_be.Models.Proposal.{Proposal}
use order_run_be.Db.{Db}

pub drafts_create-Orderly :
    (t s : Moment) (r : ProposalRequest) (u : UserId) (db : Db)
    → Orderly db
    → Orderly (Drafts.create t s r u db).1
unfolding Drafts.create
drafts_create-Orderly t s r u db h = search keeping depth 60

pub drafts_update-Orderly :
    (t : Moment) (i : ℕ) (r : ProposalRequest) (u : UserId) (db : Db)
    → Orderly db
    → Orderly (Drafts.update t i r u db).1
unfolding Drafts.update
drafts_update-Orderly t i r u db h = search keeping depth 60

pub drafts_cancel-Orderly :
    (i : ℕ) (u : UserId) (db : Db) → Orderly db → Orderly (Drafts.cancel i u db).1
unfolding Drafts.cancel
drafts_cancel-Orderly i u db h = search keeping depth 60

pub drafts_confirm_payment-Orderly :
    (i : ℕ) (db : Db) → Orderly db → Orderly (Drafts.confirm_payment i db).1
unfolding Drafts.confirm_payment
drafts_confirm_payment-Orderly i db h = search keeping depth 60

pub bids_create-Orderly :
    (t : Moment) (i : ℕ) (u : UserId) (db : Db) → Orderly db → Orderly (Bids.create t i u db).1
unfolding Bids.create Bids.create_work
bids_create-Orderly t i u db h = search keeping depth 60

pub bids_cancel-Orderly :
    (i : ℕ) (u : UserId) (db : Db) → Orderly db → Orderly (Bids.cancel i u db).1
unfolding Bids.cancel
bids_cancel-Orderly i u db h = search keeping depth 60

pub bids_accept-Orderly :
    (s t : Moment) (i : ℕ) (u : UserId) (db : Db) → Orderly db → Orderly (Bids.accept s t i u db).1
unfolding Bids.accept Bids.accept_work
bids_accept-Orderly s t i u db h = search keeping depth 60

pub orderer_confirm_received-Orderly :
    (s t v : Moment) (i : ℕ) (u : UserId) (db : Db)
    → Orderly db
    → Orderly (Orderer.confirm_received s t v i u db).1
unfolding Orderer.confirm_received Orderer.confirm_received_work Orderer.sync_all_completed
orderer_confirm_received-Orderly s t v i u db h = search keeping depth 60

pub orderer_raise_dispute-Orderly :
    (s t v : Moment) (i : ℕ) (u : UserId) (q : ℕ) (m : String) (db : Db)
    → Orderly db
    → Orderly (Orderer.raise_dispute s t v i u q m db).1
unfolding Orderer.raise_dispute Orderer.raise_dispute_work
orderer_raise_dispute-Orderly s t v i u q m db h = search keeping depth 60

pub runner_complete_delivery-Orderly :
    (s t v w : Moment) (i : ℕ) (u : UserId) (db : Db)
    → Orderly db
    → Orderly (Runner.complete_delivery s t v w i u db).1
unfolding Runner.complete_delivery Runner.complete_delivery_work Runner.sync_all_completed
runner_complete_delivery-Orderly s t v w i u db h = search keeping depth 60

pub runner_raise_dispute-Orderly :
    (s t v : Moment) (i : ℕ) (u : UserId) (q : ℕ) (m : String) (db : Db)
    → Orderly db
    → Orderly (Runner.raise_dispute s t v i u q m db).1
unfolding Runner.raise_dispute Runner.raise_dispute_work
runner_raise_dispute-Orderly s t v i u q m db h = search keeping depth 60

pub runner_resolve-Orderly :
    (s t : Moment) (i : ℕ) (db : Db) → Orderly db → Orderly (Runner.resolve s t i db).1
unfolding Runner.resolve Runner.resolve_work
runner_resolve-Orderly s t i db h = search keeping depth 60

pub reports_create-Orderly :
    (t : Moment) (i : ℕ) (u : UserId) (k : ℕ) (d : Option String) (db : Db)
    → Orderly db
    → Orderly (Reports.create t i u k d db).1
unfolding Reports.create Reports.create_work
reports_create-Orderly t i u k d db h = search keeping depth 60

pub reports_accept-Orderly :
    (t : Moment) (i : ℕ) (db : Db) → Orderly db → Orderly (Reports.accept t i db).1
unfolding Reports.accept Reports.accept_work
reports_accept-Orderly t i db h = search keeping depth 60

pub reports_reject-Orderly :
    (t : Moment) (i : ℕ) (db : Db) → Orderly db → Orderly (Reports.reject t i db).1
unfolding Reports.reject Reports.reject_work
reports_reject-Orderly t i db h = search keeping depth 60

cancel_offers-Kept : (os : List Offer) (db : Db) → Orderly db → Kept (cancel_offers os db)
cancel_offers-Kept [] db h = done tt db h
cancel_offers-Kept (o ∷ os) db h =
    continue-Kept (lift-Kept db h (Offer.cancel o)) (λ o' db' h'. cancel_offers-Kept os _ h')

cancel_proposals-Kept : (ps : List Proposal) (db : Db) → Orderly db → Kept (cancel_proposals ps db)
cancel_proposals-Kept [] db h = done tt db h
cancel_proposals-Kept (p ∷ ps) db h =
    continue-Kept (lift-Kept db h (Proposal.cancel p)) (λ p' db' h'. cancel_proposals-Kept ps _ h')

forget-Orderly : (user : User) (db : Db) → Orderly db → Orderly (forget user db)
unfolding forget
forget-Orderly user db h = delete_where-IsOrderly _ db.notifications h

pub withdraw_user-Orderly :
    (now : Moment) (u : UserId) (db : Db)
    → Orderly db
    → Orderly (Withdrawal.withdraw_user now u db).1
unfolding Withdrawal.withdraw_user withdraw_work auto_cancel
withdraw_user-Orderly now u db h =
    search (keeping, cancel_offers-Kept, cancel_proposals-Kept, forget-Orderly) depth 60
