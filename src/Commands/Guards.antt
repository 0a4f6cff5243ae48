-- ===== src/Commands/Guards.antt =====
-- The commands and the `ValueError` of the models' own guards (app/models, app/services).
use order_run_be.Base.{ℕ, String, ◌≢◌, Option, some, ok, err, Result, UserId, Moment, arith}
use order_run_be.Errors.{Error, value_error}
use order_run_be.Db.{Db, Tx, commit, answer, finish, respond_with}
use order_run_be.Models.Proposal
use order_run_be.Models.Proposal.{Proposal}
use order_run_be.Models.Report.{ProposalReport}
use order_run_be.Proposals.Queries.{get_proposal_detail}
use order_run_be.Proposals.Commands as Drafts
use order_run_be.Proposals.Commands.{ProposalRequest}
use order_run_be.Proposals.Execution as Orderer
use order_run_be.Proposals.Execution.{confirm_received_work}
use order_run_be.Offers.Queries.{to_response}
use order_run_be.Offers.Commands as Bids
use order_run_be.Offers.Commands.{accept_work, cancel, create_work, show_offer}
use order_run_be.Offers.Execution as Runner
use order_run_be.Offers.Execution.{complete_delivery_work, resolve_work}
use order_run_be.Reports
use order_run_be.Withdrawal
use order_run_be.Lifecycle.Leaving
use order_run_be.Consistency.{Consistent}
use order_run_be.Commands.{
  Command, raised, run, create_proposal, update_proposal, cancel_proposal, confirm_payment,
  create_offer, cancel_offer, accept_offer, confirm_received, dispute_by_orderer, complete_delivery,
  dispute_by_runner, resolve_dispute, create_report, accept_report, reject_report, withdraw_user,
}

confirm_received_work-guarded :
    (t₁ t₂ t₃ : Moment) (i : ℕ) (u : UserId) (db : Db)
    → confirm_received_work t₁ t₂ t₃ i u db ≢ err value_error
unfolding confirm_received_work
confirm_received_work-guarded t₁ t₂ t₃ i u db h = ground arith

complete_delivery_work-guarded :
    (t₁ t₂ t₃ t₄ : Moment) (i : ℕ) (u : UserId) (db : Db)
    → complete_delivery_work t₁ t₂ t₃ t₄ i u db ≢ err value_error
unfolding complete_delivery_work
complete_delivery_work-guarded t₁ t₂ t₃ t₄ i u db h = ground arith

accept_work-guarded :
    (t₁ t₂ : Moment) (i : ℕ) (u : UserId) (db : Db) → accept_work t₁ t₂ i u db ≢ err value_error
unfolding accept_work
accept_work-guarded t₁ t₂ i u db h = ground arith

cancel-guarded : (i : ℕ) (u : UserId) (db : Db) → (cancel i u db).0 ≢ err value_error
unfolding cancel
cancel-guarded i u db h = ground arith

resolve_work-guarded :
    (t₁ t₂ : Moment) (i : ℕ) (db : Db) → resolve_work t₁ t₂ i db ≢ err value_error
unfolding resolve_work
resolve_work-guarded t₁ t₂ i db h = ground arith

dispute_by_orderer-guarded :
    (t₁ t₂ t₃ : Moment) (i : ℕ) (u : UserId) (q : ℕ) (m : String) (db : Db)
    → Orderer.raise_dispute_work t₁ t₂ t₃ i u q m db ≢ err value_error
unfolding Orderer.raise_dispute_work
dispute_by_orderer-guarded t₁ t₂ t₃ i u q m db h = ground arith

dispute_by_runner-guarded :
    (t₁ t₂ t₃ : Moment) (i : ℕ) (u : UserId) (q : ℕ) (m : String) (db : Db)
    → Runner.raise_dispute_work t₁ t₂ t₃ i u q m db ≢ err value_error
unfolding Runner.raise_dispute_work
dispute_by_runner-guarded t₁ t₂ t₃ i u q m db h = ground arith

create_work-guarded :
    (t : Moment) (i : ℕ) (u : UserId) (db : Db) → create_work t i u db ≢ err value_error
unfolding create_work
create_work-guarded t i u db h = ground arith

create_proposal-guarded :
    (now t : Moment) (r : ProposalRequest) (u : UserId) (db : Db)
    → (Drafts.create now t r u db).0 ≢ err value_error
unfolding Drafts.create Proposal.create_proposal
create_proposal-guarded now t r u db h = ground arith

update_proposal-guarded :
    (now : Moment) (i : ℕ) (r : ProposalRequest) (u : UserId) (db : Db)
    → (Drafts.update now i r u db).0 ≢ err value_error
unfolding Drafts.update Proposal.update_proposal
update_proposal-guarded now i r u db h = ground arith

cancel_proposal-guarded :
    (i : ℕ) (u : UserId) (db : Db) → (Drafts.cancel i u db).0 ≢ err value_error
unfolding Drafts.cancel
cancel_proposal-guarded i u db h = ground arith

confirm_payment-guarded : (i : ℕ) (db : Db) → (Drafts.confirm_payment i db).0 ≢ err value_error
unfolding Drafts.confirm_payment
confirm_payment-guarded i db h = ground arith

create_report-guarded :
    (t : Moment) (i : ℕ) (u : UserId) (k : ℕ) (d : Option String) (db : Db)
    → Reports.create_work t i u k d db ≢ err value_error
unfolding Reports.create_work
create_report-guarded t i u k d db h = ground arith

accept_report-guarded :
    (t : Moment) (i : ℕ) (db : Db) → Reports.accept_work t i db ≢ err value_error
unfolding Reports.accept_work
accept_report-guarded t i db h = ground arith

reject_report-guarded :
    (t : Moment) (i : ℕ) (db : Db) → Reports.reject_work t i db ≢ err value_error
unfolding Reports.reject_work
reject_report-guarded t i db h = ground arith

show_offer-guarded : (i : ℕ) (db : Db) → show_offer i db ≢ err value_error
unfolding show_offer to_response
show_offer-guarded i db h = ground arith

get_proposal_detail-guarded :
    (i : ℕ) (u : UserId) (db : Db) → get_proposal_detail i u db ≢ err value_error
unfolding get_proposal_detail
get_proposal_detail-guarded i u db h = ground arith

show_report-guarded : (r : ProposalReport) (db : Db) → Reports.show_report r db ≢ err value_error
unfolding Reports.show_report
show_report-guarded r db h = ground arith

raised-guarded :
    {A : Type 0} (x : Result Error A × Db) → x.0 ≢ err value_error → (raised x).0 ≢ some value_error
raised-guarded (ok a, db) ne h = ground arith
raised-guarded (err e, db) ne h = ground arith

same_error :
    (A B : Type 0) (e : Error)
    → Path (Result Error A) (err e) (err value_error)
    → Path (Result Error B) (err e) (err value_error)
same_error A B e h = ground arith

answer-guarded :
    {A B : Type 0} (work : Tx A) (respond : A → Db → Result Error B) (db : Db)
    → work db ≢ err value_error
    → ((a : A) (db' : Db) → respond a db' ≢ err value_error)
    → (raised (answer (commit work) respond db)).0 ≢ some value_error
answer-guarded {A} {B} work respond db guarded after = go (work db) guarded
  where
    go :
        (x : Result Error (A × Db))
        → x ≢ err value_error
        → (raised (respond_with respond (finish db x))).0 ≢ some value_error
    go (ok (a, db')) ne = raised-guarded (respond a db', db') (after a db')
    go (err e) ne = raised-guarded (err e, db) (λ h. ne (same_error B (A × Db) e h))

-- On a Consistent database no command raises ValueError: the checks of the services cover the
-- guards of the models.
pub run-guarded : (c : Command) (db : Db) → Consistent db → (run c db).0 ≢ some value_error
unfolding run Orderer.confirm_received Orderer.raise_dispute Runner.complete_delivery
    Runner.raise_dispute Runner.resolve Bids.create Bids.accept Reports.create Reports.accept
    Reports.reject
run-guarded (create_proposal now t r u) db _ =
    raised-guarded (Drafts.create now t r u db) (create_proposal-guarded now t r u db)
run-guarded (update_proposal now i r u) db _ =
    raised-guarded (Drafts.update now i r u db) (update_proposal-guarded now i r u db)
run-guarded (cancel_proposal i u) db _ =
    raised-guarded (Drafts.cancel i u db) (cancel_proposal-guarded i u db)
run-guarded (confirm_payment i) db _ =
    raised-guarded (Drafts.confirm_payment i db) (confirm_payment-guarded i db)
run-guarded (create_offer t i u) db _ =
    answer-guarded (create_work t i u) show_offer db (create_work-guarded t i u db)
      show_offer-guarded
run-guarded (cancel_offer i u) db _ = raised-guarded (cancel i u db) (cancel-guarded i u db)
run-guarded (accept_offer s t i u) db _ =
    answer-guarded (accept_work s t i u) _ db (accept_work-guarded s t i u db)
      (λ v db' h. ground arith)
run-guarded (confirm_received s t v i u) db _ =
    answer-guarded (confirm_received_work s t v i u) _ db
      (confirm_received_work-guarded s t v i u db) (λ w. get_proposal_detail-guarded w.0.id u)
run-guarded (dispute_by_orderer s t v i u q m) db _ =
    answer-guarded (Orderer.raise_dispute_work s t v i u q m) _ db
      (dispute_by_orderer-guarded s t v i u q m db) (λ w. get_proposal_detail-guarded w.0.id u)
run-guarded (complete_delivery s t v w i u) db _ =
    answer-guarded (complete_delivery_work s t v w i u) _ db
      (complete_delivery_work-guarded s t v w i u db) (λ x. show_offer-guarded x.1.id)
run-guarded (dispute_by_runner s t v i u q m) db _ =
    answer-guarded (Runner.raise_dispute_work s t v i u q m) _ db
      (dispute_by_runner-guarded s t v i u q m db) (λ x. show_offer-guarded x.1.id)
run-guarded (resolve_dispute s t i) db _ =
    answer-guarded (resolve_work s t i) _ db (resolve_work-guarded s t i db)
      (λ x. show_offer-guarded x.1.id)
run-guarded (create_report t i u k d) db _ =
    answer-guarded (Reports.create_work t i u k d) _ db (create_report-guarded t i u k d db)
      (λ v db' h. ground arith)
run-guarded (accept_report t i) db _ =
    answer-guarded (Reports.accept_work t i) Reports.show_report db (accept_report-guarded t i db)
      show_report-guarded
run-guarded (reject_report t i) db _ =
    answer-guarded (Reports.reject_work t i) Reports.show_report db (reject_report-guarded t i db)
      show_report-guarded
run-guarded (withdraw_user now u) db c =
    raised-guarded (Withdrawal.withdraw_user now u db) (Leaving.withdraw_user-guarded u db c now)
