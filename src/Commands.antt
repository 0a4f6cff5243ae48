-- ===== src/Commands.antt =====
-- The requests that change a proposal, an offer or a report, and the withdrawal of a user, as commands: what each one raises, and
-- the database after it (the routes under app/api/v1 call these services).
pub mod Reach
pub mod Guards
pub mod Mail
use order_run_be.Base.{
  ℕ, String, List, [], ◌∷◌, Option, some, none, UserId, Moment, Result, ok, err,
}
use order_run_be.Errors.{Error}
use order_run_be.Db.{Db, Request}
use order_run_be.Proposals.Commands as Drafts
use order_run_be.Proposals.Commands.{ProposalRequest}
use order_run_be.Proposals.Execution as Orderer
use order_run_be.Offers.Commands as Bids
use order_run_be.Offers.Execution as Runner
use order_run_be.Reports
use order_run_be.Withdrawal

pub data Command : Type 0 where
  create_proposal : Moment → Moment → ProposalRequest → UserId → Command
  update_proposal : Moment → ℕ → ProposalRequest → UserId → Command
  cancel_proposal : ℕ → UserId → Command
  confirm_payment : ℕ → Command
  create_offer : Moment → ℕ → UserId → Command
  cancel_offer : ℕ → UserId → Command
  accept_offer : Moment → Moment → ℕ → UserId → Command
  confirm_received : Moment → Moment → Moment → ℕ → UserId → Command
  dispute_by_orderer : Moment → Moment → Moment → ℕ → UserId → ℕ → String → Command
  complete_delivery : Moment → Moment → Moment → Moment → ℕ → UserId → Command
  dispute_by_runner : Moment → Moment → Moment → ℕ → UserId → ℕ → String → Command
  resolve_dispute : Moment → Moment → ℕ → Command
  create_report : Moment → ℕ → UserId → ℕ → Option String → Command
  accept_report : Moment → ℕ → Command
  reject_report : Moment → ℕ → Command
  withdraw_user : Moment → UserId → Command

abbrev raised : {A : Type 0} → Result Error A × Db → Option Error × Db
raised (ok a, db) = (none, db)
raised (err e, db) = (some e, db)

-- The request behind a command
unfoldable pub run : Command → Db → Option Error × Db
run (create_proposal now flushed r u) db = raised (Drafts.create now flushed r u db)
run (update_proposal now i r u) db = raised (Drafts.update now i r u db)
run (cancel_proposal i u) db = raised (Drafts.cancel i u db)
run (confirm_payment i) db = raised (Drafts.confirm_payment i db)
run (create_offer flushed i u) db = raised (Bids.create flushed i u db)
run (cancel_offer i u) db = raised (Bids.cancel i u db)
run (accept_offer s t i u) db = raised (Bids.accept s t i u db)
run (confirm_received s t v i u) db = raised (Orderer.confirm_received s t v i u db)
run (dispute_by_orderer s t v i u q m) db = raised (Orderer.raise_dispute s t v i u q m db)
run (complete_delivery s t v w i u) db = raised (Runner.complete_delivery s t v w i u db)
run (dispute_by_runner s t v i u q m) db = raised (Runner.raise_dispute s t v i u q m db)
run (resolve_dispute s t i) db = raised (Runner.resolve s t i db)
run (create_report t i u k d) db = raised (Reports.create t i u k d db)
run (accept_report t i) db = raised (Reports.accept t i db)
run (reject_report t i) db = raised (Reports.reject t i db)
run (withdraw_user now u) db = raised (Withdrawal.withdraw_user now u db)

unfoldable pub run_all : List Command → Db → Db
run_all [] db = db
run_all (c ∷ cs) db = run_all cs (run c db).1
