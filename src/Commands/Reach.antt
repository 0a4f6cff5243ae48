-- ===== src/Commands/Reach.antt =====
-- What holds of every database that the commands lead to.
use order_run_be.Base.{ℕ, List, [], ◌∷◌, ◌≡◌, refl, Result, ok, err}
use mathlib.Core.List.Memᴰ
use order_run_be.Errors.{Error}
use order_run_be.Models.Proposal.{Proposal}
use order_run_be.Models.Offer.{Offer}
use order_run_be.Db.{Db}
use order_run_be.Commands.{
  Command, raised, run, run_all, create_proposal, update_proposal, cancel_proposal, confirm_payment,
  create_offer, cancel_offer, accept_offer, confirm_received, dispute_by_orderer, complete_delivery,
  dispute_by_runner, resolve_dispute, create_report, accept_report, reject_report, withdraw_user,
}
use order_run_be.Consistency.{Consistent, IsConsistent}
use order_run_be.Consistency.Drafts
use order_run_be.Consistency.Bids
use order_run_be.Consistency.Executions
use order_run_be.Consistency.Deliveries
use order_run_be.Consistency.Moderation
use order_run_be.Consistency.Withdrawals

raised_db : {A : Type 0} (x : Result Error A × Db) → (raised x).1 ≡ x.1
raised_db (ok a, db) = refl
raised_db (err e, db) = refl

run-Consistent : (c : Command) (db : Db) → Consistent db → Consistent (run c db).1
unfolding run
run-Consistent (create_proposal now flushed r u) db c =
    rw (raised_db _) (Drafts.create-Consistent now flushed r u db c)
run-Consistent (update_proposal now i r u) db c =
    rw (raised_db _) (Drafts.update-Consistent now i r u db c)
run-Consistent (cancel_proposal i u) db c = rw (raised_db _) (Drafts.cancel-Consistent i u db c)
run-Consistent (confirm_payment i) db c =
    rw (raised_db _) (Drafts.confirm_payment-Consistent i db c)
run-Consistent (create_offer t i u) db c = rw (raised_db _) (Bids.create-Consistent t i u db c)
run-Consistent (cancel_offer i u) db c = rw (raised_db _) (Bids.cancel-Consistent i u db c)
run-Consistent (accept_offer s t i u) db c = rw (raised_db _) (Bids.accept-Consistent s t i u db c)
run-Consistent (confirm_received s t v i u) db c =
    rw (raised_db _) (Executions.confirm_received-Consistent s t v i u db c)
run-Consistent (dispute_by_orderer s t v i u q m) db c =
    rw (raised_db _) (Executions.raise_dispute-Consistent s t v i u q m db c)
run-Consistent (complete_delivery s t v w i u) db c =
    rw (raised_db _) (Deliveries.complete_delivery-Consistent s t v w i u db c)
run-Consistent (dispute_by_runner s t v i u q m) db c =
    rw (raised_db _) (Deliveries.raise_dispute-Consistent s t v i u q m db c)
run-Consistent (resolve_dispute s t i) db c =
    rw (raised_db _) (Deliveries.resolve-Consistent s t i db c)
run-Consistent (create_report t i u k d) db c =
    rw (raised_db _) (Moderation.create-Consistent t i u k d db c)
run-Consistent (accept_report t i) db c = rw (raised_db _) (Moderation.accept-Consistent t i db c)
run-Consistent (reject_report t i) db c = rw (raised_db _) (Moderation.reject-Consistent t i db c)
run-Consistent (withdraw_user now u) db c =
    rw (raised_db _) (Withdrawals.withdraw_user-Consistent now u db c)

pub nothing_yet :
    {ps : List Proposal} {os : List Offer} (n m : ℕ) → ps ≡ [] → os ≡ [] → IsConsistent ps os n m
nothing_yet n m hp ho =
    rw (hp, ho)
      (record {
        proposal_key = λ p q mp. absurd (Memᴰ.not-nil mp);
        offer_key = λ o r mo. absurd (Memᴰ.not-nil mo);
        proposal_fresh = λ p mp. absurd (Memᴰ.not-nil mp);
        offer_fresh = λ o mo. absurd (Memᴰ.not-nil mo);
        has_proposal = λ o mo. absurd (Memᴰ.not-nil mo);
        not_self = λ p o mp. absurd (Memᴰ.not-nil mp);
        one_bid = λ o r mo. absurd (Memᴰ.not-nil mo);
        agrees = λ p o mp. absurd (Memᴰ.not-nil mp);
        one_engaged = λ o r mo. absurd (Memᴰ.not-nil mo);
        has_engaged = λ p mp. absurd (Memᴰ.not-nil mp);
      })

run_all-keeps : (cs : List Command) (db : Db) → Consistent db → Consistent (run_all cs db)
unfolding run_all
run_all-keeps [] db c = c
run_all-keeps (x ∷ cs) db c = run_all-keeps cs (run x db).1 (run-Consistent x db c)

-- From a database without proposals and offers, every sequence of the sixteen commands, failed
-- ones included, leads to a Consistent one: unique keys below the next key, every offer on a
-- stored proposal of somebody else, one offer per runner and proposal, statuses of proposal and
-- offer that fit, at most one offer of a proposal accepted and one for every matched proposal.
pub run_all-Consistent :
    (cs : List Command) (db : Db)
    → db.proposals.rows ≡ []
    → db.offers.rows ≡ []
    → Consistent (run_all cs db)
run_all-Consistent cs db hp ho = run_all-keeps cs db (nothing_yet _ _ hp ho)
