-- ===== src/Scenarios/Examples.antt =====
-- The theorems at work on the small world.
use order_run_be.Base.{inl, ◌≡◌, ◌≢◌, refl, some, ok, err, ◌⊎◌, Memᴰ, count_where}
use order_run_be.Errors.{value_error, api, AppError}
use order_run_be.Models.Proposal.{Proposal, ProposalStatus}
use order_run_be.Models.Offer.{Offer, OfferStatus}
use order_run_be.Db.{Db}
use order_run_be.Consistency.{Consistent}
use order_run_be.Commands.{run, run_all, accept_offer}
use order_run_be.Commands.Reach
use order_run_be.Commands.Guards
use order_run_be.Offers.Commands.{accept, accept_response, is_rival, create}
use order_run_be.Proposals.Execution.{confirm_received_work}
use order_run_be.Proposals.Queries.{execution_offer}
use order_run_be.Offers.Execution.{complete_delivery_work}
use order_run_be.Lifecycle.Acceptance
use order_run_be.Lifecycle.Acceptance.{matched_at, accepted_at}
use order_run_be.Lifecycle.Completion
use order_run_be.Lifecycle.Completion.{Confirmed}
use order_run_be.Lifecycle.Delivery
use order_run_be.Lifecycle.Delivery.{Delivered}
use order_run_be.Lifecycle.Bidding
use order_run_be.Scenarios.{start, bidding, errand, bid}
use order_run_be.Scenarios.Tests.{
  offered, offered-Consistent, offered_finds_offer, offered_finds_proposal, matched,
  matched-Consistent, matched_finds_offer, matched_finds_proposal, reported, report,
  reported-Consistent, accepted_rows, closed_rows, reported_finds_report, reported_finds_proposal,
  question, matched_question, disputed, disputed_at, disputed_errand, disputed_rows,
  disputed-Consistent, before_last, last_response, last_made, review_made,
}
use order_run_be.Lifecycle.Disputing
use order_run_be.Lifecycle.Leaving
use order_run_be.Lifecycle.Forgetting
use order_run_be.Lifecycle.Forgetting.{IsErased}
use order_run_be.Models.User.{User, UserFcmToken}
use order_run_be.Models.Notification.{Notification}
use order_run_be.Models.Account.{SettlementAccount}
use order_run_be.Withdrawal.{withdraw_user}
use order_run_be.Scenarios.{user}
use order_run_be.Scenarios.Tests.{offered-user, offered_free}
use order_run_be.Lifecycle.Disputing.{HaveStatus, IsOnRecord}
use order_run_be.Consistency.Advance.{AreStored}
use order_run_be.Proposals.Execution.{raise_dispute_work}
use order_run_be.Offers.Execution.{resolve_work}
use order_run_be.Lifecycle.Acceptance.{rejected}
use order_run_be.Lifecycle.Review
use order_run_be.Models.Report.{ProposalReportStatus}
use order_run_be.Reports
use order_run_be.Reports.{find_report}

run_all-Consistent_example : Consistent (run_all bidding start)
run_all-Consistent_example = Reach.run_all-Consistent bidding start refl refl

run-guarded_example : (run (accept_offer 30 31 1 7) offered).0 ≢ some value_error
run-guarded_example = Guards.run-guarded (accept_offer 30 31 1 7) offered offered-Consistent

accept-succeeds_example :
    (accept 30 31 1 7 offered).0
    ≡ ok (
        accept_response
          (matched_at 30 errand)
          (accepted_at 30 (bid 1 8 21))
          (count_where (is_rival 1 1) offered.offers.rows)
          (accept 30 31 1 7 offered).1)
accept-succeeds_example =
    Acceptance.accept-succeeds 30 31 1 7 offered (bid 1 8 21) errand offered-Consistent
      offered_finds_offer offered_finds_proposal refl refl

confirm_received-completes_example :
    (o : Offer) × (v : Proposal × Offer) × (db' : Db) × (execution_offer 1 matched ≡ some o)
    × (confirm_received_work 40 41 42 1 7 matched ≡ ok (v, db'))
    × Confirmed matched o v db'
    × AreStored (matched_at 30 errand) o v db'
confirm_received-completes_example =
    Completion.confirm_received-completes 40 41 42 1 7 matched (matched_at 30 errand)
      matched-Consistent matched_finds_proposal refl refl

complete_delivery-completes_example :
    (v : Proposal × Offer) × (db' : Db) × (complete_delivery_work 50 51 52 53 1 8 matched
      ≡ ok (v, db'))
    × Delivered matched (accepted_at 30 (bid 1 8 21)) (matched_at 30 errand) v db'
    × AreStored (matched_at 30 errand) (accepted_at 30 (bid 1 8 21)) v db'
complete_delivery-completes_example =
    Delivery.complete_delivery-completes 50 51 52 53 1 8 matched (accepted_at 30 (bid 1 8 21))
      (matched_at 30 errand) matched-Consistent matched_finds_offer matched_finds_proposal refl refl

create-refuses_second_example :
    create 33 1 9 (create 22 1 9 before_last).1
    ≡ (err (api AppError.duplicate_offer), (create 22 1 9 before_last).1)
create-refuses_second_example =
    Bidding.create-refuses_second 22 33 1 9 before_last (create 22 1 9 before_last).1 last_response
      last_made

abbrev loser : Offer
loser = rejected (bid 2 9 22)

accept-decides_example :
    (loser.id ≡ (bid 1 8 21).id) × (loser.status ≡ OfferStatus.accepted)
    ⊎ (loser.id ≢ (bid 1 8 21).id)
      × (loser.status ≡ OfferStatus.rejected ⊎ loser.status ≡ OfferStatus.cancelled)
accept-decides_example =
    Acceptance.accept-decides 30 31 1 7 offered (bid 1 8 21) errand offered-Consistent
      offered_finds_offer offered_finds_proposal refl refl loser
      (rw accepted_rows (Memᴰ.tail (Memᴰ.head refl))) refl

review-once_example :
    (Reports.accept 37 1 (Reports.accept 36 1 reported).1
      ≡ (err (api AppError.proposal_report_not_reviewable), (Reports.accept 36 1 reported).1))
    × (Reports.reject 37 1 (Reports.accept 36 1 reported).1
        ≡ (err (api AppError.proposal_report_not_reviewable), (Reports.accept 36 1 reported).1))
review-once_example =
    Review.review-once 36 37 1 reported (Reports.accept 36 1 reported).1
      (Reports.to_response
        (record report { status = ProposalReportStatus.accepted; reviewed_at = some 36 }) "spam")
      (inl review_made)

accept-closes_example :
    (ProposalStatus.reported ≡ ProposalStatus.reported)
    × ((o : Offer)
        → Memᴰ o (Reports.accept 36 1 reported).1.offers.rows
        → o.proposal_id ≡ 1
        → o.status ≡ OfferStatus.rejected ⊎ o.status ≡ OfferStatus.cancelled)
accept-closes_example =
    Review.accept-closes 36 1 reported report errand reported-Consistent reported_finds_report
      reported_finds_proposal refl refl (record errand { status = ProposalStatus.reported })
      (rw closed_rows.0 (Memᴰ.head refl)) refl

raise_dispute-succeeds_example :
    (o : Offer) × (v : Proposal × Offer) × (db' : Db) × (execution_offer 1 matched ≡ some o)
    × (raise_dispute_work 40 41 42 1 7 1 "no show" matched ≡ ok (v, db'))
    × HaveStatus ProposalStatus.disputed OfferStatus.disputed v
    × AreStored (matched_at 30 errand) o v db'
    × IsOnRecord 42 (matched_at 30 errand) o 7 1 "no show" v matched db'
raise_dispute-succeeds_example =
    Disputing.raise_dispute-succeeds 40 41 42 1 7 1 "no show" matched (matched_at 30 errand)
      question matched-Consistent matched_finds_proposal refl refl matched_question

resolve-succeeds_example :
    (v : Proposal × Offer) × (db' : Db) × (resolve_work 60 61 1 disputed ≡ ok (v, db'))
    × HaveStatus ProposalStatus.resolved OfferStatus.resolved v
    × AreStored disputed_errand disputed_at v db'
    × (db' ≡ record disputed { proposals = db'.proposals; offers = db'.offers })
resolve-succeeds_example =
    Disputing.resolve-succeeds 60 61 1 disputed disputed_at disputed_errand disputed-Consistent
      disputed_rows.0 disputed_rows.1 refl

withdraw_user-succeeds_run : (withdraw_user 70 7 offered).0 ≡ ok tt
withdraw_user-succeeds_run =
    Leaving.withdraw_user-succeeds 7 offered offered-Consistent 70 (user 7 "mina") offered-user
      offered_free

withdraw_user-succeeds_example : (withdraw_user 70 7 offered).0 ≡ ok tt
withdraw_user-succeeds_example =
    Leaving.withdraw_user-succeeds 7 offered offered-Consistent 70 (user 7 "mina") offered-user
      offered_free

withdraw_user-forgets_example :
    ((t : UserFcmToken) → Memᴰ t (withdraw_user 70 7 offered).1.fcm_tokens → t.user_id ≢ 7)
    × ((a : SettlementAccount)
        → Memᴰ a (withdraw_user 70 7 offered).1.settlement_accounts
        → a.user_id ≢ 7)
    × ((n : Notification)
        → Memᴰ n (withdraw_user 70 7 offered).1.notifications.rows
        → n.user_id ≢ 7)
    × ((x : User) → Memᴰ x (withdraw_user 70 7 offered).1.users → x.id ≡ 7 → IsErased x)
withdraw_user-forgets_example =
    Forgetting.withdraw_user-forgets 70 7 offered withdraw_user-succeeds_run
