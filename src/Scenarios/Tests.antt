-- ===== src/Scenarios/Tests.antt =====
-- Runs of the commands on the small world.
use order_run_be.Base.{[], ◌∷◌, ◌≡◌, refl, ◌++◌, some, none}
use order_run_be.Models.Proposal
use order_run_be.Models.Proposal.{Proposal, ProposalStatus}
use order_run_be.Models.Offer
use order_run_be.Models.Offer.{Offer, OfferStatus}
use order_run_be.Events.Bus
use order_run_be.Events.Listener
use order_run_be.Db.{Db}
use order_run_be.Proposals.Commands as Drafts
use order_run_be.Offers.Commands as Bids
use order_run_be.Db.{find_offer, find_proposal}
use order_run_be.Consistency.{Consistent}
use order_run_be.Commands.Reach.{run_all-Consistent}
use order_run_be.Lifecycle.Acceptance.{matched_at, accepted_at, rejected}
use order_run_be.Base.{true, false, first, take, ok}
use order_run_be.Profiles.{user_profile}
use order_run_be.Offers.Queries.{OfferResponse, to_response, fields_of}
use order_run_be.Security.{find_active_user}
use order_run_be.Withdrawal.{has_blocking_activity}
use order_run_be.Scenarios.{user}
use order_run_be.Proposals.Execution as Orderer
use order_run_be.Proposals.Queries as Queries
use order_run_be.Reports
use order_run_be.Models.Dispute.{DisputeSurveyQuestion, DisputeSurveyTargetType}
use order_run_be.Disputes.{is_active_question}
use order_run_be.Reports.{find_report, new_report}
use order_run_be.Models.Report.{ProposalReport, ProposalReportStatus}
use order_run_be.Commands.{run, run_all, accept_offer, create_report, dispute_by_orderer}
use order_run_be.Scenarios.{start, bidding, errand, bid}

pub bidding_rows :
    ((run_all bidding start).proposals.rows ≡ errand ∷ [])
    × ((run_all bidding start).offers.rows ≡ bid 1 8 21 ∷ bid 2 9 22 ∷ [])
unfolding run_all run Drafts.create Drafts.confirm_payment Bids.create Bids.create_work
    Proposal.create_proposal Proposal.validate_deadline Proposal.validate_errand_fee
    Proposal.mark_as_offered Listener.publish_event Listener.on_offer_created Listener.add_pending
    Listener.alarm_enabled Listener.pending Bus.add_handler Bids.show_offer
bidding_rows = (refl, refl)

-- The database after the two offers
abbrev pub offered : Db
offered = run_all bidding start

pub offered_finds_offer : find_offer 1 offered ≡ some (bid 1 8 21)
offered_finds_offer = rw bidding_rows.1

pub offered_finds_proposal : find_proposal 1 offered ≡ some errand
offered_finds_proposal = rw bidding_rows.0

pub offered-Consistent : Consistent offered
offered-Consistent = run_all-Consistent bidding start refl refl

-- The database after the match of the first offer
abbrev pub matched : Db
matched = run_all (bidding ++ accept_offer 30 31 1 7 ∷ []) start

pub matched_rows :
    (matched.proposals.rows ≡ matched_at 30 errand ∷ [])
    × (matched.offers.rows ≡ accepted_at 30 (bid 1 8 21) ∷ rejected (bid 2 9 22) ∷ [])
unfolding run_all run Drafts.create Drafts.confirm_payment Bids.create Bids.create_work Bids.accept
    Bids.accept_work Offer.accept Proposal.create_proposal Proposal.validate_deadline
    Proposal.validate_errand_fee Proposal.mark_as_offered Listener.publish_event
    Listener.on_offer_created Listener.add_pending Listener.alarm_enabled Listener.pending
    Bus.add_handler Bids.show_offer Listener.tell_rejected
matched_rows = (refl, refl)

pub matched-Consistent : Consistent matched
matched-Consistent = run_all-Consistent (bidding ++ accept_offer 30 31 1 7 ∷ []) start refl refl

pub matched_finds_offer : find_offer 1 matched ≡ some (accepted_at 30 (bid 1 8 21))
matched_finds_offer = rw matched_rows.1

pub matched_finds_proposal : find_proposal 1 matched ≡ some (matched_at 30 errand)
matched_finds_proposal = rw matched_rows.0

-- The database after a report on the errand
abbrev pub reported : Db
reported = run_all (bidding ++ create_report 35 1 9 1 none ∷ []) start

abbrev pub report : ProposalReport
report = new_report 1 9 1 none 35 1

pub reported_rows :
    (reported.proposals.rows ≡ errand ∷ [])
    × (reported.offers.rows ≡ bid 1 8 21 ∷ bid 2 9 22 ∷ [])
    × (reported.reports.rows ≡ report ∷ [])
unfolding run_all run Drafts.create Drafts.confirm_payment Bids.create Bids.create_work
    Reports.create Reports.create_work Proposal.create_proposal Proposal.validate_deadline
    Proposal.validate_errand_fee Proposal.mark_as_offered Listener.publish_event
    Listener.on_offer_created Listener.add_pending Listener.alarm_enabled Listener.pending
    Bus.add_handler Bids.show_offer
reported_rows = (refl, refl, refl)

pub reported-Consistent : Consistent reported
reported-Consistent =
    run_all-Consistent (bidding ++ create_report 35 1 9 1 none ∷ []) start refl refl

pub reported_finds_report : find_report 1 reported ≡ some report
reported_finds_report = rw reported_rows.2

pub reported_finds_proposal : find_proposal 1 reported ≡ some errand
reported_finds_proposal = rw reported_rows.0

-- The database before the second offer
abbrev pub before_last : Db
before_last = run_all (take 3 bidding) start

abbrev pub last_response : OfferResponse
last_response = record {
  id = 2;
  proposal_id = 1;
  orderer_id = 7;
  orderer_name = "mina";
  orderer_level = 1;
  runner_id = 9;
  runner_name = "sora";
  runner_level = 1;
  status = OfferStatus.waiting;
  accepted_at = none;
  runner_confirmed_at = none;
  orderer_confirmed_at = none;
  disputed_at = none;
  resolved_at = none;
  created_at = 22;
}

pub last_made :
    Bids.create 22 1 9 before_last ≡ (ok last_response, (Bids.create 22 1 9 before_last).1)
unfolding run_all run Drafts.create Drafts.confirm_payment Bids.create Bids.create_work
    Proposal.create_proposal Proposal.validate_deadline Proposal.validate_errand_fee
    Proposal.mark_as_offered Listener.publish_event Listener.on_offer_created Listener.add_pending
    Listener.alarm_enabled Listener.pending Bus.add_handler Bids.show_offer to_response fields_of
    user_profile
last_made = refl

pub review_made : Reports.accept 36 1 reported ≡ (
  ok (
      Reports.to_response
        (record report { status = ProposalReportStatus.accepted; reviewed_at = some 36 })
        "spam"),
  (Reports.accept 36 1 reported).1,
)
unfolding run_all run Drafts.create Drafts.confirm_payment Bids.create Bids.create_work
    Proposal.create_proposal Proposal.validate_deadline Proposal.validate_errand_fee
    Proposal.mark_as_offered Listener.publish_event Listener.on_offer_created Listener.add_pending
    Listener.alarm_enabled Listener.pending Bus.add_handler Bids.show_offer Reports.create
    Reports.create_work Reports.accept Reports.accept_work Reports.show_report
review_made = refl

pub accepted_rows :
    (Bids.accept 30 31 1 7 offered).1.offers.rows
    ≡ accepted_at 30 (bid 1 8 21) ∷ rejected (bid 2 9 22) ∷ []
unfolding run_all run Drafts.create Drafts.confirm_payment Bids.create Bids.create_work
    Proposal.create_proposal Proposal.validate_deadline Proposal.validate_errand_fee
    Proposal.mark_as_offered Listener.publish_event Listener.on_offer_created Listener.add_pending
    Listener.alarm_enabled Listener.pending Bus.add_handler Bids.show_offer Bids.accept
    Bids.accept_work Offer.accept Listener.tell_rejected
accepted_rows = refl

pub closed_rows :
    ((Reports.accept 36 1 reported).1.proposals.rows
      ≡ record errand { status = ProposalStatus.reported } ∷ [])
    × ((Reports.accept 36 1 reported).1.reports.rows
        ≡ record report { status = ProposalReportStatus.accepted; reviewed_at = some 36 } ∷ [])
unfolding run_all run Drafts.create Drafts.confirm_payment Bids.create Bids.create_work
    Proposal.create_proposal Proposal.validate_deadline Proposal.validate_errand_fee
    Proposal.mark_as_offered Listener.publish_event Listener.on_offer_created Listener.add_pending
    Listener.alarm_enabled Listener.pending Bus.add_handler Bids.show_offer Reports.create
    Reports.create_work Reports.accept Reports.accept_work Reports.show_report
closed_rows = (refl, refl)

abbrev pub question : DisputeSurveyQuestion
question = record {
  id = 1;
  target_type = DisputeSurveyTargetType.order;
  question_text = "late";
  display_order = 1;
  is_active = true;
}

pub matched_question :
    first (is_active_question 1 DisputeSurveyTargetType.order) matched.survey_questions
    ≡ some question
unfolding run_all run Drafts.create Drafts.confirm_payment Bids.create Bids.create_work Bids.accept
    Bids.accept_work Offer.accept Proposal.create_proposal Proposal.validate_deadline
    Proposal.validate_errand_fee Proposal.mark_as_offered Listener.publish_event
    Listener.on_offer_created Listener.add_pending Listener.alarm_enabled Listener.pending
    Bus.add_handler Bids.show_offer Listener.tell_rejected
matched_question = refl

-- The database after the orderer's dispute
abbrev pub disputed : Db
disputed =
    run_all (bidding ++ accept_offer 30 31 1 7 ∷ dispute_by_orderer 40 41 42 1 7 1 "no show" ∷ [])
      start

abbrev pub disputed_at : Offer
disputed_at = record (accepted_at 30 (bid 1 8 21)) {
  status = OfferStatus.disputed;
  disputed_at = some 41;
}

abbrev pub disputed_errand : Proposal
disputed_errand = record (matched_at 30 errand) {
  status = ProposalStatus.disputed;
  disputed_at = some 40;
}

pub disputed_rows :
    (find_offer 1 disputed ≡ some disputed_at) × (find_proposal 1 disputed ≡ some disputed_errand)
unfolding run_all run Drafts.create Drafts.confirm_payment Bids.create Bids.create_work Bids.accept
    Bids.accept_work Offer.accept Proposal.create_proposal Proposal.validate_deadline
    Proposal.validate_errand_fee Proposal.mark_as_offered Listener.publish_event
    Listener.on_offer_created Listener.add_pending Listener.alarm_enabled Listener.pending
    Bus.add_handler Bids.show_offer Listener.tell_rejected Orderer.raise_dispute
    Orderer.raise_dispute_work Queries.execution_offer Queries.get_proposal_detail
disputed_rows = (refl, refl)

pub disputed-Consistent : Consistent disputed
disputed-Consistent =
    run_all-Consistent
      (bidding ++ accept_offer 30 31 1 7 ∷ dispute_by_orderer 40 41 42 1 7 1 "no show" ∷ []) start
      refl refl

pub offered-user : find_active_user 7 offered ≡ some (user 7 "mina")
unfolding run_all run Drafts.create Drafts.confirm_payment Bids.create Bids.create_work
    Proposal.create_proposal Proposal.validate_deadline Proposal.validate_errand_fee
    Proposal.mark_as_offered Listener.publish_event Listener.on_offer_created Listener.add_pending
    Listener.alarm_enabled Listener.pending Bus.add_handler Bids.show_offer
offered-user = refl

pub offered_free : has_blocking_activity 7 offered ≡ false
offered_free = rw (bidding_rows.0, bidding_rows.1) refl

matched-user : find_active_user 8 matched ≡ some (user 8 "jun")
unfolding run_all run Drafts.create Drafts.confirm_payment Bids.create Bids.create_work Bids.accept
    Bids.accept_work Offer.accept Proposal.create_proposal Proposal.validate_deadline
    Proposal.validate_errand_fee Proposal.mark_as_offered Listener.publish_event
    Listener.on_offer_created Listener.add_pending Listener.alarm_enabled Listener.pending
    Bus.add_handler Bids.show_offer Listener.tell_rejected
matched-user = refl
