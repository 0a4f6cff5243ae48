-- ===== src/Scenarios.antt =====
-- A small world for the tests and the examples: an orderer, two runners, and one errand with two
-- offers, as the commands make them.
pub mod Tests
mod Examples
mod Accounts
mod Views
mod Deliveries
mod Requests
mod Entries
use order_run_be.Base.{ℕ, String, List, [], ◌∷◌, none, some, true, false, UserId, pos}
use order_run_be.Models.Proposal.{Proposal, ProposalStatus}
use order_run_be.Models.Offer.{Offer, OfferStatus}
use order_run_be.Models.User.{User}
use order_run_be.Models.Dispute.{DisputeSurveyTargetType}
use order_run_be.Db.{Db, empty_db}
use order_run_be.Commands.{
  Command, create_proposal, confirm_payment, create_offer, accept_offer, complete_delivery,
  confirm_received,
}

abbrev pub user : UserId → String → User
user id name = record {
  id = id;
  password_hash = none;
  name = some name;
  phone = none;
  phone_verified_at = none;
  last_login_at = none;
  alarm_enabled = some true;
  level = 1;
  deleted = false;
  deleted_at = none;
  created_at = 1;
}

-- The accounts and the survey questions that the commands find, before any errand
abbrev pub start : Db
start = record empty_db {
  users = user 7 "mina" ∷ user 8 "jun" ∷ user 9 "sora" ∷ [];
  survey_questions =
      record {
        id = 1;
        target_type = DisputeSurveyTargetType.order;
        question_text = "late";
        display_order = 1;
        is_active = true;
      }
      ∷ record {
        id = 2;
        target_type = DisputeSurveyTargetType.runner;
        question_text = "absent";
        display_order = 1;
        is_active = true;
      }
      ∷ [];
  reason_questions =
      record { id = 1; question_text = "spam"; display_order = 1; is_active = true } ∷ [];
}

-- User 7 posts an errand, users 8 and 9 offer.
abbrev pub posting : List Command
posting =
    create_proposal 10 11
      (record { title = "coffee"; content = "two"; deadline = 90; errand_fee = pos 3000 }) 7
    ∷ confirm_payment 1
    ∷ []

abbrev pub bidding : List Command
bidding =
    create_proposal 10 11
      (record { title = "coffee"; content = "two"; deadline = 90; errand_fee = pos 3000 }) 7
    ∷ confirm_payment 1
    ∷ create_offer 21 1 8
    ∷ create_offer 22 1 9
    ∷ []

-- The errand with two offers, and the rows that the commands lead to
abbrev pub errand : Proposal
errand = record {
  id = 1;
  orderer_id = 7;
  title = "coffee";
  content = "two";
  deadline = 90;
  errand_fee = pos 3000;
  status = ProposalStatus.offered;
  meeting_at = 90;
  item_price = 0;
  deposit = 0;
  created_at = 11;
  matched_at = none;
  runner_confirmed_at = none;
  orderer_confirmed_at = none;
  disputed_at = none;
  resolved_at = none;
}

abbrev pub bid : ℕ → UserId → ℕ → Offer
bid id runner created = record {
  id = id;
  proposal_id = 1;
  runner_id = runner;
  status = OfferStatus.waiting;
  open_chat_url = none;
  created_at = created;
  accepted_at = none;
  runner_confirmed_at = none;
  orderer_confirmed_at = none;
  disputed_at = none;
  resolved_at = none;
}
