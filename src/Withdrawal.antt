-- ===== src/Withdrawal.antt =====
-- The withdrawal of a user (app/services/user_auth/user_withdrawal_service.py). The session does
-- not flush before its queries, so all of them read the rows as they were at the start; the rows
-- that it holds are the changed ones.
use order_run_be.Base.{
  ℕ, Bool, false, List, [], ◌∷◌, map, Option, none, some, ◌==◌, ◌&&◌, ◌||◌, UserId, Moment, first,
  where_all, delete_where, change, is_some,
}
use order_run_be.Errors.{AppError}
use order_run_be.Models.Proposal
use order_run_be.Models.Proposal.{Proposal, ProposalStatus}
use order_run_be.Models.Offer
use order_run_be.Models.Offer.{Offer, OfferStatus}
use order_run_be.Models.User
use order_run_be.Models.User.{User, AuthPhoneVerification, UserFcmToken}
use order_run_be.Models.Notification.{Notification}
use order_run_be.Models.Account.{SettlementAccount}
use order_run_be.Phone.{same_text}
use order_run_be.Profiles.{one_of}
use order_run_be.Security.{find_active_user}
use order_run_be.Auth.Sessions.{save_user}
use order_run_be.Db.{
  Db, Tx, ◌>>=◌, ◌>>◌, pure, gets, modify, lift, found, raise_when, set_rows, Request, commit,
  save_proposal, save_offer,
}

-- `WITHDRAWAL_BLOCKING_PROPOSAL_STATUSES`
abbrev pub blocking_proposal_statuses : List ProposalStatus
blocking_proposal_statuses =
    ProposalStatus.matched ∷ ProposalStatus.order_completed ∷ ProposalStatus.disputed ∷ []

-- `WITHDRAWAL_BLOCKING_OFFER_STATUSES`
abbrev pub blocking_offer_statuses : List OfferStatus
blocking_offer_statuses =
    OfferStatus.accepted ∷ OfferStatus.runner_completed ∷ OfferStatus.disputed ∷ []

-- `WITHDRAWAL_AUTO_CANCEL_PROPOSAL_STATUSES`
abbrev pub auto_cancel_proposal_statuses : List ProposalStatus
auto_cancel_proposal_statuses =
    ProposalStatus.holding ∷ ProposalStatus.posted ∷ ProposalStatus.offered ∷ []

abbrev pub is_blocking_proposal : UserId → Proposal → Bool
is_blocking_proposal user_id p =
    p.orderer_id == user_id && Proposal.is_in blocking_proposal_statuses p.status

abbrev pub is_blocking_offer : UserId → Offer → Bool
is_blocking_offer user_id o = o.runner_id == user_id && Offer.is_in blocking_offer_statuses o.status

-- `_has_blocking_activity`
abbrev pub has_blocking_activity : UserId → Db → Bool
has_blocking_activity user_id db =
    is_some (first (is_blocking_proposal user_id) db.proposals.rows)
    || is_some (first (is_blocking_offer user_id) db.offers.rows)

-- The filters of the three queries of `_auto_cancel_pre_match_activity`
abbrev pub is_open_of : UserId → Proposal → Bool
is_open_of user_id p =
    p.orderer_id == user_id && Proposal.is_in auto_cancel_proposal_statuses p.status

abbrev pub waits_on : List ℕ → Offer → Bool
waits_on proposal_ids o = one_of o.proposal_id proposal_ids && Offer.is o.status OfferStatus.waiting

abbrev pub waits_of : UserId → Offer → Bool
waits_of user_id o = o.runner_id == user_id && Offer.is o.status OfferStatus.waiting

-- The loops
abbrev pub cancel_offers : List Offer → Tx (Unit {0})
cancel_offers [] = pure tt
cancel_offers (offer ∷ offers) = do
  offer' ← lift (Offer.cancel offer)
  modify (save_offer offer')
  cancel_offers offers

abbrev pub cancel_proposals : List Proposal → Tx (Unit {0})
cancel_proposals [] = pure tt
cancel_proposals (proposal ∷ proposals) = do
  proposal' ← lift (Proposal.cancel proposal)
  modify (save_proposal proposal')
  cancel_proposals proposals

abbrev pub cancelled_offer : Offer → Offer
cancelled_offer o = record o { status = OfferStatus.cancelled }

-- The rows of the third query as the session holds them: the first loop has cancelled some.
abbrev pub held : List Offer → Offer → Offer
held cancelled = change (λ o. one_of o.id (map (λ (c : Offer). c.id) cancelled)) cancelled_offer

-- `_auto_cancel_pre_match_activity`
unfoldable pub auto_cancel : UserId → Tx (Unit {0})
auto_cancel user_id = do
  proposals ← gets (λ db. where_all (is_open_of user_id) db.proposals.rows)
  waiting_offers ←
      gets (λ db. where_all (waits_on (map (λ (p : Proposal). p.id) proposals)) db.offers.rows)
  runner_offers ← gets (λ db. where_all (waits_of user_id) db.offers.rows)
  cancel_offers waiting_offers
  cancel_proposals proposals
  cancel_offers (map (held waiting_offers) runner_offers)

abbrev has_number : Option (List ℕ) → AuthPhoneVerification → Bool
has_number none v = false
has_number (some phone) v = same_text v.phone phone

-- The bulk deletes
unfoldable pub forget : User → Db → Db
forget user db = record db {
  verifications =
      set_rows (delete_where (has_number user.phone) db.verifications.rows) db.verifications;
  fcm_tokens = delete_where (λ (t : UserFcmToken). t.user_id == user.id) db.fcm_tokens;
  settlement_accounts =
      delete_where (λ (a : SettlementAccount). a.user_id == user.id) db.settlement_accounts;
  notifications =
      set_rows (delete_where (λ (n : Notification). n.user_id == user.id) db.notifications.rows)
        db.notifications;
}

-- `withdraw_user` up to its commit
unfoldable pub withdraw_work : Moment → UserId → Tx (Unit {0})
unfolding auto_cancel forget
withdraw_work now user_id = do
  fresh_user ← found (find_active_user user_id) AppError.user_not_found
  blocked ← gets (has_blocking_activity user_id)
  raise_when blocked AppError.user_withdrawal_blocked
  auto_cancel user_id
  modify (forget fresh_user)
  modify (save_user (User.withdraw now fresh_user))

unfoldable pub withdraw_user : Moment → UserId → Request (Unit {0})
withdraw_user now user_id = commit (withdraw_work now user_id)
