-- ===== src/Consistency.antt =====
-- The invariant that ties the proposals and the offers of the database together, and the
-- changes of rows that it allows.
pub mod Transition
pub mod Rows
pub mod Execution
pub mod Opening
pub mod Offering
pub mod Closing
pub mod Matching
pub mod Drafts
pub mod Advance
pub mod Executions
pub mod Deliveries
pub mod Bids
pub mod Moderation
pub mod Cancelling
pub mod Abandoning
pub mod Withdrawals
pub mod Replies
use order_run_be.Base.{ℕ, ◌<◌, ◌≡◌, ◌≢◌, Bool, true, false, List, Memᴰ}
use order_run_be.Models.Proposal.{Proposal, ProposalStatus}
use order_run_be.Models.Offer.{Offer, OfferStatus}
use order_run_be.Db.{Db}

-- The offer is, or has been, in execution: it was accepted.
abbrev pub is_engaged : OfferStatus → Bool
is_engaged OfferStatus.waiting = false
is_engaged OfferStatus.rejected = false
is_engaged OfferStatus.cancelled = false
is_engaged _ = true

-- The proposal has been matched with a runner.
abbrev pub is_matched : ProposalStatus → Bool
is_matched ProposalStatus.holding = false
is_matched ProposalStatus.posted = false
is_matched ProposalStatus.offered = false
is_matched ProposalStatus.reported = false
is_matched ProposalStatus.cancelled = false
is_matched _ = true

-- Which status an offer may have under each status of its proposal.
abbrev pub fits : ProposalStatus → OfferStatus → Bool
fits ProposalStatus.holding _ = false
fits ProposalStatus.posted _ = false
fits ProposalStatus.offered OfferStatus.waiting = true
fits ProposalStatus.offered OfferStatus.cancelled = true
fits ProposalStatus.offered _ = false
fits _ OfferStatus.rejected = true
fits _ OfferStatus.cancelled = true
fits ProposalStatus.matched OfferStatus.accepted = true
fits ProposalStatus.matched OfferStatus.runner_completed = true
fits ProposalStatus.order_completed OfferStatus.accepted = true
fits ProposalStatus.all_completed OfferStatus.all_completed = true
fits ProposalStatus.disputed OfferStatus.disputed = true
fits ProposalStatus.resolved OfferStatus.resolved = true
fits _ _ = false

pub record IsConsistent (ps : List Proposal) (os : List Offer) (next_p next_o : ℕ) : Type 0 where
  pub proposal_key : (p q : Proposal) → Memᴰ p ps → Memᴰ q ps → p.id ≡ q.id → p ≡ q
  pub offer_key : (o r : Offer) → Memᴰ o os → Memᴰ r os → o.id ≡ r.id → o ≡ r
  pub proposal_fresh : (p : Proposal) → Memᴰ p ps → p.id < next_p
  pub offer_fresh : (o : Offer) → Memᴰ o os → o.id < next_o
  -- every offer belongs to a proposal
  pub has_proposal : (o : Offer) → Memᴰ o os → (p : Proposal) × Memᴰ p ps × (o.proposal_id ≡ p.id)
  -- nobody offers on a proposal of their own
  pub not_self :
      (p : Proposal) (o : Offer)
      → Memᴰ p ps
      → Memᴰ o os
      → o.proposal_id ≡ p.id
      → o.runner_id ≢ p.orderer_id
  -- a runner makes one offer on a proposal
  pub one_bid :
      (o r : Offer)
      → Memᴰ o os
      → Memᴰ r os
      → o.proposal_id ≡ r.proposal_id
      → o.runner_id ≡ r.runner_id
      → o.id ≡ r.id
  -- the two statuses agree
  pub agrees :
      (p : Proposal) (o : Offer)
      → Memᴰ p ps
      → Memᴰ o os
      → o.proposal_id ≡ p.id
      → fits p.status o.status ≡ true
  -- at most one offer of a proposal is in execution
  pub one_engaged :
      (o r : Offer)
      → Memᴰ o os
      → Memᴰ r os
      → o.proposal_id ≡ r.proposal_id
      → is_engaged o.status ≡ true
      → is_engaged r.status ≡ true
      → o.id ≡ r.id
  -- a matched proposal has an offer in execution
  pub has_engaged :
      (p : Proposal)
      → Memᴰ p ps
      → is_matched p.status ≡ true
      → (o : Offer) × Memᴰ o os × (o.proposal_id ≡ p.id) × (is_engaged o.status ≡ true)

abbrev pub Consistent : Db → Type 0
Consistent db = IsConsistent db.proposals.rows db.offers.rows db.proposals.next db.offers.next
