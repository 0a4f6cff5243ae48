-- ===== src/Lifecycle.antt =====
-- How a proposal and its offers go from the offers to the match and on to their end, over the
-- commands of the two services (app/services/proposal, app/services/offer).
pub mod Acceptance
pub mod Completion
pub mod Delivery
pub mod Bidding
pub mod Review
pub mod Visibility
pub mod Disputing
pub mod Leaving
pub mod Forgetting
