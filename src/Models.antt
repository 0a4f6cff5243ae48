-- ===== src/Models.antt =====
-- The persistence models (app/models): the rows of the tables and the methods of their classes.
-- The column `updated_at`, which the ORM stamps on every write and no decision reads, is left out.
pub mod Proposal
pub mod Offer
pub mod User
pub mod Notification
pub mod Dispute
pub mod Report
pub mod Account
