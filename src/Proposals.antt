-- ===== src/Proposals.antt =====
-- The proposal service (app/services/proposal/proposal_service.py).
pub mod Queries
pub mod Commands
pub mod Execution
