-- ===== src/Offers.antt =====
-- The offer service (app/services/offer/offer_service.py).
pub mod Queries
pub mod Commands
pub mod Execution
