-- ===== src/Auth.antt =====
-- Authentication by phone (app/services/user_auth).
pub mod Verification
pub mod Attempts
pub mod Sessions
pub mod Profile
pub mod Alarm
pub mod Entry
