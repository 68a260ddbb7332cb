-- ===== src/Access.antt =====
-- crates/warpdeck-server/src/auth, api/middleware.rs and api/auth.rs: who may log in, and whose requests are
-- handled.
pub mod RateLimit
pub mod Session
pub mod Guard
pub mod Login
pub mod Setup
mod Tests
