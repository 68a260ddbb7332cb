-- ===== src/Runtime.antt =====
-- crates/warpdeck-server/src/runtime: the modules that run instances.
pub mod Instance
pub mod Backoff
pub mod Message
pub mod Registry
pub mod Health
pub mod Events
pub mod Monitor
pub mod Credentials
pub mod Mdm
pub mod Trace
pub mod Probe
pub mod Host
pub mod Readiness
pub mod Flow
pub mod Stop
pub mod Manager
mod Tests
