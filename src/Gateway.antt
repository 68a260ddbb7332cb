-- ===== src/Gateway.antt =====
-- crates/warpdeck-server/src/gateway: the built-in proxy gateway.
pub mod Pool
pub mod Net
pub mod Auth
pub mod Socks5
pub mod Supervision
pub mod Limits
pub mod Http
mod Tests
