-- ===== src/Gateway/Tests.antt =====
-- The theorems about gateway/ at concrete inputs, and tests of the definitions.
mod Picks
mod Sessions
mod Supervisions
mod Requests
