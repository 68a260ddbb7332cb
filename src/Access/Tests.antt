-- ===== src/Access/Tests.antt =====
-- The theorems about auth/ at concrete inputs.
mod Sessions
