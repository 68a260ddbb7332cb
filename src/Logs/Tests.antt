-- ===== src/Logs/Tests.antt =====
-- The theorems about the log files at concrete inputs, and tests of the definitions.
mod Pages
mod Follows
