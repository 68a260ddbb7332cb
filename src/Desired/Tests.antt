-- ===== src/Desired/Tests.antt =====
-- The theorems about db/ at concrete inputs.
mod Tables
