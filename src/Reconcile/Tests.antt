-- ===== src/Reconcile/Tests.antt =====
-- The theorems about the reconciler at concrete inputs.
mod Rounds
mod Gateways
