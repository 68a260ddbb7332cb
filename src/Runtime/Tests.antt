-- ===== src/Runtime/Tests.antt =====
-- The theorems about runtime/ at concrete inputs, and tests of the definitions.
mod Samples
mod Ports
mod Rounds
mod Hosts
mod Flows
mod Lifecycles
mod Registries
mod Texts
mod Probes
