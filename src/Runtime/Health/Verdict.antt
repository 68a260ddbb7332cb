-- ===== src/Runtime/Health/Verdict.antt =====
-- runtime/health.rs: what a verdict says about the round that led to it.
use warpdeck.Prelude.{◌≤◌, ◌≡◌, inl, inr, true, some, arith, Option-cases}
use warpdeck.Runtime.Registry.{RuntimeState}
use warpdeck.Runtime.Health.{
  LayersReport, HealthCounters, HealthConfig, HealthVerdict, DataPlaneReport, assess_layers,
  data_plane_ok, warp_on,
}

-- A configuration that passes the two assertions.
pub record IsValid (c : HealthConfig) : Type 0 where
  pub failing : 1 ≤ c.failure_threshold
  pub recovering : 1 ≤ c.recovery_success_threshold

-- A round counts as good when the process lives, the control plane is connected and the data plane
-- reports `warp=on`.
abbrev pub IsGood : LayersReport → Type 0
IsGood r =
    (r.process_alive ≡ true)
    × (r.control_connected ≡ true)
    × ((d : DataPlaneReport) × (r.data_plane ≡ some d) × (warp_on d ≡ true))

data_plane_ok_lem :
    (r : LayersReport)
    → data_plane_ok r ≡ true
    → (d : DataPlaneReport) × (r.data_plane ≡ some d) × (warp_on d ≡ true)
unfolding data_plane_ok
data_plane_ok_lem r h = elim (Option-cases r.data_plane) [
  | inl e ↦ ground arith
  | inr (d, e) ↦ (d, e, ground arith)
]

-- A round is judged healthy only if its process lives, its control plane is connected and its data
-- plane was probed with `warp=on`, whatever the counters and the state before; the counters then
-- record no failure.
pub assess_layers-healthy :
    (r : LayersReport) (c : HealthCounters) (config : HealthConfig) (current : RuntimeState)
    {next : HealthCounters}
    → assess_layers r c config current ≡ some (HealthVerdict.healthy, next)
    → IsGood r × (next.consecutive_failures ≡ 0)
unfolding assess_layers
assess_layers-healthy r c config current h =
    ((ground arith, ground arith, data_plane_ok_lem r (ground arith)), ground arith)
