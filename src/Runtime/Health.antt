-- ===== src/Runtime/Health.antt =====
-- runtime/health.rs with the report type of runtime/probe: one round of the three-layer check.
pub mod Verdict
use warpdeck.Prelude.{
  ℕ, Bool, true, false, ◌&&◌, ◌||◌, not, Option, none, some, List, codes, leb, list_eq,
  if◌then◌else◌,
}
use warpdeck.Prelude.Machine.{saturating_add_u32}
use warpdeck.Runtime.Registry.{RuntimeState, is_healthy}

pub record TraceResult : Type 0 where
  pub ip : Option (List ℕ)
  pub colo : Option (List ℕ)
  pub warp : Option (List ℕ)

pub record DataPlaneReport : Type 0 where
  pub trace_v4 : Option TraceResult
  pub trace_v6 : Option TraceResult
  pub latency_ms : ℕ

-- `t.warp.as_deref() == Some("on")`, on a family that may have no result.
abbrev pub family_on : Option TraceResult → Bool
family_on none = false
family_on (some t) = elim t.warp [ none ↦ false | some w ↦ list_eq w (codes "on") ]

unfoldable pub warp_on : DataPlaneReport → Bool
warp_on r = family_on r.trace_v4 || family_on r.trace_v6

pub record HealthConfig : Type 0 where
  pub failure_threshold : ℕ
  pub recovery_success_threshold : ℕ

unfoldable pub default_config : HealthConfig
default_config = record { failure_threshold = 3; recovery_success_threshold = 2 }

pub record HealthCounters : Type 0 where
  pub consecutive_failures : ℕ
  pub consecutive_successes : ℕ

pub data HealthVerdict : Type 0 where
  healthy degraded failed : HealthVerdict

abbrev pub as_runtime_state : HealthVerdict → RuntimeState
as_runtime_state HealthVerdict.healthy = RuntimeState.healthy
as_runtime_state HealthVerdict.degraded = RuntimeState.degraded
as_runtime_state HealthVerdict.failed = RuntimeState.failed

pub record LayersReport : Type 0 where
  pub process_alive : Bool
  pub control_connected : Bool
  pub data_plane : Option DataPlaneReport

unfoldable pub data_plane_ok : LayersReport → Bool
data_plane_ok r = elim r.data_plane [ none ↦ false | some d ↦ warp_on d ]

assess_dead : HealthCounters → HealthVerdict × HealthCounters
assess_dead c = (
  HealthVerdict.failed,
  record {
    consecutive_failures = saturating_add_u32 c.consecutive_failures 1;
    consecutive_successes = 0;
  },
)

assess_success : HealthCounters → HealthConfig → RuntimeState → HealthVerdict × HealthCounters
assess_success c config current =
    let successes = saturating_add_u32 c.consecutive_successes 1 in
    let back = leb config.recovery_success_threshold successes || is_healthy current in
    (
      if back then HealthVerdict.healthy else HealthVerdict.degraded,
      record { consecutive_failures = 0; consecutive_successes = successes },
    )

assess_failure : HealthCounters → HealthConfig → HealthVerdict × HealthCounters
assess_failure c config =
    let failures = saturating_add_u32 c.consecutive_failures 1 in
    (
      if leb config.failure_threshold failures
          then HealthVerdict.failed
          else HealthVerdict.degraded,
      record { consecutive_failures = failures; consecutive_successes = 0 },
    )

-- `none` is the panic of the two `assert!` lines.
unfoldable pub assess_layers :
    LayersReport
    → HealthCounters
    → HealthConfig
    → RuntimeState
    → Option (HealthVerdict × HealthCounters)
unfolding assess_dead assess_success assess_failure
assess_layers report counters config current =
    if not (leb 1 config.failure_threshold)
    then none
    else if not (leb 1 config.recovery_success_threshold)
    then none
    else if not report.process_alive
    then some (assess_dead counters)
    else if report.control_connected && data_plane_ok report
    then some (assess_success counters config current)
    else some (assess_failure counters config)
