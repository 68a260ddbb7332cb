-- ===== src/Runtime/Tests/Samples.antt =====
-- Entries, registries and answers that the tests share.
use warpdeck.Prelude.{ℕ, Option, none, some, List, [], ◌∷◌, codes}
use warpdeck.Runtime.Registry.{
  RuntimeState, InstanceRuntime, IpAddr, Registry, stopped_runtime, with_state, with_pids,
}
use warpdeck.Runtime.Health.{DataPlaneReport, TraceResult}
use warpdeck.Runtime.Monitor.{View}

abbrev pub up : InstanceRuntime
up = with_state RuntimeState.healthy (with_pids 11 12 stopped_runtime)

abbrev pub down : InstanceRuntime
down = with_state RuntimeState.failed (with_pids 13 14 stopped_runtime)

abbrev pub fleet : Registry
fleet = (7, up) ∷ (4, down) ∷ (2, up) ∷ []

abbrev pub fleet_view : View
fleet_view = record { registry = fleet; bus = [] }

abbrev pub no_ip : List ℕ → Option IpAddr
no_ip text = none

abbrev pub trace_on : TraceResult
trace_on = record { ip = none; colo = some (codes "LAX"); warp = some (codes "on") }

abbrev pub report_on : DataPlaneReport
report_on = record { trace_v4 = some trace_on; trace_v6 = none; latency_ms = 38 }
