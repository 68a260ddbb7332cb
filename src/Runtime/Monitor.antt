-- ===== src/Runtime/Monitor.antt =====
-- runtime/health_monitor.rs and the two functions of runtime/manager.rs that it drives. `parse_ip` is
-- `str::parse::<IpAddr>`; what the control plane and the prober answer are arguments; `meanwhile` is
-- what the other tasks do to the registry between the two times that it is locked.
pub mod Guard
pub mod Streak
use Prim.Native.Nat.{min}
use warpdeck.Prelude.{
  ℕ, Bool, true, false, ◌&&◌, ◌||◌, not, Option, none, some, List, [], ◌∷◌, ◌==◌, list_eq,
  if◌then◌else◌,
}
use warpdeck.Prelude.Machine.{u32_max}
use warpdeck.Runtime.Instance.{InstanceId, IdResult, instance_port}
use warpdeck.Runtime.Message.{
  Message, status_disconnected, probe_failed, warp_is_off, recovered, failures_reached,
  health_degraded,
}
use warpdeck.Runtime.Registry.{RuntimeState, InstanceRuntime, IpAddr, Registry, is_healthy}
use warpdeck.Runtime.Registry
use warpdeck.Runtime.Health.{
  HealthVerdict, HealthCounters, HealthConfig, LayersReport, DataPlaneReport, TraceResult,
  as_runtime_state, assess_layers, warp_on,
}
use warpdeck.Runtime.Events.{
  EventBus, HealthEvent, publish, publish_transition, health_changed, exit_ip_changed,
}

pub record View : Type 0 where
  pub registry : Registry
  pub bus : EventBus

-- `matches!(state, Healthy | Degraded)`.
abbrev pub is_assessed : RuntimeState → Bool
is_assessed RuntimeState.healthy = true
is_assessed RuntimeState.degraded = true
is_assessed _ = false

abbrev pub ip_eq : IpAddr → IpAddr → Bool
ip_eq (IpAddr.v4 a) (IpAddr.v4 b) = a == b
ip_eq (IpAddr.v6 a) (IpAddr.v6 b) = a == b
ip_eq _ _ = false

-- `new.is_some() && new != old`.
abbrev pub ip_moved : Option IpAddr → Option IpAddr → Bool
ip_moved none old = false
ip_moved (some a) none = true
ip_moved (some a) (some b) = not (ip_eq a b)

abbrev pub colo : DataPlaneReport → Option (List ℕ)
colo d = first (field d.trace_v4) (field d.trace_v6)
  where
    field : Option TraceResult → Option (List ℕ)
    field none = none
    field (some t) = t.colo

    first : Option (List ℕ) → Option (List ℕ) → Option (List ℕ)
    first none b = b
    first (some a) b = some a

abbrev pub clamp_latency : ℕ → ℕ
clamp_latency ms = min ms u32_max

-- The summary that a round leaves in `last_error`.
abbrev pub round_error : LayersReport → Option Message
round_error r = if not r.control_connected then some status_disconnected else elim r.data_plane [
  | none ↦ some probe_failed
  | some d ↦ if not (warp_on d) then some warp_is_off else none
]

-- The reason of the transition.
abbrev pub verdict_reason : RuntimeState → HealthCounters → Message
verdict_reason RuntimeState.healthy c = recovered
verdict_reason RuntimeState.failed c = failures_reached c.consecutive_failures
verdict_reason _ c = health_degraded

abbrev same_state : RuntimeState → HealthVerdict → Bool
same_state RuntimeState.healthy HealthVerdict.healthy = true
same_state RuntimeState.degraded HealthVerdict.degraded = true
same_state RuntimeState.failed HealthVerdict.failed = true
same_state _ _ = false

module _ (parse_ip : List ℕ → Option IpAddr) where
  -- `DataPlaneReport::exit_ip_v4` and `exit_ip_v6`, of the family's result.
  pub exit_ip : Option TraceResult → Option IpAddr
  exit_ip none = none
  exit_ip (some t) = elim t.ip [ none ↦ none | some text ↦ parse_ip text ]

  new_exit : (DataPlaneReport → Option TraceResult) → LayersReport → Option IpAddr
  unfolding exit_ip
  new_exit family r = elim r.data_plane [ none ↦ none | some d ↦ exit_ip (family d) ]

  unfoldable pub record_metrics : DataPlaneReport → InstanceRuntime → InstanceRuntime
  unfolding exit_ip
  record_metrics d e = record e {
    exit_ip_v4 = exit_ip d.trace_v4;
    exit_ip_v6 = exit_ip d.trace_v6;
    colo = colo d;
    latency_ms = some (clamp_latency d.latency_ms);
  }

  -- The body of the closure that `apply_health_verdict` hands to `update`.
  pub apply_round :
      HealthVerdict → HealthCounters → LayersReport → InstanceRuntime → InstanceRuntime
  unfolding record_metrics
  apply_round verdict counters report e =
      if not (is_assessed e.state)
      then e
      else (let measured : InstanceRuntime = elim report.data_plane [
        | none ↦ e
        | some d ↦ record_metrics d e
      ] in
          record measured {
            state = as_runtime_state verdict;
            consecutive_failures = counters.consecutive_failures;
            consecutive_successes = counters.consecutive_successes;
            last_error = round_error report;
          })

  publish_round :
      InstanceId
      → InstanceRuntime
      → HealthVerdict
      → HealthCounters
      → LayersReport
      → EventBus
      → EventBus
  unfolding new_exit
  publish_round id before verdict counters report bus =
      let target = as_runtime_state verdict in
      let reason = verdict_reason target counters in
      let ip4 = new_exit (λ d. d.trace_v4) report in
      let ip6 = new_exit (λ d. d.trace_v6) report in
      let moved : EventBus =
        if same_state before.state verdict
        then bus
        else publish
            (health_changed
              (record { instance_id = id; from = before.state; to = target; reason = reason }))
            (publish_transition id before.state target reason bus) in
      elim report.data_plane [
        | none ↦ moved
        | some d ↦
            if ip_moved ip4 before.exit_ip_v4 || ip_moved ip6 before.exit_ip_v6
            then publish (exit_ip_changed id ip4 ip6 (colo d) (some (clamp_latency d.latency_ms)))
                moved
            else moved
      ]

  -- The second component says whether the verdict was applied (`Some(())`) or dropped (`None`).
  unfoldable pub apply_health_verdict :
      (Registry → Registry)
      → InstanceId
      → HealthVerdict
      → HealthCounters
      → LayersReport
      → View
      → View × Bool
  unfolding apply_round publish_round
  apply_health_verdict meanwhile id verdict counters report v = elim (Registry.get id v.registry) [
    | none ↦ (v, false)
    | some before ↦
        if not (is_assessed before.state)
        then (v, false)
        else (let r = meanwhile v.registry in
            let applied : Bool = elim (Registry.get id r) [
              | none ↦ false
              | some e ↦ is_assessed e.state
            ] in
            let r' = Registry.update id (apply_round verdict counters report) r in
            if applied
            then (
              record { registry = r'; bus = publish_round id before verdict counters report v.bus },
              true,
            )
            else (record { registry = r'; bus = v.bus }, false))
  ]

-- The report that `collect_health_layers` builds.
abbrev pub layers : InstanceRuntime → Option Bool → Option DataPlaneReport → LayersReport
layers snapshot status probe = record {
  process_alive = elim snapshot.warp_pid [ none ↦ false | some _ ↦ true ];
  control_connected = elim status [ none ↦ false | some c ↦ c ];
  data_plane = probe;
}

abbrev pub counters : InstanceRuntime → HealthCounters
counters e = record {
  consecutive_failures = e.consecutive_failures;
  consecutive_successes = e.consecutive_successes;
}

-- `status` is the answer of `warp-cli status` (`none` on an error), `probe` that of the prober.
unfoldable pub collect_health_layers :
    InstanceId
    → Option Bool
    → Option DataPlaneReport
    → Registry
    → Option (InstanceRuntime × LayersReport)
collect_health_layers id status probe r = elim (Registry.get id r) [
  | none ↦ none
  | some snapshot ↦ if not (is_assessed snapshot.state) then none else elim (instance_port id) [
    | IdResult.err _ ↦ none
    | IdResult.ok _ ↦ some (snapshot, layers snapshot status probe)
  ]
]

-- `HealthMonitor::tick_instance`: `none` is the panic of `assess_layers`.
unfoldable pub tick_instance :
    (List ℕ → Option IpAddr)
    → HealthConfig
    → (Registry → Registry)
    → InstanceId
    → Option Bool
    → Option DataPlaneReport
    → View
    → Option (View × Bool)
tick_instance parse_ip config meanwhile id status probe v =
    elim (collect_health_layers id status probe v.registry) [
      | none ↦ some (v, false)
      | some (snapshot, report) ↦
          elim (assess_layers report (counters snapshot) config snapshot.state) [
            | none ↦ none
            | some (verdict, next) ↦
                some ((apply_health_verdict parse_ip meanwhile id verdict next report v).0, true)
          ]
    ]

-- Rounds of one instance with no other task in between: each has what `warp-cli status` and the
-- prober answer.
unfoldable pub rounds :
    (List ℕ → Option IpAddr)
    → HealthConfig
    → InstanceId
    → List (Option Bool × Option DataPlaneReport)
    → View
    → Option View
rounds parse_ip config id [] v = some v
rounds parse_ip config id ((status, probe) ∷ rs) v =
    elim (tick_instance parse_ip config (λ r. r) id status probe v) [
      | none ↦ none
      | some (v', _) ↦ rounds parse_ip config id rs v'
    ]
