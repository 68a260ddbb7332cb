-- ===== src/Runtime/Manager.antt =====
-- runtime/manager.rs: the lifecycle of the instances. An entry of `runs` holds the watcher task as the
-- process and the generation that it watches; that the task ends with that process once its channel
-- is closed is taken for granted (it does not panic), so a join does not fail.
pub mod Run
pub mod Lifecycle
use warpdeck.Prelude.{
  ℕ, zero, suc, ◌+◌, Bool, true, false, Option, none, some, List, ltb, ◌==◌, if◌then◌else◌,
}
use warpdeck.Prelude.Int.{ℤ}
use warpdeck.Prelude.Machine.{from_secs, from_millis}
use warpdeck.Prelude.Map
use warpdeck.Runtime.Instance.{InstanceId, InstanceIdError, first_warp_port}
use warpdeck.Runtime.Message.{
  Message, FlowError, crashed, port_in_use, credentials_failed, mdm_failed, dbus_failed,
  service_failed, not_ready, flow_failed, not_verified, start_reason, stop_reason,
  data_plane_verified,
}
use warpdeck.Runtime.Registry.{RuntimeState, InstanceRuntime, IpAddr, Registry, CrashEvent}
use warpdeck.Runtime.Registry
use warpdeck.Runtime.Health.{DataPlaneReport, warp_on}
use warpdeck.Runtime.Events.{
  EventBus, HealthEvent, publish, publish_transition, health_changed, state_changed,
}
use warpdeck.Runtime.Monitor.{View, record_metrics}
use warpdeck.Runtime.Credentials.{InstanceCredentials, is_zero_trust}
use warpdeck.Runtime.Backoff.{ExponentialBackoff, recommended}
use warpdeck.Runtime.Host.{Host, Attempt, done, refused}
use warpdeck.Runtime.Readiness.{ProbeResult, probe}
use warpdeck.Runtime.Flow.{FlowResult, run}
use warpdeck.Runtime.Stop.{StopOutcome, StopResult, stop}

abbrev pub stop_grace : ℕ
stop_grace = from_secs 10

abbrev pub stop_poll : ℕ
stop_poll = from_millis 100

abbrev pub readiness_max_attempts : ℕ
readiness_max_attempts = 40

abbrev pub data_plane_verify_attempts : ℕ
data_plane_verify_attempts = 12

abbrev pub data_plane_verify_backoff : ℕ
data_plane_verify_backoff = from_secs 5

pub data StopFailure : Type 0 where
  watcher_consumed : StopFailure
  cleanup : List ℕ → StopFailure

pub data ManagerError : Type 0 where
  already_running not_running : InstanceId → ManagerError
  taken_port : InstanceId → ℕ → ManagerError
  invalid_id : InstanceId → InstanceIdError → ManagerError
  start_failed : InstanceId → Message → ManagerError
  stop_failed : InstanceId → StopFailure → ManagerError

-- `out_of_fuel` is no result of the code.
pub data ManagerResult (A : Type 0) : Type 0 where
  ok : A → ManagerResult A
  err : ManagerError → ManagerResult A
  out_of_fuel : ManagerResult A

pub record Watcher : Type 0 where
  pub svc : ℕ
  pub generation : ℕ

-- `dbus` is always there once an instance runs, and the sender of `watcher_cancel` leaves together
-- with the task.
pub record RunningInstance : Type 0 where
  pub id : InstanceId
  pub dbus : ℕ
  pub watcher_task : Option Watcher

abbrev pub CurrentRun : Type 0
CurrentRun = List (ℕ × ℕ)

-- The first component of the state that the operations share with the other tasks is `view`.
pub record Manager (h : Host) : Type 0 where
  pub world : h.World
  pub view : View
  pub current_run : CurrentRun
  pub runs : List (ℕ × RunningInstance)

abbrev pub state_of : RuntimeState → InstanceId → Registry → RuntimeState
state_of default id r = elim (Registry.get id r) [ none ↦ default | some e ↦ e.state ]

abbrev pub with_registry : (Registry → Registry) → View → View
with_registry f v = record v { registry = f v.registry }

abbrev pub with_bus : (EventBus → EventBus) → View → View
with_bus f v = record v { bus = f v.bus }

abbrev pub both_events : InstanceId → RuntimeState → RuntimeState → Message → EventBus → EventBus
both_events id from to reason bus =
    publish (health_changed (record { instance_id = id; from = from; to = to; reason = reason }))
      (publish_transition id from to reason bus)

unfoldable pub fail_start : InstanceId → RuntimeState → Message → View → View
fail_start id from msg v = record {
  registry = Registry.record_error id msg v.registry;
  bus = both_events id from RuntimeState.failed msg v.bus;
}

-- The handler of the crash watcher of the start number `my_generation`.
unfoldable pub handle_crash : CurrentRun → ℕ → CrashEvent → View → View
handle_crash current my_generation event v =
    let id = event.instance_id in
    elim (Map.get id current) [
      | none ↦ v
      | some g ↦
          if g == my_generation
          then record {
            registry = Registry.on_crash event v.registry;
            bus =
                both_events id (state_of RuntimeState.healthy id v.registry) RuntimeState.failed
                  (crashed event.exit_code) v.bus;
          }
          else v
    ]

abbrev pub next_generation : InstanceId → CurrentRun → ℕ
next_generation id current = elim (Map.get id current) [ none ↦ 1 | some g ↦ g + 1 ]

abbrev pub begin_start : InstanceId → View → View
begin_start id v =
    let from = state_of RuntimeState.stopped id v.registry in
    record {
      registry = Registry.set_state id RuntimeState.starting v.registry;
      bus = publish_transition id from RuntimeState.starting start_reason v.bus;
    }

abbrev pub with_verified :
    (List ℕ → Option IpAddr) → DataPlaneReport → InstanceRuntime → InstanceRuntime
with_verified parse_ip report e = record (record_metrics parse_ip report e) { last_error = none }

unfoldable pub mark_verified : (List ℕ → Option IpAddr) → InstanceId → DataPlaneReport → View → View
unfolding record_metrics
mark_verified parse_ip id report v = record {
  registry =
      Registry.set_state id RuntimeState.healthy
        (Registry.update id (with_verified parse_ip report) v.registry);
  bus = publish_transition id RuntimeState.starting RuntimeState.healthy data_plane_verified v.bus;
}

abbrev pub with_unverified : Message → InstanceRuntime → InstanceRuntime
with_unverified msg e = record e {
  state = RuntimeState.degraded;
  consecutive_failures = 1;
  last_error = some msg;
}

abbrev pub is_starting : RuntimeState → Bool
is_starting RuntimeState.starting = true
is_starting _ = false

unfoldable pub mark_unverified : InstanceId → Message → View → View
mark_unverified id msg v =
    if is_starting (state_of RuntimeState.stopped id v.registry)
    then record {
      registry = Registry.update id (with_unverified msg) v.registry;
      bus = publish_transition id RuntimeState.starting RuntimeState.degraded msg v.bus;
    }
    else v
