-- ===== src/Runtime/Manager/Run.antt =====
-- runtime/manager.rs: `do_start`. `meanwhile` is what the crash watchers do to the registry and the
-- bus while a start waits for its data plane.
pub mod Processes
pub mod Frame
use warpdeck.Prelude.{
  ℕ, zero, suc, ◌+◌, Bool, true, false, Option, none, some, List, [], ◌∷◌, not, ltb, if◌then◌else◌,
}
use warpdeck.Prelude.Map
use warpdeck.Runtime.Instance.{InstanceId, IdResult, instance_port, first_warp_port}
use warpdeck.Runtime.Message.{
  Message, port_in_use, credentials_failed, mdm_failed, dbus_failed, service_failed, not_ready,
  flow_failed, not_verified, stop_reason, idempotent_stop,
}
use warpdeck.Runtime.Registry.{RuntimeState, InstanceRuntime, IpAddr}
use warpdeck.Runtime.Registry
use warpdeck.Runtime.Health.{DataPlaneReport, warp_on}
use warpdeck.Runtime.Events.{publish_transition}
use warpdeck.Runtime.Monitor.{View}
use warpdeck.Runtime.Credentials.{InstanceCredentials, is_zero_trust}
use warpdeck.Runtime.Backoff.{ExponentialBackoff, recommended}
use warpdeck.Runtime.Host.{Host, Attempt, done, refused}
use warpdeck.Runtime.Readiness.{probe}
use warpdeck.Runtime.Flow
use warpdeck.Runtime.Flow.{FlowResult}
use warpdeck.Runtime.Stop
use warpdeck.Runtime.Stop.{StopOutcome, StopResult}
use warpdeck.Runtime.Manager.{
  Manager, ManagerError, ManagerResult, RunningInstance, Watcher, StopFailure, state_of, fail_start,
  begin_start, mark_verified, mark_unverified, next_generation, with_registry, stop_grace,
  stop_poll, readiness_max_attempts, data_plane_verify_attempts, data_plane_verify_backoff,
  watcher_consumed, cleanup, already_running, not_running, taken_port, invalid_id, start_failed,
  stop_failed,
}

module _ (h : Host) where
  -- `WarpDbus::start`: a daemon whose socket does not become ready is left as it is.
  unfoldable pub start_dbus : InstanceId → h.World → Attempt ℕ × h.World
  start_dbus id w =
      let (spawned, w1) = h.spawn_dbus id w in
      elim spawned [
        | refused text ↦ (refused text, w1)
        | done pid ↦
            let (ready, w2) = h.wait_for_socket id w1 in
            elim ready [ refused text ↦ (refused text, w2) | done _ ↦ (done pid, w2) ]
      ]

module _ (h : Host) where
  -- The probes that are left.
  pub verify_data_plane : ℕ → InstanceId → h.World → Option DataPlaneReport × h.World
  verify_data_plane zero id w = (none, w)
  verify_data_plane (suc n) id w =
      let (answer, w1) = h.probe (first_warp_port + id) w in
      let w2 : h.World = if ltb 0 n then h.sleep data_plane_verify_backoff w1 else w1 in
      let rest = verify_data_plane n id w2 in
      elim answer [ none ↦ rest | some d ↦ if warp_on d then (some d, w1) else rest ]

  unfoldable pub graceful_stop : InstanceId → ℕ → ℕ → h.World → StopResult × h.World
  graceful_stop id svc dbus w = Stop.stop h stop_grace stop_poll id svc dbus w

module _ (h : Host) (backoff : ExponentialBackoff) (max_register_attempts : ℕ)
    (parse_ip : List ℕ → Option IpAddr) where
  -- `return Err` after `fail_start`.
  failed_start : InstanceId → Message → Manager h → ManagerResult RunningInstance × Manager h
  failed_start id msg m = (
    ManagerResult.err (start_failed id msg),
    record m { view = fail_start id RuntimeState.starting msg m.view },
  )

  -- From the data plane's verification on.
  pub finish_start :
      (View → View)
      → InstanceId
      → ℕ
      → InstanceCredentials
      → ℕ
      → ℕ
      → Manager h
      → ManagerResult RunningInstance × Manager h
  unfolding verify_data_plane
  finish_start meanwhile id generation credentials svc dbus m =
      let (report, w) = verify_data_plane h data_plane_verify_attempts id m.world in
      let v = meanwhile (with_registry (Registry.on_started id svc dbus) m.view) in
      let watcher : Watcher = record { svc = svc; generation = generation } in
      let running : RunningInstance = record {
        id = id;
        dbus = dbus;
        watcher_task = some watcher;
      } in
      elim report [
        | some d ↦ (
          ManagerResult.ok running,
          record m {
            world = if is_zero_trust credentials then h.remove_after_enroll id w else w;
            view = mark_verified parse_ip id d v;
          },
        )
        | none ↦ (
          ManagerResult.ok running,
          record m {
            world = w;
            view = mark_unverified id (not_verified data_plane_verify_attempts) v;
          },
        )
      ]

  -- The processes are stopped, and what the stop answers is dropped.
  pub abandon : InstanceId → Message → ℕ → ℕ → Manager h → ManagerResult RunningInstance × Manager h
  unfolding failed_start graceful_stop
  abandon id msg svc dbus m =
      failed_start id msg (record m { world = (graceful_stop h id svc dbus m.world).1 })

  -- With both processes there: readiness, then the flow.
  pub bring_up :
      (View → View)
      → ℕ
      → InstanceId
      → ℕ
      → InstanceCredentials
      → ℕ
      → ℕ
      → Manager h
      → ManagerResult RunningInstance × Manager h
  unfolding finish_start abandon recommended
  bring_up meanwhile fuel id generation credentials svc dbus m =
      let (r, w1) = probe h recommended readiness_max_attempts id m.world in
      if not r.ready
      then abandon id (not_ready r.attempts r.last_error) svc dbus (record m { world = w1 })
      else (let (flowed, w2) = Flow.run h backoff max_register_attempts id fuel credentials w1 in
          elim flowed [
            | FlowResult.ok _ ↦
                finish_start meanwhile id generation credentials svc dbus (record m { world = w2 })
            | FlowResult.err e ↦ abandon id (flow_failed e) svc dbus (record m { world = w2 })
            | FlowResult.out_of_fuel ↦ (ManagerResult.out_of_fuel, record m { world = w2 })
          ])

  -- The two processes, D-Bus first.
  pub launch :
      (View → View)
      → ℕ
      → InstanceId
      → ℕ
      → InstanceCredentials
      → Manager h
      → ManagerResult RunningInstance × Manager h
  unfolding bring_up failed_start start_dbus
  launch meanwhile fuel id generation credentials m =
      let (dbus, w1) = start_dbus h id m.world in
      elim dbus [
        | refused text ↦ failed_start id (dbus_failed text) (record m { world = w1 })
        | done dbus_pid ↦
            let (svc, w2) = h.start_service id w1 in
            elim svc [
              | refused text ↦
                  failed_start id (service_failed text)
                    (record m { world = h.shutdown_dbus dbus_pid w2 })
              | done svc_pid ↦
                  bring_up meanwhile fuel id generation credentials svc_pid dbus_pid
                    (record m { world = w2 })
            ]
      ]

  pub prepare_start :
      (View → View)
      → ℕ
      → InstanceId
      → ℕ
      → Option ℕ
      → Manager h
      → ManagerResult RunningInstance × Manager h
  unfolding launch failed_start
  prepare_start meanwhile fuel id generation account_profile_id m =
      let (resolved, w1) = h.resolve account_profile_id m.world in
      elim resolved [
        | refused text ↦ failed_start id (credentials_failed text) (record m { world = w1 })
        | done credentials ↦
            let (synced, w2) = h.sync_mdm_xml id credentials w1 in
            elim synced [
              | refused text ↦ failed_start id (mdm_failed text) (record m { world = w2 })
              | done _ ↦ launch meanwhile fuel id generation credentials (record m { world = w2 })
            ]
      ]

  unfoldable pub do_start :
      (View → View)
      → ℕ
      → InstanceId
      → Option ℕ
      → Manager h
      → ManagerResult RunningInstance × Manager h
  unfolding prepare_start
  do_start meanwhile fuel id account_profile_id m =
      let generation = next_generation id m.current_run in
      let current = Map.insert id generation m.current_run in
      let known = with_registry (Registry.insert id) m.view in
      let from = state_of RuntimeState.stopped id known.registry in
      let port = first_warp_port + id in
      if not (h.is_free port m.world)
      then (
        ManagerResult.err (taken_port id port),
        record m { current_run = current; view = fail_start id from (port_in_use port) known },
      )
      else prepare_start meanwhile fuel id generation account_profile_id
          (record m { current_run = current; view = begin_start id known })
