-- ===== src/Runtime/Manager/Lifecycle.antt =====
-- runtime/manager.rs: `do_stop` and the interface `WarpRuntime`. `meanwhile` is what the crash watchers
-- do to the registry and the bus while a start waits for its data plane.
pub mod Stuck
pub mod Crash
use warpdeck.Prelude.{
  ℕ, zero, suc, ◌+◌, Bool, true, false, Option, none, some, List, [], ◌∷◌, not, ltb, if◌then◌else◌,
}
use warpdeck.Prelude.Map
use warpdeck.Runtime.Instance.{InstanceId, IdResult, instance_port, first_warp_port}
use warpdeck.Runtime.Message.{
  Message, port_in_use, credentials_failed, mdm_failed, dbus_failed, service_failed, not_ready,
  flow_failed, not_verified, stop_reason, idempotent_stop,
}
use warpdeck.Runtime.Registry.{RuntimeState, InstanceRuntime, IpAddr}
use warpdeck.Runtime.Registry
use warpdeck.Runtime.Health.{DataPlaneReport, warp_on}
use warpdeck.Runtime.Events.{publish_transition}
use warpdeck.Runtime.Monitor.{View}
use warpdeck.Runtime.Credentials.{InstanceCredentials, is_zero_trust}
use warpdeck.Runtime.Backoff.{ExponentialBackoff, recommended}
use warpdeck.Runtime.Host.{Host, Attempt, done, refused}
use warpdeck.Runtime.Readiness.{probe}
use warpdeck.Runtime.Flow
use warpdeck.Runtime.Flow.{FlowResult}
use warpdeck.Runtime.Stop
use warpdeck.Runtime.Stop.{StopOutcome, StopResult}
use warpdeck.Runtime.Manager.{
  Manager, ManagerError, ManagerResult, RunningInstance, Watcher, StopFailure, state_of, fail_start,
  begin_start, mark_verified, mark_unverified, next_generation, with_registry, stop_grace,
  stop_poll, readiness_max_attempts, data_plane_verify_attempts, data_plane_verify_backoff,
  watcher_consumed, cleanup, already_running, not_running, taken_port, invalid_id, start_failed,
  stop_failed,
}
use warpdeck.Runtime.Manager.Run.{do_start, graceful_stop}

module _ (h : Host) where
  -- The entry comes back changed: the watcher task has been taken out of it.
  unfoldable pub do_stop :
      RunningInstance → Manager h → ManagerResult StopOutcome × RunningInstance × Manager h
  unfolding graceful_stop
  do_stop running m =
      let id = running.id in
      let from = state_of RuntimeState.healthy id m.view.registry in
      let stopping : View = record {
        registry = Registry.set_state id RuntimeState.stopping m.view.registry;
        bus = publish_transition id from RuntimeState.stopping stop_reason m.view.bus;
      } in
      let taken : RunningInstance = record running { watcher_task = none } in
      elim running.watcher_task [
        | none ↦ (
          ManagerResult.err (stop_failed id watcher_consumed),
          taken,
          record m { view = stopping },
        )
        | some watcher ↦
            let (result, w) = graceful_stop h id watcher.svc running.dbus m.world in
            elim result [
              | StopResult.cleanup_failed text ↦ (
                ManagerResult.err (stop_failed id (cleanup text)),
                taken,
                record m { world = w; view = stopping },
              )
              | StopResult.stopped outcome ↦ (
                ManagerResult.ok outcome,
                taken,
                record m {
                  world = w;
                  view = record {
                    registry = Registry.on_stopped id stopping.registry;
                    bus =
                        publish_transition id RuntimeState.stopping RuntimeState.stopped stop_reason
                          stopping.bus;
                  };
                },
              )
            ]
      ]

  -- `runs.remove`, `do_stop`, and the entry put back on an error.
  abbrev pub stop_entry :
      InstanceId → RunningInstance → Manager h → ManagerResult StopOutcome × Manager h
  unfolding do_stop
  stop_entry id running m =
      let (result, back, m1) = do_stop running (record m { runs = Map.remove id m.runs }) in
      elim result [
        | ManagerResult.ok outcome ↦ (ManagerResult.ok outcome, m1)
        | ManagerResult.err e ↦
            (ManagerResult.err e, record m1 { runs = Map.insert id back m1.runs })
        | ManagerResult.out_of_fuel ↦ (ManagerResult.out_of_fuel, m1)
      ]

  abbrev is_stopped : RuntimeState → Bool
  is_stopped RuntimeState.stopped = true
  is_stopped _ = false

  unfoldable pub stop : InstanceId → Manager h → ManagerResult StopOutcome × Manager h
  unfolding stop_entry
  stop id m = elim (Map.get id m.runs) [
    | none ↦
        let from = state_of RuntimeState.stopped id m.view.registry in
        let r = Registry.set_state id RuntimeState.stopped m.view.registry in
        (
          ManagerResult.ok (record { kill_required = false; exit_code = none }),
          record m {
            view = record {
              registry = r;
              bus =
                  if is_stopped from
                  then m.view.bus
                  else publish_transition id from RuntimeState.stopped idempotent_stop m.view.bus;
            };
          },
        )
    | some running ↦
        let (result, m1) = stop_entry id running m in
        elim result [
          | ManagerResult.ok outcome ↦
              (ManagerResult.ok outcome, record m1 { current_run = Map.remove id m1.current_run })
          | other ↦ (other, m1)
        ]
  ]

  abbrev pub delete_record : InstanceId → Bool → Manager h → ManagerResult (Unit {0}) × Manager h
  delete_record id remove_registration m = (
    ManagerResult.ok tt,
    record m {
      view = with_registry (Registry.remove id) m.view;
      world = if remove_registration then h.remove_registration id m.world else m.world;
    },
  )

  unfoldable pub delete : InstanceId → Bool → Manager h → ManagerResult (Unit {0}) × Manager h
  unfolding stop_entry
  delete id remove_registration m = elim (Map.get id m.runs) [
    | some running ↦
        let (result, m1) = stop_entry id running m in
        elim result [
          | ManagerResult.ok _ ↦ delete_record id remove_registration m1
          | ManagerResult.err e ↦ (ManagerResult.err e, m1)
          | ManagerResult.out_of_fuel ↦ (ManagerResult.out_of_fuel, m1)
        ]
    | none ↦ elim (instance_port id) [
      | IdResult.err e ↦ (ManagerResult.err (invalid_id id e), m)
      | IdResult.ok _ ↦ delete_record id remove_registration m
    ]
  ]

  -- The handles of `current_run`, whose order a hash map does not fix, are given.
  unfoldable pub stop_all : List InstanceId → Manager h → Manager h
  unfolding stop
  stop_all [] m = m
  stop_all (id ∷ ids) m = stop_all ids (stop id m).1

module _ (h : Host) (backoff : ExponentialBackoff) (max_register_attempts : ℕ)
    (parse_ip : List ℕ → Option IpAddr) where
  -- `do_start` and the insertion into `runs`.
  abbrev start_running :
      (View → View) → ℕ → InstanceId → Option ℕ → Manager h → ManagerResult (Unit {0}) × Manager h
  unfolding do_start
  start_running meanwhile fuel id account_profile_id m =
      let (result, m1) =
        do_start h backoff max_register_attempts parse_ip meanwhile fuel id account_profile_id m in
      elim result [
        | ManagerResult.ok running ↦
            (ManagerResult.ok tt, record m1 { runs = Map.insert id running m1.runs })
        | ManagerResult.err e ↦ (ManagerResult.err e, m1)
        | ManagerResult.out_of_fuel ↦ (ManagerResult.out_of_fuel, m1)
      ]

  unfoldable pub start :
      (View → View) → ℕ → InstanceId → Option ℕ → Manager h → ManagerResult (Unit {0}) × Manager h
  unfolding start_running
  start meanwhile fuel id account_profile_id m = elim (Map.get id m.runs) [
    | some _ ↦ (ManagerResult.err (already_running id), m)
    | none ↦ start_running meanwhile fuel id account_profile_id m
  ]

  unfoldable pub restart :
      (View → View) → ℕ → InstanceId → Option ℕ → Manager h → ManagerResult (Unit {0}) × Manager h
  unfolding stop_entry start_running
  restart meanwhile fuel id account_profile_id m = elim (Map.get id m.runs) [
    | some running ↦
        let (result, m1) = stop_entry h id running m in
        elim result [
          | ManagerResult.ok _ ↦ start_running meanwhile fuel id account_profile_id m1
          | ManagerResult.err e ↦ (ManagerResult.err e, m1)
          | ManagerResult.out_of_fuel ↦ (ManagerResult.out_of_fuel, m1)
        ]
    | none ↦ elim (Registry.get id m.view.registry) [
      | none ↦ (ManagerResult.err (not_running id), m)
      | some _ ↦ elim (instance_port id) [
        | IdResult.err e ↦ (ManagerResult.err (invalid_id id e), m)
        | IdResult.ok _ ↦ start_running meanwhile fuel id account_profile_id m
      ]
    ]
  ]
