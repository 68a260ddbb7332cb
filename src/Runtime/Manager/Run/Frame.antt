-- ===== src/Runtime/Manager/Run/Frame.antt =====
-- runtime/manager.rs, `do_start`: what a start returns and which parts of the state it changes.
use warpdeck.Prelude.{
  ℕ, ◌+◌, ◌≡◌, refl, inl, inr, true, Option, some, List, Bool-cases, Option-cases, subst,
}
use warpdeck.Prelude.Map
use warpdeck.Runtime.Instance.{InstanceId, first_warp_port}
use warpdeck.Runtime.Message.{
  Message, not_ready, flow_failed, dbus_failed, service_failed, credentials_failed, mdm_failed,
}
use warpdeck.Runtime.Registry.{RuntimeState, IpAddr}
use warpdeck.Runtime.Registry
use warpdeck.Runtime.Backoff.{ExponentialBackoff, recommended}
use warpdeck.Runtime.Credentials.{InstanceCredentials}
use warpdeck.Runtime.Host.{Host, IsClock, Attempt-cases}
use warpdeck.Runtime.Readiness.{probe}
use warpdeck.Runtime.Flow
use warpdeck.Runtime.Flow.{FlowResult, FlowResult-cases}
use warpdeck.Runtime.Flow.Bounded.{IsFinished, run-IsFinished}
use warpdeck.Runtime.Monitor.{View}
use warpdeck.Runtime.Manager.{
  Manager, ManagerResult, RunningInstance, fail_start, begin_start, next_generation, with_registry,
  start_failed, readiness_max_attempts, data_plane_verify_attempts,
}
use warpdeck.Runtime.Manager.Run.{
  verify_data_plane, failed_start, finish_start, abandon, bring_up, start_dbus, launch,
  prepare_start, do_start,
}

-- A start of `id` of the generation `g` from the state `m` on, once the instance is Starting.
abbrev pub Frames :
    (h : Host) → InstanceId → ℕ → Manager h → ManagerResult RunningInstance × Manager h → Type 0
Frames h id g m (ManagerResult.ok r, n) =
    (n.current_run ≡ m.current_run)
    × (n.runs ≡ m.runs)
    × (r.id ≡ id)
    × ((svc : ℕ) × (r.watcher_task ≡ some (record { svc = svc; generation = g })))
Frames h id g m (ManagerResult.err e, n) =
    (n.current_run ≡ m.current_run)
    × (n.runs ≡ m.runs)
    × ((msg : Message) × (e ≡ start_failed id msg)
        × (n.view ≡ fail_start id RuntimeState.starting msg m.view))
Frames h id g m (ManagerResult.out_of_fuel, n) = ⊥

module _ (h : Host) (clock : IsClock h) (backoff : ExponentialBackoff) (max_register_attempts : ℕ)
    (parse_ip : List ℕ → Option IpAddr) (meanwhile : View → View) (id g : ℕ) where
  finish_start-Frames :
      (credentials : InstanceCredentials) (svc dbus : ℕ) (m : Manager h)
      → Frames h id g m (
          finish_start h backoff max_register_attempts parse_ip meanwhile id g credentials svc dbus
            m)
  unfolding finish_start
  finish_start-Frames credentials svc dbus m =
      elim (Option-cases (verify_data_plane h data_plane_verify_attempts id m.world).0) [
        | inl p ↦ rw (p, finish_start) (refl, refl, refl, (svc, refl))
        | inr (d, p) ↦ rw (p, finish_start) (refl, refl, refl, (svc, refl))
      ]

  bring_up-Frames :
      (credentials : InstanceCredentials) (svc dbus : ℕ) (m : Manager h)
      → Frames h id g m (
          bring_up h backoff max_register_attempts parse_ip meanwhile 47 id g credentials svc dbus
            m)
  unfolding bring_up abandon failed_start
  bring_up-Frames credentials svc dbus m =
      let r = probe h recommended readiness_max_attempts id m.world in
      let f = Flow.run h backoff max_register_attempts id 47 credentials r.1 in
      let ended = run-IsFinished h backoff max_register_attempts id clock credentials r.1 in
      elim (Bool-cases r.0.ready) [
        | inr q ↦ rw (q, bring_up) (refl, refl, (not_ready r.0.attempts r.0.last_error, refl, refl))
        | inl q ↦ elim (FlowResult-cases f.0) [
          | inl (o, p) ↦
              rw (q, bring_up)
                (rw p (finish_start-Frames credentials svc dbus (record m { world = f.1 })))
          | inr (inl (e, p)) ↦ rw (q, bring_up) (rw p (refl, refl, (flow_failed e, refl, refl)))
          | inr (inr p) ↦ absurd (subst IsFinished p ended)
        ]
      ]

  launch-Frames :
      (credentials : InstanceCredentials) (m : Manager h)
      → Frames h id g m
          (launch h backoff max_register_attempts parse_ip meanwhile 47 id g credentials m)
  unfolding launch failed_start
  launch-Frames credentials m =
      let w1 = (start_dbus h id m.world).1 in
      elim (Attempt-cases (start_dbus h id m.world).0) [
        | inr (t, p) ↦ rw (p, launch) (refl, refl, (dbus_failed t, refl, refl))
        | inl (dbus, p) ↦ elim (Attempt-cases (h.start_service id w1).0) [
          | inr (t, q) ↦ rw (p, launch) (rw q (refl, refl, (service_failed t, refl, refl)))
          | inl (svc, q) ↦
              rw (p, launch)
                (rw q (
                  bring_up-Frames credentials svc dbus
                    (record m { world = (h.start_service id w1).1 })))
        ]
      ]

  prepare_start-Frames :
      (account : Option ℕ) (m : Manager h)
      → Frames h id g m
          (prepare_start h backoff max_register_attempts parse_ip meanwhile 47 id g account m)
  unfolding prepare_start failed_start
  prepare_start-Frames account m =
      let w1 = (h.resolve account m.world).1 in
      elim (Attempt-cases (h.resolve account m.world).0) [
        | inr (t, p) ↦ rw (p, prepare_start) (refl, refl, (credentials_failed t, refl, refl))
        | inl (c, p) ↦ elim (Attempt-cases (h.sync_mdm_xml id c w1).0) [
          | inr (t, q) ↦ rw (p, prepare_start) (rw q (refl, refl, (mdm_failed t, refl, refl)))
          | inl (a, q) ↦
              rw (p, prepare_start)
                (rw q (launch-Frames c (record m { world = (h.sync_mdm_xml id c w1).1 })))
        ]
      ]

-- The state in which the waiting steps of a start of `id` begin.
abbrev pub started_from : (h : Host) → InstanceId → Manager h → Manager h
started_from h id m = record m {
  current_run = Map.insert id (next_generation id m.current_run) m.current_run;
  view = begin_start id (with_registry (Registry.insert id) m.view);
}

module _ (h : Host) (clock : IsClock h) (backoff : ExponentialBackoff) (max_register_attempts : ℕ)
    (parse_ip : List ℕ → Option IpAddr) (meanwhile : View → View) (id : InstanceId) where
  -- With the port free, `do_start` ends: in a running entry whose watcher carries the new generation,
  -- or in an error that the registry and both events state; it changes no other entry of `runs` or
  -- `current_run`.
  pub do_start-Frames :
      (account : Option ℕ) (m : Manager h)
      → h.is_free (first_warp_port + id) m.world ≡ true
      → Frames h id
          (next_generation id m.current_run)
          (started_from h id m)
          (do_start h backoff max_register_attempts parse_ip meanwhile 47 id account m)
  unfolding do_start
  do_start-Frames account m free =
      rw (free, do_start)
        (prepare_start-Frames h clock backoff max_register_attempts parse_ip meanwhile id
          (next_generation id m.current_run) account (started_from h id m))
