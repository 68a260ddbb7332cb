-- ===== src/Runtime/Manager/Run/Processes.antt =====
-- runtime/manager.rs and runtime/stop.rs: which processes a start leaves behind, on a host that writes
-- the calls down.
use warpdeck.Prelude.{
  ℕ, zero, suc, ◌+◌, ◌≡◌, ◌⊎◌, refl, inl, inr, Option, none, some, List, [], ◌∷◌, Bool-cases,
  Option-cases, ltb, arith, ap, ◌∙◌,
}
use warpdeck.Runtime.Instance.{InstanceId, first_warp_port}
use warpdeck.Runtime.Message.{
  Message, not_ready, flow_failed, dbus_failed, credentials_failed, mdm_failed,
}
use warpdeck.Runtime.Registry.{IpAddr}
use warpdeck.Runtime.Health.{warp_on}
use warpdeck.Runtime.Backoff.{ExponentialBackoff, recommended}
use warpdeck.Runtime.Credentials.{InstanceCredentials, is_zero_trust}
use warpdeck.Runtime.Host.{Host, Attempt, Attempt-cases}
use warpdeck.Runtime.Host.Logged.{Command, logged, alive, drop_pid}
use warpdeck.Runtime.Readiness.{probe}
use warpdeck.Runtime.Flow
use warpdeck.Runtime.Flow.{FlowResult-cases}
use warpdeck.Runtime.Readiness.Attempts.{alive-probe}
use warpdeck.Runtime.Stop.Ended.{alive-stop}
use warpdeck.Runtime.Flow.Calls.{IsKept, IsKeptBySetup, prepare_kept, run_kept}
use warpdeck.Runtime.Monitor.{View}
use warpdeck.Runtime.Manager.{
  Manager, ManagerResult, RunningInstance, start_failed, readiness_max_attempts,
  data_plane_verify_attempts,
}
use warpdeck.Runtime.Manager.Run.{
  verify_data_plane, failed_start, finish_start, abandon, bring_up, start_dbus, launch,
  prepare_start, do_start,
}

abbrev pub pids : RunningInstance → List ℕ
pids r = elim r.watcher_task [ none ↦ r.dbus ∷ [] | some w ↦ w.svc ∷ r.dbus ∷ [] ]

-- What a start may leave running: what its entry holds, and where it failed nothing, or a D-Bus daemon
-- that made it fail.
abbrev pub Holds : ManagerResult RunningInstance → List ℕ → Type 0
Holds (ManagerResult.ok r) ps = ps ≡ pids r
Holds (ManagerResult.err e) ps =
    (ps ≡ [])
    ⊎ ((id : InstanceId) × (text : List ℕ) × (dbus : ℕ) × (e ≡ start_failed id (dbus_failed text))
        × (ps ≡ dbus ∷ []))
Holds ManagerResult.out_of_fuel ps = Unit

abbrev Alive : List ℕ → List Command → Type 0
Alive ps log = alive log ≡ ps

Alive-IsKept : (ps : List ℕ) → IsKept (Alive ps)
unfolding alive
Alive-IsKept ps = record {
  status = λ log here. here;
  connect = λ log here. here;
  sleep = λ log here. here;
}

Alive-IsKeptBySetup : (ps : List ℕ) → IsKeptBySetup (Alive ps)
unfolding alive
Alive-IsKeptBySetup ps = record {
  register = λ log here. here;
  apply_account = λ log here. here;
  set_proxy_mode = λ log here. here;
  set_proxy_port = λ log here. here;
  sleep = λ log here. here;
}

drop_both : (svc dbus : ℕ) → drop_pid dbus (drop_pid svc (svc ∷ dbus ∷ [])) ≡ []
drop_both svc dbus = ground arith

drop_one : (dbus : ℕ) → drop_pid dbus (dbus ∷ []) ≡ []
drop_one dbus = ground arith

abbrev HoldsAll : (h : Host) → ManagerResult RunningInstance × Manager (logged h) → Type 0
HoldsAll h r = Holds r.0 (alive r.1.world.1)

module _ (h : Host) (id : InstanceId) where
  alive-verify_data_plane :
      (n : ℕ) (w : h.World) (log : List Command)
      → alive (verify_data_plane (logged h) n id (w, log)).1.1 ≡ alive log
  unfolding verify_data_plane alive
  alive-verify_data_plane zero w log = refl
  alive-verify_data_plane (suc n) w log =
      let (answer, w1) = h.probe (first_warp_port + id) w in
      let rest : (w' : h.World × List Command)
          → alive w'.1 ≡ alive log
          → alive (verify_data_plane (logged h) n id w').1.1 ≡ alive log =
        λ w' e. alive-verify_data_plane n w'.0 w'.1 ∙ e in
      elim (Option-cases answer) [
        | inl p ↦ elim (Bool-cases (ltb 0 n)) [
          | inl q ↦ rw (p, verify_data_plane) (rw q (rest _ refl))
          | inr q ↦ rw (p, verify_data_plane) (rw q (rest _ refl))
        ]
        | inr (d, p) ↦ elim (Bool-cases (warp_on d)) [
          | inl on ↦ rw (p, verify_data_plane) (rw on refl)
          | inr off ↦ elim (Bool-cases (ltb 0 n)) [
            | inl q ↦ rw (p, verify_data_plane) (rw off (rw q (rest _ refl)))
            | inr q ↦ rw (p, verify_data_plane) (rw off (rw q (rest _ refl)))
          ]
        ]
      ]

module _ (h : Host) (backoff : ExponentialBackoff) (max_register_attempts : ℕ)
    (parse_ip : List ℕ → Option IpAddr) (id : InstanceId) where
  failed_start-HoldsAll :
      (msg : Message) (m : Manager (logged h))
      → alive m.world.1 ≡ []
      → HoldsAll h (failed_start (logged h) backoff max_register_attempts parse_ip id msg m)
  unfolding failed_start
  failed_start-HoldsAll msg m here = inl here

  abandon-HoldsAll :
      (msg : Message) (svc dbus : ℕ) (m : Manager (logged h))
      → alive m.world.1 ≡ svc ∷ dbus ∷ []
      → HoldsAll h (abandon (logged h) backoff max_register_attempts parse_ip id msg svc dbus m)
  unfolding abandon
  abandon-HoldsAll msg svc dbus m here = inl (
      alive-stop h _ _ id svc dbus m.world.0 m.world.1
      ∙ ap (λ ps. drop_pid dbus (drop_pid svc ps)) here
      ∙ drop_both svc dbus)

  finish_start-HoldsAll :
      (meanwhile : View → View) (generation : ℕ) (credentials : InstanceCredentials) (svc dbus : ℕ)
      (m : Manager (logged h))
      → alive m.world.1 ≡ svc ∷ dbus ∷ []
      → HoldsAll h (
          finish_start
            (logged h)
            backoff
            max_register_attempts
            parse_ip
            meanwhile
            id
            generation
            credentials
            svc
            dbus
            m)
  unfolding finish_start alive
  finish_start-HoldsAll meanwhile generation credentials svc dbus m here =
      let w = m.world in
      let r = verify_data_plane (logged h) data_plane_verify_attempts id w in
      let kept = alive-verify_data_plane h id data_plane_verify_attempts w.0 w.1 ∙ here in
      elim (Option-cases r.0) [
        | inl p ↦ rw (p, finish_start) kept
        | inr (d, p) ↦ elim (Bool-cases (is_zero_trust credentials)) [
          | inl q ↦ rw (p, finish_start) (rw q kept)
          | inr q ↦ rw (p, finish_start) (rw q kept)
        ]
      ]

  bring_up-HoldsAll :
      (meanwhile : View → View) (fuel generation : ℕ) (credentials : InstanceCredentials)
      (svc dbus : ℕ) (m : Manager (logged h))
      → alive m.world.1 ≡ svc ∷ dbus ∷ []
      → HoldsAll h (
          bring_up
            (logged h)
            backoff
            max_register_attempts
            parse_ip
            meanwhile
            fuel
            id
            generation
            credentials
            svc
            dbus
            m)
  unfolding bring_up
  bring_up-HoldsAll meanwhile fuel generation credentials svc dbus m here =
      let w = m.world in
      let r = probe (logged h) recommended readiness_max_attempts id w in
      let ps = svc ∷ dbus ∷ [] in
      let probed = alive-probe h id recommended readiness_max_attempts w.0 w.1 ∙ here in
      let f = Flow.run (logged h) backoff max_register_attempts id fuel credentials r.1 in
      let kept : alive f.1.1 ≡ ps =
        run_kept h backoff max_register_attempts id (Alive ps) (Alive-IsKept ps) fuel credentials
          r.1.0 r.1.1
          (prepare_kept h backoff max_register_attempts id (Alive ps) (Alive-IsKeptBySetup ps)
            credentials r.1.0 r.1.1 probed) in
      elim (Bool-cases r.0.ready) [
        | inr q ↦
            rw (q, bring_up)
              (abandon-HoldsAll (not_ready r.0.attempts r.0.last_error) svc dbus
                (record m { world = r.1 }) probed)
        | inl q ↦ elim (FlowResult-cases f.0) [
          | inl (o, p) ↦
              rw (q, bring_up)
                (rw p (finish_start-HoldsAll meanwhile generation credentials svc dbus _ kept))
          | inr (inl (e, p)) ↦
              rw (q, bring_up)
                (rw p (abandon-HoldsAll (flow_failed e) svc dbus (record m { world = f.1 }) kept))
          | inr (inr p) ↦ rw (q, bring_up) (rw p tt)
        ]
      ]

  start_dbus-alive :
      (i : InstanceId) (w : (logged h).World)
      → alive w.1 ≡ []
      → ((t : List ℕ) × ((start_dbus (logged h) i w).0 ≡ Attempt.refused t)
          × ((alive (start_dbus (logged h) i w).1.1 ≡ [])
              ⊎ ((dbus : ℕ) × (alive (start_dbus (logged h) i w).1.1 ≡ dbus ∷ []))))
        ⊎ ((dbus : ℕ) × ((start_dbus (logged h) i w).0 ≡ Attempt.done dbus)
            × (alive (start_dbus (logged h) i w).1.1 ≡ dbus ∷ []))
  unfolding start_dbus alive
  start_dbus-alive i w here = elim (Attempt-cases (h.spawn_dbus i w.0).0) [
    | inr (t, p) ↦ inl (t, ground (arith, p), inl (ground (arith, p, here)))
    | inl (dbus, p) ↦ elim (Attempt-cases (h.wait_for_socket i (h.spawn_dbus i w.0).1).0) [
      | inr (t, q) ↦ inl (t, ground (arith, p, q), inr (dbus, ground (arith, p, q, here)))
      | inl (u, q) ↦ inr (dbus, ground (arith, p, q), ground (arith, p, q, here))
    ]
  ]

  launch-HoldsAll :
      (meanwhile : View → View) (fuel generation : ℕ) (credentials : InstanceCredentials)
      (m : Manager (logged h))
      → alive m.world.1 ≡ []
      → HoldsAll h (
          launch
            (logged h)
            backoff
            max_register_attempts
            parse_ip
            meanwhile
            fuel
            id
            generation
            credentials
            m)
  unfolding launch alive
  launch-HoldsAll meanwhile fuel generation credentials m here =
      let started = (start_dbus (logged h) id m.world).1 in
      let served = ((logged h).start_service id started).1 in
      elim (start_dbus-alive id m.world here) [
        | inl (t, p, inl none_left) ↦
            rw (p, launch)
              (failed_start-HoldsAll (dbus_failed t) (record m { world = started }) none_left)
        | inl (t, p, inr (dbus, left)) ↦
            rw (p, launch) (unfold failed_start in (inr (id, t, dbus, refl, left)))
        | inr (dbus, p, left) ↦ elim (Attempt-cases (h.start_service id started.0).0) [
          | inr (t, q) ↦ rw (p, launch) (rw q (inl (rw (q, left) (drop_one dbus))))
          | inl (svc, q) ↦
              rw (p, launch)
                (rw q (
                  bring_up-HoldsAll meanwhile fuel generation credentials svc dbus
                    (record m { world = served }) (rw (q, left) refl)))
        ]
      ]

  prepare_start-HoldsAll :
      (meanwhile : View → View) (fuel generation : ℕ) (account : Option ℕ) (m : Manager (logged h))
      → alive m.world.1 ≡ []
      → HoldsAll h (
          prepare_start
            (logged h)
            backoff
            max_register_attempts
            parse_ip
            meanwhile
            fuel
            id
            generation
            account
            m)
  unfolding prepare_start alive
  prepare_start-HoldsAll meanwhile fuel generation account m here =
      let w1 = (h.resolve account m.world.0).1 in
      let resolved = ((logged h).resolve account m.world).1 in
      elim (Attempt-cases (h.resolve account m.world.0).0) [
        | inr (t, p) ↦
            rw (p, prepare_start)
              (failed_start-HoldsAll (credentials_failed t) (record m { world = resolved }) here)
        | inl (c, p) ↦
            let synced = ((logged h).sync_mdm_xml id c resolved).1 in
            elim (Attempt-cases (h.sync_mdm_xml id c w1).0) [
              | inr (t, q) ↦
                  rw (p, prepare_start)
                    (rw q (failed_start-HoldsAll (mdm_failed t) (record m { world = synced }) here))
              | inl (a, q) ↦
                  rw (p, prepare_start)
                    (rw q (
                      launch-HoldsAll meanwhile fuel generation c (record m { world = synced })
                        here))
            ]
      ]

  -- The calls of one start, from an empty log on, if its flow does not run out of fuel: where the start
  -- succeeds, the processes left are the two that its entry holds; where it fails, at whatever step,
  -- every process that it started has been ended again, but for a D-Bus daemon whose socket does not
  -- become ready, which is the failure of D-Bus that the error then tells.
  pub do_start-HoldsAll :
      (meanwhile : View → View) (fuel : ℕ) (account : Option ℕ) (m : Manager (logged h))
      → m.world.1 ≡ []
      → Holds
          (do_start (logged h) backoff max_register_attempts parse_ip meanwhile fuel id account m).0
          (alive
            (do_start
              (logged h)
              backoff
              max_register_attempts
              parse_ip
              meanwhile
              fuel
              id
              account
              m).1.world.1)
  unfolding do_start alive
  do_start-HoldsAll meanwhile fuel account m empty =
      elim (Bool-cases (h.is_free (first_warp_port + id) m.world.0)) [
        | inr taken ↦ rw (taken, do_start) (inl (rw empty refl))
        | inl free ↦
            rw (free, do_start) (prepare_start-HoldsAll meanwhile fuel _ account _ (rw empty refl))
      ]
