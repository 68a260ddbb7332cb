-- ===== src/Runtime/Manager/Lifecycle/Crash.antt =====
-- runtime/manager.rs: starts, stops and the crash events of earlier runs.
use warpdeck.Prelude.{
  ℕ, ◌+◌, ◌≡◌, refl, ◌∙◌, inl, inr, ◌⊎◌, ◌++◌, [], ◌∷◌, ap, true, false, Option, none, some, List,
  arith, Bool-cases, Option-cases, ==_refl,
}
use warpdeck.Prelude.Map
use warpdeck.Prelude.Map.{get-insert, get-remove, get-update}
use warpdeck.Runtime.Instance.{InstanceId, first_warp_port}
use warpdeck.Runtime.Message.{Message, start_reason}
use warpdeck.Runtime.Events.{state_changed, health_changed}
use warpdeck.Runtime.Registry.{
  RuntimeState, InstanceRuntime, IpAddr, CrashEvent, with_state, with_error, stopped_runtime,
}
use warpdeck.Runtime.Registry
use warpdeck.Runtime.Backoff.{ExponentialBackoff}
use warpdeck.Runtime.Host.{Host, IsClock}
use warpdeck.Runtime.Monitor.{View}
use warpdeck.Runtime.Manager.{
  Manager, ManagerResult, ManagerError, RunningInstance, fail_start, next_generation, start_failed,
  begin_start, with_registry, state_of,
}
use warpdeck.Runtime.Manager.Run.{do_start}
use warpdeck.Runtime.Manager.Run.Frame.{Frames, do_start-Frames, started_from}
use warpdeck.Runtime.Manager.Lifecycle.{start, start_running}

-- After `insert` the registry has an entry.
get_inserted :
    (id : InstanceId) (r : Registry.Registry)
    → (e : InstanceRuntime) × (Registry.get id (Registry.insert id r) ≡ some e)
unfolding Registry.get Registry.insert
get_inserted id r = elim (Option-cases (Map.get id r)) [
  | inl p ↦ (
    stopped_runtime,
    rw (p, Registry.insert) (get-insert id id stopped_runtime r ∙ rw (==_refl id) refl),
  )
  | inr (e, p) ↦ (e, rw (p, Registry.insert) p)
]

get_updated :
    (id : InstanceId) (f : InstanceRuntime → InstanceRuntime) (r : Registry.Registry)
    (e : InstanceRuntime)
    → Registry.get id r ≡ some e
    → Registry.get id (Registry.update id f r) ≡ some (f e)
unfolding Registry.get Registry.update
get_updated id f r e found = ground (arith, get-update id id f r)

-- The registry's entry of an instance whose start has failed from Starting on.
get-fail_start :
    (id : InstanceId) (msg : Message) (v : View)
    → (e : InstanceRuntime) × (Registry.get id
          (fail_start id RuntimeState.starting msg
            (begin_start id (with_registry (Registry.insert id) v))).registry
        ≡ some e)
      × (e.state ≡ RuntimeState.failed)
      × (e.last_error ≡ some msg)
unfolding fail_start Registry.record_error Registry.set_state
get-fail_start id msg v =
    let (e0, known) = get_inserted id v.registry in
    let e1 = with_state RuntimeState.starting e0 in
    let starting = get_updated id (with_state RuntimeState.starting) _ e0 known in
    (with_error msg e1, get_updated id (with_error msg) _ e1 starting, refl, refl)

Frames-current_run :
    (h : Host) (id g : ℕ) (m : Manager h) (r : ManagerResult RunningInstance × Manager h)
    → Frames h id g m r
    → r.1.current_run ≡ m.current_run
Frames-current_run h id g m (ManagerResult.ok x, n) f = f.0
Frames-current_run h id g m (ManagerResult.err x, n) f = f.0
Frames-current_run h id g m (ManagerResult.out_of_fuel, n) f = absurd f

Frames-err :
    (h : Host) (id g : ℕ) (m : Manager h) (r : ManagerResult RunningInstance × Manager h)
    (e : ManagerError)
    → Frames h id g m r
    → r.0 ≡ ManagerResult.err e
    → (r.1.runs ≡ m.runs)
      × ((msg : Message) × (e ≡ start_failed id msg)
          × (r.1.view ≡ fail_start id RuntimeState.starting msg m.view))
Frames-err h id g m (ManagerResult.ok x, n) e f p = cc
Frames-err h id g m (ManagerResult.err x, n) e (c, runs, (msg, q, view)) p = (runs, (msg, cc, view))
Frames-err h id g m (ManagerResult.out_of_fuel, n) e f p = absurd f

Frames-cases :
    (h : Host) (id g : ℕ) (m : Manager h) (r : ManagerResult RunningInstance × Manager h)
    → Frames h id g m r
    → ((x : RunningInstance) × (r.0 ≡ ManagerResult.ok x) × (x.id ≡ id))
      ⊎ ((e : ManagerError) × (r.0 ≡ ManagerResult.err e))
Frames-cases h id g m (ManagerResult.ok x, n) (_, _, same, _) = inl (x, refl, same)
Frames-cases h id g m (ManagerResult.err e, n) f = inr (e, refl)
Frames-cases h id g m (ManagerResult.out_of_fuel, n) f = absurd f

-- What a start that fails answers and leaves behind, from the state `m`.
pub record IsFailed (h : Host) (id : InstanceId) (m : Manager h)
    (r : ManagerResult (Unit {0}) × Manager h) : Type 0 where
  pub msg : Message
  pub from : RuntimeState
  pub answer : r.0 ≡ ManagerResult.err (start_failed id msg)
  pub runs : r.1.runs ≡ m.runs
  pub entry : InstanceRuntime
  pub found : Registry.get id r.1.view.registry ≡ some entry
  pub state : entry.state ≡ RuntimeState.failed
  pub last_error : entry.last_error ≡ some msg
  pub bus :
      r.1.view.bus
      ≡ ((m.view.bus
            ++ state_changed (record {
              instance_id = id;
              from = from;
              to = RuntimeState.starting;
              reason = start_reason;
            })
              ∷ [])
          ++ state_changed (record {
            instance_id = id;
            from = RuntimeState.starting;
            to = RuntimeState.failed;
            reason = msg;
          })
            ∷ [])
        ++ health_changed (record {
          instance_id = id;
          from = RuntimeState.starting;
          to = RuntimeState.failed;
          reason = msg;
        })
          ∷ []

module _ (h : Host) (clock : IsClock h) (backoff : ExponentialBackoff) (max_register_attempts : ℕ)
    (parse_ip : List ℕ → Option IpAddr) (meanwhile : View → View) (id : InstanceId)
    (account : Option ℕ) (m : Manager h) (idle : Map.get id m.runs ≡ none) where
  abbrev started : ManagerResult (Unit {0}) × Manager h
  started = start h backoff max_register_attempts parse_ip meanwhile 47 id account m

  abbrev done_start : ManagerResult RunningInstance × Manager h
  done_start = do_start h backoff max_register_attempts parse_ip meanwhile 47 id account m

  same_current_run : started.1.current_run ≡ done_start.1.current_run
  unfolding start start_running
  same_current_run = ground arith

  taken_current_run :
      h.is_free (first_warp_port + id) m.world ≡ false
      → done_start.1.current_run ≡ Map.insert id (next_generation id m.current_run) m.current_run
  unfolding do_start
  taken_current_run taken = rw (taken, do_start) refl

  current_run-started :
      started.1.current_run ≡ Map.insert id (next_generation id m.current_run) m.current_run
  current_run-started = elim (Bool-cases (h.is_free (first_warp_port + id) m.world)) [
    | inl free ↦
        same_current_run
        ∙ Frames-current_run h id _ (started_from h id m) done_start (
            do_start-Frames h clock backoff max_register_attempts parse_ip meanwhile id account m
              free)
    | inr taken ↦ same_current_run ∙ taken_current_run taken
  ]

  start_err :
      (e : ManagerError)
      → done_start.0 ≡ ManagerResult.err e
      → (started.0 ≡ ManagerResult.err e) × (started.1 ≡ done_start.1)
  unfolding start start_running
  start_err e failed = (ground arith, ground arith)

  start_ok :
      (r : RunningInstance)
      → done_start.0 ≡ ManagerResult.ok r
      → (started.0 ≡ ManagerResult.ok tt) × (started.1.runs ≡ Map.insert id r done_start.1.runs)
  unfolding start start_running
  start_ok r fine = (ground arith, ground arith)

  start-failing :
      (e : ManagerError)
      → h.is_free (first_warp_port + id) m.world ≡ true
      → done_start.0 ≡ ManagerResult.err e
      → IsFailed h id m started
  unfolding fail_start
  start-failing e free inner =
      let (failed, same) = start_err e inner in
      let (runs, (msg, eq, view)) =
        Frames-err h id _ (started_from h id m) done_start e
          (do_start-Frames h clock backoff max_register_attempts parse_ip meanwhile id account m
            free)
          inner in
      let (x, found, state, error) = get-fail_start id msg m.view in
      record {
        msg = msg;
        from = state_of RuntimeState.stopped id (Registry.insert id m.view.registry);
        answer = failed ∙ ap ManagerResult.err eq;
        runs = ap (λ n. n.runs) same ∙ runs;
        entry = x;
        found = ap (λ n. Registry.get id n.view.registry) same ∙ rw view found;
        state = state;
        last_error = error;
        bus = ap (λ n. n.view.bus) same ∙ ap (λ v. v.bus) view;
      }

  -- A start of an instance that is not running, with its port free and the fuel of 47, always ends. It
  -- answers Ok and has put an entry of the instance into `runs`, or it answers an error with a reason,
  -- and then `runs` is as before, the registry has the instance Failed with that reason, and
  -- the bus has got, in this order, its transitions to Starting and from there to Failed and the change
  -- of its health, the last two with the reason.
  pub start-outcome :
      h.is_free (first_warp_port + id) m.world ≡ true
      → ((started.0 ≡ ManagerResult.ok tt)
          × ((r : RunningInstance) × (r.id ≡ id) × (Map.get id started.1.runs ≡ some r)))
        ⊎ IsFailed h id m started
  start-outcome free =
      let frames =
        do_start-Frames h clock backoff max_register_attempts parse_ip meanwhile id account m
          free in
      elim (Frames-cases h id _ (started_from h id m) done_start frames) [
        | inl (r, fine, same) ↦
            let (answer, runs) = start_ok r fine in
            inl (
              answer,
              (
                r,
                same,
                ap (Map.get id) runs ∙ get-insert id id r done_start.1.runs ∙ rw (==_refl id) refl,
              ),
            )
        | inr (e, failed) ↦ inr (start-failing e free failed)
      ]
