-- ===== src/Reconcile.antt =====
-- reconciler/mod.rs: the rounds that drive the runtime and the gateway to the desired state. The runtime,
-- the gateway and the secret store are the traits that the reconciler works with. Calls of the API that
-- come in while the runtime works on an instance are an argument (`meanwhile`). Times are texts; their
-- parser and printer, of another crate, are parameters that give and take nanoseconds.
pub mod Proxy
pub mod Decision
pub mod Gap
pub mod Restarted
pub mod Orphans
pub mod Managed
mod Tests
use warpdeck.Prelude.{
  ℕ, ◌+◌, ◌-◌, ◌*◌, Bool, true, false, not, ◌&&◌, ◌||◌, Option, none, some, List, [], ◌∷◌, ◌==◌,
  ltb, leb, min, max, contains, if◌then◌else◌,
}
use warpdeck.Prelude.Machine.{from_secs, duration_max}
use warpdeck.Runtime.Instance.{InstanceId, IdResult, instance_port}
use warpdeck.Runtime.Registry.{Registry, InstanceRuntime, RuntimeState, keys}
use warpdeck.Runtime.Registry
use warpdeck.Runtime.Host.{Attempt, done, refused}
use warpdeck.Desired.{
  WarpInstanceSpec, Database, should_run, record_backoff, clear_backoff, clear_restart_pending,
  acknowledge_restart,
}
use warpdeck.Desired

abbrev pub default_backoff_base : ℕ
default_backoff_base = from_secs 5

abbrev pub default_backoff_max : ℕ
default_backoff_max = from_secs 300

-- `WarpRuntime` with the registry that it shares with the reconciler.
pub record WarpRuntime : Type 1 where
  pub Runtime : Type 0
  pub registry : Runtime → Registry
  pub edit : (Registry → Registry) → Runtime → Runtime
  pub start : InstanceId → Option ℕ → Runtime → Attempt (Unit {0}) × Runtime
  pub restart : InstanceId → Option ℕ → Runtime → Attempt (Unit {0}) × Runtime
  pub stop : InstanceId → Runtime → Attempt (Unit {0}) × Runtime

-- The parser and the printer of RFC 3339 and the settings of the backoff.
pub record Timing : Type 0 where
  pub parse : List ℕ → Option ℕ
  pub print : ℕ → List ℕ
  pub backoff_base : ℕ
  pub backoff_max : ℕ

abbrev pub parse_some : Timing → Option (List ℕ) → Option ℕ
parse_some c none = none
parse_some c (some s) = c.parse s

-- The gap of the last failure, if there was one.
abbrev pub prior_gap : Timing → Option WarpInstanceSpec → Option ℕ
prior_gap c none = none
prior_gap c (some spec) = elim (parse_some c spec.last_failure_at) [
  | none ↦ none
  | some last ↦ elim (parse_some c spec.next_retry_at) [
    | none ↦ none
    | some next ↦ if ltb last next then some (max (next - last) c.backoff_base) else none
  ]
]

abbrev pub next_gap : Timing → Option ℕ → ℕ
next_gap c none = c.backoff_base
next_gap c (some gap) = min (min (gap * 2) duration_max) c.backoff_max

-- `UNIX_EPOCH` where the clock's text cannot be read.
abbrev pub due : Timing → ℕ → List ℕ → ℕ
due c gap now = elim (c.parse now) [ none ↦ 0 | some t ↦ t + gap ]

unfoldable pub record_failure : Timing → List ℕ → InstanceId → Database → Database
unfolding Desired.get record_backoff
record_failure c now id d =
    let gap = next_gap c (prior_gap c (Desired.get id d)) in
    record_backoff id now (some (c.print (due c gap now))) d

unfoldable pub backoff_ready : Timing → List ℕ → WarpInstanceSpec → Bool
backoff_ready c now spec = elim (parse_some c spec.next_retry_at) [
  | none ↦ true
  | some next ↦ elim (c.parse now) [ none ↦ true | some t ↦ leb next t ]
]

abbrev pub has_command : WarpInstanceSpec → Bool
has_command spec = ltb spec.observed_restart_generation spec.restart_command_generation

abbrev pub is_settled : RuntimeState → Bool
is_settled RuntimeState.stopped = true
is_settled RuntimeState.stopping = true
is_settled RuntimeState.disabled = true
is_settled _ = false

-- The error of an instance's reconciliation is only logged.
module _ (rt : WarpRuntime) where
  pub record Plant : Type 0 where
    pub db : Database
    pub runtime : rt.Runtime

module _ (rt : WarpRuntime) (c : Timing) (meanwhile : Database → Database) (now : List ℕ) where
  -- What follows a start or a restart.
  unfoldable pub settle : WarpInstanceSpec → Attempt (Unit {0}) → Database → Database
  unfolding clear_backoff clear_restart_pending acknowledge_restart record_failure
  settle spec (done _) d =
      acknowledge_restart spec.id spec.restart_command_generation
        (clear_restart_pending spec.id (clear_backoff spec.id d))
  settle spec (refused _) d = record_failure c now spec.id d

  unfoldable pub start_instance : WarpInstanceSpec → Plant rt → Plant rt
  unfolding settle
  start_instance spec p = elim (instance_port spec.id) [
    | IdResult.err e ↦ p
    | IdResult.ok port ↦
        let (answer, runtime) = rt.start spec.id spec.account_profile_id p.runtime in
        record { db = settle spec answer (meanwhile p.db); runtime = runtime }
  ]

  unfoldable pub restart_instance : WarpInstanceSpec → Plant rt → Plant rt
  unfolding settle
  restart_instance spec p =
      let (answer, runtime) = rt.restart spec.id spec.account_profile_id p.runtime in
      record { db = settle spec answer (meanwhile p.db); runtime = runtime }

  abbrev pub stop_instance : WarpInstanceSpec → Plant rt → Plant rt
  stop_instance spec p = record { db = meanwhile p.db; runtime = (rt.stop spec.id p.runtime).1 }

  -- The entry of an instance that should not run.
  abbrev pub ensure_stopped : WarpInstanceSpec → Option InstanceRuntime → Plant rt → Plant rt
  ensure_stopped spec none p = p
  ensure_stopped spec (some e) p = if not (is_settled e.state) then stop_instance spec p else p

  abbrev pub on_failed : WarpInstanceSpec → Plant rt → Plant rt
  unfolding restart_instance backoff_ready
  on_failed spec p =
      if has_command spec
      then restart_instance spec p
      else if spec.auto_restart
      then (if backoff_ready c now spec then restart_instance spec p else p)
      else p

  abbrev pub on_live : WarpInstanceSpec → Plant rt → Plant rt
  unfolding restart_instance
  on_live spec p =
      if spec.restart_pending
      then restart_instance spec p
      else if has_command spec
      then restart_instance spec p
      else p

  abbrev pub drive : WarpInstanceSpec → Option InstanceRuntime → Plant rt → Plant rt
  unfolding start_instance restart_instance backoff_ready
  drive spec none p = start_instance spec p
  drive spec (some e) p = elim e.state [
    | RuntimeState.stopped ↦ start_instance spec p
    | RuntimeState.failed ↦ on_failed spec p
    | RuntimeState.stopping ↦ p
    | RuntimeState.disabled ↦ p
    | _ ↦ on_live spec p
  ]

  unfoldable pub reconcile_instance : WarpInstanceSpec → Plant rt → Plant rt
  unfolding start_instance restart_instance backoff_ready
  reconcile_instance spec p =
      let actual = Registry.get spec.id (rt.registry p.runtime) in
      if not (should_run spec) then ensure_stopped spec actual p else drive spec actual p

-- Entries for the desired instances that have none.
module _ (rt : WarpRuntime) where
  abbrev pub insert_one : Option InstanceRuntime → InstanceId → rt.Runtime → rt.Runtime
  insert_one none id r = rt.edit (Registry.insert id) r
  insert_one (some e) id r = r

  unfoldable pub insert_missing : List WarpInstanceSpec → rt.Runtime → rt.Runtime
  insert_missing [] r = r
  insert_missing (s ∷ ss) r =
      insert_missing ss (insert_one (Registry.get s.id (rt.registry r)) s.id r)

  abbrev pub retire : InstanceId → Attempt (Unit {0}) → rt.Runtime → rt.Runtime
  retire id (refused e) r = r
  retire id (done _) r = rt.edit (Registry.remove id) r

  -- The entries whose row is gone: an entry goes once its instance has been stopped.
  unfoldable pub stop_orphans : List InstanceId → List InstanceId → rt.Runtime → rt.Runtime
  stop_orphans desired [] r = r
  stop_orphans desired (id ∷ ids) r =
      let (answer, stopped) = rt.stop id r in
      stop_orphans desired ids (if contains desired id then r else retire id answer stopped)

abbrev pub spec_ids : List WarpInstanceSpec → List InstanceId
spec_ids [] = []
spec_ids (s ∷ ss) = s.id ∷ spec_ids ss

module _ (rt : WarpRuntime) (c : Timing) (meanwhile : InstanceId → Database → Database)
    (now : InstanceId → List ℕ) where
  -- One instance after the other, whatever becomes of each.
  unfoldable pub reconcile_all : List WarpInstanceSpec → Plant rt → Plant rt
  unfolding reconcile_instance
  reconcile_all [] p = p
  reconcile_all (s ∷ ss) p =
      reconcile_all ss (reconcile_instance rt c (meanwhile s.id) (now s.id) s p)

  -- A round up to the gateway's part, given whether the database answers.
  unfoldable pub reconcile_once : Bool → Plant rt → Plant rt
  unfolding Desired.list insert_missing stop_orphans reconcile_all
  reconcile_once available p =
      if not available
      then p
      else let desired = Desired.list p.db in
        let r1 = insert_missing rt desired p.runtime in
        let r2 = stop_orphans rt (spec_ids desired) (Registry.ids (rt.registry r1)) r1 in
        reconcile_all desired (record p { runtime = r2 })
