-- ===== src/Runtime/Monitor/Streak.antt =====
-- runtime/health_monitor.rs and runtime/health.rs together: how many rounds it takes to change the
-- state of an instance.
use warpdeck.Prelude.{
  ℕ, ◌+◌, ◌≤◌, ◌<◌, ◌≡◌, refl, Bool, true, false, ◌&&◌, Option, none, some, List, [], ◌∷◌, arith,
  leb, All, length, ap, ◌∙◌, if◌then◌else◌, suc,
}
use warpdeck.Prelude.Machine.{u32_max}
use warpdeck.Runtime.Instance.{InstanceId}
use warpdeck.Runtime.Instance.Ports.{instance_port_lem}
use warpdeck.Runtime.Registry.{RuntimeState, InstanceRuntime, IpAddr, Registry}
use warpdeck.Runtime.Registry
use warpdeck.Runtime.Health.{
  HealthVerdict, HealthCounters, HealthConfig, DataPlaneReport, assess_layers, data_plane_ok,
  warp_on,
}
use warpdeck.Runtime.Health.Verdict.{IsValid}
use warpdeck.Runtime.Monitor.{
  View, is_assessed, apply_health_verdict, apply_round, collect_health_layers, tick_instance,
  rounds, layers, counters,
}
use warpdeck.Runtime.Monitor.Guard.{get-apply_health_verdict}

abbrev connected : Option Bool → Bool
connected none = false
connected (some c) = c

abbrev on : Option DataPlaneReport → Bool
on none = false
on (some d) = warp_on d

-- The answers of a bad round: the control plane is not connected, or the data plane does not report
-- `warp=on`.
abbrev pub IsBad : Option Bool × Option DataPlaneReport → Type 0
IsBad (status, probe) = (connected status && on probe) ≡ false

-- An instance that the monitor assesses and whose process lives.
pub record IsRunning (id : InstanceId) (e : InstanceRuntime) : Type 0 where
  pub in_range : id ≤ 25535
  pub assessed : is_assessed e.state ≡ true
  pub pid : ℕ
  pub has_pid : e.warp_pid ≡ some pid

collect_running :
    (id : InstanceId) (status : Option Bool) (probe : Option DataPlaneReport) (r : Registry)
    (e : InstanceRuntime)
    → IsRunning id e
    → Registry.get id r ≡ some e
    → collect_health_layers id status probe r ≡ some (e, layers e status probe)
unfolding collect_health_layers
collect_running id status probe r e run h = ground (arith, instance_port_lem id)

after_failure : HealthConfig → InstanceRuntime → HealthVerdict
after_failure config e =
    if leb config.failure_threshold (e.consecutive_failures + 1)
    then HealthVerdict.failed
    else HealthVerdict.degraded

failed_counters : InstanceRuntime → HealthCounters
failed_counters e = record {
  consecutive_failures = e.consecutive_failures + 1;
  consecutive_successes = 0;
}

assess-bad :
    (config : HealthConfig) (status : Option Bool) (probe : Option DataPlaneReport)
    (e : InstanceRuntime) (pid : ℕ)
    → IsValid config
    → e.warp_pid ≡ some pid
    → IsBad (status, probe)
    → e.consecutive_failures < u32_max
    → assess_layers (layers e status probe) (counters e) config e.state
      ≡ some (after_failure config e, failed_counters e)
unfolding assess_layers after_failure failed_counters data_plane_ok
assess-bad config status probe e pid ok alive bad small = ground arith

tick-bad :
    (p : List ℕ → Option IpAddr) (config : HealthConfig) (id : InstanceId) (status : Option Bool)
    (probe : Option DataPlaneReport) (v : View) (e : InstanceRuntime)
    → IsValid config
    → IsRunning id e
    → IsBad (status, probe)
    → e.consecutive_failures < u32_max
    → Registry.get id v.registry ≡ some e
    → tick_instance p config (λ r. r) id status probe v
      ≡ some (
        (apply_health_verdict p
            (λ r. r)
            id
            (after_failure config e)
            (failed_counters e)
            (layers e status probe)
            v).0,
        true,
      )
unfolding tick_instance
tick-bad p config id status probe v e ok run bad small h = ground (
  arith,
  collect_running id status probe v.registry e run h,
  assess-bad config status probe e run.pid ok run.has_pid bad small,
)

-- What the loop keeps while every round is bad.
pub record Failing (config : HealthConfig) (id : InstanceId) (n : ℕ) (e : InstanceRuntime)
    : Type 0 where
  state :
      e.state
      ≡ (if leb config.failure_threshold n then RuntimeState.failed else RuntimeState.degraded)
  failures : e.consecutive_failures ≡ n
  successes : e.consecutive_successes ≡ 0
  pid : ℕ
  has_pid : e.warp_pid ≡ some pid

pub next_view :
    (List ℕ → Option IpAddr)
    → HealthConfig
    → InstanceId
    → Option Bool × Option DataPlaneReport
    → InstanceRuntime
    → View
    → View
next_view p config id (status, probe) e v =
    (apply_health_verdict p (λ r. r) id (after_failure config e) (failed_counters e)
      (layers e status probe) v).0

pub next_entry :
    (List ℕ → Option IpAddr)
    → HealthConfig
    → Option Bool × Option DataPlaneReport
    → InstanceRuntime
    → InstanceRuntime
next_entry p config (status, probe) e =
    apply_round p (after_failure config e) (failed_counters e) (layers e status probe) e

next_entry-Failing :
    (p : List ℕ → Option IpAddr) (config : HealthConfig) (id : InstanceId)
    (a : Option Bool × Option DataPlaneReport) (e : InstanceRuntime) (run : IsRunning id e)
    → Failing config id (e.consecutive_failures + 1) (next_entry p config a e)
unfolding next_entry apply_round after_failure failed_counters
next_entry-Failing p config id (status, probe) e run = record {
  state = ground arith;
  failures = ground arith;
  successes = ground arith;
  pid = run.pid;
  has_pid = ground arith;
}

next_view_registry :
    (p : List ℕ → Option IpAddr) (config : HealthConfig) (id : InstanceId)
    (a : Option Bool × Option DataPlaneReport) (e : InstanceRuntime) (v : View)
    → IsRunning id e
    → Registry.get id v.registry ≡ some e
    → Registry.get id (next_view p config id a e v).registry ≡ some (next_entry p config a e)
unfolding next_view next_entry
next_view_registry p config id (status, probe) e v run h =
    get-apply_health_verdict p id _ _ _ v e h run.assessed

-- What a streak of bad rounds leads to.
abbrev pub Fell :
    (List ℕ → Option IpAddr)
    → HealthConfig
    → InstanceId
    → List (Option Bool × Option DataPlaneReport)
    → View
    → ℕ
    → Type 0
Fell p config id answers v n =
    (v' : View) × (e' : InstanceRuntime) × (rounds p config id answers v ≡ some v')
    × (Registry.get id v'.registry ≡ some e')
    × (e'.consecutive_failures ≡ n)
    × (e'.state
        ≡ (if leb config.failure_threshold n then RuntimeState.failed else RuntimeState.degraded))

rounds-nil :
    (p : List ℕ → Option IpAddr) (config : HealthConfig) (id : InstanceId) (v : View)
    → rounds p config id [] v ≡ some v
unfolding rounds
rounds-nil p config id v = refl

still-IsRunning :
    (p : List ℕ → Option IpAddr) (config : HealthConfig) (id : InstanceId)
    (a : Option Bool × Option DataPlaneReport) (e : InstanceRuntime)
    → IsRunning id e
    → e.consecutive_failures + 1 < config.failure_threshold
    → IsRunning id (next_entry p config a e)
still-IsRunning p config id a e run below =
    let f = next_entry-Failing p config id a e run in
    record {
      in_range = run.in_range;
      assessed = ground (arith, f.state);
      pid = f.pid;
      has_pid = f.has_pid;
    }

rounds-cons :
    (p : List ℕ → Option IpAddr) (config : HealthConfig) (id : InstanceId)
    (a : Option Bool × Option DataPlaneReport)
    (answers : List (Option Bool × Option DataPlaneReport)) (v : View) (e : InstanceRuntime)
    → IsValid config
    → IsRunning id e
    → IsBad a
    → e.consecutive_failures < u32_max
    → Registry.get id v.registry ≡ some e
    → rounds p config id (a ∷ answers) v ≡ rounds p config id answers (next_view p config id a e v)
unfolding rounds next_view
rounds-cons p config id (s, d) answers v e ok run bad small h =
    ground (arith, tick-bad p config id s d v e ok run bad small h)

-- From an assessed instance with a live process, n bad rounds in a row count n more failures; as long
-- as the count has not passed the threshold before, the instance is Failed exactly when the count
-- reaches the threshold, and Degraded up to then.
pub rounds_bad :
    (p : List ℕ → Option IpAddr) (config : HealthConfig) (id n : ℕ)
    (a : Option Bool × Option DataPlaneReport)
    (answers : List (Option Bool × Option DataPlaneReport)) (v : View) (e : InstanceRuntime)
    → IsValid config
    → config.failure_threshold ≤ u32_max
    → IsRunning id e
    → IsBad a
    → All IsBad answers
    → e.consecutive_failures + suc (length answers) ≡ n
    → n ≤ config.failure_threshold
    → Registry.get id v.registry ≡ some e
    → Fell p config id (a ∷ answers) v n
rounds_bad p config id n a [] v e ok small run bad _ total below h =
    let f = next_entry-Failing p config id a e run in
    (
      next_view p config id a e v,
      next_entry p config a e,
      rounds-cons p config id a [] v e ok run bad (omega arith) h
          ∙ rounds-nil p config id (next_view p config id a e v),
      next_view_registry p config id a e v run h,
      omega (arith, f.failures),
      f.state
          ∙ ap
              (λ k.
                if leb config.failure_threshold k
                then RuntimeState.failed
                else RuntimeState.degraded)
              (omega arith),
    )
rounds_bad p config id n a (b ∷ answers) v e ok small run bad rest total below h =
    let f = next_entry-Failing p config id a e run in
    let run1 = still-IsRunning p config id a e run (omega arith) in
    let (v', e', r, g, fs, st) =
      rounds_bad p config id n b answers (next_view p config id a e v) (next_entry p config a e) ok
        small run1 rest.0 rest.1 (omega (arith, f.failures)) below
        (next_view_registry p config id a e v run h) in
    (v', e', rounds-cons p config id a (b ∷ answers) v e ok run bad (omega arith) h ∙ r, g, fs, st)
