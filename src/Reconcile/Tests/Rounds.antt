-- ===== src/Reconcile/Tests/Rounds.antt =====
-- reconciler/mod.rs with a runtime that is only its registry.
use warpdeck.Prelude.{
  ℕ, ◌+◌, ◌*◌, ◌^◌, ◌≡◌, refl, false, none, some, List, [], ◌∷◌, min, leb, ltb, codes, arith,
  Option,
}
use warpdeck.Prelude.Map
use warpdeck.Prelude.Map.{get-update}
use warpdeck.Runtime.Registry.{Registry, RuntimeState, InstanceRuntime, with_state, stopped_runtime}
use warpdeck.Runtime.Registry
use warpdeck.Runtime.Host.{Attempt, done}
use warpdeck.Desired.{WarpInstanceSpec, Database, AccountMode, new_spec, rebind_profile_guarded}
use warpdeck.Desired.Commands.Reuse.{requests}
use warpdeck.Reconcile.{
  WarpRuntime, Timing, Plant, has_command, backoff_ready, record_failure, restart_instance,
  reconcile_instance,
}
use warpdeck.Reconcile.Decision.{decide, perform, reconcile_instance-decide}
use warpdeck.Reconcile.Gap.{IsTiming, failures, backoff_ready-failures}
use warpdeck.Reconcile.Restarted.{has_command-restart_instance, restart_instance-rebound}

-- The answer of every call is given.
abbrev still : Attempt (Unit {0}) → WarpRuntime
still answer = record {
  Runtime = Registry;
  registry = λ r. r;
  edit = λ f r. f r;
  start = λ id account r. (answer, r);
  restart = λ id account r. (answer, r);
  stop = λ id r. (answer, r);
}

abbrev head : List ℕ → Option ℕ
head [] = none
head (t ∷ s) = some t

abbrev timing : Timing
timing = record { parse = head; print = λ t. t ∷ []; backoff_base = 5; backoff_max = 300 }

timing-IsTiming : IsTiming timing
timing-IsTiming = record {
  parses = λ t. refl;
  base_pos = omega arith;
  base_le = omega arith;
  max_le = omega arith;
}

abbrev quiet : Database → Database
quiet d = d

abbrev wanted : WarpInstanceSpec
wanted = record (new_spec 3 (codes "a") none) { restart_command_generation = 2 }

abbrev healthy : InstanceRuntime
healthy = with_state RuntimeState.healthy stopped_runtime

abbrev db : Database
db = record {
  rows = (3, wanted) ∷ [];
  profiles = (1, record { id = 1; name = []; mode = AccountMode.free; zero_trust_org = none }) ∷ [];
}

abbrev running : (a : Attempt (Unit {0})) → Plant (still a)
running a = record { db = db; runtime = (3, healthy) ∷ (4, healthy) ∷ [] }

reconcile_instance-decide_example :
    reconcile_instance (still (done tt)) timing quiet [] wanted (running (done tt))
    ≡ perform
        (still (done tt))
        timing
        quiet
        []
        (decide timing [] wanted (Registry.get 3 ((3, healthy) ∷ (4, healthy) ∷ [])))
        wanted
        (running (done tt))
reconcile_instance-decide_example =
    reconcile_instance-decide (still (done tt)) timing quiet [] wanted (running (done tt))

backoff_ready-failures_example :
    (s' : WarpInstanceSpec) × (Map.get 3
        (record_failure timing (90 ∷ []) 3 (failures timing 3 (20 ∷ 40 ∷ []) db)).rows
      ≡ some s')
    × ((v : ℕ) → backoff_ready timing (v ∷ []) s' ≡ leb (90 + min (5 * 2 ^ 2) 300) v)
unfolding Map.get
backoff_ready-failures_example =
    backoff_ready-failures timing 3 timing-IsTiming (20 ∷ 40 ∷ []) 90 db wanted refl refl

has_command-restart_instance_example :
    (s : WarpInstanceSpec) × (Map.get 3
        (restart_instance
          (still (done tt))
          timing
          (requests 1 3)
          []
          wanted
          (running (done tt))).db.rows
      ≡ some s)
    × (has_command s ≡ ltb 0 1)
    × (s.next_retry_at ≡ none)
    × (s.restart_pending ≡ false)
unfolding Map.get
has_command-restart_instance_example =
    has_command-restart_instance (still (done tt)) timing [] 1 wanted (running (done tt)) refl
      (omega arith) refl

restart_instance-rebound_example :
    (s : WarpInstanceSpec) × (Map.get 3
        (restart_instance
          (still (done tt))
          timing
          (λ d. (rebind_profile_guarded 3 (some 1) d).1)
          []
          wanted
          (running (done tt))).db.rows
      ≡ some s)
    × (s.account_profile_id ≡ some 1)
    × (s.restart_pending ≡ false)
unfolding Map.get rebind_profile_guarded
restart_instance-rebound_example =
    restart_instance-rebound (still (done tt)) timing [] (some 1) wanted (running (done tt)) refl
      refl refl
