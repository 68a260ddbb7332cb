-- ===== src/Runtime/Tests/Lifecycles.antt =====
-- The theorems about manager.rs at concrete hosts.
use warpdeck.Prelude.{◌≡◌, ◌⊎◌, refl, true, false, none, some, [], ◌∷◌}
use warpdeck.Prelude.Map
use warpdeck.Runtime.Backoff.{recommended}
use warpdeck.Runtime.Host.Logged.{logged, alive}
use warpdeck.Runtime.Stop
use warpdeck.Runtime.Manager.{
  Manager, ManagerResult, RunningInstance, stop_failed, cleanup, watcher_consumed,
}
use warpdeck.Runtime.Manager.Run.{do_start}
use warpdeck.Runtime.Manager.Run.Processes.{Holds, do_start-HoldsAll}
use warpdeck.Runtime.Manager.Lifecycle.{start, stop, delete}
use warpdeck.Runtime.Manager.Lifecycle.Crash.{IsFailed, start-outcome}
use warpdeck.Runtime.Manager.Lifecycle.Stuck.{retries, stop_again, delete_again, stop-stuck}
use warpdeck.Runtime.Tests.Samples.{no_ip, fleet_view}
use warpdeck.Runtime.Tests.Hosts.{sample, sample-IsClock, text}

abbrev idle : Manager (sample true true)
idle = record { world = 0; view = fleet_view; current_run = (4, 6) ∷ []; runs = [] }

abbrev entry : RunningInstance
entry = record { id = 7; dbus = 12; watcher_task = some (record { svc = 11; generation = 2 }) }

abbrev with_seven : Manager (sample true false)
with_seven = record {
  world = 0;
  view = fleet_view;
  current_run = (7, 2) ∷ [];
  runs = (7, entry) ∷ [];
}

abbrev idle_failing : Manager (sample false true)
idle_failing = record { world = 0; view = fleet_view; current_run = (4, 6) ∷ []; runs = [] }

do_start-HoldsAll_example :
    Holds
      (do_start
        (logged (sample false true))
        recommended
        1
        no_ip
        (λ v. v)
        47
        4
        none
        (record { world = (0, []); view = fleet_view; current_run = []; runs = [] })).0
      (alive
        (do_start
          (logged (sample false true))
          recommended
          1
          no_ip
          (λ v. v)
          47
          4
          none
          (record { world = (0, []); view = fleet_view; current_run = []; runs = [] })).1.world.1)
do_start-HoldsAll_example =
    do_start-HoldsAll (sample false true) recommended 1 no_ip 4 (λ v. v) 47 none
      (record { world = (0, []); view = fleet_view; current_run = []; runs = [] }) refl

stop-stuck_example :
    let n =
      retries
        (sample true false)
        7
        (delete_again true ∷ stop_again ∷ [])
        (stop (sample true false) 7 with_seven).1 in
    ((stop (sample true false) 7 n).0 ≡ ManagerResult.err (stop_failed 7 watcher_consumed))
    × ((delete (sample true false) 7 true n).0 ≡ ManagerResult.err (stop_failed 7 watcher_consumed))
    × (Map.get 7 n.runs ≡ some (record entry { watcher_task = none }))
    × (n.world ≡ (stop (sample true false) 7 with_seven).1.world)
unfolding Map.get stop Stop.stop
stop-stuck_example =
    stop-stuck (sample true false) 7 entry refl with_seven (stop_failed 7 (cleanup text))
      (delete_again true ∷ stop_again ∷ []) true refl refl

start-outcome_example :
    (((start (sample false true) recommended 1 no_ip (λ v. v) 47 4 none idle_failing).0
        ≡ ManagerResult.ok tt)
      × ((r : RunningInstance) × (r.id ≡ 4)
          × (Map.get 4
                (start
                  (sample false true)
                  recommended
                  1
                  no_ip
                  (λ v. v)
                  47
                  4
                  none
                  idle_failing).1.runs
              ≡ some r)))
    ⊎ IsFailed
        (sample false true)
        4
        idle_failing
        (start (sample false true) recommended 1 no_ip (λ v. v) 47 4 none idle_failing)
unfolding Map.get
start-outcome_example =
    start-outcome (sample false true) (sample-IsClock false true) recommended 1 no_ip (λ v. v) 4
      none idle_failing refl refl
