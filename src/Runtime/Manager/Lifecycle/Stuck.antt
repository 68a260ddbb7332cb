-- ===== src/Runtime/Manager/Lifecycle/Stuck.antt =====
-- runtime/manager.rs: what is left of an instance whose stop has failed once.
use warpdeck.Prelude.{◌≡◌, refl, ◌∙◌, Bool, none, some, List, [], ◌∷◌, arith}
use warpdeck.Prelude.Map
use warpdeck.Prelude.Map.{get-insert, get-remove, get-update}
use warpdeck.Runtime.Stop.{StopOutcome}
use warpdeck.Runtime.Instance.{InstanceId}
use warpdeck.Runtime.Registry.{RuntimeState, InstanceRuntime, with_state}
use warpdeck.Runtime.Registry
use warpdeck.Runtime.Host.{Host}
use warpdeck.Runtime.Manager.{
  Manager, ManagerResult, ManagerError, state_of, RunningInstance, stop_failed, watcher_consumed,
}
use warpdeck.Runtime.Manager.Lifecycle.{stop, delete, stop_entry}

-- The entry of `id` is there, and its watcher task has been taken.
pub record IsStuck (h : Host) (id : InstanceId) (m : Manager h) : Type 0 where
  pub running : RunningInstance
  pub found : Map.get id m.runs ≡ some running
  pub same_id : running.id ≡ id
  pub taken : running.watcher_task ≡ none

module _ (h : Host) (id : InstanceId) (m : Manager h) (running : RunningInstance) where
  abbrev entry_stop : ManagerResult StopOutcome × Manager h
  entry_stop = stop_entry h id running m

  -- A failed `do_stop` leaves the entry with its watcher taken.
  get-stop_entry :
      (e : ManagerError)
      → entry_stop.0 ≡ ManagerResult.err e
      → Map.get id entry_stop.1.runs ≡ some (record running { watcher_task = none })
  unfolding stop_entry
  get-stop_entry e failed =
      ground
        (arith, get-insert id id (record running { watcher_task = none }) (Map.remove id m.runs))

  -- Without a watcher `do_stop` fails and calls nothing.
  stop_entry-taken :
      running.id ≡ id
      → running.watcher_task ≡ none
      → (entry_stop.0 ≡ ManagerResult.err (stop_failed id watcher_consumed))
        × (entry_stop.1.world ≡ m.world)
        × (state_of RuntimeState.stopping id entry_stop.1.view.registry ≡ RuntimeState.stopping)
  unfolding stop_entry Registry.set_state Registry.update Registry.get
  stop_entry-taken same taken = (
    ground arith,
    ground arith,
    ground (arith, get-update id id (with_state RuntimeState.stopping) m.view.registry),
  )

  stop_failing :
      (e : ManagerError)
      → Map.get id m.runs ≡ some running
      → entry_stop.0 ≡ ManagerResult.err e
      → stop h id m ≡ (ManagerResult.err e, entry_stop.1)
  unfolding stop
  stop_failing e found failed = ground arith

  delete_failing :
      (e : ManagerError) (remove_registration : Bool)
      → Map.get id m.runs ≡ some running
      → entry_stop.0 ≡ ManagerResult.err e
      → delete h id remove_registration m ≡ (ManagerResult.err e, entry_stop.1)
  unfolding delete
  delete_failing e remove_registration found failed = ground arith

  entry_failing :
      (e : ManagerError)
      → Map.get id m.runs ≡ some running
      → (stop h id m).0 ≡ ManagerResult.err e
      → entry_stop.0 ≡ ManagerResult.err e
  unfolding stop
  entry_failing e found failed = ground arith

-- A later call on the instance: a stop, or a delete that may remove the registration.
pub data Retry : Type 0 where
  stop_again : Retry
  delete_again : Bool → Retry

module _ (h : Host) (id : InstanceId) where
  abbrev pub retry : Retry → Manager h → Manager h
  retry stop_again n = (stop h id n).1
  retry (delete_again remove_registration) n = (delete h id remove_registration n).1

  unfoldable pub retries : List Retry → Manager h → Manager h
  retries [] n = n
  retries (r ∷ rs) n = retries rs (retry r n)

module _ (h : Host) (id : InstanceId) (running : RunningInstance) (same : running.id ≡ id) where
  -- The entry without its watcher task.
  abbrev bare : RunningInstance
  bare = record running { watcher_task = none }

  retry-bare :
      (r : Retry) (n : Manager h)
      → Map.get id n.runs ≡ some bare
      → ((retry h id r n).world ≡ n.world) × (Map.get id (retry h id r n).runs ≡ some bare)
  retry-bare stop_again n found =
      let (failed, idle, _) = stop_entry-taken h id n bare same refl in
      let e = stop_failed id watcher_consumed in
      rw (retry, stop_failing h id n bare e found failed)
        (idle, get-stop_entry h id n bare e failed)
  retry-bare (delete_again remove_registration) n found =
      let (failed, idle, _) = stop_entry-taken h id n bare same refl in
      let e = stop_failed id watcher_consumed in
      rw (retry, delete_failing h id n bare e remove_registration found failed)
        (idle, get-stop_entry h id n bare e failed)

  retries-bare :
      (rs : List Retry) (n : Manager h)
      → Map.get id n.runs ≡ some bare
      → ((retries h id rs n).world ≡ n.world) × (Map.get id (retries h id rs n).runs ≡ some bare)
  unfolding retries
  retries-bare [] n found = (refl, found)
  retries-bare (r ∷ rs) n found =
      let (idle, kept) = retry-bare r n found in
      let (idle', kept') = retries-bare rs (retry h id r n) kept in (idle' ∙ idle, kept')

  -- Once a stop of a running instance has failed, whatever the reason, it can be neither stopped nor
  -- deleted any more: after any later stops and deletes of it the next stop and the next delete fail
  -- because the watcher has been consumed, its entry in `runs` is the one from before the stop but for
  -- the watcher task, and none of these calls has made a call to the outside.
  pub stop-stuck :
      (m : Manager h) (e : ManagerError) (rs : List Retry) (remove_registration : Bool)
      → Map.get id m.runs ≡ some running
      → (stop h id m).0 ≡ ManagerResult.err e
      → let n = retries h id rs (stop h id m).1 in
        ((stop h id n).0 ≡ ManagerResult.err (stop_failed id watcher_consumed))
        × ((delete h id remove_registration n).0
            ≡ ManagerResult.err (stop_failed id watcher_consumed))
        × (Map.get id n.runs ≡ some bare)
        × (n.world ≡ (stop h id m).1.world)
  stop-stuck m e rs remove_registration found failed =
      let first = stop h id m in
      let entry_failed = entry_failing h id m running e found failed in
      let at_first : Map.get id first.1.runs ≡ some bare =
        rw (stop_failing h id m running e found entry_failed)
          (get-stop_entry h id m running e entry_failed) in
      let (idle, kept) = retries-bare rs first.1 at_first in
      let n = retries h id rs first.1 in
      let (consumed, _, _) = stop_entry-taken h id n bare same refl in
      let e' = stop_failed id watcher_consumed in
      (
        rw (stop_failing h id n bare e' kept consumed) refl,
        rw (delete_failing h id n bare e' remove_registration kept consumed) refl,
        kept,
        idle,
      )
