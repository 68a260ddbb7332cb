-- ===== src/Reconcile/Managed.antt =====
-- runtime/manager.rs as the runtime of the reconciler. The text of an error is given by `show`.
use warpdeck.Prelude.{ℕ, ◌≡◌, refl, Option, List, [], arith, Option-cases, inl, inr}
use warpdeck.Prelude.Map
use warpdeck.Prelude.Map.{get-update}
use warpdeck.Runtime.Instance.{InstanceId}
use warpdeck.Runtime.Registry.{
  Registry, InstanceRuntime, RuntimeState, IpAddr, with_state, without_pids,
}
use warpdeck.Runtime.Registry
use warpdeck.Runtime.Backoff.{ExponentialBackoff}
use warpdeck.Runtime.Monitor.{View}
use warpdeck.Runtime.Host.{Host, Attempt, done, refused}
use warpdeck.Runtime.Manager.{Manager, ManagerError, ManagerResult, RunningInstance, with_registry}
use warpdeck.Runtime.Manager.Lifecycle.{start, restart, stop, do_stop}
use warpdeck.Reconcile.{WarpRuntime}
use warpdeck.Reconcile.Orphans.{has_entry, IsRuntime}

abbrev answer : {A : Type 0} → (ManagerError → List ℕ) → ManagerResult A → Attempt (Unit {0})
answer show (ManagerResult.ok a) = done tt
answer show (ManagerResult.err e) = refused (show e)
answer show ManagerResult.out_of_fuel = refused []

module _ (h : Host) (backoff : ExponentialBackoff) (max_register_attempts : ℕ)
    (parse_ip : List ℕ → Option IpAddr) (meanwhile : View → View) (fuel : ℕ)
    (show : ManagerError → List ℕ) where
  abbrev pub managed : WarpRuntime
  managed = record {
    Runtime = Manager h;
    registry = λ m. m.view.registry;
    edit = λ f m. record m { view = with_registry f m.view };
    start = λ id account m.
        let (result, m1) =
          start h backoff max_register_attempts parse_ip meanwhile fuel id account m in
        (answer show result, m1);
    restart = λ id account m.
        let (result, m1) =
          restart h backoff max_register_attempts parse_ip meanwhile fuel id account m in
        (answer show result, m1);
    stop = λ id m. let (result, m1) = stop h id m in (answer show result, m1);
  }

has_entry-update :
    (id k : InstanceId) (f : InstanceRuntime → InstanceRuntime) (r : Registry)
    → has_entry k (Registry.update id f r) ≡ has_entry k r
unfolding has_entry Registry.get Registry.update
has_entry-update id k f r = ground (arith, get-update id k f r)

module _ (h : Host) (k : InstanceId) where
  has_entry-do_stop :
      (running : RunningInstance) (m : Manager h)
      → has_entry k (do_stop h running m).2.view.registry ≡ has_entry k m.view.registry
  unfolding do_stop Registry.set_state Registry.on_stopped
  has_entry-do_stop running m =
      let id = running.id in
      let r = m.view.registry in
      let stopping = Registry.set_state id RuntimeState.stopping r in
      ground (
        arith,
        has_entry-update id k (with_state RuntimeState.stopping) r,
        has_entry-update id k without_pids stopping,
      )

  has_entry-stop :
      (id : InstanceId) (m : Manager h)
      → has_entry k (stop h id m).1.view.registry ≡ has_entry k m.view.registry
  unfolding stop Registry.set_state
  has_entry-stop id m = elim (Option-cases (Map.get id m.runs)) [
    | inl p ↦
        ground (arith, p, has_entry-update id k (with_state RuntimeState.stopped) m.view.registry)
    | inr (running, p) ↦
        ground (arith, p, has_entry-do_stop running (record m { runs = Map.remove id m.runs }))
  ]

-- The instance manager is a runtime as the reconciler relies on it: an edit by the reconciler is an edit of
-- the manager's registry, and a stop, whatever it answers, neither adds nor removes an entry.
pub managed-IsRuntime :
    (h : Host) (backoff : ExponentialBackoff) (max_register_attempts : ℕ)
    (parse_ip : List ℕ → Option IpAddr) (meanwhile : View → View) (fuel : ℕ)
    (show : ManagerError → List ℕ)
    → IsRuntime (managed h backoff max_register_attempts parse_ip meanwhile fuel show)
managed-IsRuntime h backoff max_register_attempts parse_ip meanwhile fuel show = record {
  edits = λ f m. refl;
  keeps = λ id k m. has_entry-stop h k id m;
}
