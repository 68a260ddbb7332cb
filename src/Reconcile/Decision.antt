-- ===== src/Reconcile/Decision.antt =====
-- reconciler/mod.rs: what a round does with one instance, as a table.
use warpdeck.Prelude.{
  ℕ, ◌≡◌, Bool, true, false, not, ◌&&◌, ◌||◌, Option, none, some, List, if◌then◌else◌, arith,
  Option-cases, inl, inr,
}
use warpdeck.Runtime.Registry.{InstanceRuntime, RuntimeState}
use warpdeck.Runtime.Registry
use warpdeck.Desired.{WarpInstanceSpec, Database, should_run}
use warpdeck.Reconcile.{
  WarpRuntime, Timing, Plant, has_command, is_settled, backoff_ready, start_instance,
  restart_instance, stop_instance, reconcile_instance,
}

pub data Action : Type 0 where
  leave start restart stop : Action

-- There is nothing to run on: no entry, or a stopped one.
abbrev pub is_down : Option InstanceRuntime → Bool
is_down none = true
is_down (some e) = elim e.state [ RuntimeState.stopped ↦ true | _ ↦ false ]

-- Neither stopped, nor stopping, nor disabled.
abbrev pub is_up : Option InstanceRuntime → Bool
is_up none = false
is_up (some e) = not (is_settled e.state)

abbrev pub is_failed : Option InstanceRuntime → Bool
is_failed none = false
is_failed (some e) = elim e.state [ RuntimeState.failed ↦ true | _ ↦ false ]

-- A command restarts whatever is up. Without one, a failed instance restarts by itself if it may and its
-- backoff is over, and any other if its profile has changed.
unfoldable pub decide : Timing → List ℕ → WarpInstanceSpec → Option InstanceRuntime → Action
decide c now spec e =
    let due =
      has_command spec
      || (if is_failed e
          then spec.auto_restart && backoff_ready c now spec
          else spec.restart_pending) in
    if not (should_run spec)
    then (if is_up e then stop else leave)
    else if is_down e
    then start
    else if is_up e && due
    then restart
    else leave

module _ (rt : WarpRuntime) (c : Timing) (meanwhile : Database → Database) (now : List ℕ) where
  unfoldable pub perform : Action → WarpInstanceSpec → Plant rt → Plant rt
  perform leave spec p = p
  perform start spec p = start_instance rt c meanwhile now spec p
  perform restart spec p = restart_instance rt c meanwhile now spec p
  perform stop spec p = stop_instance rt c meanwhile now spec p

  -- For every desired row, entry and time the round does exactly what the table says.
  pub reconcile_instance-decide :
      (spec : WarpInstanceSpec) (p : Plant rt)
      → reconcile_instance rt c meanwhile now spec p
        ≡ perform (decide c now spec (Registry.get spec.id (rt.registry p.runtime))) spec p
  unfolding reconcile_instance decide perform
  reconcile_instance-decide spec p =
      elim (Option-cases (Registry.get spec.id (rt.registry p.runtime))) [
        | inl e ↦ ground (arith, e)
        | inr (entry, e) ↦ ground (arith, e)
      ]
