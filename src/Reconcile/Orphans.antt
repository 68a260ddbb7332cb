-- ===== src/Reconcile/Orphans.antt =====
-- reconciler/mod.rs: instances whose row has been deleted.
use warpdeck.Prelude.{
  ℕ, ◌≡◌, refl, Bool, true, false, Option, none, some, List, contains, if◌then◌else◌, arith,
}
use warpdeck.Prelude.Map
use warpdeck.Prelude.Map.{get-insert}
use warpdeck.Runtime.Instance.{InstanceId}
use warpdeck.Runtime.Registry.{Registry, InstanceRuntime, RuntimeState}
use warpdeck.Runtime.Registry
use warpdeck.Runtime.Host.{Attempt, done, refused}
use warpdeck.Desired.{WarpInstanceSpec, Database, should_run, is_known, next_id, new_spec}
use warpdeck.Desired.Commands.Reuse.{replaced, get-replaced}
use warpdeck.Reconcile.{WarpRuntime, Timing, reconcile_instance, retire}

unfoldable pub has_entry : InstanceId → Registry → Bool
has_entry id r = elim (Registry.get id r) [ none ↦ false | some e ↦ true ]

-- What the reconciler relies on: it edits the runtime's own registry, and a stop leaves the entries there.
pub record IsRuntime (rt : WarpRuntime) : Type 0 where
  pub edits :
      (f : Registry → Registry) (r : rt.Runtime) → rt.registry (rt.edit f r) ≡ f (rt.registry r)
  pub keeps :
      (id k : InstanceId) (r : rt.Runtime)
      → has_entry k (rt.registry (rt.stop id r).1) ≡ has_entry k (rt.registry r)

abbrev pub is_done : Attempt (Unit {0}) → Bool
is_done (done _) = true
is_done (refused e) = false

module _ (rt : WarpRuntime) (desired : List InstanceId) (k : InstanceId) (a : Attempt (Unit {0}))
    (law : IsRuntime rt) (same : (r : rt.Runtime) → (rt.stop k r).0 ≡ a) where
  -- The loop's body at one listed entry.
  abbrev visited : InstanceId → rt.Runtime → rt.Runtime
  visited id r = if contains desired id then r else retire rt id (rt.stop id r).0 (rt.stop id r).1

-- An instance that is created after the newest one was deleted, before a round has seen the
-- deletion and both with profiles that exist, has its key. If the deleted one was Healthy,
-- reconciling the new row leaves everything as it is: what runs was started for the deleted row,
-- whatever profile the new row asks for.
pub reconcile_instance-replaced :
    (rt : WarpRuntime) (c : Timing) (meanwhile : Database → Database) (now : List ℕ)
    (name name' : List ℕ) (p q : Option ℕ) (g : ℕ) (d : Database) (runtime : rt.Runtime)
    (e : InstanceRuntime)
    → is_known p d ≡ true
    → is_known q d ≡ true
    → Registry.get (next_id d.rows) (rt.registry runtime) ≡ some e
    → e.state ≡ RuntimeState.healthy
    → (s : WarpInstanceSpec) × (Map.get (next_id d.rows) (replaced name name' p q g d).rows
        ≡ some s)
      × (s.account_profile_id ≡ q)
      × (reconcile_instance rt c meanwhile now s
            (record { db = replaced name name' p q g d; runtime = runtime })
          ≡ record { db = replaced name name' p q g d; runtime = runtime })
unfolding reconcile_instance should_run
reconcile_instance-replaced rt c meanwhile now name name' p q g d runtime e known known' found h = (
  new_spec (next_id d.rows) name' q,
  get-replaced name name' p q g d known known',
  refl,
  ground (arith, found, h),
)
