-- ===== src/Runtime/Monitor/Guard.antt =====
-- runtime/manager.rs, `apply_health_verdict`: the verdict is applied under the lock that checks the
-- state once more.
use warpdeck.Prelude.{ℕ, ◌≡◌, true, false, Option, some, List, arith}
use warpdeck.Prelude.Map.{get-update}
use warpdeck.Runtime.Instance.{InstanceId}
use warpdeck.Runtime.Registry.{InstanceRuntime, IpAddr, Registry}
use warpdeck.Runtime.Registry
use warpdeck.Runtime.Health.{HealthVerdict, HealthCounters, LayersReport}
use warpdeck.Runtime.Monitor.{View, is_assessed, apply_health_verdict, apply_round}

-- Where the update finds the instance in no assessed state, its closure changes nothing.
update_skipped :
    (p : List ℕ → Option IpAddr) (verdict : HealthVerdict) (c : HealthCounters) (rep : LayersReport)
    (id j : InstanceId) (r : Registry) (e : InstanceRuntime)
    → Registry.get id r ≡ some e
    → is_assessed e.state ≡ false
    → Registry.get j (Registry.update id (apply_round p verdict c rep) r) ≡ Registry.get j r
unfolding Registry.get Registry.update apply_round
update_skipped p verdict c rep id j r e h idle =
    ground (arith, get-update id j (apply_round p verdict c rep) r)

-- If another task has moved the instance out of Healthy and Degraded between the probe and the
-- update (a crash, a stop), the late verdict is dropped: no entry of the registry changes, no event
-- is published, and the caller is told so.
pub apply_health_verdict-dropped :
    (p : List ℕ → Option IpAddr) (meanwhile : Registry → Registry) (id : InstanceId)
    (verdict : HealthVerdict) (c : HealthCounters) (rep : LayersReport) (v : View)
    (before e : InstanceRuntime)
    → Registry.get id v.registry ≡ some before
    → is_assessed before.state ≡ true
    → Registry.get id (meanwhile v.registry) ≡ some e
    → is_assessed e.state ≡ false
    → ((apply_health_verdict p meanwhile id verdict c rep v).1 ≡ false)
      × ((apply_health_verdict p meanwhile id verdict c rep v).0.bus ≡ v.bus)
      × ((j : InstanceId)
          → Registry.get j (apply_health_verdict p meanwhile id verdict c rep v).0.registry
            ≡ Registry.get j (meanwhile v.registry))
unfolding apply_health_verdict
apply_health_verdict-dropped p meanwhile id verdict c rep v before e known assessed found idle = (
  ground arith,
  ground arith,
  λ j. ground (arith, update_skipped p verdict c rep id j (meanwhile v.registry) e found idle),
)

-- With no other task in between, an assessed instance gets the verdict's entry.
pub get-apply_health_verdict :
    (p : List ℕ → Option IpAddr) (id : InstanceId) (verdict : HealthVerdict) (c : HealthCounters)
    (rep : LayersReport) (v : View) (e : InstanceRuntime)
    → Registry.get id v.registry ≡ some e
    → is_assessed e.state ≡ true
    → Registry.get id (apply_health_verdict p (λ r. r) id verdict c rep v).0.registry
      ≡ some (apply_round p verdict c rep e)
unfolding apply_health_verdict Registry.get Registry.update
get-apply_health_verdict p id verdict c rep v e h assessed =
    ground (arith, get-update id id (apply_round p verdict c rep) v.registry)
