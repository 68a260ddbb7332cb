-- ===== src/Runtime/Registry/Entries.antt =====
-- runtime/registry.rs: the keys of the map are distinct, and every operation keeps them so.
use warpdeck.Prelude.{arith}
use warpdeck.Prelude.Map
use warpdeck.Prelude.Map.{insert-IsUnique, remove-IsUnique, update-IsUnique}
use warpdeck.Runtime.Instance.{InstanceId}
use warpdeck.Runtime.Registry.{InstanceRuntime, Registry, stopped_runtime, insert, remove, update}

abbrev pub IsUnique : Registry → Type 0
IsUnique r = Map.IsUnique r

Registry_remove-IsUnique : (id : InstanceId) (r : Registry) → IsUnique r → IsUnique (remove id r)
unfolding remove
Registry_remove-IsUnique id r u = remove-IsUnique id r u

Registry_update-IsUnique :
    (id : InstanceId) (f : InstanceRuntime → InstanceRuntime) (r : Registry)
    → IsUnique r
    → IsUnique (update id f r)
unfolding update
Registry_update-IsUnique id f r u = update-IsUnique id f r u

Registry_insert-IsUnique : (id : InstanceId) (r : Registry) → IsUnique r → IsUnique (insert id r)
unfolding insert
Registry_insert-IsUnique id r u = ground (arith, insert-IsUnique id stopped_runtime r u)
