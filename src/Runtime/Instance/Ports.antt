-- ===== src/Runtime/Instance/Ports.antt =====
-- runtime/instance.rs: the range of the internal ports.
use warpdeck.Prelude.{ℕ, ◌+◌, ◌≤◌, ◌<◌, ◌≡◌, ◌⊎◌, arith}
use warpdeck.Runtime.Instance.{InstanceId, ok, err, out_of_range, first_warp_port, instance_port}

-- An id up to 25535 gets the port 40000 + id, which fits a `u16`; any larger id is refused as out of
-- range. No id is ever refused because its port is reserved.
pub instance_port_lem :
    (id : InstanceId)
    → ((id ≤ 25535) × (instance_port id ≡ ok (first_warp_port + id)))
      ⊎ ((25535 < id) × (instance_port id ≡ err (out_of_range id)))
unfolding instance_port
instance_port_lem id = ground arith

-- Two ids that get a port get the same one only if they are the same.
pub instance_port_injective :
    (i j : InstanceId) {p : ℕ} → instance_port i ≡ ok p → instance_port j ≡ ok p → i ≡ j
unfolding instance_port
instance_port_injective i j h k = ground arith
