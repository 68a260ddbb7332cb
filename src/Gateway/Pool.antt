-- ===== src/Gateway/Pool.antt =====
-- gateway/pool.rs, and the way gateway/socks5.rs and gateway/http.rs hand the pool to a connection.
pub mod Healthy
pub mod Rotation
use warpdeck.Prelude.{
  ℕ, suc, ◌+◌, ◌%◌, ◌^◌, Option, none, some, List, [], ◌∷◌, length, get_elem?, leb, is_empty,
  if◌then◌else◌,
}
use warpdeck.Prelude.Machine.{u16_max}
use warpdeck.Runtime.Instance.{InstanceId, first_warp_port}
use warpdeck.Runtime.Registry.{Registry, is_healthy}
use warpdeck.Runtime.Registry

-- The address is always 127.0.0.1, so the port stands for it.
pub record Upstream : Type 0 where
  pub instance_id : InstanceId
  pub port : ℕ

-- The registry is shared and changes under the pool, so it is an argument of `pick`.
pub record RoundRobinPool : Type 0 where
  pub rr : ℕ
  pub upstream_base : ℕ

abbrev pub new : RoundRobinPool
new = record { rr = 0; upstream_base = first_warp_port }

-- A clone has a counter of its own that starts where this one stands.
abbrev pub clone : RoundRobinPool → RoundRobinPool
clone p = record { rr = p.rr; upstream_base = p.upstream_base }

-- `fetch_add` on a 64-bit counter wraps.
abbrev pub next_rr : ℕ → ℕ
next_rr n = (n + 1) % 2 ^ 64

unfoldable pub healthy_of : Registry → List InstanceId
healthy_of [] = []
healthy_of ((id, e) ∷ r) = let rest = healthy_of r in if is_healthy e.state then id ∷ rest else rest

pub insert_sorted : ℕ → List ℕ → List ℕ
insert_sorted a [] = a ∷ []
insert_sorted a (b ∷ xs) = if leb a b then a ∷ b ∷ xs else b ∷ insert_sorted a xs

unfoldable pub sort_unstable : List ℕ → List ℕ
unfolding insert_sorted
sort_unstable [] = []
sort_unstable (a ∷ xs) = insert_sorted a (sort_unstable xs)

unfoldable pub healthy_ids : Registry → List InstanceId
unfolding healthy_of sort_unstable Registry.list
healthy_ids r = sort_unstable (healthy_of (Registry.list r))

abbrev pub upstream_of : ℕ → InstanceId → Upstream
upstream_of base id = record {
  instance_id = id;
  port = (base + id % (u16_max + 1)) % (u16_max + 1);
}

-- The index is below the length, so `none` from the access stands for no case of the code.
unfoldable pub pick : Registry → RoundRobinPool → Option Upstream × RoundRobinPool
unfolding healthy_ids
pick r p =
    let healthy = healthy_ids r in
    if is_empty healthy then (none, p) else (
      elim (get_elem? healthy (p.rr % length healthy)) [
        | none ↦ none
        | some id ↦ some (upstream_of p.upstream_base id)
      ],
      record p { rr = next_rr p.rr },
    )

-- Picks one after the other on one pool, each with the registry of its time.
unfoldable pub picks : List Registry → RoundRobinPool → List (Option Upstream)
picks [] p = []
picks (r ∷ rs) p = (pick r p).0 ∷ picks rs (pick r p).1

-- The accept loops of `serve`: each connection gets a clone of the pool and picks once on it.
unfoldable pub serve_picks : List Registry → RoundRobinPool → List (Option Upstream)
serve_picks [] p = []
serve_picks (r ∷ rs) p = (pick r (clone p)).0 ∷ serve_picks rs p
