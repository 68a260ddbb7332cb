-- ===== src/Gateway/Pool/Healthy.antt =====
-- gateway/pool.rs: whom `pick` can choose.
use warpdeck.Prelude.{
  ℕ, zero, suc, ◌%◌, ◌≤◌, ◌<◌, ◌≡◌, refl, ◌≢◌, ◌↔◌, inl, inr, true, false, ◌||◌, none, some, List,
  [], ◌∷◌, arith, ◌==◌, contains, get_elem?, length, is_empty, ==_iff, Option-cases, Bool-cases,
}
use warpdeck.Prelude.Map
use warpdeck.Runtime.Instance.{InstanceId, first_warp_port, instance_port, ok}
use warpdeck.Runtime.Instance.Ports.{instance_port_lem}
use warpdeck.Runtime.Registry.{InstanceRuntime, Registry, is_healthy, insert_by_key, list, get}
use warpdeck.Runtime.Registry.Entries.{IsUnique}
use warpdeck.Gateway.Pool.{
  RoundRobinPool, Upstream, healthy_of, healthy_ids, sort_unstable, insert_sorted, pick,
}

contains-insert_sorted :
    (a : ℕ) (xs : List ℕ) (b : ℕ) → contains (insert_sorted a xs) b ≡ (a == b || contains xs b)
unfolding insert_sorted
contains-insert_sorted a [] b = refl
contains-insert_sorted a (x ∷ xs) b = ground (arith, contains-insert_sorted a xs b)

contains-sort_unstable : (xs : List ℕ) (b : ℕ) → contains (sort_unstable xs) b ≡ contains xs b
unfolding sort_unstable
contains-sort_unstable [] b = refl
contains-sort_unstable (x ∷ xs) b =
    ground (arith, contains-insert_sorted x (sort_unstable xs) b, contains-sort_unstable xs b)

healthy_of-insert_by_key :
    (p : ℕ × InstanceRuntime) (r : Registry) (b : ℕ)
    → contains (healthy_of (insert_by_key p r)) b ≡ contains (healthy_of (p ∷ r)) b
unfolding insert_by_key healthy_of
healthy_of-insert_by_key (k, e) [] b = refl
healthy_of-insert_by_key (k, e) ((j, w) ∷ r) b = ground (arith, healthy_of-insert_by_key (k, e) r b)

healthy_of-list :
    (r : Registry) (b : ℕ) → contains (healthy_of (list r)) b ≡ contains (healthy_of r) b
unfolding list healthy_of
healthy_of-list [] b = refl
healthy_of-list ((k, e) ∷ r) b =
    ground (arith, healthy_of-insert_by_key (k, e) (list r) b, healthy_of-list r b)

-- The registry says that the instance is Healthy.
abbrev pub IsHealthy : InstanceId → Registry → Type 0
IsHealthy id r = (e : InstanceRuntime) × (get id r ≡ some e) × (is_healthy e.state ≡ true)

get_of_contains :
    (r : Registry) (id : InstanceId)
    → IsUnique r
    → contains (healthy_of r) id ≡ true
    → IsHealthy id r
unfolding healthy_of get Map.get
get_of_contains [] id u h = ground arith
get_of_contains ((k, e) ∷ r) id u h = elim (Bool-cases (k == id)) [
  | inl same ↦ elim (Bool-cases (is_healthy e.state)) [
    | inl up ↦ (e, ground arith, up)
    | inr down ↦
        let (e', g, s) = get_of_contains r id u.1 (ground arith) in
        absurd (ground (arith, ==_iff k id, u.0))
  ]
  | inr other ↦ let (e', g, s) = get_of_contains r id u.1 (ground arith) in (e', ground arith, s)
]

contains_of_get :
    (r : Registry) (id : InstanceId) → IsHealthy id r → contains (healthy_of r) id ≡ true
unfolding healthy_of get Map.get
contains_of_get [] id (e, g, s) = ground arith
contains_of_get ((k, w) ∷ r) id (e, g, s) = elim (Bool-cases (k == id)) [
  | inl same ↦ ground arith
  | inr other ↦ ground (arith, contains_of_get r id (e, ground arith, s))
]

healthy_ids_iff :
    (r : Registry) (id : InstanceId)
    → IsUnique r
    → (contains (healthy_ids r) id ≡ true) ↔ IsHealthy id r
unfolding healthy_ids
healthy_ids_iff r id u = (
  λ h.
      get_of_contains r id u
        (ground (arith, contains-sort_unstable (healthy_of (list r)) id, healthy_of-list r id)),
  λ h. ground (
    arith,
    contains-sort_unstable (healthy_of (list r)) id,
    healthy_of-list r id,
    contains_of_get r id h,
  ),
)

contains_of_get_elem? : (xs : List ℕ) (i a : ℕ) → get_elem? xs i ≡ some a → contains xs a ≡ true
contains_of_get_elem? [] i a h = ground arith
contains_of_get_elem? (x ∷ xs) zero a h = ground arith
contains_of_get_elem? (x ∷ xs) (suc i) a h = ground (arith, contains_of_get_elem? xs i a h)

pub get_elem?-lt : (xs : List ℕ) (i : ℕ) → i < length xs → (a : ℕ) × (get_elem? xs i ≡ some a)
get_elem?-lt [] i h = absurd (omega arith)
get_elem?-lt (x ∷ xs) zero h = (x, refl)
get_elem?-lt (x ∷ xs) (suc i) h = get_elem?-lt xs i (omega arith)

-- A pick hands out only an instance that the registry holds as Healthy, at its own internal port.
pub pick-IsHealthy :
    (r : Registry) (p : RoundRobinPool) {u : Upstream}
    → IsUnique r
    → (pick r p).0 ≡ some u
    → IsHealthy u.instance_id r
unfolding pick
pick-IsHealthy r p {u} unique h = elim (Bool-cases (is_empty (healthy_ids r))) [
  | inl none_up ↦ absurd (ground arith)
  | inr up ↦ elim (Option-cases (get_elem? (healthy_ids r) (p.rr % length (healthy_ids r)))) [
    | inl out ↦ absurd (ground arith)
    | inr (id, e) ↦ (healthy_ids_iff r u.instance_id unique).0 (
        contains_of_get_elem? (healthy_ids r) (p.rr % length (healthy_ids r)) u.instance_id
          (ground arith))
  ]
]

empty_of_none : (xs : List ℕ) → ((a : ℕ) → contains xs a ≡ true → ⊥) → is_empty xs ≡ true
empty_of_none [] h = refl
empty_of_none (x ∷ xs) h = absurd (h x (ground arith))

pick-none :
    (r : Registry) (p : RoundRobinPool) → is_empty (healthy_ids r) ≡ true → (pick r p).0 ≡ none
unfolding pick
pick-none r p h = ground arith

length-pos : (xs : List ℕ) → is_empty xs ≡ false → 0 < length xs
length-pos [] h = ground arith
length-pos (x ∷ xs) h = omega arith

-- A pool with somebody to pick from picks.
pick_some :
    (r : Registry) (p : RoundRobinPool) → is_empty (healthy_ids r) ≡ false → (pick r p).0 ≢ none
unfolding pick
pick_some r p up h =
    let n = length (healthy_ids r) in
    let pos : 0 < n = length-pos (healthy_ids r) up in
    let (a, e) = get_elem?-lt (healthy_ids r) (p.rr % n) (omega arith) in ground arith

empty_contains : (xs : List ℕ) (a : ℕ) → contains xs a ≡ true → is_empty xs ≡ false
empty_contains [] a h = ground arith
empty_contains (x ∷ xs) a h = refl

-- A pick fails exactly when no instance is Healthy: then there is no upstream to dial.
pub pick-eq-none_iff :
    (r : Registry) (p : RoundRobinPool)
    → IsUnique r
    → ((pick r p).0 ≡ none) ↔ ((id : InstanceId) → ¬ IsHealthy id r)
pick-eq-none_iff r p unique = (
  λ h id up.
      pick_some r p (empty_contains (healthy_ids r) id ((healthy_ids_iff r id unique).1 up)) h,
  λ nobody.
      pick-none r p
        (empty_of_none (healthy_ids r) (λ a c. nobody a ((healthy_ids_iff r a unique).0 c))),
)

-- The port that a pick dials is the one that `instance_port` computed for the instance.
pub pick-instance_port :
    (r : Registry) (p : RoundRobinPool) {u : Upstream}
    → p.upstream_base ≡ first_warp_port
    → (pick r p).0 ≡ some u
    → u.instance_id ≤ 25535
    → instance_port u.instance_id ≡ ok u.port
unfolding pick
pick-instance_port r p {u} base h small =
    elim (Option-cases (get_elem? (healthy_ids r) (p.rr % length (healthy_ids r)))) [
      | inl out ↦ absurd (ground arith)
      | inr (id, e) ↦ ground (arith, instance_port_lem u.instance_id)
    ]
