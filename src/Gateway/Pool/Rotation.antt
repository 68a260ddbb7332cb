-- ===== src/Gateway/Pool/Rotation.antt =====
-- gateway/pool.rs: the order of picks on one pool, and what the clones of the accept loops make of it.
use warpdeck.Prelude.{
  ℕ, zero, suc, ◌+◌, ◌%◌, ◌^◌, ◌<◌, ◌≡◌, refl, ap, false, Option, none, some, List, ◌∷◌, arith,
  get_elem?, length, is_empty, replicate,
}
use warpdeck.Runtime.Registry.{Registry}
use warpdeck.Gateway.Pool.{
  RoundRobinPool, Upstream, healthy_ids, pick, picks, serve_picks, next_rr, upstream_of,
}

abbrev nth : RoundRobinPool → List ℕ → ℕ → Option Upstream
nth p ids i = elim (get_elem? ids i) [
  | none ↦ none
  | some id ↦ some (upstream_of p.upstream_base id)
]

pick-nth :
    (r : Registry) (p : RoundRobinPool)
    → is_empty (healthy_ids r) ≡ false
    → pick r p
      ≡ (nth p (healthy_ids r) (p.rr % length (healthy_ids r)), record p { rr = next_rr p.rr })
unfolding pick
pick-nth r p up = ground arith

pick_advances :
    (r : Registry) (p : RoundRobinPool)
    → is_empty (healthy_ids r) ≡ false
    → p.rr + 1 < 2 ^ 64
    → (pick r p).1 ≡ record p { rr = p.rr + 1 }
pick_advances r p up small = ground (arith, pick-nth r p up)

-- While the registry stays as it is and the counter does not wrap, the i-th of k picks on one pool
-- takes entry (rr + i) mod n of the n Healthy ids in ascending order.
pub get_elem?-picks :
    (r : Registry) (p : RoundRobinPool) (k i : ℕ)
    → is_empty (healthy_ids r) ≡ false
    → p.rr + k < 2 ^ 64
    → i < k
    → get_elem? (picks (replicate k r) p) i
      ≡ some (nth p (healthy_ids r) ((p.rr + i) % length (healthy_ids r)))
unfolding picks
get_elem?-picks r p zero i up small lt = absurd (omega arith)
get_elem?-picks r p (suc k) zero up small lt =
    let same : p.rr + 0 ≡ p.rr = omega arith in rw same (ap (λ q. some q.0) (pick-nth r p up))
get_elem?-picks r p (suc k) (suc i) up small lt =
    let q : RoundRobinPool = record p { rr = p.rr + 1 } in
    let moved : p.rr + suc i ≡ p.rr + 1 + i = omega arith in
    rw (pick_advances r p up (omega arith), moved)
      (get_elem?-picks r q k i up (omega arith) (omega arith))

-- The accept loop gives each connection a clone of the pool and never advances its own counter: with
-- the same registry every connection gets the same upstream, the one a first pick gives.
pub serve_picks-replicate :
    (r : Registry) (p : RoundRobinPool) (k : ℕ)
    → serve_picks (replicate k r) p ≡ replicate k (pick r p).0
unfolding serve_picks
serve_picks-replicate r p zero = refl
serve_picks-replicate r p (suc k) = ap (◌∷◌ (pick r p).0) (serve_picks-replicate r p k)
