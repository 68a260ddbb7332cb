-- ===== src/Gateway/Net/Contains.antt =====
-- net.rs: the addresses of a parsed network.
use native.Mathlib.Nat.{div-add-mod', mod-lt}
use warpdeck.Prelude.{
  ℕ, zero, suc, ◌+◌, ◌-◌, ◌*◌, ◌/◌, ◌%◌, ◌^◌, ◌≤◌, ◌<◌, ◌≡◌, ◌↔◌, refl, min, true, arith, ==_iff,
  ap, subst,
}
use warpdeck.Runtime.Registry.{IpAddr}
use warpdeck.Gateway.Net.{IpNetwork, CidrResult, contains_ip, v4_network, v6_network, masked}

pow_pos : (n : ℕ) → 0 < 2 ^ n
pow_pos zero = omega arith
pow_pos (suc n) = omega (arith, pow_pos n)

le_of_blocks : (P a b : ℕ) → 0 < P → a * P < b * P + P → a ≤ b
le_of_blocks P a b pos h = grind arith

block_iff : (P x q : ℕ) → 0 < P → (x / P * P ≡ q * P) ↔ ((q * P ≤ x) × (x < q * P + P))
block_iff P x q pos =
    let split = div-add-mod' x P in
    let small = mod-lt x pos in
    (
      λ e. (omega (arith, split, small, e), omega (arith, split, small, e)),
      λ (lo, hi).
          let below = le_of_blocks P (x / P) q pos (omega (arith, split, lo, hi)) in
          let above = le_of_blocks P q (x / P) pos (omega (arith, split, small, lo, hi)) in
          let same : x / P ≡ q = omega (arith, below, above) in ap (λ k. k * P) same,
    )

-- The masks of two addresses agree exactly in the block of the one that is a multiple of its size.
mask_iff :
    (P x net : ℕ) → 0 < P → net % P ≡ 0 → (x / P * P ≡ net / P * P) ↔ ((net ≤ x) × (x < net + P))
mask_iff P x net pos aligned =
    let split = div-add-mod' net P in
    let base : net / P * P ≡ net = omega (arith, split, aligned) in
    subst (λ b. (x / P * P ≡ net / P * P) ↔ ((b ≤ x) × (x < b + P))) base
      (block_iff P x (net / P) pos)

accepted_lem :
    (net prefix : ℕ) (n : IpNetwork)
    → v4_network net prefix ≡ CidrResult.ok n
    → (prefix ≤ 32) × (net % 2 ^ (32 - prefix) ≡ 0) × (n ≡ IpNetwork.v4 net prefix)
accepted_lem net prefix n e = (ground arith, ground arith, ground arith)

masked-suc :
    (k x : ℕ) → suc k ≤ 32 → masked 32 (min (suc k) 32) x ≡ x / 2 ^ (32 - suc k) * 2 ^ (32 - suc k)
masked-suc k x h = let e : min (suc k) 32 ≡ suc k = omega arith in rw e (ground arith)

contains_block :
    (prefix net ip : ℕ)
    → net < 2 ^ 32
    → ip < 2 ^ 32
    → prefix ≤ 32
    → net % 2 ^ (32 - prefix) ≡ 0
    → (contains_ip (IpNetwork.v4 net prefix) (IpAddr.v4 ip) ≡ true)
      ↔ ((net ≤ ip) × (ip < net + 2 ^ (32 - prefix)))
unfolding contains_ip
contains_block zero net ip nb ib small aligned = (λ _. (omega arith, omega arith), λ _. refl)
contains_block (suc k) net ip nb ib small aligned =
    let m = mask_iff (2 ^ (32 - suc k)) ip net (pow_pos (32 - suc k)) aligned in
    let t = ==_iff (masked 32 (min (suc k) 32) ip) (masked 32 (min (suc k) 32) net) in
    let a = masked-suc k ip small in
    let b = masked-suc k net small in (λ e. m.0 (cc (t.0 e, a, b)), λ r. t.1 (cc (m.1 r, a, b)))

-- An IPv4 network that the parser accepts contains exactly the 2 ^ (32 - prefix) addresses from its
-- own address on.
pub contains_ip-v4_iff :
    (net prefix ip : ℕ) (n : IpNetwork)
    → net < 2 ^ 32
    → ip < 2 ^ 32
    → v4_network net prefix ≡ CidrResult.ok n
    → (contains_ip n (IpAddr.v4 ip) ≡ true) ↔ ((net ≤ ip) × (ip < net + 2 ^ (32 - prefix)))
contains_ip-v4_iff net prefix ip n nb ib accepted =
    let (small, aligned, same) = accepted_lem net prefix n accepted in
    rw same (contains_block prefix net ip nb ib small aligned)

-- The parser accepts an IPv6 network of the prefix 0 whatever its host bits are, which it refuses for
-- every other prefix.
pub v6_network-zero : (net : ℕ) → v6_network net 0 ≡ CidrResult.ok (IpNetwork.v6 net 0)
v6_network-zero net = ground arith
