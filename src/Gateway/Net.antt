-- ===== src/Gateway/Net.antt =====
-- net.rs, and `client_allowed` of gateway/mod.rs: CIDR networks and the allowlist. An address is the
-- number of its bits. The standard library's parsers are parameters: of an IPv4 and an IPv6 address,
-- of a `u8`, and `str::trim`. A shift of a `u128` by 128 is a shift by 0, as in a release build.
pub mod Contains
use warpdeck.Prelude.{
  ℕ, ◌+◌, ◌-◌, ◌*◌, ◌/◌, ◌%◌, ◌^◌, min, Bool, true, false, not, ◌&&◌, Option, none, some, List, [],
  ◌∷◌, ◌==◌, ltb, contains, any_of, is_empty, if◌then◌else◌,
}
use warpdeck.Runtime.Registry.{IpAddr}
use warpdeck.Runtime.Monitor.{ip_eq}

pub data IpNetwork : Type 0 where
  v4 v6 : ℕ → ℕ → IpNetwork
  exact : IpAddr → IpNetwork

-- `x & (MAX << (width - bits))` clears the host bits; with no bits the mask is 0.
abbrev pub masked : ℕ → ℕ → ℕ → ℕ
masked width bits x = if bits == 0 then 0 else x / 2 ^ (width - bits) * 2 ^ (width - bits)

-- `IpNetwork::contains`.
unfoldable pub contains_ip : IpNetwork → IpAddr → Bool
contains_ip (IpNetwork.exact e) ip = ip_eq e ip
contains_ip (IpNetwork.v4 net prefix) (IpAddr.v4 ip) =
    masked 32 (min prefix 32) ip == masked 32 (min prefix 32) net
contains_ip (IpNetwork.v4 net prefix) (IpAddr.v6 ip) = false
contains_ip (IpNetwork.v6 net prefix) (IpAddr.v6 ip) =
    masked 128 (min prefix 128) ip == masked 128 (min prefix 128) net
contains_ip (IpNetwork.v6 net prefix) (IpAddr.v4 ip) = false

pub data CidrDetail : Type 0 where
  not_an_address prefix_not_a_number mixed bad_address : CidrDetail
  v4_prefix_range v6_prefix_range : ℕ → CidrDetail
  host_bits_set : CidrDetail

pub data CidrResult : Type 0 where
  ok : IpNetwork → CidrResult
  err : CidrDetail → CidrResult

-- `split_once('/')`.
abbrev pub split_once : ℕ → List ℕ → Option (List ℕ × List ℕ)
split_once c [] = none
split_once c (d ∷ text) =
    if d == c
    then some ([], text)
    else elim (split_once c text) [ none ↦ none | some (a, b) ↦ some (d ∷ a, b) ]

pub record Parsers : Type 0 where
  pub trim : List ℕ → List ℕ
  pub parse_v4 : List ℕ → Option ℕ
  pub parse_v6 : List ℕ → Option ℕ
  pub parse_u8 : List ℕ → Option ℕ

abbrev pub v4_network : ℕ → ℕ → CidrResult
v4_network net prefix =
    if ltb 32 prefix
    then CidrResult.err (v4_prefix_range prefix)
    else if not (net % 2 ^ (32 - prefix) == 0)
    then CidrResult.err host_bits_set
    else CidrResult.ok (IpNetwork.v4 net prefix)

-- The shifts of a `u128` take their distance modulo 128.
abbrev pub v6_network : ℕ → ℕ → CidrResult
v6_network net prefix =
    if ltb 128 prefix
    then CidrResult.err (v6_prefix_range prefix)
    else (let distance = (128 - prefix) % 128 in
        if not (net == net / 2 ^ distance * 2 ^ distance)
        then CidrResult.err host_bits_set
        else CidrResult.ok (IpNetwork.v6 net prefix))

abbrev pub exact_address : Parsers → List ℕ → CidrResult
exact_address p text = elim (p.parse_v4 text) [
  | some a ↦ CidrResult.ok (IpNetwork.exact (IpAddr.v4 a))
  | none ↦ elim (p.parse_v6 text) [
    | some a ↦ CidrResult.ok (IpNetwork.exact (IpAddr.v6 a))
    | none ↦ CidrResult.err not_an_address
  ]
]

unfoldable pub parse_cidr : Parsers → List ℕ → CidrResult
parse_cidr p input = elim (split_once b'/' (p.trim input)) [
  | none ↦ exact_address p (p.trim input)
  | some (addr, prefix_text) ↦ elim (p.parse_u8 prefix_text) [
    | none ↦ CidrResult.err prefix_not_a_number
    | some prefix ↦ elim (p.parse_v4 addr) [
      | some net ↦ if contains addr b'.' then v4_network net prefix else CidrResult.err mixed
      | none ↦ elim (p.parse_v6 addr) [
        | some net ↦ v6_network net prefix
        | none ↦ CidrResult.err bad_address
      ]
    ]
  ]
]

abbrev pub matches : Parsers → IpAddr → List ℕ → Bool
matches p peer cidr = elim (parse_cidr p cidr) [
  | CidrResult.ok net ↦ contains_ip net peer
  | CidrResult.err _ ↦ false
]

unfoldable pub client_allowed : Parsers → IpAddr → List (List ℕ) → Bool
client_allowed p peer allowlist =
    if is_empty allowlist then true else any_of (matches p peer) allowlist
