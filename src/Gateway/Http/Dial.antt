-- ===== src/Gateway/Http/Dial.antt =====
-- gateway/http.rs: `dial_socks5`, by the bytes that it writes and the bytes that the upstream answers.
use mathlib.Core.List.{append_assoc}
use warpdeck.Prelude.{
  ℕ, ◌+◌, ◌%◌, ◌<◌, ◌≡◌, not, Option, none, some, List, [], ◌∷◌, ◌++◌, ◌==◌, length, length-append,
  split_at?, if◌then◌else◌, arith,
}
use warpdeck.Gateway.Socks5.{Target, connect_request, push_into}
use warpdeck.Gateway.Socks5.Address.{split_at?-append}

-- The parsers of `Ipv4Addr` and `Ipv6Addr` give the octets.
unfoldable pub dial_target :
    (List ℕ → Option (List ℕ)) → (List ℕ → Option (List ℕ)) → List ℕ → Target
dial_target parse_v4 parse_v6 host = elim (parse_v4 host) [
  | some o ↦ Target.v4 o
  | none ↦ elim (parse_v6 host) [ some o ↦ Target.v6 o | none ↦ Target.domain host ]
]

abbrev pub greeting : List ℕ
greeting = 5 ∷ 1 ∷ 0 ∷ []

-- What goes to the upstream before the tunnel is open.
unfoldable pub dial_request :
    (List ℕ → Option (List ℕ)) → (List ℕ → Option (List ℕ)) → List ℕ → ℕ → List ℕ
unfolding dial_target connect_request
dial_request parse_v4 parse_v6 host port =
    greeting ++ connect_request (dial_target parse_v4 parse_v6 host) port

abbrev pub discard : ℕ → List ℕ → Option (List ℕ)
discard n input = elim (split_at? n input) [ none ↦ none | some (_, rest) ↦ some rest ]

-- The bytes after the head of the answer: as many as the kind of its address asks for.
abbrev pub skip_domain : List ℕ → Option (List ℕ)
skip_domain [] = none
skip_domain (n ∷ input) = discard (n + 2) input

abbrev pub skip_address : ℕ → List ℕ → Option (List ℕ)
skip_address atyp input =
    if atyp == 1
    then discard 6 input
    else if atyp == 3
    then skip_domain input
    else if atyp == 4
    then discard 16 input
    else discard 6 input

abbrev pub read_reply : List ℕ → Option (List ℕ)
read_reply (v ∷ rep ∷ rsv ∷ atyp ∷ input) = if not (rep == 0) then none else skip_address atyp input
read_reply _ = none

-- From the upstream's answers to the first byte that is forwarded to the client; nothing where the dial
-- fails.
unfoldable pub dial_socks5 : List ℕ → Option (List ℕ)
dial_socks5 (v ∷ method ∷ input) = if not (method == 0) then none else read_reply input
dial_socks5 _ = none

-- The answers of an upstream that accepts: no authentication, then success with its address and port.
abbrev pub accepting : Target → ℕ → ℕ → List ℕ → List ℕ
accepting bound hi lo rest = 5 ∷ 0 ∷ push_into bound (5 ∷ 0 ∷ 0 ∷ []) ++ hi ∷ lo ∷ rest

discard-append :
    (n : ℕ) (a : List ℕ) (hi lo : ℕ) (rest : List ℕ)
    → n ≡ length a + 2
    → discard n (a ++ hi ∷ lo ∷ rest) ≡ some rest
discard-append n a hi lo rest e =
    let b = hi ∷ lo ∷ [] in
    let m : n ≡ length (a ++ b) = omega (arith, length-append a b, e) in
    let q : split_at? n ((a ++ b) ++ rest) ≡ some (a ++ b, rest) =
      rw m (split_at?-append (a ++ b) rest) in
    let r : split_at? n (a ++ hi ∷ lo ∷ rest) ≡ some (a ++ b, rest) = rw append_assoc at q in
    ground (arith, r)

abbrev pub IsPlain : Target → Type 0
IsPlain (Target.v4 o) = length o ≡ 4
IsPlain (Target.domain d) = length d < 256
IsPlain (Target.v6 o) = ⊥

-- Whatever an upstream sends after its answer with an IPv4 address or a domain of at most 255 bytes is what
-- the client gets.
pub dial_socks5-accepting :
    (bound : Target) (hi lo : ℕ) (rest : List ℕ)
    → IsPlain bound
    → dial_socks5 (accepting bound hi lo rest) ≡ some rest
unfolding dial_socks5
dial_socks5-accepting (Target.v4 o) hi lo rest plain =
    discard-append 6 o hi lo rest (omega (arith, plain))
dial_socks5-accepting (Target.domain d) hi lo rest plain =
    discard-append (length d % 256 + 2) d hi lo rest (omega arith)
dial_socks5-accepting (Target.v6 o) hi lo rest plain = absurd plain

-- After an answer with an IPv6 address the client gets the two bytes of the upstream's port first.
pub dial_socks5-v6 :
    (o : List ℕ) (hi lo : ℕ) (rest : List ℕ)
    → length o ≡ 16
    → dial_socks5 (accepting (Target.v6 o) hi lo rest) ≡ some (hi ∷ lo ∷ rest)
unfolding dial_socks5
dial_socks5-v6 o hi lo rest n =
    let q : split_at? 16 (o ++ hi ∷ lo ∷ rest) ≡ some (o, hi ∷ lo ∷ rest) =
      rw n at (split_at?-append o (hi ∷ lo ∷ rest)) in
    ground (arith, q)
