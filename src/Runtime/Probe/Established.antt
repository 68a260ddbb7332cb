-- ===== src/Runtime/Probe/Established.antt =====
-- runtime/probe/socks5.rs: a handshake with a server that answers as the protocol says.
use warpdeck.Prelude.{
  ℕ, suc, ◌+◌, ◌%◌, ◌≡◌, refl, Option, none, some, List, [], ◌∷◌, ◌++◌, length, split_at?, arith,
}
use warpdeck.Gateway.Socks5.{Target, connect_request}
use warpdeck.Gateway.Socks5.Address.{IsReadable, address}
use warpdeck.Runtime.Probe.{
  IpLiteral, Answer, ask, greeting, request, read_bound, skip_bound, read_reply, handshake,
}

-- What the gateway calls the target that the probe asks for.
abbrev pub target_of : Option IpLiteral → List ℕ → Target
target_of (some (IpLiteral.v4 o)) host = Target.v4 o
target_of (some (IpLiteral.v6 o)) host = Target.v6 o
target_of none host = Target.domain host

request-connect_request :
    (ip : Option IpLiteral) (host : List ℕ) (port : ℕ)
    → IsReadable (λ d. d) (target_of ip host)
    → request ip host port ≡ some (connect_request (target_of ip host) port)
unfolding request connect_request
request-connect_request (some (IpLiteral.v4 o)) host port fits = refl
request-connect_request (some (IpLiteral.v6 o)) host port fits = refl
request-connect_request none host port (short, same) = ground (arith, short)

split_at?-two :
    (a : List ℕ) (p q : ℕ) (rest : List ℕ)
    → split_at? (length a + 2) (a ++ p ∷ q ∷ rest) ≡ some (a ++ p ∷ q ∷ [], rest)
split_at?-two [] p q rest = refl
split_at?-two (x ∷ a) p q rest =
    let n : length (x ∷ a) + 2 ≡ suc (length a + 2) = omega arith in
    ground (arith, n, split_at?-two a p q rest)

read_bound-append :
    (a : List ℕ) (p q : ℕ) (rest : List ℕ)
    → read_bound (length a) (a ++ p ∷ q ∷ rest) ≡ Answer.connected rest
read_bound-append a p q rest = rw (read_bound, split_at?-two a p q rest) refl

-- The client reads the server's address, of any kind, and its port to the end, and not a byte further.
skip_bound-address :
    (bound : Target) (p q : ℕ) (rest : List ℕ)
    → IsReadable (λ d. d) bound
    → read_reply (5 ∷ 0 ∷ 0 ∷ (address bound ++ p ∷ q ∷ rest)) ≡ Answer.connected rest
unfolding read_reply skip_bound
skip_bound-address (Target.v4 o) p q rest short = rw short at (read_bound-append o p q rest)
skip_bound-address (Target.v6 o) p q rest short = rw short at (read_bound-append o p q rest)
skip_bound-address (Target.domain d) p q rest (short, same) =
    let n : length d % 256 ≡ length d = omega arith in rw n (read_bound-append d p q rest)

-- For a target that is an address, or else a name of fewer than 256 bytes, and a server that takes the
-- greeting and the request, whatever address it has bound: the client writes its greeting and the very
-- request that the gateway writes to its upstreams, and the tunnel begins with the first byte that
-- the server sends after its reply.
pub handshake-connected :
    (parse : List ℕ → Option IpLiteral) (host : List ℕ) (port : ℕ) (bound : Target) (p q : ℕ)
    (rest : List ℕ)
    → IsReadable (λ d. d) (target_of (parse host) host)
    → IsReadable (λ d. d) bound
    → handshake parse host port (5 ∷ 0 ∷ 5 ∷ 0 ∷ 0 ∷ (address bound ++ p ∷ q ∷ rest))
      ≡ (greeting ∷ connect_request (target_of (parse host) host) port ∷ [], Answer.connected rest)
unfolding handshake ask connect_request
handshake-connected parse host port bound p q rest fits readable =
    rw
      (
        request-connect_request (parse host) host port fits,
        skip_bound-address bound p q rest readable,
      )
      refl
