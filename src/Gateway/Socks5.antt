-- ===== src/Gateway/Socks5.antt =====
-- gateway/socks5.rs: one SOCKS5 session. The client's stream is the bytes that it sends; what the gateway
-- writes is a list of bytes. `from_utf8_lossy` (`decode`), the allowlist's test, the connection limit's
-- answer and the dialling of an upstream, with its network, are parameters; `written` says whether the
-- client takes the answer to its greeting.
pub mod Address
pub mod Session
use warpdeck.Prelude.{
  ℕ, zero, suc, ◌+◌, ◌*◌, ◌/◌, ◌%◌, Bool, true, false, not, ◌&&◌, ◌||◌, Option, none, some, List,
  [], ◌∷◌, ◌++◌, ◌==◌, contains, length, split_at?, if◌then◌else◌,
}
use warpdeck.Runtime.Registry.{Registry}
use warpdeck.Gateway.Pool.{RoundRobinPool, Upstream, pick}
use warpdeck.Gateway.Auth.{verify_credentials}

abbrev pub ver : ℕ
ver = 5

abbrev pub subneg_ver : ℕ
subneg_ver = 1

pub data Method : Type 0 where
  no_auth user_pass : Method

-- A domain is the bytes of its text.
pub data Target : Type 0 where
  v4 domain v6 : List ℕ → Target

-- `req` grows at its end; the length's cast to a byte wraps.
abbrev pub push_into : Target → List ℕ → List ℕ
push_into (Target.v4 o) req = req ++ 1 ∷ o
push_into (Target.domain d) req = req ++ 3 ∷ length d % 256 ∷ d
push_into (Target.v6 o) req = req ++ 4 ∷ o

abbrev pub byte : List ℕ → Option (ℕ × List ℕ)
byte [] = none
byte (x ∷ xs) = some (x, xs)

-- A length byte and as many bytes.
abbrev pub counted : List ℕ → Option (List ℕ × List ℕ)
counted [] = none
counted (n ∷ input) = split_at? n input

abbrev pub read_domain : (List ℕ → List ℕ) → List ℕ → Option (Target × List ℕ)
read_domain decode input = elim (counted input) [
  | none ↦ none
  | some (d, rest) ↦ some (Target.domain (decode d), rest)
]

abbrev pub read_fixed : ℕ → (List ℕ → Target) → List ℕ → Option (Target × List ℕ)
read_fixed n f input = elim (split_at? n input) [ none ↦ none | some (o, rest) ↦ some (f o, rest) ]

unfoldable pub read_target_addr : (List ℕ → List ℕ) → ℕ → List ℕ → Option (Target × List ℕ)
read_target_addr decode atyp input =
    if atyp == 1
    then read_fixed 4 Target.v4 input
    else if atyp == 3
    then read_domain decode input
    else if atyp == 4
    then read_fixed 16 Target.v6 input
    else none

-- The request that `dial_socks5_connect` writes after its greeting.
unfoldable pub connect_request : Target → ℕ → List ℕ
connect_request target port = push_into target (ver ∷ 1 ∷ 0 ∷ []) ++ port / 256 ∷ port % 256 ∷ []

-- The answers of an upstream to the greeting and to the request: what of it makes the dial succeed.
unfoldable pub dial_socks5_connect : List ℕ → Bool
dial_socks5_connect answers = elim (split_at? 2 answers) [
  | none ↦ false
  | some (resp, rest) ↦ if not (second resp == 0) then false else elim (split_at? 4 rest) [
    | none ↦ false
    | some (head, more) ↦
        if not (second head == 0)
        then false
        else elim (split_at? 6 more) [ none ↦ false | some _ ↦ true ]
  ]
]
  where
    second : List ℕ → ℕ
    second (x ∷ y ∷ r) = y
    second _ = 0

abbrev pub general_failure : List ℕ
general_failure = ver ∷ 1 ∷ 0 ∷ 1 ∷ 0 ∷ 0 ∷ 0 ∷ 0 ∷ 0 ∷ 0 ∷ []

abbrev pub not_supported : List ℕ
not_supported = ver ∷ 7 ∷ 0 ∷ 1 ∷ 0 ∷ 0 ∷ 0 ∷ 0 ∷ 0 ∷ 0 ∷ []

abbrev pub success : List ℕ
success = ver ∷ 0 ∷ 0 ∷ 1 ∷ 127 ∷ 0 ∷ 0 ∷ 1 ∷ 0 ∷ 0 ∷ []
