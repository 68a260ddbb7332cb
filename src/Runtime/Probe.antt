-- ===== src/Runtime/Probe.antt =====
-- runtime/probe/socks5.rs: the SOCKS5 client of the data plane's probe. The stream is the bytes that the
-- server answers and the messages that the client writes, which the server takes. The parser of an
-- address (`host.parse::<IpAddr>`), of the standard library, is a parameter.
pub mod Established
use warpdeck.Prelude.{
  ℕ, ◌+◌, ◌/◌, ◌%◌, Bool, true, false, not, ◌||◌, Option, none, some, List, [], ◌∷◌, ◌++◌, ◌==◌,
  ltb, length, split_at?, if◌then◌else◌,
}

-- The bytes of an address of either family.
pub data IpLiteral : Type 0 where
  v4 v6 : List ℕ → IpLiteral

pub data ProbeError : Type 0 where
  unexpected_eof host_too_long invalid_version : ProbeError
  no_auth_not_accepted rejected unsupported_atyp : ℕ → ProbeError

-- A tunnel, with what the server has sent into it already.
pub data Answer : Type 0 where
  connected : List ℕ → Answer
  failed : ProbeError → Answer

abbrev pub greeting : List ℕ
greeting = 5 ∷ 1 ∷ 0 ∷ []

abbrev pub to_be_bytes : ℕ → List ℕ
to_be_bytes port = port / 256 ∷ port % 256 ∷ []

-- `none` for a name that is too long.
unfoldable pub request : Option IpLiteral → List ℕ → ℕ → Option (List ℕ)
request (some (v4 o)) host port = some ((5 ∷ 1 ∷ 0 ∷ 1 ∷ o) ++ to_be_bytes port)
request (some (v6 o)) host port = some ((5 ∷ 1 ∷ 0 ∷ 4 ∷ o) ++ to_be_bytes port)
request none host port =
    if ltb 255 (length host)
    then none
    else some ((5 ∷ 1 ∷ 0 ∷ 3 ∷ length host % 256 ∷ host) ++ to_be_bytes port)

abbrev pub read_bound : ℕ → List ℕ → Answer
read_bound bnd_len input = elim (split_at? (bnd_len + 2) input) [
  | none ↦ failed unexpected_eof
  | some (bnd, rest) ↦ connected rest
]

abbrev pub read_counted : List ℕ → Answer
read_counted [] = failed unexpected_eof
read_counted (len ∷ input) = read_bound len input

-- The address that the server has bound, after the reply's head.
unfoldable pub skip_bound : ℕ → List ℕ → Answer
skip_bound atyp input =
    if atyp == 1
    then read_bound 4 input
    else if atyp == 4
    then read_bound 16 input
    else if atyp == 3
    then read_counted input
    else failed (unsupported_atyp atyp)

unfoldable pub read_reply : List ℕ → Answer
unfolding skip_bound
read_reply (version ∷ rep ∷ rsv ∷ atyp ∷ input) =
    if not (version == 5)
    then failed invalid_version
    else if not (rep == 0)
    then failed (rejected rep)
    else skip_bound atyp input
read_reply _ = failed unexpected_eof

-- The messages that are written, and what becomes of the tunnel.
abbrev pub ask : Option (List ℕ) → List ℕ → List (List ℕ) × Answer
unfolding read_reply
ask none answers = (greeting ∷ [], failed host_too_long)
ask (some message) answers = (greeting ∷ message ∷ [], read_reply answers)

unfoldable pub handshake :
    (List ℕ → Option IpLiteral) → List ℕ → ℕ → List ℕ → List (List ℕ) × Answer
unfolding request
handshake parse host port (version ∷ method ∷ answers) =
    if not (version == 5) || not (method == 0)
    then (greeting ∷ [], failed (no_auth_not_accepted method))
    else ask (request (parse host) host port) answers
handshake parse host port _ = (greeting ∷ [], failed unexpected_eof)
