-- ===== src/Gateway/Http/Session.antt =====
-- gateway/http.rs: `handle_conn` from the request's head on.
pub mod Admitted
use warpdeck.Prelude.{
  ℕ, Bool, true, false, not, ◌&&◌, Option, none, some, List, [], ◌∷◌, ◌++◌, any_of, list_eq,
  is_empty, codes, if◌then◌else◌,
}
use warpdeck.Runtime.Registry.{Registry}
use warpdeck.Gateway.Pool.{RoundRobinPool, Upstream, pick}
use warpdeck.Prelude.Text.{
  starts_with, strip_prefix, to_ascii_lowercase, take_until, drop_until, is_ascii_whitespace, trim,
  trim_end_matches, lines, first_of,
}
use warpdeck.Gateway.Http.{read_head, split_host_port, extract_absolute_uri_host_port}
use warpdeck.Gateway.Http.Base64.{base64_encode}

-- The answers of the gateway, by their status.
pub data Response : Type 0 where
  proxy_authentication_required service_unavailable bad_request : Response
  bad_gateway connection_established : Response

-- `forwarded` is what is written to the upstream before the two streams are copied.
pub record Tunnel : Type 0 where
  pub upstream : Upstream
  pub host : List ℕ
  pub port : ℕ
  pub forwarded : List ℕ

pub record Ended : Type 0 where
  pub response : Option Response
  pub pool : RoundRobinPool
  pub permit_asked : Bool
  pub tunnel : Option Tunnel

pub record Client : Type 0 where
  pub allowed : Bool
  pub auth : Option (List ℕ × List ℕ)
  -- The answer of the limits, if there are any.
  pub permit : Option Bool

-- What is taken from the standard library and the network.
pub record Environment : Type 0 where
  pub decode : List ℕ → List ℕ
  pub is_whitespace : ℕ → Bool
  pub parse_addr : List ℕ → Option (List ℕ × ℕ)
  pub dial : Upstream → List ℕ → ℕ → Bool

unfoldable pub expected_token : List ℕ × List ℕ → List ℕ
expected_token (user, pass) = codes "Basic " ++ base64_encode (user ++ b':' ∷ pass)

abbrev pub header_name : List ℕ
header_name = codes "proxy-authorization:"

unfoldable pub is_token_line : (ℕ → Bool) → List ℕ → List ℕ → Bool
is_token_line is_whitespace token line =
    starts_with header_name (to_ascii_lowercase line)
    && list_eq (trim_end_matches 13 (trim is_whitespace (drop_until is_ascii_whitespace line)))
        token

unfoldable pub is_admitted : (ℕ → Bool) → Option (List ℕ × List ℕ) → List (List ℕ) → Bool
unfolding is_token_line expected_token
is_admitted is_whitespace none ls = true
is_admitted is_whitespace (some credentials) ls =
    any_of (is_token_line is_whitespace (expected_token credentials)) ls

-- `split_whitespace().next()`.
abbrev pub first_word : (ℕ → Bool) → List ℕ → Option (List ℕ)
first_word is_whitespace s =
    let from = drop_until (λ (c : ℕ). not (is_whitespace c)) s in
    if is_empty from then none else some (take_until is_whitespace from)

abbrev pub is_connect : List ℕ → Bool
is_connect first_line = starts_with (codes "CONNECT ") first_line

unfoldable pub target_of : (ℕ → Bool) → List ℕ → Option (List ℕ)
unfolding extract_absolute_uri_host_port
target_of is_whitespace first_line =
    if is_connect first_line
    then elim (strip_prefix (codes "CONNECT ") first_line) [
      | none ↦ none
      | some rest ↦ first_word is_whitespace rest
    ]
    else extract_absolute_uri_host_port first_line

abbrev pub is_refused : Option Bool → Bool
is_refused none = false
is_refused (some granted) = not granted

module _ (env : Environment) (registry : Registry) where
  -- The choice of the upstream, the dial, and the answer.
  unfoldable pub connect_upstream : List ℕ → List ℕ → RoundRobinPool → Ended
  unfolding split_host_port
  connect_upstream head host_port pool =
      let (picked, next) = pick registry pool in
      let (host, port) = split_host_port env.parse_addr host_port in
      let tunnelled = is_connect (first_of (lines head)) in
      let failed : Ended = record {
        response = some bad_gateway;
        pool = next;
        permit_asked = true;
        tunnel = none;
      } in
      elim picked [
        | none ↦ failed
        | some upstream ↦
            if env.dial upstream host port
            then record {
              response = if tunnelled then some connection_established else none;
              pool = next;
              permit_asked = true;
              tunnel = some (record {
                upstream = upstream;
                host = host;
                port = port;
                forwarded = if tunnelled then [] else head;
              });
            }
            else failed
      ]

  -- `request_head` is the decoded buffer.
  unfoldable pub serve_request : Client → List ℕ → RoundRobinPool → Ended
  unfolding is_admitted target_of connect_upstream
  serve_request client head pool =
      let stop : Bool → Response → Ended =
        λ asked r. record { response = some r; pool = pool; permit_asked = asked; tunnel = none } in
      if not (is_admitted env.is_whitespace client.auth (lines head))
      then stop false proxy_authentication_required
      else if is_refused client.permit
      then stop true service_unavailable
      else elim (target_of env.is_whitespace (first_of (lines head))) [
        | none ↦ stop true bad_request
        | some host_port ↦ connect_upstream head host_port pool
      ]

  unfoldable pub handle_conn : Client → List (List ℕ) → RoundRobinPool → Ended
  unfolding read_head serve_request
  handle_conn client chunks pool =
      let silent : Ended = record {
        response = none;
        pool = pool;
        permit_asked = false;
        tunnel = none;
      } in
      if not client.allowed then silent else elim (read_head chunks []) [
        | none ↦ silent
        | some (buf, _) ↦ serve_request client (env.decode buf) pool
      ]
