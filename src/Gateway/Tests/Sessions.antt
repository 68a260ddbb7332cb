-- ===== src/Gateway/Tests/Sessions.antt =====
-- net.rs, the gateway's credentials and gateway/socks5.rs at concrete inputs.
use warpdeck.Prelude.{
  ℕ, take, drop, ◌%◌, ◌+◌, ◌-◌, ◌*◌, ◌^◌, ◌≤◌, ◌<◌, ◌≡◌, ◌↔◌, refl, Bool, true, false, some, List,
  [], ◌∷◌, ◌++◌, length, replicate, arith,
}
use warpdeck.Runtime.Registry.{Registry, IpAddr, RuntimeState, stopped_runtime, with_state}
use warpdeck.Gateway.Pool.{Upstream, new, pick}
use warpdeck.Gateway.Net.{IpNetwork, contains_ip}
use warpdeck.Gateway.Net.Contains.{contains_ip-v4_iff}
use warpdeck.Gateway.Auth.{ct_eq, verify_credentials}
use warpdeck.Gateway.Socks5.{Target, user_pass, read_target_addr}
use warpdeck.Gateway.Socks5.Address.{address, read_address, read_address-long}
use warpdeck.Gateway.Socks5.Session.{
  Client, Tunnel, go, negotiate, authenticate, admit, handle_conn, serve_request, read_request,
  connect_upstream, is_rejected,
}
use warpdeck.Gateway.Socks5.Session.Tunnels.{handle_conn-authenticated}

contains_ip-v4_iff_example :
    (contains_ip (IpNetwork.v4 (10 * 2 ^ 24) 8) (IpAddr.v4 (10 * 2 ^ 24 + 5)) ≡ true)
    ↔ ((10 * 2 ^ 24 ≤ 10 * 2 ^ 24 + 5) × (10 * 2 ^ 24 + 5 < 10 * 2 ^ 24 + 2 ^ (32 - 8)))
contains_ip-v4_iff_example =
    contains_ip-v4_iff (10 * 2 ^ 24) 8 (10 * 2 ^ 24 + 5) (IpNetwork.v4 (10 * 2 ^ 24) 8)
      (omega arith) (omega arith) refl

abbrev name : List ℕ
name = 1 ∷ []

abbrev secret : List ℕ
secret = 2 ∷ 3 ∷ []

abbrev long_name : List ℕ
long_name = replicate 300 97

as_is : List ℕ → List ℕ
as_is text = text

read_address-long_example :
    read_address as_is (address (Target.domain long_name) ++ 0 ∷ 80 ∷ [])
    ≡ some (
      Target.domain (as_is (take (length long_name % 256) long_name)),
      drop (length long_name % 256) long_name ++ 0 ∷ 80 ∷ [],
    )
read_address-long_example = read_address-long as_is long_name (0 ∷ 80 ∷ []) (omega arith)

abbrev one_healthy : Registry
one_healthy = (7, with_state RuntimeState.healthy stopped_runtime) ∷ []

abbrev visitor : Client
visitor = record {
  allowed = true;
  auth = some (117 ∷ [], 112 ∷ []);
  written = true;
  permit = some true;
}

abbrev sent_bytes : List ℕ
sent_bytes = 5 ∷ 1 ∷ 2 ∷ 1 ∷ 1 ∷ 117 ∷ 1 ∷ 112 ∷ 5 ∷ 1 ∷ 0 ∷ 1 ∷ 1 ∷ 2 ∷ 3 ∷ 4 ∷ 0 ∷ 80 ∷ []

abbrev any_upstream : Upstream → Target → ℕ → Bool
any_upstream u t p = true

abbrev opened : Tunnel
opened = record {
  upstream = record { instance_id = 7; port = 40007 };
  target = Target.v4 (1 ∷ 2 ∷ 3 ∷ 4 ∷ []);
  port = 80;
}

handle_conn-authenticated_example :
    (true ≡ true)
    × (is_rejected (some true) ≡ false)
    × ((pick one_healthy new).0 ≡ some opened.upstream)
    × (any_upstream opened.upstream opened.target 80 ≡ true)
    × ((greeting : List ℕ) × (sent : List ℕ) × (user : List ℕ) × (pass : List ℕ) × (more : List ℕ)
        × (negotiate true sent_bytes ≡ go user_pass greeting sent)
        × (sent ≡ 1 ∷ length user ∷ (user ++ length pass ∷ (pass ++ more)))
        × (verify_credentials (some (117 ∷ [], 112 ∷ [])) user pass ≡ true))
unfolding handle_conn negotiate admit authenticate verify_credentials ct_eq serve_request
    read_request read_target_addr connect_upstream pick as_is
handle_conn-authenticated_example =
    handle_conn-authenticated as_is any_upstream one_healthy visitor (117 ∷ []) (112 ∷ [])
      sent_bytes new opened refl refl
