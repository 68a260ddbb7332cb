-- ===== src/Gateway/Socks5/Session.antt =====
-- gateway/socks5.rs: `handle_conn`, stage by stage.
pub mod Tunnels
use warpdeck.Prelude.{
  ℕ, ◌+◌, ◌*◌, Bool, true, false, not, ◌&&◌, ◌||◌, Option, none, some, List, [], ◌∷◌, ◌++◌, ◌==◌,
  contains, split_at?, if◌then◌else◌,
}
use warpdeck.Runtime.Registry.{Registry}
use warpdeck.Gateway.Pool.{RoundRobinPool, Upstream, pick}
use warpdeck.Gateway.Auth.{verify_credentials}
use warpdeck.Gateway.Socks5.{
  Method, no_auth, user_pass, Target, ver, subneg_ver, counted, read_target_addr, general_failure,
  not_supported, success,
}

-- A stage closes the session, or goes on with a value and the rest of the input. Both say what it has
-- written.
pub data Stage (A : Type 0) : Type 0 where
  closed : List ℕ → Stage A
  go : A → List ℕ → List ℕ → Stage A

abbrev pub choose : Bool → List ℕ → List ℕ → Stage Method
choose want_auth methods rest =
    if want_auth && contains methods 2
    then go user_pass (ver ∷ 2 ∷ []) rest
    else if not want_auth && contains methods 0
    then go no_auth (ver ∷ 0 ∷ []) rest
    else closed (ver ∷ 255 ∷ [])

unfoldable pub negotiate : Bool → List ℕ → Stage Method
negotiate want_auth (v ∷ nmethods ∷ input) =
    if not (v == ver) then closed [] else elim (split_at? nmethods input) [
      | none ↦ closed []
      | some (methods, rest) ↦ choose want_auth methods rest
    ]
negotiate want_auth _ = closed []

abbrev pub check_pass : List ℕ × List ℕ → List ℕ → List ℕ → Stage (Unit {0})
check_pass expected user input = elim (counted input) [
  | none ↦ closed []
  | some (pass, rest) ↦
      if not (verify_credentials (some expected) user pass)
      then closed (subneg_ver ∷ 1 ∷ [])
      else go tt (subneg_ver ∷ 0 ∷ []) rest
]

unfoldable pub authenticate : List ℕ × List ℕ → List ℕ → Stage (Unit {0})
authenticate expected (v ∷ input) =
    if not (v == subneg_ver) then closed [] else elim (counted input) [
      | none ↦ closed []
      | some (user, rest) ↦ check_pass expected user rest
    ]
authenticate expected [] = closed []

-- The negotiation of RFC 1929 where the method asks for it.
unfoldable pub admit : Option (List ℕ × List ℕ) → Method → List ℕ → Stage (Unit {0})
admit auth no_auth input = go tt [] input
admit none user_pass input = closed []
admit (some expected) user_pass input = authenticate expected input

abbrev pub read_port : Target → List ℕ → Stage (Target × ℕ)
read_port target (hi ∷ lo ∷ rest) = go (target, hi * 256 + lo) [] rest
read_port target _ = closed []

unfoldable pub read_request : (List ℕ → List ℕ) → List ℕ → Stage (Target × ℕ)
read_request decode (v ∷ cmd ∷ rsv ∷ atyp ∷ input) =
    if not (v == ver) || not (cmd == 1)
    then closed not_supported
    else elim (read_target_addr decode atyp input) [
      | none ↦ closed []
      | some (target, rest) ↦ read_port target rest
    ]
read_request decode _ = closed not_supported

pub record Tunnel : Type 0 where
  pub upstream : Upstream
  pub target : Target
  pub port : ℕ

-- `permit_asked` says whether the limits were asked, `tunnel` what is forwarded in the end.
pub record Ended : Type 0 where
  pub output : List ℕ
  pub pool : RoundRobinPool
  pub permit_asked : Bool
  pub tunnel : Option Tunnel

pub record Client : Type 0 where
  pub allowed : Bool
  pub auth : Option (List ℕ × List ℕ)
  pub written : Bool
  -- The answer of the limits, if there are any.
  pub permit : Option Bool

abbrev pub is_rejected : Option Bool → Bool
is_rejected none = false
is_rejected (some granted) = not granted

abbrev pub is_some {ℓ} : {A : Type ℓ} → Option A → Bool
is_some none = false
is_some (some a) = true

module _ (decode : List ℕ → List ℕ) (dial : Upstream → Target → ℕ → Bool)
    (registry : Registry) where
  -- The choice of the upstream, the dial, and the answer.
  unfoldable pub connect_upstream : Target → ℕ → List ℕ → RoundRobinPool → Ended
  connect_upstream target port output pool =
      let (picked, next) = pick registry pool in
      let failed : Ended = record {
        output = output ++ general_failure;
        pool = next;
        permit_asked = true;
        tunnel = none;
      } in
      elim picked [
        | none ↦ failed
        | some upstream ↦
            if dial upstream target port
            then record {
              output = output ++ success;
              pool = next;
              permit_asked = true;
              tunnel = some (record { upstream = upstream; target = target; port = port });
            }
            else failed
      ]

  -- From the limits on.
  unfoldable pub serve_request : Client → List ℕ → List ℕ → RoundRobinPool → Ended
  serve_request client output input pool =
      let stop : List ℕ → Ended =
        λ out. record { output = out; pool = pool; permit_asked = true; tunnel = none } in
      if is_rejected client.permit then stop output else elim (read_request decode input) [
        | closed answer ↦ stop (output ++ answer)
        | go (target, port) _ _ ↦ connect_upstream target port output pool
      ]

  unfoldable pub handle_conn : Client → List ℕ → RoundRobinPool → Ended
  handle_conn client input pool =
      let stop : List ℕ → Ended =
        λ out. record { output = out; pool = pool; permit_asked = false; tunnel = none } in
      if not client.allowed then stop [] else elim (negotiate (is_some client.auth) input) [
        | closed answer ↦ stop answer
        | go method greeting rest ↦
            if not client.written then stop greeting else elim (admit client.auth method rest) [
              | closed answer ↦ stop (greeting ++ answer)
              | go _ answer more ↦ serve_request client (greeting ++ answer) more pool
            ]
      ]
