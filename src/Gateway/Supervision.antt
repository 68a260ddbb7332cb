-- ===== src/Gateway/Supervision.antt =====
-- gateway/mod.rs: the supervised loop of the gateway and the calls that the reconciler makes on it. The
-- loop's place is `phase`. A pass is two steps: `read` takes the configuration, and `turn` goes from there
-- to the next wait, with what the two binds answer. Calls come in before, between and after them;
-- `notify_waiters` wakes the loop only where it waits.
pub mod Stopped
use mathlib.Core.Option.{get_or}
use warpdeck.Prelude.{
  ℕ, ◌+◌, min, Bool, true, false, not, ◌&&◌, Option, none, some, List, [], ◌∷◌, ◌==◌, list_eq,
  if◌then◌else◌,
}
use warpdeck.Prelude.Machine.{saturating_add_u32}

-- `ProxySettings` of reconciler/mod.rs; the pair is `ProxyAuth`.
pub record ProxySettings : Type 0 where
  pub socks5_enabled : Bool
  pub http_enabled : Bool
  pub auth : Option (List ℕ × List ℕ)
  pub allowlist : List (List ℕ)
  pub max_connections : Option ℕ
  pub max_rps : Option ℕ

-- The limits are made of their two settings, which stand for them.
pub record GatewayConfig : Type 0 where
  pub socks5_enabled : Bool
  pub http_enabled : Bool
  pub auth : Option (List ℕ × List ℕ)
  pub allowlist : List (List ℕ)
  pub limits : Option ℕ × Option ℕ

unfoldable pub from_settings : ProxySettings → GatewayConfig
from_settings s = record {
  socks5_enabled = s.socks5_enabled;
  http_enabled = s.http_enabled;
  auth = s.auth;
  allowlist = s.allowlist;
  limits = (s.max_connections, s.max_rps);
}

pub data Phase : Type 0 where
  top waiting backing_off ended : Phase
  -- In a pass, with the configuration that it has read.
  passing : Option GatewayConfig → Phase
  -- With the listener of SOCKS5, and that of HTTP if the second part says so.
  serving : GatewayConfig → Bool → Phase

pub record SharedState : Type 0 where
  pub config : Option GatewayConfig
  pub last_applied : Option ProxySettings
  pub stopped : Bool
  pub active : Bool
  pub last_error : Option (List ℕ)
  pub attempt : ℕ
  pub phase : Phase

abbrev pub bool_eq : Bool → Bool → Bool
bool_eq true b = b
bool_eq false b = not b

abbrev pub number_eq : Option ℕ → Option ℕ → Bool
number_eq none none = true
number_eq (some a) (some b) = a == b
number_eq _ _ = false

abbrev pub auth_eq : Option (List ℕ × List ℕ) → Option (List ℕ × List ℕ) → Bool
auth_eq none none = true
auth_eq (some (a, b)) (some (c, d)) = list_eq a c && list_eq b d
auth_eq _ _ = false

abbrev pub texts_eq : List (List ℕ) → List (List ℕ) → Bool
texts_eq [] [] = true
texts_eq (x ∷ xs) (y ∷ ys) = list_eq x y && texts_eq xs ys
texts_eq _ _ = false

unfoldable pub settings_eq : ProxySettings → ProxySettings → Bool
settings_eq s t =
    bool_eq s.socks5_enabled t.socks5_enabled
    && bool_eq s.http_enabled t.http_enabled
    && auth_eq s.auth t.auth
    && texts_eq s.allowlist t.allowlist
    && number_eq s.max_connections t.max_connections
    && number_eq s.max_rps t.max_rps

abbrev pub is_applied : ProxySettings → Option ProxySettings → Bool
is_applied s none = false
is_applied s (some t) = settings_eq t s

-- A wake-up takes the loop from a wait to its top, and is lost in a pass; one that serves forgets its
-- failed attempts.
abbrev pub woken : Phase → Phase
woken Phase.ended = Phase.ended
woken (Phase.passing cfg) = Phase.passing cfg
woken _ = Phase.top

abbrev pub woken_attempt : Phase → ℕ → ℕ
woken_attempt (Phase.serving cfg http) attempt = 0
woken_attempt _ attempt = attempt

abbrev pub wake : SharedState → SharedState
wake g = record g { phase = woken g.phase; attempt = woken_attempt g.phase g.attempt }

unfoldable pub apply_config : ProxySettings → SharedState → SharedState
apply_config s g =
    if is_applied s g.last_applied
    then g
    else wake (record g { last_applied = some s; config = some (from_settings s) })

unfoldable pub stop : SharedState → SharedState
stop g = wake (record g { stopped = true; last_applied = none; active = false })

abbrev pub next_attempt : ℕ → ℕ
next_attempt attempt = min (saturating_add_u32 attempt 1) 8

abbrev pub leave : SharedState → SharedState
leave g = record g { active = false; phase = Phase.ended }

-- What a bind answers: the text of its error, or nothing.
abbrev pub is_bound : Option (List ℕ) → Bool
is_bound none = true
is_bound (some e) = false

abbrev pub serve_config :
    GatewayConfig → Option (List ℕ) → Option (List ℕ) → SharedState → SharedState
serve_config cfg socks5_bind http_bind g = elim socks5_bind [
  | some e ↦ record g {
    last_error = some e;
    attempt = next_attempt g.attempt;
    phase = Phase.backing_off;
  }
  | none ↦ record g {
    active = true;
    last_error = none;
    phase = Phase.serving cfg (cfg.http_enabled && is_bound http_bind);
  }
]

-- The top of the loop.
unfoldable pub read : SharedState → SharedState
read g = elim g.phase [
  | Phase.top ↦ if g.stopped then leave g else record g { phase = Phase.passing g.config }
  | _ ↦ g
]

-- The rest of a pass.
unfoldable pub turn : Option (List ℕ) → Option (List ℕ) → SharedState → SharedState
turn socks5_bind http_bind g = elim g.phase [
  | Phase.passing config ↦ elim config [
    | none ↦ record g { phase = Phase.waiting }
    | some cfg ↦ serve_config cfg socks5_bind http_bind g
  ]
  | _ ↦ g
]

-- A listener's task ends by itself.
unfoldable pub task_exit : SharedState → SharedState
task_exit g = elim g.phase [
  | Phase.serving cfg http ↦ record g {
    attempt = next_attempt g.attempt;
    phase = Phase.backing_off;
  }
  | _ ↦ g
]

-- The backoff's time is over.
unfoldable pub elapse : SharedState → SharedState
elapse g = elim g.phase [ Phase.backing_off ↦ record g { phase = Phase.top } | _ ↦ g ]

-- The shutdown signal reaches a loop that waits.
unfoldable pub shut_down : SharedState → SharedState
shut_down g = elim g.phase [
  | Phase.top ↦ g
  | Phase.passing config ↦ g
  | Phase.ended ↦ g
  | _ ↦ leave g
]

pub data ProxyStatus : Type 0 where
  stopped : ProxyStatus
  running : ℕ → ProxyStatus
  failed : List ℕ → ProxyStatus

-- `status`, given the number of Healthy instances.
unfoldable pub status : ℕ → SharedState → ProxyStatus
status healthy_upstreams g =
    if g.stopped
    then ProxyStatus.stopped
    else if not g.active
    then elim g.last_error [ some reason ↦ ProxyStatus.failed reason | none ↦ ProxyStatus.stopped ]
    else ProxyStatus.running healthy_upstreams

pub data Event : Type 0 where
  apply : ProxySettings → Event
  stop_call reading exit elapsed shutdown : Event
  turned : Option (List ℕ) → Option (List ℕ) → Event

unfoldable pub step : Event → SharedState → SharedState
unfolding apply_config stop read turn task_exit elapse shut_down
step (apply s) g = apply_config s g
step stop_call g = stop g
step reading g = read g
step exit g = task_exit g
step elapsed g = elapse g
step shutdown g = shut_down g
step (turned socks5_bind http_bind) g = turn socks5_bind http_bind g

unfoldable pub steps : List Event → SharedState → SharedState
steps [] g = g
steps (e ∷ es) g = steps es (step e g)
