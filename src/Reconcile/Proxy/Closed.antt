-- ===== src/Reconcile/Proxy/Closed.antt =====
-- reconciler/mod.rs with gateway/mod.rs: a gateway that has to ask for a password never serves without.
use warpdeck.Prelude.{
  ℕ, ◌≡◌, ◌⊎◌, inl, inr, refl, Bool, true, false, Option, none, some, List, [], ◌∷◌, ◌&&◌, not,
  arith, subst, sym, All, Bool-cases,
}
use warpdeck.Runtime.Host.{done, refused}
use warpdeck.Gateway.Supervision.{
  ProxySettings, GatewayConfig, SharedState, Phase, Event, step, stop_call, reading, exit, elapsed,
  shutdown, turned, from_settings, apply_config, status, ProxyStatus,
}
use warpdeck.Gateway.Supervision
use warpdeck.Desired.Config.{ProxyConfig}
use warpdeck.Reconcile.Proxy.{
  ProxyApplier, builtin, Synced, Secret, sync_proxy, proxy_settings_from_config, with_auth,
}

-- With authentication enabled, a round leaves the gateway alone, stops it, or applies the settings with
-- the stored password; it applies them only if the secret store gives that password.
pub sync_proxy-auth :
    (ap : ProxyApplier) (now : List ℕ) (cfg : ProxyConfig) (secret : Secret) (y : Synced ap)
    → cfg.auth_enabled ≡ true
    → ((sync_proxy ap now (some cfg) secret y).gateway ≡ y.gateway)
      ⊎ (((sync_proxy ap now (some cfg) secret y).gateway ≡ (ap.stop y.gateway).1)
          ⊎ ((password : List ℕ) × (secret ≡ done (some password))
              × ((sync_proxy ap now (some cfg) secret y).gateway
                  ≡ (ap.apply_config
                      (with_auth cfg password (proxy_settings_from_config cfg))
                      y.gateway).1)))
unfolding sync_proxy
sync_proxy-auth ap now cfg (refused e) y on = ground arith
sync_proxy-auth ap now cfg (done none) y on = ground arith
sync_proxy-auth ap now cfg (done (some password)) y on =
    elim (Bool-cases (not cfg.socks5_enabled && not cfg.http_enabled)) [
      | inl off ↦ inr (inl (ground arith))
      | inr live ↦ inr (inr (password, refl, ground arith))
    ]

abbrev has_auth : GatewayConfig → Bool
has_auth cfg = elim cfg.auth [ none ↦ false | some a ↦ true ]

abbrev config_has_auth : Option GatewayConfig → Bool
config_has_auth none = true
config_has_auth (some cfg) = has_auth cfg

abbrev phase_has_auth : Phase → Bool
phase_has_auth (Phase.serving cfg http) = has_auth cfg
phase_has_auth (Phase.passing config) = config_has_auth config
phase_has_auth _ = true

-- What is configured, and what is served, asks for a password.
pub record IsGuarded (g : SharedState) : Type 0 where
  pub config : config_has_auth g.config ≡ true
  pub phase : phase_has_auth g.phase ≡ true

-- A round of the reconciler that reads a configuration, the secret store's answer and the time, or an event
-- of the gateway's own.
pub data Happening : Type 0 where
  sync : ProxyConfig → Secret → List ℕ → Happening
  event : Event → Happening

abbrev pub Demands : Happening → Type 0
Demands (sync cfg secret now) = cfg.auth_enabled ≡ true
Demands (event (Event.apply s)) = ⊥
Demands (event _) = Unit

unfoldable pub happen : Happening → Synced builtin → Synced builtin
unfolding sync_proxy step
happen (sync cfg secret now) y = sync_proxy builtin now (some cfg) secret y
happen (event e) y = record y { gateway = step e y.gateway }

unfoldable pub happenings : List Happening → Synced builtin → Synced builtin
happenings [] y = y
happenings (e ∷ es) y = happenings es (happen e y)

step-IsGuarded :
    (e : Event) (g : SharedState) → Demands (event e) → IsGuarded g → IsGuarded (step e g)
unfolding step
step-IsGuarded (Event.apply s) g d i = absurd d
step-IsGuarded stop_call g d i = ground arith
step-IsGuarded reading g d i = ground arith
step-IsGuarded exit g d i = ground arith
step-IsGuarded elapsed g d i = ground arith
step-IsGuarded shutdown g d i = ground arith
step-IsGuarded (turned a b) g d i = ground arith

apply_config-IsGuarded :
    (s : ProxySettings) (g : SharedState)
    → has_auth (from_settings s) ≡ true
    → IsGuarded g
    → IsGuarded (apply_config s g)
unfolding apply_config
apply_config-IsGuarded s g a i = ground arith

happen-IsGuarded :
    (e : Happening) (y : Synced builtin)
    → Demands e
    → IsGuarded y.gateway
    → IsGuarded (happen e y).gateway
unfolding happen
happen-IsGuarded (event e) y d i = step-IsGuarded e y.gateway d i
happen-IsGuarded (sync cfg secret now) y d i = elim (sync_proxy-auth builtin now cfg secret y d) [
  | inl same ↦ subst IsGuarded (sym same) i
  | inr (inl stopped) ↦ subst IsGuarded (sym stopped) (step-IsGuarded stop_call y.gateway tt i)
  | inr (inr (password, p, applied)) ↦ subst IsGuarded (sym applied) (
      apply_config-IsGuarded (with_auth cfg password (proxy_settings_from_config cfg)) y.gateway
        (unfold from_settings in refl) i)
]

-- The gateway of gateway/mod.rs under a reconciler that always reads a configuration with authentication
-- enabled, whatever the secret store answers and whatever happens to the gateway in between: from a
-- gateway that neither serves nor is configured without a password on, it never serves and is never
-- configured without one.
pub happenings-IsGuarded :
    (es : List Happening) (y : Synced builtin)
    → All Demands es
    → IsGuarded y.gateway
    → IsGuarded (happenings es y).gateway
unfolding happenings
happenings-IsGuarded [] y d i = i
happenings-IsGuarded (e ∷ es) y d i =
    happenings-IsGuarded es (happen e y) d.1 (happen-IsGuarded e y d.0 i)

happen_stopped :
    (e : Happening) (y : Synced builtin)
    → y.gateway.stopped ≡ true
    → (happen e y).gateway.stopped ≡ true
unfolding happen apply_config Supervision.stop
happen_stopped (event (Event.apply s)) y h = ground arith
happen_stopped (event stop_call) y h = ground arith
happen_stopped (event reading) y h = ground arith
happen_stopped (event exit) y h = ground arith
happen_stopped (event elapsed) y h = ground arith
happen_stopped (event shutdown) y h = ground arith
happen_stopped (event (turned a b)) y h = ground arith
happen_stopped (sync cfg (refused e) now) y h = ground arith
happen_stopped (sync cfg (done none) now) y h = ground arith
happen_stopped (sync cfg (done (some password)) now) y h = ground arith

status_of_stopped :
    (healthy : ℕ) (es : List Happening) (y : Synced builtin)
    → y.gateway.stopped ≡ true
    → status healthy (happenings es y).gateway ≡ ProxyStatus.stopped
unfolding happenings status
status_of_stopped healthy [] y h = ground arith
status_of_stopped healthy (e ∷ es) y h =
    status_of_stopped healthy es (happen e y) (happen_stopped e y h)

-- Once a round has found both listeners disabled the gateway stays stopped for good: after any later rounds
-- and events its status is Stopped, whichever listeners the configuration enables again.
pub happenings-disabled :
    (cfg : ProxyConfig) (secret : Secret) (now : List ℕ) (es : List Happening) (y : Synced builtin)
    (healthy : ℕ)
    → cfg.socks5_enabled ≡ false
    → cfg.http_enabled ≡ false
    → status healthy (happenings es (happen (sync cfg secret now) y)).gateway ≡ ProxyStatus.stopped
unfolding happen Supervision.stop
happenings-disabled cfg secret now es y healthy s h =
    status_of_stopped healthy es (happen (sync cfg secret now) y) (ground arith)
