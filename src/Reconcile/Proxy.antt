-- ===== src/Reconcile/Proxy.antt =====
-- reconciler/mod.rs: `sync_proxy`, the reconciler's side of the gateway. The database's answer, the secret
-- store's answer and the clock's text are arguments.
pub mod Closed
use mathlib.Core.Option.{get_or}
use warpdeck.Prelude.{
  ℕ, Bool, true, false, not, ◌&&◌, Option, none, some, List, [], ◌∷◌, if◌then◌else◌,
}
use warpdeck.Runtime.Host.{Attempt, done, refused}
use warpdeck.Gateway.Supervision.{ProxySettings, SharedState}
use warpdeck.Gateway.Supervision
use warpdeck.Desired.Config.{ProxyConfig}

-- `ProxyApplier`.
pub record ProxyApplier : Type 1 where
  pub Gateway : Type 0
  pub apply_config : ProxySettings → Gateway → Attempt (Unit {0}) × Gateway
  pub stop : Gateway → Attempt (Unit {0}) × Gateway

-- The gateway of gateway/mod.rs: neither call fails.
abbrev pub builtin : ProxyApplier
builtin = record {
  Gateway = SharedState;
  apply_config = λ s g. (done tt, Supervision.apply_config s g);
  stop = λ g. (done tt, Supervision.stop g);
}

unfoldable pub proxy_settings_from_config : ProxyConfig → ProxySettings
proxy_settings_from_config cfg = record {
  socks5_enabled = cfg.socks5_enabled;
  http_enabled = cfg.http_enabled;
  auth = none;
  allowlist = cfg.allowed_ips;
  max_connections = cfg.max_connections;
  max_rps = cfg.max_rps;
}

pub data Failure : Type 0 where
  gateway_stop gateway_apply : List ℕ → Failure
  password_missing : Failure
  password_unreadable : List ℕ → Failure

pub record ApplyError : Type 0 where
  pub error : Failure
  pub at_rfc3339 : List ℕ

-- The gateway, and the slot of the last error, which the API shows.
module _ (ap : ProxyApplier) where
  pub record Synced : Type 0 where
    pub gateway : ap.Gateway
    pub slot : Option ApplyError

-- What `get_plaintext` answers.
abbrev pub Secret : Type 0
Secret = Attempt (Option (List ℕ))

abbrev pub with_auth : ProxyConfig → List ℕ → ProxySettings → ProxySettings
with_auth cfg password s = record s { auth = some (get_or cfg.proxy_username [], password) }

module _ (ap : ProxyApplier) (now : List ℕ) where
  abbrev pub record_apply_error : Failure → ap.Gateway → Synced ap
  record_apply_error e g = record {
    gateway = g;
    slot = some (record { error = e; at_rfc3339 = now });
  }

  abbrev pub clear_apply_error : ap.Gateway → Synced ap
  clear_apply_error g = record { gateway = g; slot = none }

  abbrev pub answered : (List ℕ → Failure) → Attempt (Unit {0}) × ap.Gateway → Synced ap
  answered failure (done _, g) = clear_apply_error g
  answered failure (refused e, g) = record_apply_error (failure e) g

  abbrev pub apply : ProxySettings → ap.Gateway → Synced ap
  apply s g = answered gateway_apply (ap.apply_config s g)

  unfoldable pub sync_proxy : Option ProxyConfig → Secret → Synced ap → Synced ap
  unfolding proxy_settings_from_config
  sync_proxy none secret y = y
  sync_proxy (some cfg) secret y =
      let settings = proxy_settings_from_config cfg in
      if not settings.socks5_enabled && not settings.http_enabled
      then answered gateway_stop (ap.stop y.gateway)
      else if cfg.auth_enabled
      then elim secret [
        | done (some password) ↦ apply (with_auth cfg password settings) y.gateway
        | done none ↦ record_apply_error password_missing y.gateway
        | refused e ↦ record_apply_error (password_unreadable e) y.gateway
      ]
      else apply settings y.gateway
