-- ===== src/Reconcile/Tests/Gateways.antt =====
-- reconciler/mod.rs: rounds of `sync_proxy` at concrete inputs.
use warpdeck.Prelude.{◌≡◌, refl, Bool, true, false, none, some, List, [], ◌∷◌, codes}
use warpdeck.Runtime.Host.{done, refused}
use warpdeck.Gateway.Supervision.{SharedState, Phase, Event, ProxyStatus, status}
use warpdeck.Desired.Config.{ProxyConfig}
use warpdeck.Reconcile.Proxy.{builtin, Synced, Secret}
use warpdeck.Reconcile.Proxy.Closed.{
  IsGuarded, Happening, sync, happen, happenings, happenings-IsGuarded, happenings-disabled,
}

abbrev config : Bool → ProxyConfig
config on = record {
  socks5_enabled = on;
  http_enabled = false;
  auth_enabled = true;
  proxy_username = some (codes "u");
  allowed_ips = [];
  max_connections = none;
  max_rps = none;
}

abbrev fresh : SharedState
fresh = record {
  config = none;
  last_applied = none;
  stopped = false;
  active = false;
  last_error = none;
  attempt = 0;
  phase = Phase.waiting;
}

abbrev started : Synced builtin
started = record { gateway = fresh; slot = none }

abbrev secret : Secret
secret = done (some (codes "p"))

abbrev day : List Happening
day =
    sync (config true) secret []
    ∷ Happening.event (Event.turned none none)
    ∷ sync (config true) (refused []) []
    ∷ Happening.event Event.exit
    ∷ []

happenings-IsGuarded_example : IsGuarded (happenings day started).gateway
happenings-IsGuarded_example =
    happenings-IsGuarded day started (refl, (tt, (refl, (tt, tt))))
      (record { config = refl; phase = refl })

happenings-disabled_example :
    status 1 (happenings day (happen (sync (config false) secret []) started)).gateway
    ≡ ProxyStatus.stopped
happenings-disabled_example = happenings-disabled (config false) secret [] day started 1 refl refl
