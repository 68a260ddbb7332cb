-- ===== src/Gateway/Tests/Supervisions.antt =====
-- gateway/mod.rs, the supervised loop, at concrete inputs.
use warpdeck.Prelude.{◌≡◌, refl, true, false, ◌&&◌, none, some, []}
use warpdeck.Gateway.Supervision.{
  ProxySettings, GatewayConfig, from_settings, Phase, SharedState, apply_config, turn, is_bound,
  settings_eq,
}
use warpdeck.Gateway.Supervision.Stopped.{turn-lost}

abbrev only_http : ProxySettings
only_http = record {
  socks5_enabled = false;
  http_enabled = true;
  auth = none;
  allowlist = [];
  max_connections = none;
  max_rps = some 9;
}

abbrev serving_socks : SharedState
serving_socks = record {
  config = some (from_settings (record only_http { socks5_enabled = true; http_enabled = false }));
  last_applied = some (record only_http { socks5_enabled = true; http_enabled = false });
  stopped = false;
  active = true;
  last_error = none;
  attempt = 0;
  phase =
      Phase.serving
        (from_settings (record only_http { socks5_enabled = true; http_enabled = false })) false;
}

abbrev old_config : GatewayConfig
old_config = from_settings (record only_http { socks5_enabled = true; http_enabled = false })

abbrev in_pass : SharedState
in_pass = record serving_socks { phase = Phase.passing (some old_config) }

turn-lost_example :
    let g' = turn none none (apply_config only_http in_pass) in
    (g'.phase ≡ Phase.serving old_config (false && is_bound none))
    × (apply_config only_http g' ≡ g')
unfolding settings_eq from_settings
turn-lost_example = turn-lost only_http old_config in_pass none refl refl
