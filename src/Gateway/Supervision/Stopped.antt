-- ===== src/Gateway/Supervision/Stopped.antt =====
-- gateway/mod.rs: what the gateway serves after new settings.
use warpdeck.Prelude.{
  ℕ, ◌≡◌, refl, Bool, true, false, Option, none, some, List, [], ◌∷◌, arith, ◌&&◌, list_eq_refl,
  ==_refl,
}
use warpdeck.Gateway.Supervision.{
  ProxySettings, GatewayConfig, Phase, SharedState, is_applied, settings_eq, bool_eq, number_eq,
  auth_eq, texts_eq, apply_config, turn, is_bound,
}

abbrev pub is_passing : Phase → Bool
is_passing (Phase.passing config) = true
is_passing _ = false

bool_eq_refl : (b : Bool) → bool_eq b b ≡ true
bool_eq_refl true = refl
bool_eq_refl false = refl

number_eq_refl : (n : Option ℕ) → number_eq n n ≡ true
number_eq_refl none = refl
number_eq_refl (some a) = ==_refl a

auth_eq_refl : (a : Option (List ℕ × List ℕ)) → auth_eq a a ≡ true
auth_eq_refl none = refl
auth_eq_refl (some (a, b)) = ground (arith, list_eq_refl a, list_eq_refl b)

texts_eq_refl : (t : List (List ℕ)) → texts_eq t t ≡ true
texts_eq_refl [] = refl
texts_eq_refl (x ∷ xs) = ground (arith, list_eq_refl x, texts_eq_refl xs)

settings_eq_refl : (s : ProxySettings) → settings_eq s s ≡ true
unfolding settings_eq
settings_eq_refl s = ground (
  arith,
  bool_eq_refl s.socks5_enabled,
  bool_eq_refl s.http_enabled,
  auth_eq_refl s.auth,
  texts_eq_refl s.allowlist,
  number_eq_refl s.max_connections,
  number_eq_refl s.max_rps,
)

-- New settings that are applied while the loop is in a pass, after it has read the configuration `cfg`, are
-- lost: where the SOCKS5 bind succeeds the gateway serves `cfg`, and to apply the same settings again
-- changes nothing.
pub turn-lost :
    (s : ProxySettings) (cfg : GatewayConfig) (g : SharedState) (http_bind : Option (List ℕ))
    → g.phase ≡ Phase.passing (some cfg)
    → is_applied s g.last_applied ≡ false
    → let g' = turn none http_bind (apply_config s g) in
      (g'.phase ≡ Phase.serving cfg (cfg.http_enabled && is_bound http_bind))
      × (apply_config s g' ≡ g')
unfolding turn apply_config
turn-lost s cfg g http_bind passes fresh = (ground arith, ground (arith, settings_eq_refl s))
