-- ===== src/Desired/Config.antt =====
-- db/repo.rs: the row of `proxy_config`. `char::is_whitespace` is a parameter; a comma and what it says of
-- it are all that is used. `i64` columns hold the `u32` limits.
pub mod RoundTrip
use warpdeck.Prelude.{
  ℕ, ◌%◌, Bool, true, false, not, Option, none, some, List, [], ◌∷◌, ◌++◌, ◌==◌, is_empty,
  if◌then◌else◌,
}
use mathlib.Core.List.{reverse}

abbrev pub comma : ℕ
comma = 44

pub record ProxyConfig : Type 0 where
  pub socks5_enabled : Bool
  pub http_enabled : Bool
  pub auth_enabled : Bool
  pub proxy_username : Option (List ℕ)
  pub allowed_ips : List (List ℕ)
  pub max_connections : Option ℕ
  pub max_rps : Option ℕ

unfoldable pub default_enabled : ProxyConfig
default_enabled = record {
  socks5_enabled = true;
  http_enabled = true;
  auth_enabled = false;
  proxy_username = none;
  allowed_ips = [];
  max_connections = none;
  max_rps = none;
}

-- The columns; a flag is 0 or 1.
pub record ConfigRow : Type 0 where
  pub socks5_enabled : ℕ
  pub http_enabled : ℕ
  pub auth_enabled : ℕ
  pub proxy_username : Option (List ℕ)
  pub allowed_ips : Option (List ℕ)
  pub max_connections : ℕ
  pub max_rps : ℕ

abbrev pub onto : ℕ → List (List ℕ) → List (List ℕ)
onto c [] = (c ∷ []) ∷ []
onto c (part ∷ parts) = (c ∷ part) ∷ parts

-- `str::split(',')`: always at least one part.
unfoldable pub split : List ℕ → List (List ℕ)
split [] = [] ∷ []
split (c ∷ s) = if c == comma then [] ∷ split s else onto c (split s)

-- `[String]::join(",")`.
unfoldable pub join : List (List ℕ) → List ℕ
join [] = []
join (s ∷ []) = s
join (s ∷ t ∷ ts) = s ++ comma ∷ join (t ∷ ts)

abbrev pub as_u32 : ℕ → ℕ
as_u32 n = n % 4294967296

abbrev pub limit_of : ℕ → Option ℕ
limit_of n = if as_u32 n == 0 then none else some (as_u32 n)

module _ (is_whitespace : ℕ → Bool) where
  unfoldable pub trim_start : List ℕ → List ℕ
  trim_start [] = []
  trim_start (c ∷ s) = let rest = trim_start s in if is_whitespace c then rest else c ∷ s

  unfoldable pub trim : List ℕ → List ℕ
  unfolding trim_start
  trim s = reverse (trim_start (reverse (trim_start s)))

  unfoldable pub trimmed_parts : List (List ℕ) → List (List ℕ)
  unfolding trim
  trimmed_parts [] = []
  trimmed_parts (s ∷ ss) =
      let rest = trimmed_parts ss in if is_empty (trim s) then rest else trim s ∷ rest

  abbrev pub parts_of : Option (List ℕ) → List (List ℕ)
  unfolding split trimmed_parts
  parts_of none = []
  parts_of (some s) = trimmed_parts (split s)

  unfoldable pub row_to_proxy_config : ConfigRow → ProxyConfig
  unfolding split trimmed_parts
  row_to_proxy_config r = record {
    socks5_enabled = not (r.socks5_enabled == 0);
    http_enabled = not (r.http_enabled == 0);
    auth_enabled = not (r.auth_enabled == 0);
    proxy_username = r.proxy_username;
    allowed_ips = parts_of r.allowed_ips;
    max_connections = limit_of r.max_connections;
    max_rps = limit_of r.max_rps;
  }

  -- No row means the defaults.
  unfoldable pub get_config : Option ConfigRow → ProxyConfig
  unfolding row_to_proxy_config default_enabled
  get_config none = default_enabled
  get_config (some r) = row_to_proxy_config r

abbrev pub flag : Bool → ℕ
flag b = if b then 1 else 0

abbrev pub unwrap_or_zero : Option ℕ → ℕ
unwrap_or_zero none = 0
unwrap_or_zero (some n) = n

-- The row after `update`, whatever was there.
unfoldable pub update_config : ProxyConfig → ConfigRow
unfolding join
update_config cfg = record {
  socks5_enabled = flag cfg.socks5_enabled;
  http_enabled = flag cfg.http_enabled;
  auth_enabled = flag cfg.auth_enabled;
  proxy_username = cfg.proxy_username;
  allowed_ips = if is_empty cfg.allowed_ips then none else some (join cfg.allowed_ips);
  max_connections = unwrap_or_zero cfg.max_connections;
  max_rps = unwrap_or_zero cfg.max_rps;
}
