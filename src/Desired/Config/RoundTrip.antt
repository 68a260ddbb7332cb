-- ===== src/Desired/Config/RoundTrip.antt =====
-- db/repo.rs: the proxy's configuration is read as it was written.
use warpdeck.Prelude.{
  ℕ, ◌<◌, ◌≡◌, refl, ap, ◌∙◌, Bool, false, Option, none, some, List, [], ◌∷◌, ◌++◌, contains,
  is_empty, All, arith, if◌then◌else◌,
}
use warpdeck.Desired.Config.{
  ProxyConfig, comma, split, join, trim, trimmed_parts, get_config, update_config, parts_of,
}

-- An entry of the allowlist with no white space at its ends and no comma.
abbrev pub IsEntry : (ℕ → Bool) → List ℕ → Type 0
IsEntry is_whitespace s =
    (is_empty s ≡ false) × (contains s comma ≡ false) × (trim is_whitespace s ≡ s)

-- A limit that fits, and is not 0.
abbrev pub IsLimit : Option ℕ → Type 0
IsLimit none = Unit
IsLimit (some n) = (0 < n) × (n < 4294967296)

split-append : (s r : List ℕ) → contains s comma ≡ false → split (s ++ comma ∷ r) ≡ s ∷ split r
unfolding split
split-append [] r h = refl
split-append (c ∷ s) r h = ground (arith, split-append s r)

split_self : (s : List ℕ) → contains s comma ≡ false → split s ≡ s ∷ []
unfolding split
split_self [] h = refl
split_self (c ∷ s) h = ground (arith, split_self s)

module _ (is_whitespace : ℕ → Bool) where
  split-join :
      (s : List ℕ) (ts : List (List ℕ))
      → All (IsEntry is_whitespace) (s ∷ ts)
      → split (join (s ∷ ts)) ≡ s ∷ ts
  unfolding join
  split-join s [] ((_, no_comma, _), _) = split_self s no_comma
  split-join s (t ∷ ts) ((_, no_comma, _), rest) =
      split-append s (join (t ∷ ts)) no_comma
      ∙ ap (λ (x : List (List ℕ)). s ∷ x) (split-join t ts rest)

  trimmed_parts_self :
      (ts : List (List ℕ)) → All (IsEntry is_whitespace) ts → trimmed_parts is_whitespace ts ≡ ts
  unfolding trimmed_parts
  trimmed_parts_self [] a = refl
  trimmed_parts_self (s ∷ ts) ((full, _, same), rest) = ground (arith, trimmed_parts_self ts rest)

  entries_back :
      (ts : List (List ℕ))
      → All (IsEntry is_whitespace) ts
      → parts_of is_whitespace (if is_empty ts then none else some (join ts)) ≡ ts
  unfolding parts_of
  entries_back [] a = refl
  entries_back (s ∷ ts) a = rw (split-join s ts a, parts_of) (trimmed_parts_self (s ∷ ts) a)

  -- A configuration whose limits are between 1 and the largest of 32 bits or absent, and whose allowlist
  -- has no entry that is empty, has a comma, or has white space at an end, is read from its row as it was
  -- written.
  pub get_config-update_config :
      (cfg : ProxyConfig)
      → All (IsEntry is_whitespace) cfg.allowed_ips
      → IsLimit cfg.max_connections
      → IsLimit cfg.max_rps
      → get_config is_whitespace (some (update_config cfg)) ≡ cfg
  unfolding get_config update_config
  get_config-update_config cfg a c r = ground (arith, entries_back cfg.allowed_ips a)
