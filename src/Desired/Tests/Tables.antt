-- ===== src/Desired/Tests/Tables.antt =====
-- db/repo.rs and db/profiles.rs at concrete inputs.
use warpdeck.Prelude.{
  ℕ, ◌≡◌, refl, Bool, true, false, none, some, List, [], ◌∷◌, ◌==◌, codes, arith,
}
use warpdeck.Prelude.Map
use warpdeck.Desired.{
  AccountProfile, AccountMode, Profiles, Database, WarpInstanceSpec, new_spec, count_bound,
}
use warpdeck.Desired.Profiles.Free.{
  IsReserved, ProfileCall, profile_calls, profile_calls-IsReserved,
}
use warpdeck.Desired.Binding.{Call, call, calls, IsConsistent}
use warpdeck.Desired.Binding.Kept.{calls-IsConsistent}
use warpdeck.Desired.Commands.{Held, Step, Reach, IsOrderly}
use warpdeck.Desired.Commands.Orderly.{Reach-IsOrderly}
use warpdeck.Desired.Config.{ProxyConfig, trim, get_config, update_config}
use warpdeck.Desired.Config.RoundTrip.{get_config-update_config}

abbrev default : AccountProfile
default = record { id = 1; name = codes "free"; mode = AccountMode.free; zero_trust_org = none }

abbrev plus : AccountProfile
plus = record { id = 2; name = codes "plus"; mode = AccountMode.warp_plus; zero_trust_org = none }

abbrev profiles : Profiles
profiles = (1, default) ∷ (2, plus) ∷ []

abbrev empty : Database
empty = record { rows = []; profiles = profiles }

empty-IsConsistent : IsConsistent empty
unfolding count_bound
empty-IsConsistent = record {
  unique = tt;
  each = λ p. record { known = λ h. refl; sole = λ h. omega arith };
}

abbrev some_calls : List Call
some_calls =
    Call.create_instance (codes "a") (some 2)
    ∷ Call.create_instance (codes "b") (some 2)
    ∷ Call.create_instance (codes "b") none
    ∷ Call.rebind_instance 2 (some 2)
    ∷ Call.delete_instance 1
    ∷ Call.rebind_instance 2 (some 2)
    ∷ []

calls-IsConsistent_example : IsConsistent (calls some_calls empty)
calls-IsConsistent_example = calls-IsConsistent some_calls empty empty-IsConsistent

-- Two instances of which the first and then the second is bound to the profile that is being edited.
abbrev standard : Database
standard = record {
  rows = (1, new_spec 1 (codes "a") none) ∷ (2, new_spec 2 (codes "b") none) ∷ [];
  profiles = (1, default) ∷ (2, record plus { mode = AccountMode.zero_trust }) ∷ [];
}

abbrev bind_both : Database → Database
bind_both d = calls (Call.rebind_instance 1 (some 2) ∷ Call.rebind_instance 2 (some 2) ∷ []) d

-- Both are bound to it, though a WARP+ profile has one instance at most.
bind_both_twice : count_bound 2 (bind_both standard).rows ≡ 2
unfolding count_bound calls call Map.get Map.update
bind_both_twice = refl

profiles-IsReserved : IsReserved profiles
unfolding Map.get
profiles-IsReserved = record {
  default = default;
  found = refl;
  free = refl;
  only = λ k p found f. ground arith;
}

abbrev some_profile_calls : List ProfileCall
some_profile_calls =
    ProfileCall.create_call (codes "free") AccountMode.free none
    ∷ ProfileCall.edit_call 2 (codes "p") AccountMode.free none
    ∷ ProfileCall.delete_call 1
    ∷ []

profile_calls-IsReserved_example : IsReserved (profile_calls some_profile_calls empty).profiles
profile_calls-IsReserved_example =
    profile_calls-IsReserved some_profile_calls empty profiles-IsReserved

abbrev off : WarpInstanceSpec
off = record (new_spec 4 (codes "off") (some 2)) { enabled = false }

abbrev on : WarpInstanceSpec
on = new_spec 5 (codes "on") (some 2)

abbrev shared : Database
shared = record { rows = (4, off) ∷ (5, on) ∷ []; profiles = profiles }

abbrev held : Held
held = record { db = shared; snapshots = [] }

held-IsOrderly : IsOrderly held
unfolding Map.get
held-IsOrderly = record { acknowledged = λ id s found. ground arith; behind = tt }

abbrev reading : Held
reading = record { db = shared; snapshots = on ∷ [] }

Reach-IsOrderly_example : IsOrderly reading
unfolding Map.get
Reach-IsOrderly_example =
    Reach-IsOrderly held-IsOrderly (Reach.next Reach.here (Step.read held 5 on refl refl))

abbrev config : ProxyConfig
config = record {
  socks5_enabled = true;
  http_enabled = false;
  auth_enabled = true;
  proxy_username = some (codes "u");
  allowed_ips = codes "10.0.0.0/8" ∷ codes "::1" ∷ [];
  max_connections = some 10;
  max_rps = none;
}

abbrev is_blank : ℕ → Bool
is_blank c = c == 32

get_config-update_config_example : get_config is_blank (some (update_config config)) ≡ config
unfolding trim
get_config-update_config_example =
    get_config-update_config is_blank config ((refl, refl, refl), ((refl, refl, refl), tt))
      (omega arith) tt
