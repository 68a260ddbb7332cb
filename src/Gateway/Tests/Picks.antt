-- ===== src/Gateway/Tests/Picks.antt =====
-- Tests of the pool.
use warpdeck.Prelude.{◌≡◌, refl, some, [], ◌∷◌}
use warpdeck.Prelude.Map
use warpdeck.Runtime.Registry.{Registry, RuntimeState, stopped_runtime, with_state}
use warpdeck.Runtime.Registry
use warpdeck.Runtime.Registry.Entries.{IsUnique}
use warpdeck.Gateway.Pool.{new, pick, upstream_of}

abbrev three : Registry
three =
    (3, with_state RuntimeState.healthy stopped_runtime)
    ∷ (1, with_state RuntimeState.healthy stopped_runtime)
    ∷ (4, with_state RuntimeState.failed stopped_runtime)
    ∷ (2, with_state RuntimeState.healthy stopped_runtime)
    ∷ []

three-IsUnique : IsUnique three
unfolding Registry.get Map.get
three-IsUnique = (refl, (refl, (refl, (refl, tt))))

first_pick : (pick three new).0 ≡ some (upstream_of 40000 1)
unfolding pick
first_pick = refl
