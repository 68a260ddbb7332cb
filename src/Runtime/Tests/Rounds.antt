-- ===== src/Runtime/Tests/Rounds.antt =====
-- Tests of the health check.
use warpdeck.Prelude.{◌≡◌, refl, Bool, true, false, none, some, [], ◌∷◌, arith}
use warpdeck.Prelude.Map
use warpdeck.Runtime.Instance.{InstanceId}
use warpdeck.Runtime.Registry.{RuntimeState, Registry}
use warpdeck.Runtime.Registry
use warpdeck.Runtime.Health.{
  HealthVerdict, LayersReport, assess_layers, default_config, data_plane_ok, warp_on,
}
use warpdeck.Runtime.Health.Verdict.{IsValid}
use warpdeck.Runtime.Monitor.{View, apply_health_verdict, layers, counters}
use warpdeck.Runtime.Monitor.Guard.{apply_health_verdict-dropped}
use warpdeck.Runtime.Monitor.Streak.{IsRunning, Fell, rounds_bad}
use warpdeck.Runtime.Tests.Samples.{up, down, fleet, fleet_view, no_ip, report_on}

abbrev good_layers : LayersReport
good_layers = layers up (some true) (some report_on)

good_round :
    assess_layers good_layers (counters up) default_config RuntimeState.healthy
    ≡ some (HealthVerdict.healthy, record { consecutive_failures = 0; consecutive_successes = 1 })
unfolding assess_layers default_config data_plane_ok warp_on
good_round = refl

-- Another task records a crash of instance 7 between the probe and the update.
abbrev crash_seven : Registry → Registry
crash_seven r = (7, down) ∷ r

abbrev late : View × Bool
late =
    apply_health_verdict no_ip crash_seven 7 HealthVerdict.healthy (counters up) good_layers
      fleet_view

apply_health_verdict-dropped_example :
    (late.1 ≡ false)
    × (late.0.bus ≡ [])
    × ((j : InstanceId) → Registry.get j late.0.registry ≡ Registry.get j (crash_seven fleet))
unfolding Registry.get Map.get
apply_health_verdict-dropped_example =
    apply_health_verdict-dropped no_ip crash_seven 7 HealthVerdict.healthy (counters up) good_layers
      fleet_view up down refl refl refl refl

default-IsValid : IsValid default_config
unfolding default_config
default-IsValid = record { failing = omega arith; recovering = omega arith }

up-IsRunning : IsRunning 7 up
up-IsRunning = record { in_range = omega arith; assessed = refl; pid = 11; has_pid = refl }

-- Three bad rounds: the control plane gone, the prober gone, both gone.
rounds_bad_example :
    Fell no_ip default_config 7
      ((none, some report_on) ∷ (some true, none) ∷ (some false, none) ∷ [])
      fleet_view
      3
unfolding default_config Registry.get Map.get
rounds_bad_example =
    rounds_bad no_ip default_config 7 3 (none, some report_on)
      ((some true, none) ∷ (some false, none) ∷ []) fleet_view up default-IsValid (omega arith)
      up-IsRunning refl (refl, (refl, tt)) refl (omega arith) refl
