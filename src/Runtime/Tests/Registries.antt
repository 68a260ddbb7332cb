-- ===== src/Runtime/Tests/Registries.antt =====
-- runtime/registry.rs at concrete inputs.
use warpdeck.Prelude.{◌≡◌, List, [], ◌∷◌}
use warpdeck.Runtime.Registry.{RuntimeState}
use warpdeck.Runtime.Registry.Refine.{Operation, runs, learns, knowledge, runs-learns}
use warpdeck.Runtime.Tests.Samples.{fleet}

abbrev operations : List Operation
operations =
    Operation.insert_op 9
    ∷ Operation.state_op 9 RuntimeState.starting
    ∷ Operation.started_op 4 21 22
    ∷ Operation.remove_op 7
    ∷ []

runs-learns_example : knowledge (runs operations fleet) ≡ learns operations (knowledge fleet)
runs-learns_example = runs-learns operations fleet
