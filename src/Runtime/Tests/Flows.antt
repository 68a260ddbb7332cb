-- ===== src/Runtime/Tests/Flows.antt =====
-- The theorems about readiness.rs, flow.rs and stop.rs at concrete hosts.
use warpdeck.Prelude.{◌≡◌, true, false, [], ◌∷◌}
use warpdeck.Runtime.Backoff.{recommended}
use warpdeck.Runtime.Credentials.{InstanceCredentials, CredentialMode, free_credentials}
use warpdeck.Runtime.Host.Logged.{Command, logged, alive}
use warpdeck.Runtime.Flow.{run}
use warpdeck.Runtime.Flow.Bounded.{IsFinished, run-IsFinished}
use warpdeck.Runtime.Stop.{stop}
use warpdeck.Runtime.Stop.Ended.{alive-stop}
use warpdeck.Runtime.Tests.Hosts.{sample, sample-IsClock}

zero_trust_credentials : InstanceCredentials
zero_trust_credentials = record free_credentials { mode = CredentialMode.zero_trust }

run-IsFinished_example : IsFinished (run (sample true true) recommended 5 3 47 free_credentials 0).0
run-IsFinished_example =
    run-IsFinished (sample true true) recommended 5 3 (sample-IsClock true true) free_credentials 0

alive-stop_example :
    alive (stop (logged (sample true false)) 10 1 3 8 7 (0, Command.status ∷ [])).1.1 ≡ []
unfolding alive
alive-stop_example = alive-stop (sample true false) 10 1 3 8 7 0 (Command.status ∷ [])
