-- ===== src/Runtime/Tests/Ports.antt =====
-- Tests of the ports and of the backoff.
use warpdeck.Prelude.{◌≡◌, refl}
use warpdeck.Prelude.Machine.{from_secs}
use warpdeck.Runtime.Instance.{instance_port, ok, err, out_of_range}
use warpdeck.Runtime.Backoff.{recommended, delay_for}

port_seven : instance_port 7 ≡ ok 40007
unfolding instance_port
port_seven = refl

port_past_the_end : instance_port 25536 ≡ err (out_of_range 25536)
unfolding instance_port
port_past_the_end = refl

delays : (delay_for recommended 3 ≡ from_secs 8) × (delay_for recommended 100 ≡ from_secs 120)
unfolding delay_for recommended
delays = (refl, refl)
