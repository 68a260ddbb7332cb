-- ===== src/Runtime/Tests/Hosts.antt =====
-- Hosts for the tests: the world is the clock, and a few switches say what the calls answer.
use warpdeck.Prelude.{ℕ, ◌+◌, Bool, true, false, none, some, List, [], ◌∷◌, arith}
use warpdeck.Runtime.Credentials.{free_credentials}
use warpdeck.Runtime.Host.{Host, Reply, Attempt, IsClock}
use warpdeck.Runtime.Message.{command_timeout}

abbrev pub text : List ℕ
text = 63 ∷ []

abbrev pub answer : Bool → Reply (Unit {0})
answer true = Reply.ok tt
answer false = Reply.err command_timeout

abbrev pub granted : Bool → Attempt (Unit {0})
granted true = Attempt.done tt
granted false = Attempt.refused text

-- Whether `register` works, and whether the runtime directory can be removed.
abbrev pub sample : Bool → Bool → Host
sample registers removes = record {
  World = ℕ;
  status = λ id w. (Reply.ok (record { connected = true; raw_status = text }), w);
  register = λ id w. (answer registers, w);
  apply_account = λ id c w. (Reply.ok tt, w);
  set_proxy_mode = λ id w. (Reply.ok tt, w);
  set_proxy_port = λ id p w. (Reply.ok tt, w);
  connect = λ id w. (Reply.ok tt, w);
  disconnect = λ id w. w;
  now = λ w. w;
  sleep = λ d w. w + d;
  registered = λ id w. false;
  remove_registration = λ id w. w;
  sync_mdm_xml = λ id c w. (Attempt.done tt, w);
  remove_after_enroll = λ id w. w;
  remove_runtime_dir = λ id w. (granted removes, w);
  is_free = λ port w. true;
  resolve = λ c w. (Attempt.done free_credentials, w);
  spawn_dbus = λ id w. (Attempt.done 7, w);
  wait_for_socket = λ id w. (Attempt.done tt, w);
  shutdown_dbus = λ p w. w;
  start_service = λ id w. (Attempt.done 8, w);
  terminate = λ p w. w;
  try_exited = λ p w. (some none, w);
  force_kill = λ p w. (none, w);
  probe = λ port w. (none, w);
}

pub sample-IsClock : (registers removes : Bool) → IsClock (sample registers removes)
sample-IsClock registers removes = record {
  sleeps = λ d w. omega arith;
  status_later = λ id w. omega arith;
  connect_later = λ id w. omega arith;
}
