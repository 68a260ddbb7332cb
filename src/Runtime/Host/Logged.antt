-- ===== src/Runtime/Host/Logged.antt =====
-- A host that writes down the calls made on it, the last one first, to state which calls a flow makes
-- and in what order.
use warpdeck.Prelude.{ℕ, Option, some, List, [], ◌∷◌, ◌==◌, if◌then◌else◌}
use warpdeck.Prelude.Int.{ℤ}
use warpdeck.Runtime.Host.{Host, Attempt, done}

pub data Command : Type 0 where
  status register apply_account set_proxy_mode set_proxy_port connect disconnect : Command
  sleep remove_registration sync_mdm_xml remove_after_enroll remove_runtime_dir resolve : Command
  probe : Command
  wait_for_socket : Command
  spawn_dbus start_service : Attempt ℕ → Command
  shutdown_dbus terminate force_kill : ℕ → Command
  try_exited : ℕ → Option (Option ℤ) → Command

abbrev pub answered : {A W : Type 0} → Command → List Command → A × W → A × (W × List Command)
answered c log (a, w) = (a, (w, c ∷ log))

abbrev pub noted : {A W : Type 0} → (A → Command) → List Command → A × W → A × (W × List Command)
noted c log (a, w) = (a, (w, c a ∷ log))

abbrev pub logged : Host → Host
logged h = record {
  World = h.World × List Command;
  status = λ id w. answered status w.1 (h.status id w.0);
  register = λ id w. answered register w.1 (h.register id w.0);
  apply_account = λ id c w. answered apply_account w.1 (h.apply_account id c w.0);
  set_proxy_mode = λ id w. answered set_proxy_mode w.1 (h.set_proxy_mode id w.0);
  set_proxy_port = λ id p w. answered set_proxy_port w.1 (h.set_proxy_port id p w.0);
  connect = λ id w. answered connect w.1 (h.connect id w.0);
  disconnect = λ id w. (h.disconnect id w.0, disconnect ∷ w.1);
  now = λ w. h.now w.0;
  sleep = λ d w. (h.sleep d w.0, sleep ∷ w.1);
  registered = λ id w. h.registered id w.0;
  remove_registration = λ id w. (h.remove_registration id w.0, remove_registration ∷ w.1);
  sync_mdm_xml = λ id c w. answered sync_mdm_xml w.1 (h.sync_mdm_xml id c w.0);
  remove_after_enroll = λ id w. (h.remove_after_enroll id w.0, remove_after_enroll ∷ w.1);
  remove_runtime_dir = λ id w. answered remove_runtime_dir w.1 (h.remove_runtime_dir id w.0);
  is_free = λ port w. h.is_free port w.0;
  resolve = λ c w. answered resolve w.1 (h.resolve c w.0);
  spawn_dbus = λ id w. noted spawn_dbus w.1 (h.spawn_dbus id w.0);
  wait_for_socket = λ id w. answered wait_for_socket w.1 (h.wait_for_socket id w.0);
  shutdown_dbus = λ p w. (h.shutdown_dbus p w.0, shutdown_dbus p ∷ w.1);
  start_service = λ id w. noted start_service w.1 (h.start_service id w.0);
  terminate = λ p w. (h.terminate p w.0, terminate p ∷ w.1);
  try_exited = λ p w. noted (try_exited p) w.1 (h.try_exited p w.0);
  force_kill = λ p w. answered (force_kill p) w.1 (h.force_kill p w.0);
  probe = λ port w. answered probe w.1 (h.probe port w.0);
}

abbrev pub drop_pid : ℕ → List ℕ → List ℕ
drop_pid p [] = []
drop_pid p (q ∷ qs) = let rest = drop_pid p qs in if q == p then rest else q ∷ rest

-- What a call does to the processes that have been started and are not known to have ended.
abbrev pub after : Command → List ℕ → List ℕ
after (spawn_dbus (done p)) ps = p ∷ ps
after (start_service (done p)) ps = p ∷ ps
after (shutdown_dbus p) ps = drop_pid p ps
after (force_kill p) ps = drop_pid p ps
after (try_exited p (some _)) ps = drop_pid p ps
after _ ps = ps

unfoldable pub alive : List Command → List ℕ
alive [] = []
alive (c ∷ log) = after c (alive log)
