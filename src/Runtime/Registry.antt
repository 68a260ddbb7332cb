-- ===== src/Runtime/Registry.antt =====
-- runtime/registry.rs: the actual state of every instance. The map behind the lock is an association
-- list; a message stands for the text that its format string gives.
pub mod Entries
pub mod Refine
use warpdeck.Prelude.{
  ℕ, ◌+◌, Bool, true, false, Option, none, some, List, [], ◌∷◌, leb, if◌then◌else◌,
}
use warpdeck.Prelude.Int.{ℤ}
use warpdeck.Prelude.Machine.{saturating_add_u32}
use warpdeck.Prelude.Map
use warpdeck.Runtime.Instance.{InstanceId}
use warpdeck.Runtime.Message.{Message, crashed}

pub data RuntimeState : Type 0 where
  disabled stopped starting registering connecting healthy degraded stopping failed : RuntimeState

-- An address of either family, as the number of its bits.
pub data IpAddr : Type 0 where
  v4 : ℕ → IpAddr
  v6 : ℕ → IpAddr

pub record InstanceRuntime : Type 0 where
  pub state : RuntimeState
  pub warp_pid : Option ℕ
  pub dbus_pid : Option ℕ
  pub exit_ip_v4 : Option IpAddr
  pub exit_ip_v6 : Option IpAddr
  pub colo : Option (List ℕ)
  pub latency_ms : Option ℕ
  pub restart_count : ℕ
  pub consecutive_failures : ℕ
  pub consecutive_successes : ℕ
  pub last_error : Option Message

abbrev pub stopped_runtime : InstanceRuntime
stopped_runtime = record {
  state = stopped;
  warp_pid = none;
  dbus_pid = none;
  exit_ip_v4 = none;
  exit_ip_v6 = none;
  colo = none;
  latency_ms = none;
  restart_count = 0;
  consecutive_failures = 0;
  consecutive_successes = 0;
  last_error = none;
}

-- The crash event of runtime/crash.rs; `stderr_summary` is the tail of what the process wrote.
pub record CrashEvent : Type 0 where
  pub instance_id : InstanceId
  pub exit_code : Option ℤ
  pub stderr_summary : List ℕ

abbrev pub is_running : RuntimeState → Bool
is_running stopped = false
is_running disabled = false
is_running _ = true

abbrev pub is_healthy : RuntimeState → Bool
is_healthy healthy = true
is_healthy _ = false

abbrev pub Registry : Type 0
Registry = List (ℕ × InstanceRuntime)

unfoldable pub get : InstanceId → Registry → Option InstanceRuntime
get id r = Map.get id r

-- `entry(id).or_insert_with(stopped)`.
unfoldable pub insert : InstanceId → Registry → Registry
insert id r = elim (Map.get id r) [ none ↦ Map.insert id stopped_runtime r | some e ↦ r ]

unfoldable pub remove : InstanceId → Registry → Registry
remove id r = Map.remove id r

unfoldable pub update : InstanceId → (InstanceRuntime → InstanceRuntime) → Registry → Registry
update id f r = Map.update id f r

abbrev pub with_state : RuntimeState → InstanceRuntime → InstanceRuntime
with_state s e = record e { state = s }

unfoldable pub set_state : InstanceId → RuntimeState → Registry → Registry
set_state id s r = update id (with_state s) r

abbrev pub with_error : Message → InstanceRuntime → InstanceRuntime
with_error error e = record e {
  state = failed;
  consecutive_failures = saturating_add_u32 e.consecutive_failures 1;
  last_error = some error;
}

unfoldable pub record_error : InstanceId → Message → Registry → Registry
record_error id error r = update id (with_error error) r

abbrev pub with_pids : ℕ → ℕ → InstanceRuntime → InstanceRuntime
with_pids warp_pid dbus_pid e = record e {
  state = starting;
  warp_pid = some warp_pid;
  dbus_pid = some dbus_pid;
  restart_count = saturating_add_u32 e.restart_count 1;
  consecutive_failures = 0;
  consecutive_successes = 0;
  last_error = none;
}

unfoldable pub on_started : InstanceId → ℕ → ℕ → Registry → Registry
on_started id warp_pid dbus_pid r = update id (with_pids warp_pid dbus_pid) r

abbrev pub without_pids : InstanceRuntime → InstanceRuntime
without_pids e = record e { state = stopped; warp_pid = none; dbus_pid = none }

unfoldable pub on_stopped : InstanceId → Registry → Registry
on_stopped id r = update id without_pids r

abbrev pub with_crash : CrashEvent → InstanceRuntime → InstanceRuntime
with_crash event e = record e {
  state = failed;
  warp_pid = none;
  consecutive_failures = saturating_add_u32 e.consecutive_failures 1;
  last_error = some (crashed event.exit_code);
}

unfoldable pub on_crash : CrashEvent → Registry → Registry
on_crash event r = update event.instance_id (with_crash event) r

-- One step of the sort by key: `sort_by_key` is stable, and the keys of a map are distinct.
unfoldable pub insert_by_key : ℕ × InstanceRuntime → Registry → Registry
insert_by_key p [] = p ∷ []
insert_by_key p (q ∷ r) = if leb p.0 q.0 then p ∷ q ∷ r else q ∷ insert_by_key p r

unfoldable pub list : Registry → Registry
unfolding insert_by_key
list [] = []
list (p ∷ r) = insert_by_key p (list r)

abbrev pub keys {ℓ} : {V : Type ℓ} → List (ℕ × V) → List ℕ
keys [] = []
keys ((k, v) ∷ m) = k ∷ keys m

unfoldable pub ids : Registry → List InstanceId
ids r = keys (list r)
