-- ===== src/Runtime/Registry/Refine.antt =====
-- runtime/registry.rs: the registry as a function from instances to what is known of them. The order and
-- the layout of the map are forgotten; each operation changes the function at its own instance only.
use mathlib.Core.Option
use mathlib.Core.Path.{fun_ext}
use warpdeck.Prelude.{
  ℕ, ◌+◌, min, ◌≡◌, refl, ◌∙◌, ap, Option, none, some, List, [], ◌∷◌, ◌==◌, if◌then◌else◌, arith,
}
use warpdeck.Prelude.Map.{get-insert, get-remove, get-update}
use warpdeck.Runtime.Instance.{InstanceId}
use warpdeck.Runtime.Message.{Message, crashed}
use warpdeck.Runtime.Registry.{
  RuntimeState, InstanceRuntime, CrashEvent, Registry, stopped_runtime, get, insert, remove,
  set_state, record_error, on_started, on_stopped, on_crash, update, with_state, with_error,
  with_pids, without_pids, with_crash,
}

pub data Operation : Type 0 where
  insert_op remove_op stopped_op : InstanceId → Operation
  state_op : InstanceId → RuntimeState → Operation
  error_op : InstanceId → Message → Operation
  started_op : InstanceId → ℕ → ℕ → Operation
  crash_op : CrashEvent → Operation

unfoldable pub run : Operation → Registry → Registry
unfolding insert remove set_state record_error on_started on_stopped on_crash
run (insert_op id) r = insert id r
run (remove_op id) r = remove id r
run (stopped_op id) r = on_stopped id r
run (state_op id s) r = set_state id s r
run (error_op id e) r = record_error id e r
run (started_op id warp_pid dbus_pid) r = on_started id warp_pid dbus_pid r
run (crash_op event) r = on_crash event r

unfoldable pub runs : List Operation → Registry → Registry
runs [] r = r
runs (o ∷ os) r = runs os (run o r)

-- What is known of every instance.
abbrev pub Knowledge : Type 0
Knowledge = InstanceId → Option InstanceRuntime

abbrev pub at :
    InstanceId → (Option InstanceRuntime → Option InstanceRuntime) → Knowledge → Knowledge
at id f known k = if id == k then f (known k) else known k

abbrev pub or_stopped : Option InstanceRuntime → Option InstanceRuntime
or_stopped none = some stopped_runtime
or_stopped (some e) = some e

-- A count of failures or restarts, which stops at the largest number of 32 bits.
abbrev counted : ℕ → ℕ
counted n = min (n + 1) 4294967295

-- What a call makes of an entry, field by field. A process that has gone has no number, but a crash
-- leaves the D-Bus daemon's; only a start clears the counts and the error, and counts itself.
abbrev changed : Operation → InstanceRuntime → InstanceRuntime
changed (stopped_op id) e = record e {
  state = RuntimeState.stopped;
  warp_pid = none;
  dbus_pid = none;
}
changed (state_op id s) e = record e { state = s }
changed (error_op id error) e = record e {
  state = RuntimeState.failed;
  consecutive_failures = counted e.consecutive_failures;
  last_error = some error;
}
changed (started_op id warp dbus) e = record {
  state = RuntimeState.starting;
  warp_pid = some warp;
  dbus_pid = some dbus;
  exit_ip_v4 = e.exit_ip_v4;
  exit_ip_v6 = e.exit_ip_v6;
  colo = e.colo;
  latency_ms = e.latency_ms;
  restart_count = counted e.restart_count;
  consecutive_failures = 0;
  consecutive_successes = 0;
  last_error = none;
}
changed (crash_op event) e = record e {
  state = RuntimeState.failed;
  warp_pid = none;
  consecutive_failures = counted e.consecutive_failures;
  last_error = some (crashed event.exit_code);
}
changed _ e = e

-- The instance that a call is about.
abbrev subject : Operation → InstanceId
subject (insert_op id) = id
subject (remove_op id) = id
subject (stopped_op id) = id
subject (state_op id s) = id
subject (error_op id e) = id
subject (started_op id warp dbus) = id
subject (crash_op event) = event.instance_id

-- The specification of an operation.
pub learn : Operation → Knowledge → Knowledge
learn (insert_op id) = at id or_stopped
learn (remove_op id) = at id (λ e. none)
learn o = at (subject o) (Option.map (changed o))

pub learns : List Operation → Knowledge → Knowledge
learns [] known = known
learns (o ∷ os) known = learns os (learn o known)

abbrev pub knowledge : Registry → Knowledge
unfolding get
knowledge r k = get k r

run-learn :
    (o : Operation) (r : Registry) (k : InstanceId)
    → knowledge (run o r) k ≡ learn o (knowledge r) k
unfolding run learn knowledge update
run-learn (insert_op id) r k = ground (arith, get-insert id k stopped_runtime r)
run-learn (remove_op id) r k = get-remove id k r
run-learn (stopped_op id) r k = get-update id k without_pids r
run-learn (state_op id s) r k = get-update id k (with_state s) r
run-learn (error_op id e) r k = get-update id k (with_error e) r
run-learn (started_op id warp_pid dbus_pid) r k = get-update id k (with_pids warp_pid dbus_pid) r
run-learn (crash_op event) r k = get-update event.instance_id k (with_crash event) r

-- After any operations the registry knows of each instance what the specification says: insert gives a
-- stopped entry where there is none, remove takes the entry away, and every other operation changes the
-- entry of its own instance, if there is one, and no other.
pub runs-learns :
    (os : List Operation) (r : Registry) → knowledge (runs os r) ≡ learns os (knowledge r)
unfolding runs learns
runs-learns [] r = refl
runs-learns (o ∷ os) r = runs-learns os (run o r) ∙ ap (learns os) (fun_ext (run-learn o r))
