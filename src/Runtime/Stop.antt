-- ===== src/Runtime/Stop.antt =====
-- runtime/stop.rs: disconnect, ask the process to end, wait, kill it, stop D-Bus, clean up.
pub mod Ended
use warpdeck.Prelude.{ℕ, zero, suc, ◌/◌, min, max, Bool, true, false, Option, none, some, List}
use warpdeck.Prelude.Int.{ℤ}
use warpdeck.Prelude.Machine.{u32_max, nanos_per_milli}
use warpdeck.Runtime.Instance.{InstanceId}
use warpdeck.Runtime.Host.{Host, Attempt, done, refused}

-- `exit_code` is the one field of `ProcessStatus`.
pub record StopOutcome : Type 0 where
  pub kill_required : Bool
  pub exit_code : Option ℤ

pub data StopResult : Type 0 where
  stopped : StopOutcome → StopResult
  cleanup_failed : List ℕ → StopResult

unfoldable pub max_polls : ℕ → ℕ → ℕ
max_polls grace poll =
    max (min (grace / nanos_per_milli / max (poll / nanos_per_milli) 1) u32_max) 1

module _ (h : Host) (grace poll : ℕ) (id : InstanceId) where
  -- The polls of the grace period: the exit status, if the process has ended.
  pub await_exit : ℕ → ℕ → h.World → Option (Option ℤ) × h.World
  await_exit zero svc w = (none, w)
  await_exit (suc n) svc w =
      let (status, w1) = h.try_exited svc w in
      elim status [ some code ↦ (some code, w1) | none ↦ await_exit n svc (h.sleep poll w1) ]

  pub ensure_exit : ℕ → h.World → StopOutcome × h.World
  unfolding await_exit
  ensure_exit svc w =
      let (status, w1) = await_exit (max_polls grace poll) svc w in
      elim status [
        | some code ↦ (record { kill_required = false; exit_code = code }, w1)
        | none ↦
            let (code, w2) = h.force_kill svc w1 in
            (record { kill_required = true; exit_code = code }, w2)
      ]

  unfoldable pub stop : ℕ → ℕ → h.World → StopResult × h.World
  unfolding ensure_exit
  stop svc dbus w =
      let (outcome, w1) = ensure_exit svc (h.terminate svc (h.disconnect id w)) in
      let (cleaned, w2) = h.remove_runtime_dir id (h.shutdown_dbus dbus w1) in
      elim cleaned [ done _ ↦ (stopped outcome, w2) | refused text ↦ (cleanup_failed text, w2) ]
