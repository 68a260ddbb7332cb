-- ===== src/Desired/Commands.antt =====
-- db/repo.rs: restart commands. The API counts them up; the reconciler reads a row, restarts the instance
-- and acknowledges the generation that it has read, while further calls come in.
pub mod Grown
pub mod Orderly
pub mod Reuse
use warpdeck.Prelude.{
  ℕ, ◌+◌, ◌≤◌, ◌<◌, ◌≡◌, ◌≢◌, ◌⊎◌, inl, inr, refl, sym, subst, Bool, true, false, Option, none,
  some, List, [], ◌∷◌, ltb, max, All, get_elem?, arith, zero, suc, ap, ◌∙◌, ◌==◌, Option-cases,
  Bool-cases,
}
use mathlib.Core.Option
use warpdeck.Prelude.Map
use warpdeck.Prelude.Map.{get-insert, get-update, get-remove}
use warpdeck.Runtime.Instance.{InstanceId}
use warpdeck.Desired.{
  WarpInstanceSpec, Rows, Database, next_id, mark_rows, create_guarded, rebind_profile_guarded,
  set_desired, record_backoff, clear_backoff, clear_restart_pending, request_restart,
  acknowledge_restart, mark_restart_pending_by_profile, acknowledged, is_bound_to, new_spec,
  rebound, AccountMode,
}
use warpdeck.Desired
use warpdeck.Desired.Profiles
use warpdeck.Desired.Profiles.{unbind_disabled}
use warpdeck.Desired.Binding.{Call, call}
use warpdeck.Desired.Binding.Count.{marked, unbound, get-mark_rows-map, get-unbind_disabled-map}

abbrev pub is_pending : WarpInstanceSpec → Bool
is_pending s = ltb s.observed_restart_generation s.restart_command_generation

-- What the reconciler has read and works on.
pub record Held : Type 0 where
  pub db : Database
  pub snapshots : List WarpInstanceSpec

abbrev pub is_acknowledge : Call → Bool
is_acknowledge (Call.acknowledge id generation) = true
is_acknowledge _ = false

-- The key that a call would give to a new row.
abbrev pub IsNewTo : Database → List WarpInstanceSpec → Type 0
IsNewTo d snapshots = All (λ (t : WarpInstanceSpec). t.id ≢ next_id d.rows) snapshots

-- One step: a row is read, another call is made, or what was read is acknowledged. No call comes while the
-- next free key is that of a row that has been read.
pub data Step : Held → Held → Type 0 where
  read :
      (h : Held) (id : InstanceId) (s : WarpInstanceSpec)
      → Map.get id h.db.rows ≡ some s
      → s.id ≡ id
      → Step h (record h { snapshots = s ∷ h.snapshots })
  other :
      (h : Held) (c : Call)
      → is_acknowledge c ≡ false
      → IsNewTo h.db h.snapshots
      → Step h (record h { db = call c h.db })
  done :
      (h : Held) (i : ℕ) (t : WarpInstanceSpec)
      → get_elem? h.snapshots i ≡ some t
      → Step h (record h { db = acknowledge_restart t.id t.restart_command_generation h.db })

pub data Reach (h : Held) : Held → Type 0 where
  here : Reach h h
  next : {k l : Held} → Reach h k → Step k l → Reach h l

-- No more is acknowledged than has been commanded, and nothing that was read is ahead of its row.
abbrev pub IsBehind : Rows → WarpInstanceSpec → Type 0
IsBehind rows t =
    (s : WarpInstanceSpec)
    → Map.get t.id rows ≡ some s
    → t.restart_command_generation ≤ s.restart_command_generation

pub record IsOrderly (h : Held) : Type 0 where
  pub acknowledged :
      (id : InstanceId) (s : WarpInstanceSpec)
      → Map.get id h.db.rows ≡ some s
      → s.observed_restart_generation ≤ s.restart_command_generation
  pub behind : All (IsBehind h.db.rows) h.snapshots
