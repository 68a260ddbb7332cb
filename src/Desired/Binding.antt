-- ===== src/Desired/Binding.antt =====
-- db/repo.rs and db/profiles.rs: at most one instance is bound to a WARP+ profile, whatever calls the API
-- and the reconciler make.
pub mod Count
pub mod Kept
pub mod Raced
use warpdeck.Prelude.{
  ℕ, ◌≤◌, ◌≡◌, ◌⊎◌, inl, inr, refl, sym, ap, ◌∙◌, Bool, true, false, Option, none, some, List, [],
  ◌∷◌, arith, Bool-cases, Option-cases,
}
use warpdeck.Prelude.Map
use warpdeck.Prelude.Map.{
  IsUnique, insert-IsUnique, remove-IsUnique, update-IsUnique, get-insert, get-update, get-remove,
}
use warpdeck.Runtime.Instance.{InstanceId}
use warpdeck.Desired.{
  WarpInstanceSpec, DesiredState, AccountMode, AccountProfile, Database, is_warp_plus, count_bound,
  next_id, create_guarded, rebind_profile_guarded, set_desired, record_backoff, clear_backoff,
  clear_restart_pending, request_restart, acknowledge_restart, mark_restart_pending_by_profile,
  update_row, is_known, rebound, commanded, acknowledged, ensure_warp_plus_bindable, Stored,
  rebind_profile, create, ok, err, new_spec,
}
use warpdeck.Desired
use warpdeck.Desired.Profiles
use warpdeck.Desired.Profiles.{edited}
use warpdeck.Desired.Binding.Count.{
  KeepsProfile, get-next_id, count_bound-update, count_bound-insert, count_bound-remove,
  count_bound-mark_rows, count_bound-unbind_disabled, count_bound_others-le, count_bound-rebound,
  mark_rows-IsUnique, unbind_disabled-IsUnique,
}

-- The calls on the two tables: those of the API, then those of the reconciler.
pub data Call : Type 0 where
  create_instance : List ℕ → Option ℕ → Call
  rebind_instance : InstanceId → Option ℕ → Call
  delete_instance : InstanceId → Call
  desire : InstanceId → Bool → DesiredState → Call
  command_restart : InstanceId → Call
  create_profile : List ℕ → AccountMode → Option (List ℕ) → Call
  edit_profile : ℕ → List ℕ → AccountMode → Option (List ℕ) → Call
  delete_profile : ℕ → Call
  mark_profile : ℕ → Call
  back_off : InstanceId → List ℕ → Option (List ℕ) → Call
  end_backoff : InstanceId → Call
  end_pending : InstanceId → Call
  acknowledge : InstanceId → ℕ → Call

unfoldable pub call : Call → Database → Database
unfolding create_guarded rebind_profile_guarded Desired.delete set_desired request_restart
    Profiles.create Profiles.edit Profiles.delete mark_restart_pending_by_profile record_backoff
    clear_backoff clear_restart_pending acknowledge_restart
call (create_instance name p) d = (create_guarded name p d).1
call (rebind_instance id p) d = (rebind_profile_guarded id p d).1
call (delete_instance id) d = Desired.delete id d
call (desire id enabled s) d = set_desired id enabled s d
call (command_restart id) d = (request_restart id d).1
call (create_profile name mode org) d = (Profiles.create name mode org d).1
call (edit_profile id name mode org) d = (Profiles.edit (λ d. d) (λ d. d) id name mode org d).1
call (delete_profile id) d = (Profiles.delete id d).1
call (mark_profile p) d = (mark_restart_pending_by_profile p d).1
call (back_off id last next) d = record_backoff id last next d
call (end_backoff id) d = clear_backoff id d
call (end_pending id) d = clear_restart_pending id d
call (acknowledge id generation) d = acknowledge_restart id generation d

unfoldable pub calls : List Call → Database → Database
calls [] d = d
calls (c ∷ cs) d = calls cs (call c d)

-- What holds of one profile: its instances know it, and if it is a WARP+ profile they are one at most.
pub record IsSole (p : ℕ) (d : Database) : Type 0 where
  pub known : Map.get p d.profiles ≡ none → count_bound p d.rows ≡ 0
  pub sole : is_warp_plus (Map.get p d.profiles) ≡ true → count_bound p d.rows ≤ 1

pub record IsConsistent (d : Database) : Type 0 where
  pub unique : IsUnique d.rows
  pub each : (p : ℕ) → IsSole p d

-- A change of the rows under which no profile has more instances.
pub fewer-IsSole :
    (p : ℕ) (d e : Database)
    → IsSole p d
    → e.profiles ≡ d.profiles
    → count_bound p e.rows ≤ count_bound p d.rows
    → IsSole p e
fewer-IsSole p d e s same le = record {
  known = λ n. ground (arith, s.known (ap (Map.get p) (sym same) ∙ n));
  sole = λ n.
      ground
        (arith, s.sole (ap (λ (m : Desired.Profiles). is_warp_plus (Map.get p m)) (sym same) ∙ n));
}

pub update_row-IsConsistent :
    (id : InstanceId) (f : WarpInstanceSpec → WarpInstanceSpec) (d : Database)
    → KeepsProfile f
    → IsConsistent d
    → IsConsistent (update_row id f d)
update_row-IsConsistent id f d keeps c = record {
  unique = update-IsUnique id f d.rows c.unique;
  each = λ p.
      fewer-IsSole p d (update_row id f d) (c.each p) refl
        (omega (arith, count_bound-update p id f d.rows keeps));
}
