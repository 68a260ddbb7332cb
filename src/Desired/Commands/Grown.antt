-- ===== src/Desired/Commands/Grown.antt =====
-- db/repo.rs: what a call other than an acknowledgment does to the restart commands of a row.
use warpdeck.Prelude.{
  ℕ, ◌≤◌, ◌≡◌, ◌⊎◌, inl, inr, refl, sym, false, Option, none, some, List, arith, ap, ◌∙◌, ◌==◌,
  Option-cases, Bool-cases,
}
use mathlib.Core.Option
use warpdeck.Prelude.Map
use warpdeck.Prelude.Map.{get-insert, get-update, get-remove}
use warpdeck.Runtime.Instance.{InstanceId}
use warpdeck.Desired.{
  WarpInstanceSpec, Rows, Database, next_id, mark_rows, create_guarded, rebind_profile_guarded,
  set_desired, record_backoff, clear_backoff, clear_restart_pending, request_restart,
  acknowledge_restart, mark_restart_pending_by_profile, acknowledged, is_bound_to, new_spec,
  rebound, AccountMode,
}
use warpdeck.Desired
use warpdeck.Desired.Profiles
use warpdeck.Desired.Profiles.{unbind_disabled}
use warpdeck.Desired.Binding.{Call, call}
use warpdeck.Desired.Binding.Count.{marked, unbound, get-mark_rows-map, get-unbind_disabled-map}
use warpdeck.Desired.Commands.{is_acknowledge}

-- What a call does to a row: it is new, or it had no more commands before and the same acknowledgment.
abbrev pub Grown : Rows → InstanceId → WarpInstanceSpec → Type 0
Grown rows id s =
    ((id ≡ next_id rows) × (s.restart_command_generation ≡ 0) × (s.observed_restart_generation ≡ 0))
    ⊎ ((t : WarpInstanceSpec) × (Map.get id rows ≡ some t)
        × (t.restart_command_generation ≤ s.restart_command_generation)
        × (s.observed_restart_generation ≡ t.observed_restart_generation))

-- The change counts no command down and acknowledges none.
abbrev KeepsCommands : (WarpInstanceSpec → WarpInstanceSpec) → Type 0
KeepsCommands f =
    (s : WarpInstanceSpec)
    → (s.restart_command_generation ≤ (f s).restart_command_generation)
      × ((f s).observed_restart_generation ≡ s.observed_restart_generation)

update-Grown :
    (k : InstanceId) (f : WarpInstanceSpec → WarpInstanceSpec) (rows : Rows) (id : InstanceId)
    (s : WarpInstanceSpec)
    → KeepsCommands f
    → Map.get id (Map.update k f rows) ≡ some s
    → Grown rows id s
update-Grown k f rows id s keeps found = elim (Option-cases (Map.get id rows)) [
  | inl p ↦ absurd (ground (arith, p, get-update k id f rows))
  | inr (t, p) ↦ inr (
    t,
    p,
    ground (arith, get-update k id f rows, keeps t),
    ground (arith, get-update k id f rows, keeps t),
  )
]

same-Grown :
    (rows : Rows) (id : InstanceId) (s : WarpInstanceSpec)
    → Map.get id rows ≡ some s
    → Grown rows id s
same-Grown rows id s found = inr (s, found, omega arith, refl)

-- A row whose new version is a function of the old one.
map-Grown :
    (f : WarpInstanceSpec → WarpInstanceSpec) (rows : Rows) (id : InstanceId) (s : WarpInstanceSpec)
    → KeepsCommands f
    → Option.map f (Map.get id rows) ≡ some s
    → Grown rows id s
map-Grown f rows id s keeps found = elim (Option-cases (Map.get id rows)) [
  | inl p ↦ absurd (ground (arith, p))
  | inr (t, p) ↦ inr (t, p, ground (arith, p, keeps t), ground (arith, p, keeps t))
]

insert-Grown :
    (rows : Rows) (new : WarpInstanceSpec) (id : InstanceId) (s : WarpInstanceSpec)
    → new.restart_command_generation ≡ 0
    → new.observed_restart_generation ≡ 0
    → Map.get id (Map.insert (next_id rows) new rows) ≡ some s
    → Grown rows id s
insert-Grown rows new id s c o found = elim (Bool-cases (next_id rows == id)) [
  | inl same ↦ inl (
    ground (arith, same),
    ground (arith, same, get-insert (next_id rows) id new rows),
    ground (arith, same, get-insert (next_id rows) id new rows),
  )
  | inr apart ↦ same-Grown rows id s (ground (arith, apart, get-insert (next_id rows) id new rows))
]

create_guarded-rows :
    (name : List ℕ) (q : Option ℕ) (d : Database)
    → ((create_guarded name q d).1.rows ≡ d.rows)
      ⊎ ((create_guarded name q d).1.rows
          ≡ Map.insert (next_id d.rows) (new_spec (next_id d.rows) name q) d.rows)
unfolding create_guarded
create_guarded-rows name none d = inr (ground arith)
create_guarded-rows name (some p) d = ground arith

rebind_profile_guarded-rows :
    (id : InstanceId) (q : Option ℕ) (d : Database)
    → ((rebind_profile_guarded id q d).1.rows ≡ d.rows)
      ⊎ ((rebind_profile_guarded id q d).1.rows ≡ Map.update id (rebound q) d.rows)
unfolding rebind_profile_guarded
rebind_profile_guarded-rows id none d = ground arith
rebind_profile_guarded-rows id (some p) d = ground arith

create_profile-rows :
    (name : List ℕ) (mode : AccountMode) (org : Option (List ℕ)) (d : Database)
    → (Profiles.create name mode org d).1.rows ≡ d.rows
unfolding Profiles.create
create_profile-rows name mode org d = ground arith

edit_profile-rows :
    (id : ℕ) (name : List ℕ) (mode : AccountMode) (org : Option (List ℕ)) (d : Database)
    → (Profiles.edit (λ d. d) (λ d. d) id name mode org d).1.rows ≡ d.rows
unfolding Profiles.edit
edit_profile-rows id name mode org d = ground arith

delete_profile-rows :
    (id : ℕ) (d : Database)
    → ((Profiles.delete id d).1.rows ≡ d.rows)
      ⊎ ((Profiles.delete id d).1.rows ≡ unbind_disabled id d.rows)
unfolding Profiles.delete
delete_profile-rows id d = ground arith

pub call-Grown :
    (c : Call) (d : Database) (id : InstanceId) (s : WarpInstanceSpec)
    → is_acknowledge c ≡ false
    → Map.get id (call c d).rows ≡ some s
    → Grown d.rows id s
unfolding call set_desired request_restart record_backoff clear_backoff clear_restart_pending
    mark_restart_pending_by_profile Desired.delete
call-Grown (Call.create_instance name p) d id s na found = elim (create_guarded-rows name p d) [
  | inl same ↦ same-Grown d.rows id s (sym (ap (Map.get id) same) ∙ found)
  | inr new ↦ insert-Grown d.rows _ id s refl refl (sym (ap (Map.get id) new) ∙ found)
]
call-Grown (Call.rebind_instance k p) d id s na found = elim (rebind_profile_guarded-rows k p d) [
  | inl same ↦ same-Grown d.rows id s (sym (ap (Map.get id) same) ∙ found)
  | inr new ↦
      update-Grown k _ d.rows id s (λ t. (omega arith, refl)) (sym (ap (Map.get id) new) ∙ found)
]
call-Grown (Call.delete_instance k) d id s na found =
    same-Grown d.rows id s (ground (arith, get-remove k id d.rows))
call-Grown (Call.desire k enabled t) d id s na found =
    update-Grown k _ d.rows id s (λ t. (omega arith, refl)) found
call-Grown (Call.command_restart k) d id s na found =
    update-Grown k _ d.rows id s (λ t. (omega arith, refl)) found
call-Grown (Call.create_profile name mode org) d id s na found =
    same-Grown d.rows id s (sym (ap (Map.get id) (create_profile-rows name mode org d)) ∙ found)
call-Grown (Call.edit_profile k name mode org) d id s na found =
    same-Grown d.rows id s (sym (ap (Map.get id) (edit_profile-rows k name mode org d)) ∙ found)
call-Grown (Call.delete_profile k) d id s na found = elim (delete_profile-rows k d) [
  | inl same ↦ same-Grown d.rows id s (sym (ap (Map.get id) same) ∙ found)
  | inr new ↦
      map-Grown (unbound k) d.rows id s (λ t. (ground arith, ground arith))
        (sym (get-unbind_disabled-map id k d.rows) ∙ (sym (ap (Map.get id) new) ∙ found))
]
call-Grown (Call.mark_profile q) d id s na found =
    map-Grown (marked q) d.rows id s (λ t. (ground arith, ground arith))
      (sym (get-mark_rows-map id q d.rows) ∙ found)
call-Grown (Call.back_off k last due) d id s na found =
    update-Grown k _ d.rows id s (λ t. (omega arith, refl)) found
call-Grown (Call.end_backoff k) d id s na found =
    update-Grown k _ d.rows id s (λ t. (omega arith, refl)) found
call-Grown (Call.end_pending k) d id s na found =
    update-Grown k _ d.rows id s (λ t. (omega arith, refl)) found
call-Grown (Call.acknowledge k generation) d id s na found = absurd (ground arith)
