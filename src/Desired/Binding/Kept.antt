-- ===== src/Desired/Binding/Kept.antt =====
-- db/repo.rs and db/profiles.rs: every call keeps the tables consistent.
use warpdeck.Prelude.{
  ℕ, ◌≤◌, ◌≡◌, refl, sym, ap, ◌∙◌, true, Option, none, some, List, [], ◌∷◌, arith,
}
use warpdeck.Prelude.Map
use warpdeck.Prelude.Map.{
  IsUnique, insert-IsUnique, remove-IsUnique, update-IsUnique, get-insert, get-update, get-remove,
}
use warpdeck.Runtime.Instance.{InstanceId}
use warpdeck.Desired.{
  WarpInstanceSpec, DesiredState, AccountMode, AccountProfile, Database, is_warp_plus, count_bound,
  count_bound_others, next_id, create_guarded, rebind_profile_guarded, set_desired, record_backoff,
  clear_backoff, clear_restart_pending, request_restart, acknowledge_restart,
  mark_restart_pending_by_profile, update_row, is_known, rebound, commanded, acknowledged,
  ensure_warp_plus_bindable, Stored, rebind_profile, create, ok, err, new_spec,
}
use warpdeck.Desired
use warpdeck.Desired.Profiles
use warpdeck.Desired.Profiles.{edited, unbind_disabled}
use warpdeck.Desired.Binding.{
  Call, call, calls, IsSole, IsConsistent, fewer-IsSole, update_row-IsConsistent,
}
use warpdeck.Desired.Binding.Count.{
  get-next_id, count_bound-insert, count_bound-remove, count_bound-mark_rows,
  count_bound-unbind_disabled, count_bound_others-le, count_bound-rebound, count_bound-update-none,
  mark_rows-IsUnique, unbind_disabled-IsUnique,
}

create_guarded-IsSole :
    (name : List ℕ) (q : Option ℕ) (p : ℕ) (d : Database)
    → IsSole p d
    → IsSole p (create_guarded name q d).1
unfolding create_guarded
create_guarded-IsSole name none p d s =
    let n =
      count_bound-insert p (next_id d.rows) (new_spec (next_id d.rows) name none) d.rows
        (get-next_id _ d.rows (omega arith)) in
    record { known = λ h. ground (arith, n, s.known h); sole = λ h. ground (arith, n, s.sole h) }
create_guarded-IsSole name (some q) p d s =
    let n =
      count_bound-insert p (next_id d.rows) (new_spec (next_id d.rows) name (some q)) d.rows
        (get-next_id _ d.rows (omega arith)) in
    record { known = λ h. ground (arith, n, s.known); sole = λ h. ground (arith, n, s.sole) }

create_guarded-IsConsistent :
    (name : List ℕ) (q : Option ℕ) (d : Database)
    → IsConsistent d
    → IsConsistent (create_guarded name q d).1
create_guarded-IsConsistent name q d c = record {
  unique =
      unfold create_guarded in
      ground (
        arith,
        insert-IsUnique (next_id d.rows) (new_spec (next_id d.rows) name q) d.rows c.unique,
      );
  each = λ p. create_guarded-IsSole name q p d (c.each p);
}

module _ (id : InstanceId) (p : ℕ) (d : Database) where
  rebind-profiles : (q : Option ℕ) → (rebind_profile_guarded id q d).1.profiles ≡ d.profiles
  unfolding rebind_profile_guarded
  rebind-profiles none = ground arith
  rebind-profiles (some q) = ground arith

  -- A rebinding that is let through finds its profile free or not of WARP+.
  rebind-le :
      (q : Option ℕ)
      → IsUnique d.rows
      → IsSole p d
      → (Map.get p d.profiles ≡ none → count_bound p (rebind_profile_guarded id q d).1.rows ≡ 0)
        × (is_warp_plus (Map.get p d.profiles) ≡ true
            → count_bound p (rebind_profile_guarded id q d).1.rows ≤ 1)
  unfolding rebind_profile_guarded
  rebind-le none u s =
      let few = count_bound-rebound p id none d.rows u in
      let le = count_bound_others-le p id d.rows in
      (λ h. ground (arith, few, le, s.known h), λ h. ground (arith, few, le, s.sole h))
  rebind-le (some q) u s =
      let few = count_bound-rebound p id (some q) d.rows u in
      let le = count_bound_others-le p id d.rows in
      let same = count_bound-update-none p id (rebound (some q)) d.rows in
      (λ h. ground (arith, few, le, same, s.known h), λ h. ground (arith, few, le, same, s.sole h))

  rebind-IsSole :
      (q : Option ℕ) → IsUnique d.rows → IsSole p d → IsSole p (rebind_profile_guarded id q d).1
  rebind-IsSole q u s =
      let e = rebind-profiles q in
      let (known, sole) = rebind-le q u s in
      record {
        known = λ h. known (ap (Map.get p) (sym e) ∙ h);
        sole = λ h. sole (ap (λ (m : Desired.Profiles). is_warp_plus (Map.get p m)) (sym e) ∙ h);
      }

rebind-IsConsistent :
    (id : InstanceId) (q : Option ℕ) (d : Database)
    → IsConsistent d
    → IsConsistent (rebind_profile_guarded id q d).1
rebind-IsConsistent id q d c = record {
  unique =
      unfold rebind_profile_guarded in
      ground (arith, update-IsUnique id (rebound q) d.rows c.unique);
  each = λ p. rebind-IsSole id p d q c.unique (c.each p);
}

delete-IsConsistent :
    (id : InstanceId) (d : Database) → IsConsistent d → IsConsistent (Desired.delete id d)
unfolding Desired.delete
delete-IsConsistent id d c = record {
  unique = remove-IsUnique id d.rows c.unique;
  each = λ p. fewer-IsSole p d _ (c.each p) refl (count_bound-remove p id d.rows);
}

mark-IsConsistent :
    (q : ℕ) (d : Database) → IsConsistent d → IsConsistent (mark_restart_pending_by_profile q d).1
unfolding mark_restart_pending_by_profile
mark-IsConsistent q d c = record {
  unique = mark_rows-IsUnique q d.rows c.unique;
  each = λ p. fewer-IsSole p d _ (c.each p) refl (omega (arith, count_bound-mark_rows p q d.rows));
}

create_profile-IsConsistent :
    (name : List ℕ) (mode : AccountMode) (org : Option (List ℕ)) (d : Database)
    → IsConsistent d
    → IsConsistent (Profiles.create name mode org d).1
unfolding Profiles.create
create_profile-IsConsistent name mode org d c =
    let id = next_id d.profiles in
    let profile : AccountProfile = record {
      id = id;
      name = name;
      mode = mode;
      zero_trust_org = org;
    } in
    let new = get-next_id id d.profiles (omega arith) in
    record {
      unique = ground (arith, c.unique);
      each = λ p. record {
        known = λ h. ground (arith, get-insert id p profile d.profiles, (c.each p).known);
        sole = λ h.
            ground
              (arith, new, get-insert id p profile d.profiles, (c.each p).known, (c.each p).sole);
      };
    }

edit_profile-IsConsistent :
    (id : ℕ) (name : List ℕ) (mode : AccountMode) (org : Option (List ℕ)) (d : Database)
    → IsConsistent d
    → IsConsistent (Profiles.edit (λ d. d) (λ d. d) id name mode org d).1
unfolding Profiles.edit
edit_profile-IsConsistent id name mode org d c = record {
  unique = ground (arith, c.unique);
  each = λ p. record {
    known =
        λ h. ground (arith, get-update id p (edited name mode org) d.profiles, (c.each p).known);
    sole = λ h. ground (
      arith,
      get-update id p (edited name mode org) d.profiles,
      (c.each p).known,
      (c.each p).sole,
    );
  };
}

delete_profile-IsConsistent :
    (id : ℕ) (d : Database) → IsConsistent d → IsConsistent (Profiles.delete id d).1
unfolding Profiles.delete
delete_profile-IsConsistent id d c = record {
  unique = ground (arith, c.unique, unbind_disabled-IsUnique id d.rows c.unique);
  each = λ p. record {
    known = λ h. ground (
      arith,
      get-remove id p d.profiles,
      count_bound-unbind_disabled p id d.rows,
      (c.each p).known,
    );
    sole = λ h. ground (
      arith,
      get-remove id p d.profiles,
      count_bound-unbind_disabled p id d.rows,
      (c.each p).sole,
    );
  };
}

call-IsConsistent : (c : Call) (d : Database) → IsConsistent d → IsConsistent (call c d)
unfolding call Desired.set_desired request_restart record_backoff clear_backoff
    clear_restart_pending acknowledge_restart
call-IsConsistent (Call.create_instance name p) d i = create_guarded-IsConsistent name p d i
call-IsConsistent (Call.rebind_instance id p) d i = rebind-IsConsistent id p d i
call-IsConsistent (Call.delete_instance id) d i = delete-IsConsistent id d i
call-IsConsistent (Call.desire id enabled s) d i = update_row-IsConsistent id _ d (λ t. refl) i
call-IsConsistent (Call.command_restart id) d i = update_row-IsConsistent id _ d (λ t. refl) i
call-IsConsistent (Call.create_profile name mode org) d i =
    create_profile-IsConsistent name mode org d i
call-IsConsistent (Call.edit_profile id name mode org) d i =
    edit_profile-IsConsistent id name mode org d i
call-IsConsistent (Call.delete_profile id) d i = delete_profile-IsConsistent id d i
call-IsConsistent (Call.mark_profile p) d i = mark-IsConsistent p d i
call-IsConsistent (Call.back_off id last next) d i = update_row-IsConsistent id _ d (λ t. refl) i
call-IsConsistent (Call.end_backoff id) d i = update_row-IsConsistent id _ d (λ t. refl) i
call-IsConsistent (Call.end_pending id) d i = update_row-IsConsistent id _ d (λ t. refl) i
call-IsConsistent (Call.acknowledge id generation) d i =
    update_row-IsConsistent id _ d (λ t. refl) i

-- From consistent tables on, after any sequence of the calls that the API and the reconciler make on the
-- instances and the profiles, one after the other and none of them between the reads and the write of an
-- edit, the keys of the instances are distinct, every profile that an instance is
-- bound to exists, and a WARP+ profile has at most one instance.
pub calls-IsConsistent :
    (cs : List Call) (d : Database) → IsConsistent d → IsConsistent (calls cs d)
unfolding calls
calls-IsConsistent [] d i = i
calls-IsConsistent (c ∷ cs) d i = calls-IsConsistent cs (call c d) (call-IsConsistent c d i)
