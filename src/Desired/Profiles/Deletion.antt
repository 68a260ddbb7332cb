-- ===== src/Desired/Profiles/Deletion.antt =====
-- db/profiles.rs: a refused deletion of a profile.
use warpdeck.Prelude.{ℕ, ◌≡◌, ◌≢◌, true, false, none, some, arith, ◌<◌}
use warpdeck.Prelude.Map
use warpdeck.Runtime.Instance.{InstanceId}
use warpdeck.Desired.{WarpInstanceSpec, Database, is_bound_to, count_bound}
use warpdeck.Desired.Profiles.{default_profile_id, delete, conflict, still_used, unbind_disabled}
use warpdeck.Desired.Binding.Count.{get-unbind_disabled-map}

-- A deletion of a profile other than the built-in one that an enabled instance still uses is
-- refused as a conflict, and all the same a disabled instance that was bound to the profile has
-- lost its binding. A row that is not bound to the profile, or is enabled, is what it was.
pub delete-still_used :
    (id : ℕ) (k : InstanceId) (s : WarpInstanceSpec) (d : Database)
    → id ≢ default_profile_id
    → 0 < count_bound id (unbind_disabled id d.rows)
    → Map.get k d.rows ≡ some s
    → ((delete id d).0 ≡ conflict (still_used id))
      × (is_bound_to id s ≡ true
          → s.enabled ≡ false
          → Map.get k (delete id d).1.rows ≡ some (record s { account_profile_id = none }))
      × (is_bound_to id s ≡ false → Map.get k (delete id d).1.rows ≡ some s)
      × (s.enabled ≡ true → Map.get k (delete id d).1.rows ≡ some s)
unfolding delete
delete-still_used id k s d other used found =
    let e = get-unbind_disabled-map k id d.rows in
    (
      ground arith,
      λ b off. ground (arith, e, found),
      λ b. ground (arith, e, found),
      λ on. ground (arith, e, found),
    )
