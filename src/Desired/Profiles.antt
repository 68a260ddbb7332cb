-- ===== src/Desired/Profiles.antt =====
-- db/profiles.rs: the account profiles. Profile 1 is the built-in free one. A statement is committed by
-- itself: these operations hold no transaction.
pub mod Free
pub mod Deletion
use warpdeck.Prelude.{
  ℕ, ◌+◌, Bool, true, false, ◌&&◌, ◌||◌, Option, none, some, List, [], ◌∷◌, ◌==◌, not, ltb, list_eq,
  if◌then◌else◌,
}
use warpdeck.Prelude.Map
use warpdeck.Desired.{
  AccountMode, free, warp_plus, zero_trust, AccountProfile, Profiles, Rows, Database, is_bound_to,
  count_bound, next_id, mark_restart_pending_by_profile,
}

abbrev pub default_profile_id : ℕ
default_profile_id = 1

pub data Conflict : Type 0 where
  only_one_free read_only built_in : Conflict
  name_taken : List ℕ → Conflict
  still_used : ℕ → Conflict

pub data ProfileResult (A : Type 0) : Type 0 where
  ok : A → ProfileResult A
  not_found : ℕ → ProfileResult A
  conflict : Conflict → ProfileResult A

abbrev pub is_free : AccountMode → Bool
is_free free = true
is_free _ = false

-- The number of profiles of mode free, as `count_mode` is only asked for them.
unfoldable pub count_free : Profiles → ℕ
count_free [] = 0
count_free ((k, p) ∷ ps) = (if is_free p.mode then 1 else 0) + count_free ps

-- `UNIQUE(name)`: another row has the name already.
unfoldable pub name_exists : ℕ → List ℕ → Profiles → Bool
name_exists id name [] = false
name_exists id name ((k, p) ∷ ps) = not (k == id) && list_eq p.name name || name_exists id name ps

unfoldable pub create :
    List ℕ → AccountMode → Option (List ℕ) → Database → ProfileResult AccountProfile × Database
unfolding count_free name_exists next_id
create name mode org d =
    let id = next_id d.profiles in
    let profile : AccountProfile = record {
      id = id;
      name = name;
      mode = mode;
      zero_trust_org = org;
    } in
    if is_free mode && ltb 0 (count_free d.profiles)
    then (conflict only_one_free, d)
    else if name_exists id name d.profiles
    then (conflict (name_taken name), d)
    else (ok profile, record d { profiles = Map.insert id profile d.profiles })

unfoldable pub get : ℕ → Database → ProfileResult AccountProfile
get id d = elim (Map.get id d.profiles) [ none ↦ not_found id | some p ↦ ok p ]

abbrev pub mode_eq : AccountMode → AccountMode → Bool
mode_eq free free = true
mode_eq warp_plus warp_plus = true
mode_eq zero_trust zero_trust = true
mode_eq _ _ = false

abbrev pub org_eq : Option (List ℕ) → Option (List ℕ) → Bool
org_eq none none = true
org_eq (some a) (some b) = list_eq a b
org_eq _ _ = false

abbrev pub edited : List ℕ → AccountMode → Option (List ℕ) → AccountProfile → AccountProfile
edited name mode org p = record p { name = name; mode = mode; zero_trust_org = org }

-- What follows the guards: the row, and the mark on the instances that run with it.
unfoldable pub write_profile :
    ℕ → List ℕ → AccountMode → Option (List ℕ) → AccountProfile → Database → Database
write_profile id name mode org before d =
    let d1 = record d { profiles = Map.update id (edited name mode org) d.profiles } in
    if not (mode_eq before.mode mode) || not (org_eq before.zero_trust_org org)
    then (mark_restart_pending_by_profile id d1).1
    else d1

unfoldable pub update :
    ℕ → List ℕ → AccountMode → Option (List ℕ) → Database → ProfileResult AccountProfile × Database
unfolding count_free name_exists write_profile get
update id name mode org d = elim (Map.get id d.profiles) [
  | none ↦ (not_found id, d)
  | some before ↦
      let d1 = write_profile id name mode org before d in
      if is_free before.mode
      then (conflict read_only, d)
      else if is_free mode && ltb 0 (count_free d.profiles)
      then (conflict only_one_free, d)
      else if name_exists id name d.profiles
      then (conflict (name_taken name), d)
      else (get id d1, d1)
]

-- `UPDATE … SET account_profile_id = NULL WHERE account_profile_id = ? AND enabled = 0`.
unfoldable pub unbind_disabled : ℕ → Rows → Rows
unbind_disabled p [] = []
unbind_disabled p ((k, s) ∷ rows) =
    (if is_bound_to p s && not s.enabled
      then (k, record s { account_profile_id = none })
      else (k, s))
    ∷ unbind_disabled p rows

unfoldable pub delete : ℕ → Database → ProfileResult (Unit {0}) × Database
unfolding unbind_disabled count_bound
delete id d =
    let d1 = record d { rows = unbind_disabled id d.rows } in
    if id == default_profile_id
    then (conflict built_in, d)
    else if ltb 0 (count_bound id d1.rows)
    then (conflict (still_used id), d1)
    else (ok tt, record d1 { profiles = Map.remove id d.profiles })

-- `… WHERE mode = 'free' AND id != ?`.
unfoldable pub count_free_others : ℕ → Profiles → ℕ
count_free_others id [] = 0
count_free_others id ((k, p) ∷ ps) =
    (if is_free p.mode && not (k == id) then 1 else 0) + count_free_others id ps

-- db/uow.rs, without the credentials that it writes with the row.
unfoldable pub update_profile_with_credentials :
    ℕ → List ℕ → AccountMode → Option (List ℕ) → Database → ProfileResult (Unit {0}) × Database
unfolding count_free_others name_exists
update_profile_with_credentials id name mode org d =
    if is_free mode && ltb 0 (count_free_others id d.profiles)
    then (conflict only_one_free, d)
    else if name_exists id name d.profiles
    then (conflict (name_taken name), d)
    else (ok tt, record d { profiles = Map.update id (edited name mode org) d.profiles })

-- api/accounts.rs: an edit. The handler reads the profile, then counts its instances, and then writes in a
-- transaction that does not count them again; the calls that come in between the reads, and between the
-- count and the transaction, are given.
unfoldable pub edit :
    (Database → Database)
    → (Database → Database)
    → ℕ
    → List ℕ
    → AccountMode
    → Option (List ℕ)
    → Database
    → ProfileResult (Unit {0}) × Database
unfolding update_profile_with_credentials count_bound
edit before_count before_write id name mode org d = elim (Map.get id d.profiles) [
  | none ↦ (not_found id, d)
  | some before ↦
      let d1 = before_count d in
      if is_free before.mode
      then (conflict read_only, d)
      else if ltb 0 (count_bound id d1.rows)
      then (conflict (still_used id), d1)
      else update_profile_with_credentials id name mode org (before_write d1)
]
