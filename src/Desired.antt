-- ===== src/Desired.antt =====
-- db/repo.rs: the desired state of the instances. The table `warp_instances` is an association list from
-- its primary key, whose rows stand in the order of their keys; a transaction is one function. Times and
-- names are texts. A failure of the database itself is not modelled here.
pub mod Profiles
pub mod Binding
pub mod Commands
pub mod Config
mod Tests
use warpdeck.Prelude.{
  ℕ, suc, ◌+◌, max, Bool, true, false, ◌&&◌, ◌||◌, Option, none, some, List, [], ◌∷◌, ◌==◌, not,
  if◌then◌else◌,
}
use warpdeck.Prelude.Map
use warpdeck.Runtime.Instance.{InstanceId}

pub data DesiredState : Type 0 where
  running stopped : DesiredState

pub record WarpInstanceSpec : Type 0 where
  pub id : InstanceId
  pub name : List ℕ
  pub enabled : Bool
  pub desired_state : DesiredState
  pub auto_restart : Bool
  pub account_profile_id : Option ℕ
  pub restart_pending : Bool
  pub restart_command_generation : ℕ
  pub observed_restart_generation : ℕ
  pub last_failure_at : Option (List ℕ)
  pub next_retry_at : Option (List ℕ)

abbrev pub is_running : DesiredState → Bool
is_running running = true
is_running stopped = false

unfoldable pub should_run : WarpInstanceSpec → Bool
should_run spec = spec.enabled && is_running spec.desired_state

abbrev pub Rows : Type 0
Rows = List (ℕ × WarpInstanceSpec)

-- A row of `account_profiles`, of db/profiles.rs.
pub data AccountMode : Type 0 where
  free warp_plus zero_trust : AccountMode

pub record AccountProfile : Type 0 where
  pub id : ℕ
  pub name : List ℕ
  pub mode : AccountMode
  pub zero_trust_org : Option (List ℕ)

abbrev pub Profiles : Type 0
Profiles = List (ℕ × AccountProfile)

pub record Database : Type 0 where
  pub rows : Rows
  pub profiles : Profiles

pub data RepoError : Type 0 where
  -- A foreign key that points nowhere.
  db : RepoError
  profile_already_bound : ℕ → RepoError

pub data Stored (A : Type 0) : Type 0 where
  ok : A → Stored A
  err : RepoError → Stored A

-- The defaults of the columns.
abbrev pub new_spec : ℕ → List ℕ → Option ℕ → WarpInstanceSpec
new_spec id name account_profile_id = record {
  id = id;
  name = name;
  enabled = true;
  desired_state = running;
  auto_restart = true;
  account_profile_id = account_profile_id;
  restart_pending = false;
  restart_command_generation = 0;
  observed_restart_generation = 0;
  last_failure_at = none;
  next_retry_at = none;
}

-- `INTEGER PRIMARY KEY` without `AUTOINCREMENT`: one more than the largest key there is.
unfoldable pub next_id {ℓ} : {V : Type ℓ} → List (ℕ × V) → ℕ
next_id [] = 1
next_id ((k, s) ∷ rows) = max (suc k) (next_id rows)

-- `REFERENCES account_profiles(id)`: a key is null or points to a profile.
abbrev pub is_known : Option ℕ → Database → Bool
is_known none d = true
is_known (some p) d = elim (Map.get p d.profiles) [ none ↦ false | some profile ↦ true ]

abbrev pub with_rows : (Rows → Rows) → Database → Database
with_rows f d = record d { rows = f d.rows }

unfoldable pub create : List ℕ → Option ℕ → Database → Stored WarpInstanceSpec × Database
unfolding next_id
create name account_profile_id d =
    let id = next_id d.rows in
    let spec = new_spec id name account_profile_id in
    if is_known account_profile_id d
    then (ok spec, with_rows (Map.insert id spec) d)
    else (err db, d)

unfoldable pub get : InstanceId → Database → Option WarpInstanceSpec
get id d = Map.get id d.rows

unfoldable pub values : Rows → List WarpInstanceSpec
values [] = []
values ((k, s) ∷ rows) = s ∷ values rows

unfoldable pub list : Database → List WarpInstanceSpec
unfolding values
list d = values d.rows

-- `UPDATE … WHERE id = ?`.
abbrev pub update_row : InstanceId → (WarpInstanceSpec → WarpInstanceSpec) → Database → Database
update_row id f d = with_rows (Map.update id f) d

unfoldable pub set_desired : InstanceId → Bool → DesiredState → Database → Database
set_desired id enabled desired d =
    update_row id (λ s. record s { enabled = enabled; desired_state = desired }) d

unfoldable pub delete : InstanceId → Database → Database
delete id d = with_rows (Map.remove id) d

unfoldable pub record_backoff : InstanceId → List ℕ → Option (List ℕ) → Database → Database
record_backoff id last next d =
    update_row id (λ s. record s { last_failure_at = some last; next_retry_at = next }) d

unfoldable pub clear_backoff : InstanceId → Database → Database
clear_backoff id d =
    update_row id (λ s. record s { last_failure_at = none; next_retry_at = none }) d

abbrev pub is_bound_to : ℕ → WarpInstanceSpec → Bool
is_bound_to p s = elim s.account_profile_id [ none ↦ false | some q ↦ q == p ]

-- `UPDATE … WHERE account_profile_id = ? AND enabled = 1 AND desired_state = 'running'`, with the count of
-- the rows that it changes.
unfoldable pub mark_rows : ℕ → Rows → ℕ × Rows
mark_rows p [] = (0, [])
mark_rows p ((k, s) ∷ rows) =
    let (n, rest) = mark_rows p rows in
    if is_bound_to p s && (s.enabled && is_running s.desired_state)
    then (suc n, (k, record s { restart_pending = true }) ∷ rest)
    else (n, (k, s) ∷ rest)

unfoldable pub mark_restart_pending_by_profile : ℕ → Database → ℕ × Database
unfolding mark_rows
mark_restart_pending_by_profile p d =
    let (n, rows) = mark_rows p d.rows in (n, record d { rows = rows })

unfoldable pub clear_restart_pending : InstanceId → Database → Database
clear_restart_pending id d = update_row id (λ s. record s { restart_pending = false }) d

abbrev pub rebound : Option ℕ → WarpInstanceSpec → WarpInstanceSpec
rebound p s = record s { account_profile_id = p; restart_pending = true }

abbrev pub is_found : Option WarpInstanceSpec → Bool
is_found none = false
is_found (some s) = true

-- The foreign key is checked where a row is written.
unfoldable pub rebind_profile : InstanceId → Option ℕ → Database → Stored (Unit {0}) × Database
rebind_profile id p d =
    if is_known p d || not (is_found (Map.get id d.rows))
    then (ok tt, update_row id (rebound p) d)
    else (err db, d)

unfoldable pub count_bound : ℕ → Rows → ℕ
count_bound p [] = 0
count_bound p ((k, s) ∷ rows) = (if is_bound_to p s then 1 else 0) + count_bound p rows

unfoldable pub count_bound_to_profile : ℕ → Database → ℕ
unfolding count_bound
count_bound_to_profile p d = count_bound p d.rows

-- `… AND id != ?`.
unfoldable pub count_bound_others : ℕ → InstanceId → Rows → ℕ
count_bound_others p id [] = 0
count_bound_others p id ((k, s) ∷ rows) =
    (if is_bound_to p s && not (k == id) then 1 else 0) + count_bound_others p id rows

abbrev pub commanded : WarpInstanceSpec → WarpInstanceSpec
commanded s = record s { restart_command_generation = s.restart_command_generation + 1 }

abbrev generation_of : Option WarpInstanceSpec → ℕ
generation_of none = 0
generation_of (some s) = s.restart_command_generation

unfoldable pub request_restart : InstanceId → Database → ℕ × Database
request_restart id d =
    let d' = update_row id commanded d in (generation_of (Map.get id d'.rows), d')

abbrev pub acknowledged : ℕ → WarpInstanceSpec → WarpInstanceSpec
acknowledged generation s = record s {
  observed_restart_generation = max s.observed_restart_generation generation;
}

unfoldable pub acknowledge_restart : InstanceId → ℕ → Database → Database
acknowledge_restart id generation d = update_row id (acknowledged generation) d

abbrev pub is_plus : AccountMode → Bool
is_plus warp_plus = true
is_plus _ = false

abbrev pub is_warp_plus : Option AccountProfile → Bool
is_warp_plus none = false
is_warp_plus (some profile) = is_plus profile.mode

-- How many rows bar a new binding.
abbrev pub bound_elsewhere : ℕ → Option InstanceId → Rows → ℕ
bound_elsewhere p none rows = count_bound p rows
bound_elsewhere p (some id) rows = count_bound_others p id rows

unfoldable pub ensure_warp_plus_bindable :
    Option ℕ → Option InstanceId → Database → Stored (Unit {0})
unfolding count_bound count_bound_others
ensure_warp_plus_bindable none exclude d = ok tt
ensure_warp_plus_bindable (some p) exclude d =
    if not (is_warp_plus (Map.get p d.profiles))
    then ok tt
    else if bound_elsewhere p exclude d.rows == 0
    then ok tt
    else err (profile_already_bound p)

unfoldable pub rebind_profile_guarded :
    InstanceId → Option ℕ → Database → Stored (Unit {0}) × Database
unfolding ensure_warp_plus_bindable rebind_profile
rebind_profile_guarded id p d = elim (ensure_warp_plus_bindable p (some id) d) [
  | err e ↦ (err e, d)
  | ok _ ↦ rebind_profile id p d
]

unfoldable pub create_guarded : List ℕ → Option ℕ → Database → Stored WarpInstanceSpec × Database
unfolding ensure_warp_plus_bindable create
create_guarded name p d = elim (ensure_warp_plus_bindable p none d) [
  | err e ↦ (err e, d)
  | ok _ ↦ create name p d
]
