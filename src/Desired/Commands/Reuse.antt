-- ===== src/Desired/Commands/Reuse.antt =====
-- db/repo.rs: `INTEGER PRIMARY KEY` without `AUTOINCREMENT` gives the key of a deleted last row again.
use warpdeck.Prelude.{
  ℕ, zero, suc, ◌+◌, ◌≤◌, ◌≡◌, refl, ap, ◌∙◌, true, false, Option, none, some, List, [], ◌∷◌, arith,
}
use warpdeck.Prelude.Map
use warpdeck.Prelude.Map.{get-insert, get-update}
use warpdeck.Runtime.Instance.{InstanceId}
use warpdeck.Desired.{
  WarpInstanceSpec, Database, Rows, next_id, is_known, create, delete, request_restart,
  acknowledge_restart, commanded, acknowledged, new_spec,
}
use warpdeck.Desired.Binding.Count.{get-next_id}
use warpdeck.Desired.Commands.{is_pending}

-- Restart requests one after the other.
unfoldable pub requests : ℕ → InstanceId → Database → Database
unfolding request_restart
requests zero id d = d
requests (suc n) id d = requests n id (request_restart id d).1

remove-insert :
    (k : ℕ) (s : WarpInstanceSpec) (rows : Rows)
    → Map.get k rows ≡ none
    → Map.remove k (Map.insert k s rows) ≡ rows
unfolding Map.remove Map.insert Map.get
remove-insert k s [] h = ground arith
remove-insert k s ((j, t) ∷ rows) h = ground (arith, remove-insert k s rows)

pub get-requests :
    (n : ℕ) (id : InstanceId) (s : WarpInstanceSpec) (d : Database)
    → Map.get id d.rows ≡ some s
    → Map.get id (requests n id d).rows
      ≡ some (record s { restart_command_generation = s.restart_command_generation + n })
unfolding requests
get-requests zero id s d found = ground (arith, found)
get-requests (suc n) id s d found =
    let next =
      get-requests n id (commanded s) (request_restart id d).1
        (ground (arith, found, get-update id id commanded d.rows)) in
    ground (arith, next)

remove-update :
    (k : ℕ) (f : WarpInstanceSpec → WarpInstanceSpec) (rows : Rows)
    → Map.remove k (Map.update k f rows) ≡ Map.remove k rows
unfolding Map.remove Map.update
remove-update k f [] = refl
remove-update k f ((j, t) ∷ rows) = ground (arith, remove-update k f rows)

delete-requests :
    (n : ℕ) (id : InstanceId) (d : Database) → delete id (requests n id d) ≡ delete id d
unfolding requests delete
delete-requests zero id d = refl
delete-requests (suc n) id d =
    let rest = delete-requests n id (request_restart id d).1 in
    rest ∙ ap (λ (rows : Rows). record d { rows = rows }) (remove-update id commanded d.rows)

-- An instance is created and its restart commanded `g` times; while the reconciler works on it, it is
-- deleted and another one is created.
abbrev pub replaced : List ℕ → List ℕ → Option ℕ → Option ℕ → ℕ → Database → Database
replaced name name' p q g d =
    let id = next_id d.rows in (create name' q (delete id (requests g id (create name p d).1))).1

delete-create :
    (name : List ℕ) (p : Option ℕ) (d : Database)
    → is_known p d ≡ true
    → delete (next_id d.rows) (create name p d).1 ≡ d
unfolding delete create
delete-create name p d known = rw known (
    ap (λ (rows : Rows). record d { rows = rows })
      (remove-insert _ _ d.rows (get-next_id _ d.rows (omega arith))))

replaced-create :
    (name name' : List ℕ) (p q : Option ℕ) (g : ℕ) (d : Database)
    → is_known p d ≡ true
    → replaced name name' p q g d ≡ (create name' q d).1
replaced-create name name' p q g d known =
    ap (λ (x : Database). (create name' q x).1)
      (delete-requests g (next_id d.rows) (create name p d).1 ∙ delete-create name p d known)

pub get-replaced :
    (name name' : List ℕ) (p q : Option ℕ) (g : ℕ) (d : Database)
    → is_known p d ≡ true
    → is_known q d ≡ true
    → Map.get (next_id d.rows) (replaced name name' p q g d).rows
      ≡ some (new_spec (next_id d.rows) name' q)
unfolding create
get-replaced name name' p q g d known known' =
    let id = next_id d.rows in
    rw (replaced-create name name' p q g d known)
      (ground (arith, known', get-insert id id (new_spec id name' q) d.rows))

-- An instance that is created after the newest one was deleted, both with profiles that exist, has
-- the same key. If the reconciler then acknowledges the `g` commands that it has read of the
-- deleted one, the first `g` restart commands of the new one are not pending.
pub acknowledge_restart-replaced :
    (name name' : List ℕ) (p q : Option ℕ) (d : Database) (g n : ℕ)
    → is_known p d ≡ true
    → is_known q d ≡ true
    → n ≤ g
    → (s : WarpInstanceSpec) × (Map.get
          (next_id d.rows)
          (requests n
            (next_id d.rows)
            (acknowledge_restart (next_id d.rows) g (replaced name name' p q g d))).rows
        ≡ some s)
      × (s.name ≡ name')
      × (s.restart_command_generation ≡ n)
      × (is_pending s ≡ false)
acknowledge_restart-replaced name name' p q d g n known known' few =
    let id = next_id d.rows in
    let new = new_spec id name' q in
    let acked : Map.get id (acknowledge_restart id g (replaced name name' p q g d)).rows
        ≡ some (acknowledged g new) =
      unfold acknowledge_restart in
      (get-update id id (acknowledged g) (replaced name name' p q g d).rows
        ∙ ground (arith, get-replaced name name' p q g d known known')) in
    (
      record (acknowledged g new) { restart_command_generation = n },
      ground (
        arith,
        get-requests n id (acknowledged g new)
            (acknowledge_restart id g (replaced name name' p q g d)) acked,
      ),
      refl,
      refl,
      ground arith,
    )
