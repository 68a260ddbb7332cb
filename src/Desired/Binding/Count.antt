-- ===== src/Desired/Binding/Count.antt =====
-- db/repo.rs: how many rows are bound to a profile, after each change of the table.
use warpdeck.Prelude.{
  ℕ, ◌+◌, ◌≤◌, ◌≡◌, refl, true, ◌&&◌, Option, none, some, List, [], ◌∷◌, ◌==◌, if◌then◌else◌, arith,
  not,
}
use mathlib.Core.Option
use warpdeck.Prelude.Map
use warpdeck.Prelude.Map.{IsUnique}
use warpdeck.Desired.{
  WarpInstanceSpec, Rows, is_bound_to, count_bound, count_bound_others, next_id, mark_rows, rebound,
  is_running,
}
use warpdeck.Desired.Profiles.{unbind_disabled}

-- A key that is at least the next one is not in the table.
pub get-next_id {ℓ} : {V : Type ℓ} (k : ℕ) (m : List (ℕ × V)) → next_id m ≤ k → Map.get k m ≡ none
unfolding next_id Map.get
get-next_id k [] h = refl
get-next_id k ((j, v) ∷ m) h = ground (arith, get-next_id k m)

-- The change keeps the profile of a row.
abbrev pub KeepsProfile : (WarpInstanceSpec → WarpInstanceSpec) → Type 0
KeepsProfile f = (s : WarpInstanceSpec) → (f s).account_profile_id ≡ s.account_profile_id

pub count_bound-update :
    (p id : ℕ) (f : WarpInstanceSpec → WarpInstanceSpec) (rows : Rows)
    → KeepsProfile f
    → count_bound p (Map.update id f rows) ≡ count_bound p rows
unfolding count_bound Map.update
count_bound-update p id f [] keeps = refl
count_bound-update p id f ((k, s) ∷ rows) keeps =
    ground (arith, keeps s, count_bound-update p id f rows keeps)

pub count_bound-insert :
    (p k : ℕ) (s : WarpInstanceSpec) (rows : Rows)
    → Map.get k rows ≡ none
    → count_bound p (Map.insert k s rows) ≡ count_bound p rows + (if is_bound_to p s then 1 else 0)
unfolding count_bound Map.insert Map.get
count_bound-insert p k s [] new = omega arith
count_bound-insert p k s ((j, t) ∷ rows) new = ground (arith, count_bound-insert p k s rows)

pub count_bound-remove :
    (p k : ℕ) (rows : Rows) → count_bound p (Map.remove k rows) ≤ count_bound p rows
unfolding count_bound Map.remove
count_bound-remove p k [] = omega arith
count_bound-remove p k ((j, t) ∷ rows) = ground (arith, count_bound-remove p k rows)

pub count_bound-mark_rows :
    (p q : ℕ) (rows : Rows) → count_bound p (mark_rows q rows).1 ≡ count_bound p rows
unfolding count_bound mark_rows
count_bound-mark_rows p q [] = refl
count_bound-mark_rows p q ((k, s) ∷ rows) = ground (arith, count_bound-mark_rows p q rows)

pub count_bound-unbind_disabled :
    (p q : ℕ) (rows : Rows) → count_bound p (unbind_disabled q rows) ≤ count_bound p rows
unfolding count_bound unbind_disabled
count_bound-unbind_disabled p q [] = omega arith
count_bound-unbind_disabled p q ((k, s) ∷ rows) =
    ground (arith, count_bound-unbind_disabled p q rows)

-- Where the key is not in the table, all rows are others.
count_bound-others :
    (p id : ℕ) (rows : Rows)
    → Map.get id rows ≡ none
    → count_bound p rows ≡ count_bound_others p id rows
unfolding count_bound count_bound_others Map.get
count_bound-others p id [] h = refl
count_bound-others p id ((k, s) ∷ rows) h = ground (arith, count_bound-others p id rows)

pub count_bound_others-le :
    (p id : ℕ) (rows : Rows) → count_bound_others p id rows ≤ count_bound p rows
unfolding count_bound count_bound_others
count_bound_others-le p id [] = omega arith
count_bound_others-le p id ((k, s) ∷ rows) = ground (arith, count_bound_others-le p id rows)

abbrev pub binds : ℕ → Option ℕ → ℕ
binds p none = 0
binds p (some q) = if q == p then 1 else 0

-- A rebinding leaves the other rows, and at most its own.
pub count_bound-rebound :
    (p id : ℕ) (q : Option ℕ) (rows : Rows)
    → IsUnique rows
    → count_bound p (Map.update id (rebound q) rows) ≤ count_bound_others p id rows + binds p q
unfolding count_bound count_bound_others Map.update
count_bound-rebound p id q [] u = omega arith
count_bound-rebound p id none ((k, s) ∷ rows) u =
    ground (arith, count_bound-others p id rows, count_bound-rebound p id none rows u.1)
count_bound-rebound p id (some q) ((k, s) ∷ rows) u =
    ground (arith, count_bound-others p id rows, count_bound-rebound p id (some q) rows u.1)

pub count_bound-update-none :
    (p id : ℕ) (f : WarpInstanceSpec → WarpInstanceSpec) (rows : Rows)
    → Map.get id rows ≡ none
    → count_bound p (Map.update id f rows) ≡ count_bound p rows
unfolding count_bound Map.update Map.get
count_bound-update-none p id f [] h = refl
count_bound-update-none p id f ((k, s) ∷ rows) h =
    ground (arith, count_bound-update-none p id f rows)

-- Marking and unbinding keep the keys.
pub get-mark_rows :
    (k q : ℕ) (rows : Rows) → Map.get k rows ≡ none → Map.get k (mark_rows q rows).1 ≡ none
unfolding mark_rows Map.get
get-mark_rows k q [] h = refl
get-mark_rows k q ((j, s) ∷ rows) h = ground (arith, get-mark_rows k q rows)

pub mark_rows-IsUnique : (q : ℕ) (rows : Rows) → IsUnique rows → IsUnique (mark_rows q rows).1
unfolding mark_rows
mark_rows-IsUnique q [] u = u
mark_rows-IsUnique q ((k, s) ∷ rows) u =
    ground (arith, get-mark_rows k q rows u.0, mark_rows-IsUnique q rows u.1)

get-unbind_disabled :
    (k q : ℕ) (rows : Rows) → Map.get k rows ≡ none → Map.get k (unbind_disabled q rows) ≡ none
unfolding unbind_disabled Map.get
get-unbind_disabled k q [] h = refl
get-unbind_disabled k q ((j, s) ∷ rows) h = ground (arith, get-unbind_disabled k q rows)

pub unbind_disabled-IsUnique :
    (q : ℕ) (rows : Rows) → IsUnique rows → IsUnique (unbind_disabled q rows)
unfolding unbind_disabled
unbind_disabled-IsUnique q [] u = u
unbind_disabled-IsUnique q ((k, s) ∷ rows) u =
    ground (arith, get-unbind_disabled k q rows u.0, unbind_disabled-IsUnique q rows u.1)

-- What marking and unbinding do to each row.
abbrev pub marked : ℕ → WarpInstanceSpec → WarpInstanceSpec
marked q s =
    if is_bound_to q s && (s.enabled && is_running s.desired_state)
    then record s { restart_pending = true }
    else s

abbrev pub unbound : ℕ → WarpInstanceSpec → WarpInstanceSpec
unbound q s = if is_bound_to q s && not s.enabled then record s { account_profile_id = none } else s

pub get-mark_rows-map :
    (k q : ℕ) (rows : Rows)
    → Map.get k (mark_rows q rows).1 ≡ Option.map (marked q) (Map.get k rows)
unfolding mark_rows Map.get
get-mark_rows-map k q [] = refl
get-mark_rows-map k q ((j, s) ∷ rows) = ground (arith, get-mark_rows-map k q rows)

pub get-unbind_disabled-map :
    (k q : ℕ) (rows : Rows)
    → Map.get k (unbind_disabled q rows) ≡ Option.map (unbound q) (Map.get k rows)
unfolding unbind_disabled Map.get
get-unbind_disabled-map k q [] = refl
get-unbind_disabled-map k q ((j, s) ∷ rows) = ground (arith, get-unbind_disabled-map k q rows)
