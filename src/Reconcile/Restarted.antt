-- ===== src/Reconcile/Restarted.antt =====
-- reconciler/mod.rs: what a restart leaves in the row of its instance.
use warpdeck.Prelude.{
  ℕ, ◌+◌, ◌≤◌, ◌≡◌, refl, ◌∙◌, false, Option, none, some, List, ltb, arith, ==_refl,
}
use warpdeck.Prelude.Map
use warpdeck.Prelude.Map.{get-update}
use warpdeck.Runtime.Host.{done, refused}
use warpdeck.Desired.{
  WarpInstanceSpec, Database, acknowledge_restart, clear_backoff, clear_restart_pending,
  rebind_profile_guarded, record_backoff, rebound, ok, should_run, acknowledged,
}
use warpdeck.Desired
use warpdeck.Desired.Commands.Reuse.{requests, get-requests}
use warpdeck.Reconcile.{
  WarpRuntime, Timing, Plant, restart_instance, settle, record_failure, has_command, due, next_gap,
  prior_gap,
}

abbrev settled : ℕ → WarpInstanceSpec → WarpInstanceSpec
settled generation s =
    acknowledged generation
      (record s { last_failure_at = none; next_retry_at = none; restart_pending = false })

module _ (rt : WarpRuntime) (c : Timing) (meanwhile : Database → Database) (now : List ℕ)
    (spec : WarpInstanceSpec) (p : Plant rt) where
  -- The row after a restart that succeeds, from the row that the calls in the meantime have left.
  get-restart_instance :
      (s : WarpInstanceSpec)
      → Map.get spec.id (meanwhile p.db).rows ≡ some s
      → (rt.restart spec.id spec.account_profile_id p.runtime).0 ≡ done tt
      → Map.get spec.id (restart_instance rt c meanwhile now spec p).db.rows
        ≡ some (settled spec.restart_command_generation s)
  unfolding restart_instance acknowledge_restart clear_backoff clear_restart_pending
  get-restart_instance s found fine = ground (
    arith,
    get-update spec.id spec.id (acknowledged spec.restart_command_generation)
        (clear_restart_pending spec.id (clear_backoff spec.id (meanwhile p.db))).rows,
    get-update spec.id spec.id (λ t. record t { restart_pending = false })
        (clear_backoff spec.id (meanwhile p.db)).rows,
    get-update spec.id spec.id (λ t. record t { last_failure_at = none; next_retry_at = none })
        (meanwhile p.db).rows,
  )

-- For a row whose observed generation is at most its command's, as it is where no deleted row's
-- acknowledgment has hit it: while a restart of the row that has been read succeeds, `n` more restart
-- commands come in; afterwards a command is pending exactly if `n` is not 0, and neither a backoff nor
-- a change of the profile is left.
pub has_command-restart_instance :
    (rt : WarpRuntime) (c : Timing) (now : List ℕ) (n : ℕ) (spec : WarpInstanceSpec) (p : Plant rt)
    → Map.get spec.id p.db.rows ≡ some spec
    → spec.observed_restart_generation ≤ spec.restart_command_generation
    → (rt.restart spec.id spec.account_profile_id p.runtime).0 ≡ done tt
    → (s : WarpInstanceSpec) × (Map.get spec.id
          (restart_instance rt c (requests n spec.id) now spec p).db.rows
        ≡ some s)
      × (has_command s ≡ ltb 0 n)
      × (s.next_retry_at ≡ none)
      × (s.restart_pending ≡ false)
has_command-restart_instance rt c now n spec p found le fine =
    let later = record spec { restart_command_generation = spec.restart_command_generation + n } in
    (
      settled spec.restart_command_generation later,
      get-restart_instance rt c (requests n spec.id) now spec p later
          (get-requests n spec.id spec p.db found) fine,
      ground arith,
      refl,
      refl,
    )

-- A restart that is refused, with `n` more commands in the meantime, forgets nothing: every command that
-- was pending is, with those that came in, and so is the change of the profile.
pub has_command-refused :
    (rt : WarpRuntime) (c : Timing) (now e : List ℕ) (n : ℕ) (spec : WarpInstanceSpec)
    (p : Plant rt)
    → Map.get spec.id p.db.rows ≡ some spec
    → (rt.restart spec.id spec.account_profile_id p.runtime).0 ≡ refused e
    → (s : WarpInstanceSpec) × (Map.get spec.id
          (restart_instance rt c (requests n spec.id) now spec p).db.rows
        ≡ some s)
      × (s.restart_command_generation ≡ spec.restart_command_generation + n)
      × (s.observed_restart_generation ≡ spec.observed_restart_generation)
      × (s.restart_pending ≡ spec.restart_pending)
      × (s.last_failure_at ≡ some now)
unfolding restart_instance record_failure
has_command-refused rt c now e n spec p found bad =
    let later = record spec { restart_command_generation = spec.restart_command_generation + n } in
    let before = get-requests n spec.id spec p.db found in
    let d0 = requests n spec.id p.db in
    let at = c.print (due c (next_gap c (prior_gap c (Map.get spec.id d0.rows))) now) in
    let failed : WarpInstanceSpec → WarpInstanceSpec =
      λ s. record s { last_failure_at = some now; next_retry_at = some at } in
    (
      failed later,
      rw (bad, settle, Desired.get)
          (get-update spec.id spec.id failed d0.rows ∙ rw (==_refl spec.id, before) refl),
      refl,
      refl,
      refl,
      refl,
    )

-- The API binds the instance to another profile while a restart of the row that has been read, with
-- the old profile, is under way: when the restart has succeeded, the row asks for the new profile
-- with no restart pending.
pub restart_instance-rebound :
    (rt : WarpRuntime) (c : Timing) (now : List ℕ) (q : Option ℕ) (spec : WarpInstanceSpec)
    (p : Plant rt)
    → Map.get spec.id p.db.rows ≡ some spec
    → (rebind_profile_guarded spec.id q p.db).0 ≡ ok tt
    → (rt.restart spec.id spec.account_profile_id p.runtime).0 ≡ done tt
    → (s : WarpInstanceSpec) × (Map.get spec.id
          (restart_instance rt c (λ d. (rebind_profile_guarded spec.id q d).1) now spec p).db.rows
        ≡ some s)
      × (s.account_profile_id ≡ q)
      × (s.restart_pending ≡ false)
restart_instance-rebound rt c now q spec p found let_through fine =
    let at : Map.get spec.id (rebind_profile_guarded spec.id q p.db).1.rows
        ≡ some (rebound q spec) =
      unfold rebind_profile_guarded in
      ground (arith, get-update spec.id spec.id (rebound q) p.db.rows) in
    (
      settled spec.restart_command_generation (rebound q spec),
      get-restart_instance rt c (λ d. (rebind_profile_guarded spec.id q d).1) now spec p
          (rebound q spec) at fine,
      refl,
      refl,
    )
