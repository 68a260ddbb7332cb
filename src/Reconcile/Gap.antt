-- ===== src/Reconcile/Gap.antt =====
-- reconciler/mod.rs: the waiting time after failures in a row.
use warpdeck.Prelude.{
  ℕ, zero, suc, ◌+◌, ◌*◌, ◌^◌, ◌≤◌, ◌<◌, ◌≡◌, refl, ◌∙◌, ap, none, some, List, [], ◌∷◌, min, leb,
  length, ==_refl, arith,
}
use native.Mathlib.Decide.{dec_le}
use warpdeck.Prelude.Machine.{duration_max}
use warpdeck.Prelude.Map
use warpdeck.Prelude.Map.{get-update}
use warpdeck.Runtime.Instance.{InstanceId}
use warpdeck.Desired.{WarpInstanceSpec, Database}
use warpdeck.Reconcile.{Timing, prior_gap, due, record_failure, backoff_ready}

-- What the texts of times and the settings of the backoff have to be.
pub record IsTiming (c : Timing) : Type 0 where
  pub parses : (t : ℕ) → c.parse (c.print t) ≡ some t
  pub base_pos : 0 < c.backoff_base
  pub base_le : c.backoff_base ≤ c.backoff_max
  pub max_le : c.backoff_max ≤ duration_max

pow_pos : (n : ℕ) → 1 ≤ 2 ^ n
pow_pos zero = omega arith
pow_pos (suc n) = omega (arith, pow_pos n)

min_double : (n g m : ℕ) → min (min (g * 2) m * 2 ^ n) m ≡ min (g * 2 ^ suc n) m
min_double n g m =
    let e : 2 ^ suc n ≡ 2 * 2 ^ n = omega arith in
    elim (dec_le (g * 2) m) [
      | yes h ↦ let k : min (g * 2) m ≡ g * 2 = ground arith in rw (k, e) (grind arith)
      | no h ↦ let k : min (g * 2) m ≡ m = ground arith in rw (k, e) (grind (arith, pow_pos n))
    ]

module _ (c : Timing) (id : InstanceId) where
  -- Failures one after the other, each at its time.
  unfoldable pub failures : List ℕ → Database → Database
  unfolding record_failure
  failures [] d = d
  failures (t ∷ ts) d = failures ts (record_failure c (c.print t) id d)

  abbrev backed_off : ℕ → ℕ → WarpInstanceSpec → WarpInstanceSpec
  backed_off t gap s = record s {
    last_failure_at = some (c.print t);
    next_retry_at = some (c.print (t + gap));
  }

  -- The gap after one more failure.
  abbrev step_gap : ℕ → ℕ
  step_gap g = min (min (g * 2) duration_max) c.backoff_max

  iterate : ℕ → ℕ → ℕ
  iterate zero g = g
  iterate (suc n) g = iterate n (step_gap g)

  module _ (ok : IsTiming c) where
    record_failure-again :
        (d : Database) (s : WarpInstanceSpec) (t u g : ℕ)
        → c.backoff_base ≤ g
        → Map.get id d.rows ≡ some (backed_off t g s)
        → Map.get id (record_failure c (c.print u) id d).rows
          ≡ some (backed_off u (step_gap g) (backed_off t g s))
    unfolding record_failure
    record_failure-again d s t u g le found =
        let gap : prior_gap c (some (backed_off t g s)) ≡ some g =
          ground (arith, ok.parses t, ok.parses (t + g), ok.base_pos) in
        let at : due c (step_gap g) (c.print u) ≡ u + step_gap g = ground (arith, ok.parses u) in
        rw (found, gap, at)
          (get-update id id (backed_off u (step_gap g)) d.rows ∙ rw (==_refl id, found) refl)

    record_failure-first :
        (d : Database) (s : WarpInstanceSpec) (u : ℕ)
        → Map.get id d.rows ≡ some s
        → s.last_failure_at ≡ none
        → Map.get id (record_failure c (c.print u) id d).rows ≡ some (backed_off u c.backoff_base s)
    unfolding record_failure
    record_failure-first d s u found fresh =
        let gap : prior_gap c (some s) ≡ none = ground (arith, fresh) in
        let at : due c c.backoff_base (c.print u) ≡ u + c.backoff_base =
          ground (arith, ok.parses u) in
        rw (found, gap, at)
          (get-update id id (backed_off u c.backoff_base) d.rows ∙ rw (==_refl id, found) refl)

    -- Further failures: what the row says of the last one, and of the gap.
    failures_gap :
        (ts : List ℕ) (u : ℕ) (d : Database) (s : WarpInstanceSpec) (t g : ℕ)
        → c.backoff_base ≤ g
        → Map.get id d.rows ≡ some (backed_off t g s)
        → (s' : WarpInstanceSpec) × (Map.get id
              (record_failure c (c.print u) id (failures ts d)).rows
            ≡ some (backed_off u (iterate (suc (length ts)) g) s'))
    unfolding failures iterate
    failures_gap [] u d s t g le found = (backed_off t g s, record_failure-again d s t u g le found)
    failures_gap (v ∷ ts) u d s t g le found =
        let le' : c.backoff_base ≤ step_gap g = ground (arith, ok.base_le, ok.max_le) in
        failures_gap ts u (record_failure c (c.print v) id d) (backed_off t g s) v (step_gap g) le'
          (record_failure-again d s t v g le found)

    -- `base`, doubled with each failure, and never more than the maximum.
    iterate-min : (n g : ℕ) → g ≤ c.backoff_max → iterate n g ≡ min (g * 2 ^ n) c.backoff_max
    unfolding iterate
    iterate-min zero g le = ground arith
    iterate-min (suc n) g le =
        let e : step_gap g ≡ min (g * 2) c.backoff_max = ground (arith, ok.max_le) in
        rw e
          (iterate-min n (min (g * 2) c.backoff_max) (ground arith) ∙ min_double n g c.backoff_max)

    ready_after :
        (u v g : ℕ) (s : WarpInstanceSpec)
        → backoff_ready c (c.print v) (backed_off u g s) ≡ leb (u + g) v
    unfolding backoff_ready
    ready_after u v g s = ground (arith, ok.parses (u + g), ok.parses v)

    -- Where times are read as they were printed, and the base gap is positive and at most the
    -- maximum, which a duration can hold, from an instance without a failure on record: after
    -- failures at any times, the last of them at `u`, it may be restarted at a time `v` exactly if
    -- the base gap, doubled for each failure before the last and capped by the maximum, has passed
    -- since `u`.
    pub backoff_ready-failures :
        (ts : List ℕ) (u : ℕ) (d : Database) (s : WarpInstanceSpec)
        → Map.get id d.rows ≡ some s
        → s.last_failure_at ≡ none
        → (s' : WarpInstanceSpec) × (Map.get id
              (record_failure c (c.print u) id (failures ts d)).rows
            ≡ some s')
          × ((v : ℕ)
              → backoff_ready c (c.print v) s'
                ≡ leb (u + min (c.backoff_base * 2 ^ length ts) c.backoff_max) v)
    unfolding failures
    backoff_ready-failures [] u d s found fresh = (
      backed_off u c.backoff_base s,
      record_failure-first d s u found fresh,
      λ v. ready_after u v c.backoff_base s ∙ ground (arith, ok.base_le),
    )
    backoff_ready-failures (t ∷ ts) u d s found fresh =
        let (s', p) =
          failures_gap ts u (record_failure c (c.print t) id d) s t c.backoff_base (omega arith)
            (record_failure-first d s t found fresh) in
        let n = suc (length ts) in
        (
          backed_off u (iterate n c.backoff_base) s',
          p,
          λ v.
              ready_after u v (iterate n c.backoff_base) s'
              ∙ ap (λ (x : ℕ). leb (u + x) v) (iterate-min n c.backoff_base ok.base_le),
        )
