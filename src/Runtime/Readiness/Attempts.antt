-- ===== src/Runtime/Readiness/Attempts.antt =====
-- runtime/readiness.rs: how many times the control plane is asked.
use warpdeck.Prelude.{
  ℕ, zero, suc, ◌+◌, ◌≤◌, ◌≡◌, ◌⊎◌, inl, inr, refl, true, false, Option, none, some, List, [], ◌∷◌,
  arith, Bool-cases, ltb,
}
use warpdeck.Runtime.Instance.{InstanceId}
use warpdeck.Runtime.Message.{WarpControlError}
use warpdeck.Runtime.Backoff.{ExponentialBackoff}
use warpdeck.Runtime.Host.{Host, Reply-cases}
use warpdeck.Runtime.Host.Logged.{Command, logged, alive}
use warpdeck.Runtime.Readiness.{ProbeResult, probe, probe_from}

abbrev pub count_status : List Command → ℕ
count_status [] = 0
count_status (Command.status ∷ log) = suc (count_status log)
count_status (c ∷ log) = count_status log

module _ (h : Host) (backoff : ExponentialBackoff) (max_attempts : ℕ) (id : InstanceId) where
  -- What the probe says of its own attempts.
  abbrev pub IsCounted : ProbeResult → Type 0
  IsCounted r =
      ((r.ready ≡ true) × (1 ≤ r.attempts) × (r.attempts ≤ max_attempts) × (r.last_error ≡ none))
      ⊎ ((r.ready ≡ false)
          × (r.attempts ≡ max_attempts)
          × ((e : WarpControlError) × (r.last_error ≡ some e)))

  probe_from-IsCounted :
      (n attempt : ℕ) (last : Option WarpControlError) (w : h.World)
      → n + attempt ≡ max_attempts + 1
      → 1 ≤ attempt
      → (1 ≤ n) ⊎ ((e : WarpControlError) × (last ≡ some e))
      → IsCounted (probe_from h backoff max_attempts id n attempt last w).0
  unfolding probe_from
  probe_from-IsCounted zero attempt last w sum pos (inl more) = absurd (omega arith)
  probe_from-IsCounted zero attempt last w sum pos (inr found) = inr (refl, refl, found)
  probe_from-IsCounted (suc n) attempt last w sum pos found = elim (Reply-cases (h.status id w).0) [
    | inl (a, p) ↦ rw (p, probe_from) (inl (refl, pos, omega arith, refl))
    | inr (e, p) ↦
        rw (p, probe_from)
          (probe_from-IsCounted n (attempt + 1) (some e) _ (omega arith) (omega arith)
            (inr (e, refl)))
  ]

  -- A probe that may ask at all reports the control plane ready after at least one and at most the
  -- allowed number of attempts and with no error left, or not ready after exactly the allowed number
  -- and with the last error.
  pub probe-IsCounted :
      (w : h.World) → 1 ≤ max_attempts → IsCounted (probe h backoff max_attempts id w).0
  unfolding probe
  probe-IsCounted w pos =
      probe_from-IsCounted max_attempts 1 none w (omega arith) (omega arith) (inl pos)

-- The calls of `status` that a probe makes are the attempts that it reports.
module _ (h : Host) (backoff : ExponentialBackoff) (max_attempts : ℕ) (id : InstanceId) where
  asked_from :
      (n attempt : ℕ) (last : Option WarpControlError) (w : h.World) (log : List Command)
      → n + attempt ≡ max_attempts + 1
      → count_status log + 1 ≡ attempt
      → count_status (probe_from (logged h) backoff max_attempts id n attempt last (w, log)).1.1
        ≡ (probe_from (logged h) backoff max_attempts id n attempt last (w, log)).0.attempts
  unfolding probe_from
  asked_from zero attempt last w log sum so_far = omega arith
  asked_from (suc n) attempt last w log sum so_far = elim (Reply-cases (h.status id w).0) [
    | inl (a, p) ↦ rw (p, probe_from) (omega arith)
    | inr (e, p) ↦ elim (Bool-cases (ltb attempt max_attempts)) [
      | inl q ↦
          rw (p, probe_from)
            (rw q (asked_from n (attempt + 1) (some e) _ _ (omega arith) (omega arith)))
      | inr q ↦
          rw (p, probe_from)
            (rw q (asked_from n (attempt + 1) (some e) _ _ (omega arith) (omega arith)))
    ]
  ]

  -- On a host that writes its calls down, with no `status` among them before, the calls of `status`
  -- that a probe makes are as many as the attempts that it reports.
  pub count_status-probe :
      (w : h.World) (log : List Command)
      → count_status log ≡ 0
      → count_status (probe (logged h) backoff max_attempts id (w, log)).1.1
        ≡ (probe (logged h) backoff max_attempts id (w, log)).0.attempts
  unfolding probe
  count_status-probe w log none_yet =
      asked_from max_attempts 1 none w log (omega arith) (omega arith)

-- A probe starts and ends no process.
module _ (h : Host) (id : InstanceId) where
  alive-probe_from :
      (backoff : ExponentialBackoff) (max_attempts n attempt : ℕ) (last : Option WarpControlError)
      (w : h.World) (log : List Command)
      → alive (probe_from (logged h) backoff max_attempts id n attempt last (w, log)).1.1
        ≡ alive log
  unfolding probe_from alive
  alive-probe_from backoff max_attempts zero attempt last w log = refl
  alive-probe_from backoff max_attempts (suc n) attempt last w log =
      elim (Reply-cases (h.status id w).0) [
        | inl (a, p) ↦ rw (p, probe_from) refl
        | inr (e, p) ↦ elim (Bool-cases (ltb attempt max_attempts)) [
          | inl q ↦ rw (p, probe_from) (rw q (alive-probe_from backoff max_attempts n _ _ _ _))
          | inr q ↦ rw (p, probe_from) (rw q (alive-probe_from backoff max_attempts n _ _ _ _))
        ]
      ]

  pub alive-probe :
      (backoff : ExponentialBackoff) (max_attempts : ℕ) (w : h.World) (log : List Command)
      → alive (probe (logged h) backoff max_attempts id (w, log)).1.1 ≡ alive log
  unfolding probe
  alive-probe backoff max_attempts w log =
      alive-probe_from backoff max_attempts max_attempts 1 none w log
