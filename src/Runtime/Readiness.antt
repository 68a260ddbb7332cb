-- ===== src/Runtime/Readiness.antt =====
-- runtime/readiness.rs: poll the control plane until it answers.
pub mod Attempts
use warpdeck.Prelude.{ℕ, zero, suc, ◌+◌, Bool, true, false, Option, none, some, ltb, if◌then◌else◌}
use warpdeck.Runtime.Instance.{InstanceId}
use warpdeck.Runtime.Message.{WarpControlError}
use warpdeck.Runtime.Backoff.{ExponentialBackoff, delay_for}
use warpdeck.Runtime.Host.{Host, Reply, ok, err}

pub record ProbeResult : Type 0 where
  pub ready : Bool
  pub attempts : ℕ
  pub last_error : Option WarpControlError

module _ (h : Host) (backoff : ExponentialBackoff) (max_attempts : ℕ) (id : InstanceId) where
  -- The attempts that are left, the number of this one, and the last failure.
  pub probe_from : ℕ → ℕ → Option WarpControlError → h.World → ProbeResult × h.World
  probe_from zero attempt last_error w =
      (record { ready = false; attempts = max_attempts; last_error = last_error }, w)
  probe_from (suc n) attempt last_error w =
      let (reply, w1) = h.status id w in
      elim reply [
        | ok _ ↦ (record { ready = true; attempts = attempt; last_error = none }, w1)
        | err e ↦
            probe_from n (attempt + 1) (some e)
              (if ltb attempt max_attempts then h.sleep (delay_for backoff attempt) w1 else w1)
      ]

  unfoldable pub probe : h.World → ProbeResult × h.World
  unfolding probe_from
  probe w = probe_from max_attempts 1 none w
