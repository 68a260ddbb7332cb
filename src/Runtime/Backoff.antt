-- ===== src/Runtime/Backoff.antt =====
-- runtime/backoff.rs: exponential backoff. A duration is a number of nanoseconds.
pub mod Delay
use mathlib.Core.Option.{get_or}
use warpdeck.Prelude.{ℕ, min}
use warpdeck.Prelude.Machine.{saturating_sub_u32, saturating_pow_u32, checked_mul, from_secs}

pub record ExponentialBackoff : Type 0 where
  pub base : ℕ
  pub factor : ℕ
  pub max_delay : ℕ

unfoldable pub recommended : ExponentialBackoff
recommended = record { base = from_secs 2; factor = 2; max_delay = from_secs 120 }

unfoldable pub delay_for : ExponentialBackoff → ℕ → ℕ
delay_for p attempt =
    let exponent = saturating_sub_u32 attempt 1 in
    let growth = get_or (checked_mul p.base (saturating_pow_u32 p.factor exponent)) p.max_delay in
    min growth p.max_delay
