-- ===== src/Runtime/Backoff/Delay.antt =====
-- runtime/backoff.rs: what `delay_for` returns over all attempts.
use native.Mathlib.Nat.{pow-le-pow_right}
use warpdeck.Prelude.{ℕ, ◌+◌, ◌-◌, ◌*◌, ◌^◌, ◌≤◌, ◌<◌, ◌≡◌, min, arith}
use warpdeck.Prelude.Machine.{u32_max, duration_max, saturating_pow_u32}
use warpdeck.Runtime.Backoff.{ExponentialBackoff, delay_for}

-- The delay never passes the cap, whatever overflows on the way.
pub delay_for-le-max : (p : ExponentialBackoff) (attempt : ℕ) → delay_for p attempt ≤ p.max_delay
unfolding delay_for
delay_for-le-max p attempt = ground arith

saturating_pow_mono : (f a b : ℕ) → 0 < f → a ≤ b → saturating_pow_u32 f a ≤ saturating_pow_u32 f b
saturating_pow_mono f a b pos h = omega (arith, pow-le-pow_right pos h)

mul_mono : (base x y : ℕ) → x ≤ y → base * x ≤ base * y
mul_mono base x y h = grind arith

-- With a positive factor a later attempt never waits less than an earlier one.
pub delay_for_mono :
    (p : ExponentialBackoff) (m n : ℕ) → 0 < p.factor → m ≤ n → delay_for p m ≤ delay_for p n
unfolding delay_for
delay_for_mono p m n pos h =
    ground
      (arith, mul_mono p.base _ _ (saturating_pow_mono p.factor (m - 1) (n - 1) pos (omega arith)))

-- While the power fits a `u32` and the product stays within the cap, attempt n + 1 waits exactly
-- base * factor ^ n.
pub delay_for_exact :
    (p : ExponentialBackoff) (n : ℕ)
    → p.factor ^ n ≤ u32_max
    → p.base * p.factor ^ n ≤ p.max_delay
    → p.max_delay ≤ duration_max
    → delay_for p (n + 1) ≡ p.base * p.factor ^ n
unfolding delay_for
delay_for_exact p n fits below cap =
    let same : n + 1 - 1 ≡ n = omega arith in
    let whole : min (p.factor ^ n) u32_max ≡ p.factor ^ n = omega arith in
    rw (same, whole) (ground arith)
