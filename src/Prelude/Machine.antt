-- ===== src/Prelude/Machine.antt =====
-- Fixed-width unsigned arithmetic of the standard library, and durations in nanoseconds.
use Prim.Native.Nat.{ℕ, ◌+◌, ◌-◌, ◌*◌, ◌^◌, min}
use mathlib.Core.Option.{Option, none, some}
use warpdeck.Prelude.Tests.{ltb, if◌then◌else◌}

abbrev pub u8_max : ℕ
u8_max = 255

abbrev pub u16_max : ℕ
u16_max = 65535

abbrev pub u32_max : ℕ
u32_max = 4294967295

abbrev pub u64_max : ℕ
u64_max = 18446744073709551615

abbrev pub i64_max : ℕ
i64_max = 9223372036854775807

-- `u32::saturating_add`.
abbrev pub saturating_add_u32 : ℕ → ℕ → ℕ
saturating_add_u32 a b = min (a + b) u32_max

-- `u32::saturating_sub`: the subtraction of ℕ stops at 0 too.
abbrev pub saturating_sub_u32 : ℕ → ℕ → ℕ
saturating_sub_u32 a b = a - b

-- `u32::saturating_pow`.
abbrev pub saturating_pow_u32 : ℕ → ℕ → ℕ
saturating_pow_u32 a n = min (a ^ n) u32_max

abbrev pub nanos_per_sec : ℕ
nanos_per_sec = 1000000000

abbrev pub nanos_per_milli : ℕ
nanos_per_milli = 1000000

-- `Duration::MAX`: seconds in 64 bits and a nanosecond part below one second.
abbrev pub duration_max : ℕ
duration_max = 18446744073709551615999999999

abbrev pub from_secs : ℕ → ℕ
from_secs s = s * nanos_per_sec

abbrev pub from_millis : ℕ → ℕ
from_millis s = s * nanos_per_milli

-- `Duration::checked_mul`.
abbrev pub checked_mul : ℕ → ℕ → Option ℕ
checked_mul d n = if ltb duration_max (d * n) then none else some (d * n)
