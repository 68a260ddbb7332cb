-- ===== src/Access/RateLimit.antt =====
-- auth/rate_limit.rs: the login rate limiter. An address is a number; the instant of a call, of a clock
-- that does not turn back, is an argument.
pub mod Window
use warpdeck.Prelude.{ℕ, ◌+◌, ◌-◌, ◌*◌, Bool, Option, none, some, List, [], ◌∷◌, leb, if◌then◌else◌}
use warpdeck.Prelude.Machine.{from_secs}
use warpdeck.Prelude.Map

abbrev pub default_max_failures : ℕ
default_max_failures = 5

abbrev pub default_window : ℕ
default_window = from_secs (15 * 60)

pub data RateDecision : Type 0 where
  allow blocked : RateDecision

pub record FailureState : Type 0 where
  pub count : ℕ
  pub window_start : ℕ

abbrev pub Failures : Type 0
Failures = List (ℕ × FailureState)

-- `elapsed` stops at 0.
abbrev pub is_expired : ℕ → ℕ → FailureState → Bool
is_expired window now s = leb window (now - s.window_start)

unfoldable pub without_expired : ℕ → ℕ → Failures → Failures
without_expired window now [] = []
without_expired window now ((k, s) ∷ m) =
    let rest = without_expired window now m in
    if is_expired window now s then rest else (k, s) ∷ rest

-- `snapshot`: the expired windows go, and the address is looked up.
unfoldable pub snapshot : ℕ → ℕ → ℕ → Failures → Option FailureState × Failures
unfolding without_expired
snapshot window ip now m = let m' = without_expired window now m in (Map.get ip m', m')

abbrev pub fresh : ℕ → FailureState
fresh now = record { count = 0; window_start = now }

abbrev pub entry : ℕ → ℕ → Failures → FailureState
entry ip now m = elim (Map.get ip m) [ none ↦ fresh now | some s ↦ s ]

abbrev pub counted : ℕ → ℕ → FailureState → FailureState
counted window now s =
    let current : FailureState = if is_expired window now s then fresh now else s in
    record current { count = current.count + 1 }

abbrev pub decide : ℕ → ℕ → RateDecision
decide max_failures count = if leb max_failures count then blocked else allow

unfoldable pub record_failure : ℕ → ℕ → ℕ → ℕ → Failures → RateDecision × Failures
record_failure max_failures window ip now m =
    let s = counted window now (entry ip now m) in (decide max_failures s.count, Map.insert ip s m)

unfoldable pub record_success : ℕ → Failures → Failures
record_success ip m = Map.remove ip m

unfoldable pub check : ℕ → ℕ → ℕ → ℕ → Failures → RateDecision × Failures
unfolding snapshot
check max_failures window ip now m =
    let (found, m') = snapshot window ip now m in
    (elim found [ none ↦ allow | some s ↦ decide max_failures s.count ], m')

-- Failures one after the other, each at its instant.
unfoldable pub failures : ℕ → ℕ → ℕ → List ℕ → Failures → Failures
unfolding record_failure
failures max_failures window ip [] m = m
failures max_failures window ip (now ∷ times) m =
    failures max_failures window ip times (record_failure max_failures window ip now m).1
