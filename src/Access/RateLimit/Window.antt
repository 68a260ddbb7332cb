-- ===== src/Access/RateLimit/Window.antt =====
-- auth/rate_limit.rs: how many failures block an address, and for how long.
use warpdeck.Prelude.{
  ℕ, ◌+◌, ◌≤◌, ◌<◌, ◌≡◌, refl, ◌∙◌, inl, inr, false, none, some, List, [], ◌∷◌, length, All, arith,
  ==_refl, Option-cases,
}
use warpdeck.Prelude.Map
use warpdeck.Prelude.Map.{get-insert, get-remove}
use warpdeck.Access.RateLimit.{
  blocked, FailureState, Failures, entry, counted, decide, record_failure, check, failures,
  without_expired, is_expired,
}

-- The first entry of an address is what a lookup finds; a live one is not removed.
pub get-without_expired :
    (window ip now : ℕ) (m : Failures) (s : FailureState)
    → Map.get ip m ≡ some s
    → is_expired window now s ≡ false
    → Map.get ip (without_expired window now m) ≡ some s
unfolding without_expired Map.get
get-without_expired window ip now [] s found live = absurd (ground arith)
get-without_expired window ip now ((k, t) ∷ m) s found live =
    ground (arith, get-without_expired window ip now m s)

pub without_expired_new :
    (window ip now : ℕ) (m : Failures)
    → Map.get ip m ≡ none
    → Map.get ip (without_expired window now m) ≡ none
unfolding without_expired Map.get
without_expired_new window ip now [] new = refl
without_expired_new window ip now ((k, t) ∷ m) new =
    ground (arith, without_expired_new window ip now m)

-- The entry after some failures in one window.
get-failures :
    (max_failures window ip start : ℕ) (times : List ℕ) (m : Failures) (s : FailureState)
    → Map.get ip m ≡ some s
    → s.window_start ≡ start
    → 1 ≤ window
    → All (λ t. t < start + window) times
    → Map.get ip (failures max_failures window ip times m)
      ≡ some (record { count = s.count + length times; window_start = start })
unfolding failures
get-failures max_failures window ip start [] m s found from pos within = ground arith
get-failures max_failures window ip start (t ∷ times) m s found from pos (here, within) =
    let next : FailureState = record { count = s.count + 1; window_start = start } in
    let step : Map.get ip (record_failure max_failures window ip t m).1 ≡ some next =
      let e : counted window t (entry ip t m) ≡ next = ground arith in
      rw e (get-insert ip ip next m ∙ rw (==_refl ip) refl) in
    ground (
      arith,
      get-failures max_failures window ip start times (record_failure max_failures window ip t m).1
          next step refl pos within,
    )

module _ (max_failures window ip start : ℕ) (times : List ℕ) (m : Failures)
    (new : Map.get ip m ≡ none) (pos : 1 ≤ window)
    (within : All (λ t. t < start + window) times) where
  -- What the limiter knows of the address after a first failure at `start` and further ones in its window.
  get-all_failures :
      Map.get ip (failures max_failures window ip (start ∷ times) m)
      ≡ some (record { count = 1 + length times; window_start = start })
  unfolding failures
  get-all_failures =
      let first : FailureState = record { count = 1; window_start = start } in
      let e : counted window start (entry ip start m) ≡ first = ground arith in
      let step : Map.get ip (record_failure max_failures window ip start m).1 ≡ some first =
        rw e (get-insert ip ip first m ∙ rw (==_refl ip) refl) in
      get-failures max_failures window ip start times
        (record_failure max_failures window ip start m).1 first step refl pos within

  -- For an address that is not known, any number of failures in the window of the first: until that
  -- window ends a check blocks the address exactly if the failures are at least the allowed number.
  pub check-failures :
      (t : ℕ)
      → t < start + window
      → (check max_failures window ip t (failures max_failures window ip (start ∷ times) m)).0
        ≡ decide max_failures (1 + length times)
  unfolding check
  check-failures t early =
      let s : FailureState = record { count = 1 + length times; window_start = start } in
      let live : is_expired window t s ≡ false = ground arith in
      rw (get-without_expired window ip t _ s get-all_failures live, check) refl

-- What is left after the clean-up is live.
live_of_get :
    (window ip now : ℕ) (m : Failures) (s : FailureState)
    → Map.get ip (without_expired window now m) ≡ some s
    → is_expired window now s ≡ false
unfolding without_expired Map.get
live_of_get window ip now [] s found = absurd (ground arith)
live_of_get window ip now ((k, t) ∷ m) s found = ground (arith, live_of_get window ip now m s)

-- A check blocks an address only for a window that is not over: its entry counts at least the allowed
-- number of failures, and less than a window's length has passed since it began.
pub check-blocked :
    (max_failures window ip now : ℕ) (m : Failures)
    → (check max_failures window ip now m).0 ≡ blocked
    → (s : FailureState) × (Map.get ip (check max_failures window ip now m).1 ≡ some s)
      × (max_failures ≤ s.count)
      × (now < s.window_start + window)
unfolding check
check-blocked max_failures window ip now m e =
    elim (Option-cases (Map.get ip (without_expired window now m))) [
      | inl p ↦ absurd (ground arith)
      | inr (s, p) ↦
          let live = live_of_get window ip now m s p in (s, p, ground arith, ground arith)
    ]
