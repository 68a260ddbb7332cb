-- ===== src/Runtime/Flow/Outcome.antt =====
-- runtime/flow.rs: what the result of the start flow says.
use warpdeck.Prelude.{
  ℕ, zero, suc, ◌≡◌, refl, subst, inl, inr, Bool, true, false, List, [], Bool-cases, All, leb,
  arith,
}
use warpdeck.Runtime.Instance.{InstanceId}
use warpdeck.Runtime.Message.{
  WarpControlError, FlowError, shown, register_failed, configure_failed, connect_failed,
  verify_failed,
}
use warpdeck.Runtime.Backoff.{ExponentialBackoff}
use warpdeck.Runtime.Credentials.{InstanceCredentials}
use warpdeck.Runtime.Host.{Host, Reply, WarpCliStatus, Reply-cases}
use warpdeck.Runtime.Host.Logged.{Command, logged}
use warpdeck.Runtime.Flow.{
  FlowResult, connect_loop, connect, verify_loop, verify, run, and_then, result,
  RegistrationOutcome, verify_poll_interval,
}
use warpdeck.Runtime.Flow.Signature.{retry_summary}
use warpdeck.Runtime.Flow.Calls.{is_connect, no_connect-IsKeptBySetup, prepare_kept}

-- The result of the last call of `status` is the world that the flow ends in, and it is connected.
abbrev pub IsConnected : (h : Host) → InstanceId → h.World → Type 0
IsConnected h id w' =
    (w : h.World) × (s : WarpCliStatus) × (h.status id w ≡ (Reply.ok s, w')) × (s.connected ≡ true)

-- If it is `ok`, its world satisfies `Q`.
abbrev OkIn : {A W : Type 0} → (W → Type 0) → FlowResult A × W → Type 0
OkIn Q (FlowResult.ok a, w) = Q w
OkIn Q (FlowResult.err e, w) = Unit
OkIn Q (FlowResult.out_of_fuel, w) = Unit

and_then-OkIn :
    {A B W : Type 0} (Q : W → Type 0) (r : FlowResult A × W) (k : A → W → FlowResult B × W)
    → ((a : A) → r.0 ≡ FlowResult.ok a → OkIn Q (k a r.1))
    → OkIn Q (and_then r k)
unfolding and_then
and_then-OkIn Q (FlowResult.ok a, w) k rest = rest a refl
and_then-OkIn Q (FlowResult.err e, w) k rest = tt
and_then-OkIn Q (FlowResult.out_of_fuel, w) k rest = tt

and_then-OkIn_last :
    {A B W : Type 0} (Q : W → Type 0) (r : FlowResult A × W) (b : A → B)
    → OkIn Q r
    → OkIn Q (and_then r (λ a w. (FlowResult.ok (b a), w)))
unfolding and_then
and_then-OkIn_last Q (FlowResult.ok a, w) b here = here
and_then-OkIn_last Q (FlowResult.err e, w) b here = tt
and_then-OkIn_last Q (FlowResult.out_of_fuel, w) b here = tt

answer_ok :
    {A W : Type 0} (f : WarpControlError → FlowError) (p : Reply A × W) (a : A)
    → result f p.0 ≡ FlowResult.ok a
    → p ≡ (Reply.ok a, p.1)
answer_ok f (Reply.ok b, w) a e = cc
answer_ok f (Reply.err x, w) a e = cc

module _ (h : Host) (backoff : ExponentialBackoff) (max_register_attempts : ℕ)
    (id : InstanceId) where
  verify_loop-OkIn :
      (fuel deadline : ℕ) (s : WarpCliStatus) (w0 w : h.World)
      → h.status id w0 ≡ (Reply.ok s, w)
      → OkIn (IsConnected h id) (verify_loop h backoff max_register_attempts id fuel deadline s w)
  unfolding verify_loop
  verify_loop-OkIn zero deadline s w0 w last = tt
  verify_loop-OkIn (suc fuel) deadline s w0 w last = elim (Bool-cases s.connected) [
    | inl q ↦ rw (q, verify_loop) (w0, s, last, q)
    | inr q ↦ elim (Bool-cases (leb deadline (h.now w))) [
      | inl t ↦ rw (q, verify_loop) (rw t tt)
      | inr t ↦
          rw (q, verify_loop)
            (rw t (
              and_then-OkIn (IsConnected h id) _ _ λ s' e.
                verify_loop-OkIn fuel deadline s' (h.sleep verify_poll_interval w) _
                  (answer_ok _ _ s' e)))
    ]
  ]

  verify-OkIn :
      (fuel : ℕ) (w : h.World)
      → OkIn (IsConnected h id) (verify h backoff max_register_attempts id fuel w)
  unfolding verify
  verify-OkIn fuel w =
      and_then-OkIn (IsConnected h id) _ _ λ s e. verify_loop-OkIn fuel _ s w _ (answer_ok _ _ s e)

  run-OkIn :
      (fuel : ℕ) (credentials : InstanceCredentials) (w : h.World)
      → OkIn (IsConnected h id) (run h backoff max_register_attempts id fuel credentials w)
  unfolding run
  run-OkIn fuel credentials w = and_then-OkIn (IsConnected h id) _ _ λ outcome _.
      and_then-OkIn (IsConnected h id) _ _
        λ _ _. and_then-OkIn_last (IsConnected h id) _ (λ _. outcome) (verify-OkIn fuel _)

  -- A start flow that succeeds ends right after a `warp-cli status` that was answered with a connected
  -- status.
  pub run-IsConnected :
      (fuel : ℕ) (credentials : InstanceCredentials) (w w' : h.World)
      (outcome : RegistrationOutcome)
      → run h backoff max_register_attempts id fuel credentials w ≡ (FlowResult.ok outcome, w')
      → IsConnected h id w'
  run-IsConnected fuel credentials w w' outcome e =
      subst (OkIn (IsConnected h id)) e (run-OkIn fuel credentials w)

-- Errors of the stages after the setup.
abbrev IsLate : {A : Type 0} → FlowResult A → Type 0
IsLate (FlowResult.err (register_failed n s)) = ⊥
IsLate (FlowResult.err (configure_failed s)) = ⊥
IsLate _ = Unit

and_then-IsLate :
    {A B W : Type 0} (r : FlowResult A × W) (k : A → W → FlowResult B × W)
    → IsLate r.0
    → ((a : A) → IsLate (k a r.1).0)
    → IsLate (and_then r k).0
unfolding and_then
and_then-IsLate (FlowResult.ok a, w) k here rest = rest a
and_then-IsLate (FlowResult.err (register_failed n s), w) k here rest = here
and_then-IsLate (FlowResult.err (configure_failed s), w) k here rest = here
and_then-IsLate (FlowResult.err (connect_failed s), w) k here rest = tt
and_then-IsLate (FlowResult.err (verify_failed s), w) k here rest = tt
and_then-IsLate (FlowResult.out_of_fuel, w) k here rest = tt

connect_result-IsLate :
    {A : Type 0} (r : Reply A) → IsLate (result (λ e. connect_failed (shown e)) r)
connect_result-IsLate (Reply.ok a) = tt
connect_result-IsLate (Reply.err e) = tt

verify_result-IsLate : {A : Type 0} (r : Reply A) → IsLate (result (λ e. verify_failed (shown e)) r)
verify_result-IsLate (Reply.ok a) = tt
verify_result-IsLate (Reply.err e) = tt

module _ (h : Host) (backoff : ExponentialBackoff) (max_register_attempts : ℕ)
    (id : InstanceId) where
  connect_loop-IsLate :
      (fuel deadline : ℕ) (w : h.World)
      → IsLate (connect_loop h backoff max_register_attempts id fuel deadline w).0
  unfolding connect_loop
  connect_loop-IsLate zero deadline w = tt
  connect_loop-IsLate (suc fuel) deadline w = elim (Reply-cases (h.connect id w).0) [
    | inl (a, p) ↦ rw (p, connect_loop) tt
    | inr (e, p) ↦ elim (Bool-cases (retry_summary e)) [
      | inr q ↦ rw (p, connect_loop) (rw q tt)
      | inl q ↦ elim (Bool-cases (leb deadline (h.now (h.connect id w).1))) [
        | inl t ↦ rw (p, connect_loop) (rw q (rw t tt))
        | inr t ↦ rw (p, connect_loop) (rw q (rw t (connect_loop-IsLate fuel deadline _)))
      ]
    ]
  ]

  connect-IsLate :
      (fuel : ℕ) (retry : Bool) (w : h.World)
      → IsLate (connect h backoff max_register_attempts id fuel retry w).0
  unfolding connect
  connect-IsLate fuel false w = connect_result-IsLate (h.connect id w).0
  connect-IsLate fuel true w = connect_loop-IsLate fuel _ w

  verify_loop-IsLate :
      (fuel deadline : ℕ) (s : WarpCliStatus) (w : h.World)
      → IsLate (verify_loop h backoff max_register_attempts id fuel deadline s w).0
  unfolding verify_loop
  verify_loop-IsLate zero deadline s w = tt
  verify_loop-IsLate (suc fuel) deadline s w = elim (Bool-cases s.connected) [
    | inl q ↦ rw (q, verify_loop) tt
    | inr q ↦ elim (Bool-cases (leb deadline (h.now w))) [
      | inl t ↦ rw (q, verify_loop) (rw t tt)
      | inr t ↦
          rw (q, verify_loop)
            (rw t (
              and_then-IsLate _ _ (verify_result-IsLate _)
                (λ s'. verify_loop-IsLate fuel deadline s' _)))
    ]
  ]

  verify-IsLate :
      (fuel : ℕ) (w : h.World) → IsLate (verify h backoff max_register_attempts id fuel w).0
  unfolding verify
  verify-IsLate fuel w =
      and_then-IsLate _ _ (verify_result-IsLate _) λ s. verify_loop-IsLate fuel _ s _

abbrev pub is_setup : FlowError → Bool
is_setup (register_failed n s) = true
is_setup (configure_failed s) = true
is_setup _ = false

not_setup :
    {A : Type 0} (r : FlowResult A) (e : FlowError)
    → IsLate r
    → r ≡ FlowResult.err e
    → is_setup e ≡ true
    → ⊥
not_setup (FlowResult.ok a) e late eq setup = cc
not_setup (FlowResult.out_of_fuel) e late eq setup = cc
not_setup (FlowResult.err (register_failed n s)) e late eq setup = late
not_setup (FlowResult.err (configure_failed s)) e late eq setup = late
not_setup (FlowResult.err (connect_failed s)) e late eq setup = ground arith
not_setup (FlowResult.err (verify_failed s)) e late eq setup = ground arith

and_then_setup :
    {A B W : Type 0} (Q : W → Type 0) (r : FlowResult A × W) (k : A → W → FlowResult B × W)
    (e : FlowError)
    → Q r.1
    → ((a : A) → IsLate (k a r.1).0)
    → (and_then r k).0 ≡ FlowResult.err e
    → is_setup e ≡ true
    → Q (and_then r k).1
unfolding and_then
and_then_setup Q (FlowResult.ok a, w) k e here late eq setup =
    absurd (not_setup (k a w).0 e (late a) eq setup)
and_then_setup Q (FlowResult.err x, w) k e here late eq setup = here
and_then_setup Q (FlowResult.out_of_fuel, w) k e here late eq setup = here

module _ (h : Host) (backoff : ExponentialBackoff) (max_register_attempts : ℕ) (id : InstanceId)
    (fuel : ℕ) (credentials : InstanceCredentials) (w : h.World) (e : FlowError) where
  -- A start flow that fails in its setup, because the registration attempts are used up or a
  -- configuration call failed, has never called `connect`.
  pub run-setup_failed :
      (run (logged h) backoff max_register_attempts id fuel credentials (w, [])).0
        ≡ FlowResult.err e
      → is_setup e ≡ true
      → All
          (λ c. is_connect c ≡ false)
          (run (logged h) backoff max_register_attempts id fuel credentials (w, [])).1.1
  unfolding run
  run-setup_failed failed setup =
      and_then_setup (λ (v : h.World × List Command). All (λ c. is_connect c ≡ false) v.1) _ _ e
        (prepare_kept h backoff max_register_attempts id (All (λ c. is_connect c ≡ false))
          no_connect-IsKeptBySetup credentials w [] tt)
        (λ o.
          and_then-IsLate _ _ (connect-IsLate (logged h) backoff max_register_attempts id fuel _ _)
            λ _.
              and_then-IsLate _ _ (verify-IsLate (logged h) backoff max_register_attempts id fuel _)
                λ _. tt)
        failed setup
