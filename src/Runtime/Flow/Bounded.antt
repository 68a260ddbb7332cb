-- ===== src/Runtime/Flow/Bounded.antt =====
-- runtime/flow.rs: how long the two polling loops run, on a clock that does not turn back.
use warpdeck.Prelude.{
  ℕ, zero, suc, ◌+◌, ◌*◌, ◌<◌, ◌≡◌, inl, inr, Bool, true, false, arith, Bool-cases, leb,
}
use warpdeck.Runtime.Instance.{InstanceId}
use warpdeck.Runtime.Message.{WarpControlError, FlowError, Summary, empty}
use warpdeck.Runtime.Backoff.{ExponentialBackoff}
use warpdeck.Runtime.Credentials.{InstanceCredentials, is_zero_trust}
use warpdeck.Runtime.Host.{Host, Reply, WarpCliStatus, IsClock, Reply-cases}
use warpdeck.Runtime.Flow.{
  FlowResult, connect_loop, connect, verify_loop, verify, prepare, run, out_of_fuel,
  ensure_registered, configure, register_from, and_then, result, verify_poll_interval,
  zt_connect_retry_poll_interval,
}
use warpdeck.Runtime.Flow.Signature.{retry_summary}

abbrev pub IsFinished : {A : Type 0} → FlowResult A → Type 0
IsFinished out_of_fuel = ⊥
IsFinished _ = Unit

result-IsFinished :
    {A : Type 0} (f : WarpControlError → FlowError) (r : Reply A) → IsFinished (result f r)
result-IsFinished f (Reply.ok a) = tt
result-IsFinished f (Reply.err e) = tt

and_then-IsFinished :
    {A B W : Type 0} (r : FlowResult A × W) (k : A → W → FlowResult B × W)
    → IsFinished r.0
    → ((a : A) → IsFinished (k a r.1).0)
    → IsFinished (and_then r k).0
unfolding and_then
and_then-IsFinished (FlowResult.ok a, w) k done rest = rest a
and_then-IsFinished (FlowResult.err e, w) k done rest = tt
and_then-IsFinished (FlowResult.out_of_fuel, w) k done rest = done

module _ (h : Host) (backoff : ExponentialBackoff) (max_register_attempts : ℕ)
    (id : InstanceId) where
  connect_step :
      (fuel deadline : ℕ) (w : h.World)
      → (leb deadline (h.now (h.connect id w).1) ≡ false
          → IsFinished
              (connect_loop h backoff max_register_attempts id fuel deadline
                (h.sleep zt_connect_retry_poll_interval (h.connect id w).1)).0)
      → IsFinished (connect_loop h backoff max_register_attempts id (suc fuel) deadline w).0
  unfolding connect_loop
  connect_step fuel deadline w next = elim (Reply-cases (h.connect id w).0) [
    | inl (a, p) ↦ rw (p, connect_loop) tt
    | inr (e, p) ↦ elim (Bool-cases (retry_summary e)) [
      | inr q ↦ rw (p, connect_loop) (rw q tt)
      | inl q ↦ elim (Bool-cases (leb deadline (h.now (h.connect id w).1))) [
        | inl t ↦ rw (p, connect_loop) (rw q (rw t tt))
        | inr t ↦ rw (p, connect_loop) (rw q (rw t (next t)))
      ]
    ]
  ]

  verify_step :
      (fuel deadline : ℕ) (s : WarpCliStatus) (w : h.World)
      → ((s' : WarpCliStatus)
          → leb deadline (h.now w) ≡ false
          → IsFinished
              (verify_loop h backoff max_register_attempts id fuel deadline s'
                (h.status id (h.sleep verify_poll_interval w)).1).0)
      → IsFinished (verify_loop h backoff max_register_attempts id (suc fuel) deadline s w).0
  unfolding verify_loop
  verify_step fuel deadline s w next = elim (Bool-cases s.connected) [
    | inl q ↦ rw (q, verify_loop) tt
    | inr q ↦ elim (Bool-cases (leb deadline (h.now w))) [
      | inl t ↦ rw (q, verify_loop) (rw t tt)
      | inr t ↦
          rw (q, verify_loop)
            (rw t (
              and_then-IsFinished _ _
                (result-IsFinished _ (h.status id (h.sleep verify_poll_interval w)).0)
                (λ s'. next s' t)))
    ]
  ]

  register_from-IsFinished :
      (n attempts : ℕ) (last : Summary) (w : h.World)
      → IsFinished (register_from h backoff max_register_attempts id n attempts last w).0
  unfolding register_from
  register_from-IsFinished zero attempts last w = tt
  register_from-IsFinished (suc n) attempts last w = elim (Reply-cases (h.register id w).0) [
    | inl (a, p) ↦ rw (p, register_from) tt
    | inr (e, p) ↦ rw (p, register_from) (register_from-IsFinished n _ _ _)
  ]

  ensure_registered-IsFinished :
      (w : h.World) → IsFinished (ensure_registered h backoff max_register_attempts id w).0
  unfolding ensure_registered
  ensure_registered-IsFinished w = elim (Bool-cases (h.registered id w)) [
    | inl q ↦ rw q tt
    | inr q ↦ rw q (register_from-IsFinished max_register_attempts 0 empty w)
  ]

  configure-IsFinished :
      (credentials : InstanceCredentials) (w : h.World)
      → IsFinished (configure h backoff max_register_attempts id credentials w).0
  unfolding configure
  configure-IsFinished credentials w =
      and_then-IsFinished _ _ (result-IsFinished _ (h.apply_account id credentials w).0) λ _.
        and_then-IsFinished _ _ (result-IsFinished _ (h.set_proxy_mode id _).0)
          λ _. result-IsFinished _ (h.set_proxy_port id _ _).0

  prepare-IsFinished :
      (credentials : InstanceCredentials) (w : h.World)
      → IsFinished (prepare h backoff max_register_attempts id credentials w).0
  unfolding prepare
  prepare-IsFinished credentials w = elim (Bool-cases (is_zero_trust credentials)) [
    | inl q ↦ rw q tt
    | inr q ↦ rw q (
        and_then-IsFinished _ _ (ensure_registered-IsFinished w)
          λ _. and_then-IsFinished _ _ (configure-IsFinished credentials _) λ _. tt)
  ]

  module _ (clock : IsClock h) where
    connect_loop-IsFinished :
        (n deadline : ℕ) (w : h.World)
        → deadline < h.now w + zt_connect_retry_poll_interval * n + 1
        → IsFinished (connect_loop h backoff max_register_attempts id (suc n) deadline w).0
    connect_loop-IsFinished zero deadline w soon =
        connect_step 0 deadline w λ t. absurd (ground (arith, clock.connect_later id w))
    connect_loop-IsFinished (suc m) deadline w soon = connect_step (suc m) deadline w λ t.
        connect_loop-IsFinished m deadline _ (
          omega (
            arith,
            clock.connect_later id w,
            clock.sleeps zt_connect_retry_poll_interval (h.connect id w).1,
          ))

    connect-IsFinished :
        (retry : Bool) (w : h.World)
        → IsFinished (connect h backoff max_register_attempts id 47 retry w).0
    unfolding connect
    connect-IsFinished false w = result-IsFinished _ (h.connect id w).0
    connect-IsFinished true w = connect_loop-IsFinished 46 _ w (omega arith)

    verify_loop-IsFinished :
        (n deadline : ℕ) (s : WarpCliStatus) (w : h.World)
        → deadline < h.now w + verify_poll_interval * n + 1
        → IsFinished (verify_loop h backoff max_register_attempts id (suc n) deadline s w).0
    verify_loop-IsFinished zero deadline s w soon =
        verify_step 0 deadline s w λ s' t. absurd (ground arith)
    verify_loop-IsFinished (suc m) deadline s w soon = verify_step (suc m) deadline s w λ s' t.
        verify_loop-IsFinished m deadline s' _ (
          omega (
            arith,
            clock.sleeps verify_poll_interval w,
            clock.status_later id (h.sleep verify_poll_interval w),
          ))

    verify-IsFinished :
        (w : h.World) → IsFinished (verify h backoff max_register_attempts id 47 w).0
    unfolding verify
    verify-IsFinished w =
        and_then-IsFinished _ _ (result-IsFinished _ (h.status id w).0)
          λ s. verify_loop-IsFinished 46 _ s _ (omega (arith, clock.status_later id w))

    -- On a clock that does not turn back, and whose sleeps take their time, the start flow ends: 47
    -- rounds of either polling loop are enough, whatever the control plane answers.
    pub run-IsFinished :
        (credentials : InstanceCredentials) (w : h.World)
        → IsFinished (run h backoff max_register_attempts id 47 credentials w).0
    unfolding run
    run-IsFinished credentials w = and_then-IsFinished _ _ (prepare-IsFinished credentials w) λ _.
        and_then-IsFinished _ _ (connect-IsFinished (is_zero_trust credentials) _)
          λ _. and_then-IsFinished _ _ (verify-IsFinished _) λ _. tt
