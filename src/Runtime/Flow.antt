-- ===== src/Runtime/Flow.antt =====
-- runtime/flow.rs: register if needed, configure, connect, and wait until the data plane is connected.
-- The two polling loops take fuel; `out_of_fuel` is no result of the code.
pub mod Signature
pub mod Bounded
pub mod Calls
pub mod Outcome
use warpdeck.Prelude.{
  ℕ, zero, suc, ◌+◌, ◌≡◌, ◌⊎◌, inl, inr, refl, Bool, true, false, not, ltb, leb, if◌then◌else◌,
}
use warpdeck.Prelude.Machine.{from_secs}
use warpdeck.Runtime.Instance.{InstanceId, first_warp_port}
use warpdeck.Runtime.Message.{
  WarpControlError, FlowError, Summary, empty, shown, raw, register_failed, configure_failed,
  connect_failed, verify_failed, connect_failure,
}
use warpdeck.Runtime.Backoff.{ExponentialBackoff, delay_for}
use warpdeck.Runtime.Credentials.{InstanceCredentials, is_zero_trust}
use warpdeck.Runtime.Host.{Host, Reply, WarpCliStatus}
use Signature.{retry_summary, stated}

abbrev pub verify_poll_interval : ℕ
verify_poll_interval = from_secs 2

abbrev pub verify_timeout : ℕ
verify_timeout = from_secs 90

abbrev pub zt_connect_retry_poll_interval : ℕ
zt_connect_retry_poll_interval = from_secs 2

abbrev pub zt_registration_wait_timeout : ℕ
zt_registration_wait_timeout = from_secs 60

pub record RegistrationOutcome : Type 0 where
  pub was_registered : Bool
  pub register_attempts : ℕ

pub data FlowResult (A : Type 0) : Type 0 where
  ok : A → FlowResult A
  err : FlowError → FlowResult A
  out_of_fuel : FlowResult A

abbrev pub result : {A : Type 0} → (WarpControlError → FlowError) → Reply A → FlowResult A
result f (Reply.ok a) = ok a
result f (Reply.err e) = err (f e)

-- `map_err` on an answer of the control plane.
abbrev pub map_err :
    {A W : Type 0} → (WarpControlError → FlowError) → Reply A × W → FlowResult A × W
map_err f r = (result f r.0, r.1)

-- `?` after a call: go on with the value and the world, or return the error.
unfoldable pub and_then :
    {A B W : Type 0} → FlowResult A × W → (A → W → FlowResult B × W) → FlowResult B × W
and_then (ok a, w) k = k a w
and_then (err e, w) k = (err e, w)
and_then (out_of_fuel, w) k = (out_of_fuel, w)

module _ (h : Host) (backoff : ExponentialBackoff) (max_register_attempts : ℕ)
    (id : InstanceId) where
  unfoldable pub register_from :
      ℕ → ℕ → Summary → h.World → FlowResult RegistrationOutcome × h.World
  register_from zero attempts last_error w = (err (register_failed attempts last_error), w)
  register_from (suc n) attempts last_error w =
      let attempt = attempts + 1 in
      let (reply, w1) = h.register id w in
      elim reply [
        | Reply.ok _ ↦ (ok (record { was_registered = true; register_attempts = attempt }), w1)
        | Reply.err e ↦ register_from n attempt (shown e) (
            if ltb attempt max_register_attempts
            then h.sleep (delay_for backoff attempt) w1
            else w1)
      ]

  unfoldable pub ensure_registered : h.World → FlowResult RegistrationOutcome × h.World
  unfolding register_from
  ensure_registered w =
      if h.registered id w
      then (ok (record { was_registered = false; register_attempts = 0 }), w)
      else register_from max_register_attempts 0 empty w

  -- The loop that retries while the registration is missing.
  unfoldable pub connect_loop : ℕ → ℕ → h.World → FlowResult (Unit {0}) × h.World
  connect_loop zero deadline w = (out_of_fuel, w)
  connect_loop (suc fuel) deadline w =
      let (reply, w1) = h.connect id w in
      elim reply [
        | Reply.ok _ ↦ (ok tt, w1)
        | Reply.err e ↦ elim (retry_summary e) [
          | true ↦
              if leb deadline (h.now w1)
              then (err (connect_failed (stated e)), w1)
              else connect_loop fuel deadline (h.sleep zt_connect_retry_poll_interval w1)
          | false ↦ (err (connect_failed (shown e)), w1)
        ]
      ]

  unfoldable pub connect : ℕ → Bool → h.World → FlowResult (Unit {0}) × h.World
  unfolding connect_loop
  connect fuel retry_missing_registration w = elim retry_missing_registration [
    | false ↦ map_err (λ e. connect_failed (shown e)) (h.connect id w)
    | true ↦ connect_loop fuel (h.now w + zt_registration_wait_timeout) w
  ]

  -- The loop on `status`, after the first answer.
  unfoldable pub verify_loop : ℕ → ℕ → WarpCliStatus → h.World → FlowResult (Unit {0}) × h.World
  verify_loop zero deadline status w = (out_of_fuel, w)
  verify_loop (suc fuel) deadline status w = elim status.connected [
    | true ↦ (ok tt, w)
    | false ↦
        if leb deadline (h.now w)
        then (err (verify_failed (raw status.raw_status)), w)
        else and_then
            (map_err (λ e. verify_failed (shown e)) (h.status id (h.sleep verify_poll_interval w)))
            (verify_loop fuel deadline)
  ]

  unfoldable pub verify : ℕ → h.World → FlowResult (Unit {0}) × h.World
  unfolding verify_loop
  verify fuel w =
      and_then (map_err (λ e. verify_failed (shown e)) (h.status id w))
        (verify_loop fuel (h.now w + verify_timeout))

  unfoldable pub configure : InstanceCredentials → h.World → FlowResult (Unit {0}) × h.World
  configure credentials w =
      and_then (map_err (λ e. configure_failed (shown e)) (h.apply_account id credentials w))
        λ _ w1.
          and_then (map_err (λ e. configure_failed (shown e)) (h.set_proxy_mode id w1)) λ _ w2.
            map_err (λ e. configure_failed (shown e))
              (h.set_proxy_port id (first_warp_port + id) w2)

  unfoldable pub prepare : InstanceCredentials → h.World → FlowResult RegistrationOutcome × h.World
  unfolding ensure_registered configure
  prepare credentials w =
      if is_zero_trust credentials
      then (ok (record { was_registered = false; register_attempts = 0 }), w)
      else and_then (ensure_registered w)
          λ outcome w1. and_then (configure credentials w1) λ _ w2. (ok outcome, w2)

  unfoldable pub run : ℕ → InstanceCredentials → h.World → FlowResult RegistrationOutcome × h.World
  unfolding prepare connect verify
  run fuel credentials w = and_then (prepare credentials w) λ outcome w1.
      and_then (connect fuel (is_zero_trust credentials) w1)
        λ _ w2. and_then (verify fuel w2) λ _ w3. (ok outcome, w3)

-- A split on a result that keeps the equation.
pub FlowResult-cases :
    {A : Type 0} (r : FlowResult A)
    → ((a : A) × (r ≡ FlowResult.ok a))
      ⊎ (((e : FlowError) × (r ≡ FlowResult.err e)) ⊎ (r ≡ FlowResult.out_of_fuel))
FlowResult-cases (FlowResult.ok a) = inl (a, refl)
FlowResult-cases (FlowResult.err e) = inr (inl (e, refl))
FlowResult-cases FlowResult.out_of_fuel = inr (inr refl)
