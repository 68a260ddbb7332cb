-- ===== src/Runtime/Flow/Calls.antt =====
-- runtime/flow.rs: which calls of `warp-cli` the start flow makes, on a host that writes them down.
use warpdeck.Prelude.{
  ℕ, zero, suc, ◌+◌, ◌≡◌, refl, inl, inr, Bool, true, false, List, [], ◌∷◌, Bool-cases, All, leb,
  ltb,
}
use warpdeck.Runtime.Instance.{InstanceId}
use warpdeck.Runtime.Message.{Summary, empty}
use warpdeck.Runtime.Backoff.{ExponentialBackoff}
use warpdeck.Runtime.Credentials.{InstanceCredentials, is_zero_trust}
use warpdeck.Runtime.Host.{Host, WarpCliStatus, Reply-cases}
use warpdeck.Runtime.Host.Logged.{Command, logged}
use warpdeck.Runtime.Flow.{
  FlowResult, connect_loop, connect, verify_loop, verify, prepare, run, ensure_registered,
  configure, register_from, and_then,
}
use warpdeck.Runtime.Flow.Signature.{retry_summary}

-- Predicates of a log that the calls of the polling loops keep, and those of the setup.
pub record IsKept (P : List Command → Type 0) : Type 0 where
  pub status : (log : List Command) → P log → P (Command.status ∷ log)
  pub connect : (log : List Command) → P log → P (Command.connect ∷ log)
  pub sleep : (log : List Command) → P log → P (Command.sleep ∷ log)

pub record IsKeptBySetup (P : List Command → Type 0) : Type 0 where
  pub register : (log : List Command) → P log → P (Command.register ∷ log)
  pub apply_account : (log : List Command) → P log → P (Command.apply_account ∷ log)
  pub set_proxy_mode : (log : List Command) → P log → P (Command.set_proxy_mode ∷ log)
  pub set_proxy_port : (log : List Command) → P log → P (Command.set_proxy_port ∷ log)
  pub sleep : (log : List Command) → P log → P (Command.sleep ∷ log)

and_then_kept :
    {A B W : Type 0} (Q : W → Type 0) (r : FlowResult A × W) (k : A → W → FlowResult B × W)
    → Q r.1
    → ((a : A) → Q (k a r.1).1)
    → Q (and_then r k).1
unfolding and_then
and_then_kept Q (FlowResult.ok a, w) k here rest = rest a
and_then_kept Q (FlowResult.err e, w) k here rest = here
and_then_kept Q (FlowResult.out_of_fuel, w) k here rest = here

module _ (h : Host) (backoff : ExponentialBackoff) (max_register_attempts : ℕ) (id : InstanceId)
    (P : List Command → Type 0) where
  abbrev LoggedP : h.World × List Command → Type 0
  LoggedP w = P w.1

  connect_loop_kept :
      IsKept P
      → (fuel deadline : ℕ) (w : h.World) (log : List Command) → P log
      → P (connect_loop (logged h) backoff max_register_attempts id fuel deadline (w, log)).1.1
  unfolding connect_loop
  connect_loop_kept k zero deadline w log here = here
  connect_loop_kept k (suc fuel) deadline w log here = elim (Reply-cases (h.connect id w).0) [
    | inl (a, p) ↦ rw (p, connect_loop) (k.connect log here)
    | inr (e, p) ↦ elim (Bool-cases (retry_summary e)) [
      | inr q ↦ rw (p, connect_loop) (rw q (k.connect log here))
      | inl q ↦ elim (Bool-cases (leb deadline (h.now (h.connect id w).1))) [
        | inl t ↦ rw (p, connect_loop) (rw q (rw t (k.connect log here)))
        | inr t ↦
            rw (p, connect_loop)
              (rw q (rw t (connect_loop_kept k fuel deadline _ _ (k.sleep _ (k.connect log here)))))
      ]
    ]
  ]

  verify_loop_kept :
      IsKept P
      → (fuel deadline : ℕ) (s : WarpCliStatus) (w : h.World) (log : List Command) → P log
      → P (verify_loop (logged h) backoff max_register_attempts id fuel deadline s (w, log)).1.1
  unfolding verify_loop
  verify_loop_kept k zero deadline s w log here = here
  verify_loop_kept k (suc fuel) deadline s w log here = elim (Bool-cases s.connected) [
    | inl q ↦ rw (q, verify_loop) here
    | inr q ↦ elim (Bool-cases (leb deadline (h.now w))) [
      | inl t ↦ rw (q, verify_loop) (rw t here)
      | inr t ↦
          rw (q, verify_loop)
            (rw t (
              and_then_kept LoggedP _ _ (k.status _ (k.sleep log here))
                (λ s'. verify_loop_kept k fuel deadline s' _ _ (k.status _ (k.sleep log here)))))
    ]
  ]

  register_from_kept :
      IsKeptBySetup P
      → (n attempts : ℕ) (last : Summary) (w : h.World) (log : List Command) → P log
      → P (register_from (logged h) backoff max_register_attempts id n attempts last (w, log)).1.1
  unfolding register_from
  register_from_kept k zero attempts last w log here = here
  register_from_kept k (suc n) attempts last w log here = elim (Reply-cases (h.register id w).0) [
    | inl (a, p) ↦ rw (p, register_from) (k.register log here)
    | inr (e, p) ↦ elim (Bool-cases (ltb (attempts + 1) max_register_attempts)) [
      | inl q ↦
          rw (p, register_from)
            (rw q (register_from_kept k n _ _ _ _ (k.sleep _ (k.register log here))))
      | inr q ↦ rw (p, register_from) (rw q (register_from_kept k n _ _ _ _ (k.register log here)))
    ]
  ]

  ensure_registered_kept :
      IsKeptBySetup P
      → (w : h.World) (log : List Command) → P log
      → P (ensure_registered (logged h) backoff max_register_attempts id (w, log)).1.1
  unfolding ensure_registered
  ensure_registered_kept k w log here = elim (Bool-cases (h.registered id w)) [
    | inl q ↦ rw q here
    | inr q ↦ rw q (register_from_kept k max_register_attempts 0 empty w log here)
  ]

  configure_kept :
      IsKeptBySetup P
      → (credentials : InstanceCredentials) (w : h.World) (log : List Command) → P log
      → P (configure (logged h) backoff max_register_attempts id credentials (w, log)).1.1
  unfolding configure
  configure_kept k credentials w log here =
      let applied = k.apply_account log here in
      let moded = k.set_proxy_mode _ applied in
      and_then_kept LoggedP _ _ applied
        λ _. and_then_kept LoggedP _ _ moded λ _. k.set_proxy_port _ moded

  pub prepare_kept :
      IsKeptBySetup P
      → (credentials : InstanceCredentials) (w : h.World) (log : List Command) → P log
      → P (prepare (logged h) backoff max_register_attempts id credentials (w, log)).1.1
  unfolding prepare
  prepare_kept k credentials w log here = elim (Bool-cases (is_zero_trust credentials)) [
    | inl q ↦ rw q here
    | inr q ↦ rw q (
        and_then_kept LoggedP _ _ (ensure_registered_kept k w log here) λ _.
          and_then_kept LoggedP _ _
            (configure_kept k credentials _ _ (ensure_registered_kept k w log here))
            λ _. configure_kept k credentials _ _ (ensure_registered_kept k w log here))
  ]

  connect_kept :
      IsKept P
      → (fuel : ℕ) (retry : Bool) (w : h.World) (log : List Command) → P log
      → P (connect (logged h) backoff max_register_attempts id fuel retry (w, log)).1.1
  unfolding connect
  connect_kept k fuel false w log here = k.connect log here
  connect_kept k fuel true w log here = connect_loop_kept k fuel _ w log here

  verify_kept :
      IsKept P
      → (fuel : ℕ) (w : h.World) (log : List Command) → P log
      → P (verify (logged h) backoff max_register_attempts id fuel (w, log)).1.1
  unfolding verify
  verify_kept k fuel w log here =
      and_then_kept LoggedP _ _ (k.status log here)
        λ s. verify_loop_kept k fuel _ s _ _ (k.status log here)

  pub run_kept :
      IsKept P
      → (fuel : ℕ) (credentials : InstanceCredentials) (w : h.World) (log : List Command)
      → P (prepare (logged h) backoff max_register_attempts id credentials (w, log)).1.1
      → P (run (logged h) backoff max_register_attempts id fuel credentials (w, log)).1.1
  unfolding run
  run_kept k fuel credentials w log here = and_then_kept LoggedP _ _ here λ _.
      and_then_kept LoggedP _ _ (connect_kept k fuel (is_zero_trust credentials) _ _ here) λ _.
        and_then_kept LoggedP _ _
          (verify_kept k fuel _ _ (connect_kept k fuel (is_zero_trust credentials) _ _ here))
          λ _. verify_kept k fuel _ _ (connect_kept k fuel (is_zero_trust credentials) _ _ here)

-- The calls that a start with an mdm registration may make.
abbrev pub is_mdm_call : Command → Bool
is_mdm_call Command.status = true
is_mdm_call Command.connect = true
is_mdm_call Command.sleep = true
is_mdm_call _ = false

abbrev pub is_connect : Command → Bool
is_connect Command.connect = true
is_connect _ = false

mdm_calls-IsKept : IsKept (All (λ c. is_mdm_call c ≡ true))
mdm_calls-IsKept = record {
  status = λ log here. (refl, here);
  connect = λ log here. (refl, here);
  sleep = λ log here. (refl, here);
}

pub no_connect-IsKeptBySetup : IsKeptBySetup (All (λ c. is_connect c ≡ false))
no_connect-IsKeptBySetup = record {
  register = λ log here. (refl, here);
  apply_account = λ log here. (refl, here);
  set_proxy_mode = λ log here. (refl, here);
  set_proxy_port = λ log here. (refl, here);
  sleep = λ log here. (refl, here);
}

module _ (h : Host) (backoff : ExponentialBackoff) (max_register_attempts : ℕ) (id : InstanceId)
    (fuel : ℕ) (credentials : InstanceCredentials) (w : h.World) where
  -- A start with zero trust credentials calls nothing but `connect`, `status` and the clock, however
  -- long it runs and however it ends: it neither registers, nor applies an account, nor sets the
  -- proxy's mode or port.
  pub run-zero_trust_calls :
      is_zero_trust credentials ≡ true
      → All
          (λ c. is_mdm_call c ≡ true)
          (run (logged h) backoff max_register_attempts id fuel credentials (w, [])).1.1
  unfolding prepare
  run-zero_trust_calls zero_trust =
      run_kept h backoff max_register_attempts id (All (λ c. is_mdm_call c ≡ true)) mdm_calls-IsKept
        fuel credentials w [] (rw zero_trust tt)
