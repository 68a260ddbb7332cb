-- ===== src/Runtime/Host.antt =====
-- The traits and system calls behind which the runtime works: `WarpControl` (runtime/control.rs),
-- `Clock` (runtime/clock.rs), `ProcessSpawner` with the process wrappers of runtime/dbus.rs and
-- runtime/service.rs, `PortProber` and `DataPlaneProber`, `CredentialResolver`, and the files of
-- runtime/mdm.rs. Each call maps the state of the world to an answer and the next state.
pub mod Logged
use warpdeck.Prelude.{ℕ, ◌+◌, ◌≤◌, ◌≡◌, ◌⊎◌, inl, inr, refl, Bool, Option, List}
use warpdeck.Prelude.Int.{ℤ}
use warpdeck.Runtime.Instance.{InstanceId}
use warpdeck.Runtime.Message.{WarpControlError}
use warpdeck.Runtime.Health.{DataPlaneReport}
use warpdeck.Runtime.Credentials.{InstanceCredentials}

-- An answer of `warp-cli`.
pub data Reply (A : Type 0) : Type 0 where
  ok : A → Reply A
  err : WarpControlError → Reply A

-- An answer of the system: the error is its text.
pub data Attempt (A : Type 0) : Type 0 where
  done : A → Attempt A
  refused : List ℕ → Attempt A

pub record WarpCliStatus : Type 0 where
  pub connected : Bool
  pub raw_status : List ℕ

pub record Host : Type 1 where
  pub World : Type 0
  pub status : InstanceId → World → Reply WarpCliStatus × World
  pub register : InstanceId → World → Reply (Unit {0}) × World
  pub apply_account : InstanceId → InstanceCredentials → World → Reply (Unit {0}) × World
  pub set_proxy_mode : InstanceId → World → Reply (Unit {0}) × World
  pub set_proxy_port : InstanceId → ℕ → World → Reply (Unit {0}) × World
  pub connect : InstanceId → World → Reply (Unit {0}) × World
  pub disconnect : InstanceId → World → World
  -- The instant of the clock, in nanoseconds.
  pub now : World → ℕ
  pub sleep : ℕ → World → World
  -- Whether `reg.json` is there.
  pub registered : InstanceId → World → Bool
  pub remove_registration : InstanceId → World → World
  pub sync_mdm_xml : InstanceId → InstanceCredentials → World → Attempt (Unit {0}) × World
  pub remove_after_enroll : InstanceId → World → World
  pub remove_runtime_dir : InstanceId → World → Attempt (Unit {0}) × World
  pub is_free : ℕ → World → Bool
  pub resolve : Option ℕ → World → Attempt InstanceCredentials × World
  -- The process that is started is known by its pid.
  pub spawn_dbus : InstanceId → World → Attempt ℕ × World
  pub wait_for_socket : InstanceId → World → Attempt (Unit {0}) × World
  pub shutdown_dbus : ℕ → World → World
  pub start_service : InstanceId → World → Attempt ℕ × World
  pub terminate : ℕ → World → World
  -- `try_exited`: the exit code of a process that has ended.
  pub try_exited : ℕ → World → Option (Option ℤ) × World
  pub force_kill : ℕ → World → Option ℤ × World
  -- `DataPlaneProber::probe` on a port.
  pub probe : ℕ → World → Option DataPlaneReport × World

-- What the loops rely on: a sleep takes at least its time, and no call turns the clock back.
pub record IsClock (h : Host) : Type 0 where
  pub sleeps : (d : ℕ) (w : h.World) → h.now w + d ≤ h.now (h.sleep d w)
  pub status_later : (id : InstanceId) (w : h.World) → h.now w ≤ h.now (h.status id w).1
  pub connect_later : (id : InstanceId) (w : h.World) → h.now w ≤ h.now (h.connect id w).1

-- A split on an answer that keeps the equation.
pub Reply-cases :
    {A : Type 0} (r : Reply A) → ((a : A) × (r ≡ ok a)) ⊎ ((e : WarpControlError) × (r ≡ err e))
Reply-cases (ok a) = inl (a, refl)
Reply-cases (err e) = inr (e, refl)

pub Attempt-cases :
    {A : Type 0} (r : Attempt A) → ((a : A) × (r ≡ done a)) ⊎ ((t : List ℕ) × (r ≡ refused t))
Attempt-cases (done a) = inl (a, refl)
Attempt-cases (refused t) = inr (t, refl)
