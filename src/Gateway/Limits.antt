-- ===== src/Gateway/Limits.antt =====
-- gateway/limits.rs: the limits on sessions. Instants are nanoseconds. The floating-point
-- arithmetic of the bucket is the machine's, and a parameter.
pub mod Permits
use warpdeck.Prelude.{ℕ, zero, suc, ◌-◌, Bool, true, false, Option, none, some, max, if◌then◌else◌}

pub data LimitRejection : Type 0 where
  conn_full rate_limited : LimitRejection

-- A permit says whether it holds a place of the semaphore.
pub data Acquired : Type 0 where
  permit : Bool → Acquired
  rejected : LimitRejection → Acquired

abbrev pub new_limit : (ℕ → ℕ) → Option ℕ → Option ℕ
new_limit g none = none
new_limit g (some n) = some (g n)

-- `f64`, with the number of seconds of a duration.
pub record F64 : Type 1 where
  pub Float : Type 0
  pub from : ℕ → Float
  pub as_secs_f64 : ℕ → Float
  pub one : Float
  pub plus : Float → Float → Float
  pub minus : Float → Float → Float
  pub times : Float → Float → Float
  pub smaller : Float → Float → Float
  pub at_least : Float → Float → Bool

module _ (f : F64) where
  pub record TokenBucket : Type 0 where
    pub rate : f.Float
    pub tokens : f.Float
    pub last : ℕ

  unfoldable pub new_bucket : ℕ → ℕ → TokenBucket
  new_bucket rate now = record { rate = f.from rate; tokens = f.from rate; last = now }

  -- `saturating_duration_since` stops at 0.
  abbrev pub refilled : ℕ → TokenBucket → f.Float
  refilled now b =
      f.smaller (f.plus b.tokens (f.times (f.as_secs_f64 (now - b.last)) b.rate)) b.rate

  unfoldable pub try_take : ℕ → TokenBucket → Bool × TokenBucket
  try_take now b =
      let tokens = refilled now b in
      if f.at_least tokens f.one
      then (true, record b { tokens = f.minus tokens f.one; last = now })
      else (false, record b { tokens = tokens; last = now })

  -- The semaphore is its free permits.
  pub record SessionLimits : Type 0 where
    pub conn : Option ℕ
    pub rps : Option TokenBucket

  abbrev pub new_rps : Option ℕ → ℕ → Option TokenBucket
  unfolding new_bucket
  new_rps none now = none
  new_rps (some r) now = some (new_bucket (max r 1) now)

  unfoldable pub new : Option ℕ → Option ℕ → ℕ → SessionLimits
  unfolding new_bucket
  new max_connections max_rps now = record {
    conn = new_limit (λ n. max n 1) max_connections;
    rps = new_rps max_rps now;
  }

  abbrev pub take_place : SessionLimits → Acquired × SessionLimits
  take_place l = elim l.conn [
    | none ↦ (permit false, l)
    | some zero ↦ (rejected conn_full, l)
    | some (suc n) ↦ (permit true, record l { conn = some n })
  ]

  unfoldable pub acquire : ℕ → SessionLimits → Acquired × SessionLimits
  unfolding try_take
  acquire now l = elim l.rps [
    | none ↦ take_place l
    | some b ↦
        let (taken, b1) = try_take now b in
        let l1 = record l { rps = some b1 } in
        if taken then take_place l1 else (rejected rate_limited, l1)
  ]

  -- The end of a session drops its permit.
  unfoldable pub release : Bool → SessionLimits → SessionLimits
  release held l = if held then record l { conn = new_limit suc l.conn } else l
