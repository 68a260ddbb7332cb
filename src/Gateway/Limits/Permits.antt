-- ===== src/Gateway/Limits/Permits.antt =====
-- gateway/limits.rs: the sessions that hold a permit.
use warpdeck.Prelude.{
  ℕ, zero, suc, ◌+◌, ◌≡◌, Bool, true, false, Option, none, some, List, [], ◌∷◌, max, arith,
}
use warpdeck.Gateway.Limits.{
  F64, SessionLimits, TokenBucket, Acquired, permit, rejected, new, acquire, release, try_take,
  conn_full, refilled,
}

-- A client arrives at an instant, or one of the sessions ends.
pub data Traffic : Type 0 where
  arrive : ℕ → Traffic
  leave : Traffic

abbrev pub admitted : Acquired → ℕ → ℕ
admitted (permit true) n = suc n
admitted _ n = n

abbrev pub is_limited : Option ℕ → Bool
is_limited none = false
is_limited (some n) = true

abbrev pub free : Option ℕ → ℕ
free none = 0
free (some n) = n

module _ (f : F64) where
  -- The limits with the number of sessions that hold a place.
  pub record Open : Type 0 where
    pub limits : SessionLimits f
    pub sessions : ℕ

  unfoldable pub pass : Traffic → Open → Open
  unfolding acquire release
  pass (arrive now) o =
      let (answer, l) = acquire f now o.limits in
      record { limits = l; sessions = admitted answer o.sessions }
  pass leave o = elim o.sessions [
    | zero ↦ o
    | suc n ↦ record { limits = release f true o.limits; sessions = n }
  ]

  unfoldable pub passes : List Traffic → Open → Open
  passes [] o = o
  passes (t ∷ ts) o = passes ts (pass t o)

  -- The free places and the sessions make up the capacity.
  pub record IsCounted (capacity : ℕ) (o : Open) : Type 0 where
    pub limited : is_limited o.limits.conn ≡ true
    pub counted : free o.limits.conn + o.sessions ≡ capacity

  pass-IsCounted :
      (capacity : ℕ) (t : Traffic) (o : Open) → IsCounted capacity o → IsCounted capacity (pass t o)
  unfolding pass
  pass-IsCounted capacity (arrive now) o i = ground arith
  pass-IsCounted capacity leave o i = ground arith

  passes-IsCounted :
      (capacity : ℕ) (ts : List Traffic) (o : Open)
      → IsCounted capacity o
      → IsCounted capacity (passes ts o)
  unfolding passes
  passes-IsCounted capacity [] o i = i
  passes-IsCounted capacity (t ∷ ts) o i =
      passes-IsCounted capacity ts (pass t o) (pass-IsCounted capacity t o i)

  abbrev pub opened : Option ℕ → Option ℕ → ℕ → Open
  unfolding new
  opened max_connections max_rps now = record {
    limits = new f max_connections max_rps now;
    sessions = 0;
  }

  -- With a limit on the connections, after any arrivals and endings the sessions that hold a permit and the
  -- free permits make up the limit, a limit of 0 counting as 1; so no more sessions than that are ever open.
  pub passes-opened :
      (max_connections : ℕ) (max_rps : Option ℕ) (now : ℕ) (ts : List Traffic)
      → IsCounted (max max_connections 1) (passes ts (opened (some max_connections) max_rps now))
  passes-opened max_connections max_rps now ts =
      passes-IsCounted (max max_connections 1) ts (opened (some max_connections) max_rps now)
        (unfold new in ground arith)

  -- A client that comes while all permits are taken is turned away, and has used up a token of the rate all
  -- the same where there is a rate and it has a token.
  pub acquire-full :
      (now : ℕ) (l : SessionLimits f) (b : TokenBucket f)
      → l.conn ≡ some 0
      → l.rps ≡ some b
      → (try_take f now b).0 ≡ true
      → ((acquire f now l).0 ≡ rejected conn_full)
        × ((acquire f now l).1.rps ≡ some (try_take f now b).1)
        × ((try_take f now b).1.tokens ≡ f.minus (refilled f now b) f.one)
  unfolding acquire try_take
  acquire-full now l b none_free limited token = (ground arith, ground arith, ground arith)
