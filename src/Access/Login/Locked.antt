-- ===== src/Access/Login/Locked.antt =====
-- api/auth.rs over auth/rate_limit.rs: logins with wrong passwords.
use warpdeck.Prelude.{
  ℕ, ◌+◌, ◌≤◌, ◌<◌, ◌≡◌, refl, sym, ap, subst, ◌∙◌, true, false, none, some, List, [], ◌∷◌, leb,
  if◌then◌else◌, length, All, arith, ==_refl, Bool-cases, Option-cases, inl, inr,
}
use warpdeck.Prelude.Map
use warpdeck.Prelude.Map.{get-insert, get-remove}
use warpdeck.Access.RateLimit.{
  RateDecision, allow, blocked, FailureState, Failures, entry, counted, decide, check,
  record_failure, is_expired, without_expired,
}
use warpdeck.Access.RateLimit.Window.{get-without_expired, without_expired_new}
use warpdeck.Access.Session.{Sessions, User, find_by_username, create, delete_expired}
use warpdeck.Access.Login.{
  LoginRequest, Doors, LoginResponse, too_many, Lobby, Moment, login, open_session, answered,
  proceed, refuse_login, verified,
}

-- A login at its moment.
pub record Try : Type 0 where
  pub moment : Moment
  pub body : LoginRequest

module _ (l : Lobby) (ip : ℕ) where
  pub logins : List Try → Doors → Doors
  logins [] d = d
  logins (a ∷ as_) d = logins as_ (login l ip a.moment (some a.body) d).1

  abbrev pub IsWrong : Try → Type 0
  IsWrong a = verified l a.body (find_by_username a.body.username l.users) ≡ none

  -- What is counted of `n` failures since `start`: all, up to the allowed number.
  record Counts (start n : ℕ) (d : Doors) : Type 0 where
    count : ℕ
    known : Map.get ip d.failures ≡ some (record { count = count; window_start = start })
    exact : leb l.max_failures count ≡ false → count ≡ n
    at_most : count ≤ n

  module _ (start : ℕ) (pos : 1 ≤ l.window) where
    check-live :
        (t : ℕ) (m : Failures) (s : FailureState)
        → Map.get ip m ≡ some s
        → s.window_start ≡ start
        → t < start + l.window
        → (Map.get ip (check l.max_failures l.window ip t m).1 ≡ some s)
          × ((check l.max_failures l.window ip t m).0 ≡ decide l.max_failures s.count)
    unfolding check
    check-live t m s found from early =
        let live : is_expired l.window t s ≡ false = ground arith in
        let p = get-without_expired l.window ip t m s found live in (p, ground (arith, p))

    -- One more failure in the window.
    counts-on :
        (t : ℕ) (m : Failures) (s : FailureState)
        → Map.get ip m ≡ some s
        → s.window_start ≡ start
        → t < start + l.window
        → Map.get ip (record_failure l.max_failures l.window ip t m).1
          ≡ some (record { count = s.count + 1; window_start = start })
    unfolding record_failure
    counts-on t m s found from early =
        let next : FailureState = record { count = s.count + 1; window_start = start } in
        let e : counted l.window t (entry ip t m) ≡ next = ground arith in
        rw e (get-insert ip ip next m ∙ rw (==_refl ip) refl)

    counts-first :
        (t : ℕ) (m : Failures)
        → Map.get ip m ≡ none
        → t ≡ start
        → Map.get ip (record_failure l.max_failures l.window ip t m).1
          ≡ some (record { count = 1; window_start = start })
    unfolding record_failure
    counts-first t m new at_ =
        let next : FailureState = record { count = 1; window_start = start } in
        let e : counted l.window t (entry ip t m) ≡ next = ground arith in
        rw e (get-insert ip ip next m ∙ rw (==_refl ip) refl)

    abbrev checked : Try → Doors → RateDecision × Failures
    checked a d = check l.max_failures l.window ip a.moment.instant d.failures

    login-blocked :
        (a : Try) (d : Doors)
        → (checked a d).0 ≡ blocked
        → (login l ip a.moment (some a.body) d)
          ≡ (too_many, record d { failures = (checked a d).1 })
    unfolding login proceed
    login-blocked a d p = rw p refl

    login-wrong :
        (a : Try) (d : Doors)
        → IsWrong a
        → (checked a d).0 ≡ allow
        → (login l ip a.moment (some a.body) d).1 ≡ record d {
          failures = (record_failure l.max_failures l.window ip a.moment.instant (checked a d).1).1;
        }
    unfolding login proceed answered refuse_login
    login-wrong a d wrong p = rw (p, wrong) refl

    login-Counts :
        (a : Try) (n : ℕ) (d : Doors)
        → IsWrong a
        → a.moment.instant < start + l.window
        → Counts start n d
        → Counts start (n + 1) (login l ip a.moment (some a.body) d).1
    login-Counts a n d wrong early c =
        let s : FailureState = record { count = c.count; window_start = start } in
        let (kept, decision) = check-live a.moment.instant d.failures s c.known refl early in
        elim (Bool-cases (leb l.max_failures c.count)) [
          | inl full ↦
              subst (Counts start (n + 1))
                (sym (
                  ap (λ (r : LoginResponse × Doors). r.1)
                    (login-blocked a d (decision ∙ rw full refl))))
                (record {
                  count = c.count;
                  known = kept;
                  exact = λ e. cc;
                  at_most = omega (arith, c.at_most);
                })
          | inr free ↦
              subst (Counts start (n + 1)) (sym (login-wrong a d wrong (decision ∙ rw free refl)))
                (record {
                  count = c.count + 1;
                  known = counts-on a.moment.instant (checked a d).1 s kept refl early;
                  exact = λ _. omega (arith, c.exact free);
                  at_most = omega (arith, c.at_most);
                })
        ]

    login-first :
        (a : Try) (d : Doors)
        → Map.get ip d.failures ≡ none
        → IsWrong a
        → a.moment.instant ≡ start
        → Counts start 1 (login l ip a.moment (some a.body) d).1
    unfolding check
    login-first a d new wrong at_ =
        let t = a.moment.instant in
        let p : Map.get ip (checked a d).1 ≡ none =
          without_expired_new l.window ip t d.failures new in
        subst (Counts start 1) (sym (login-wrong a d wrong (ground (arith, p)))) (record {
          count = 1;
          known = counts-first t (checked a d).1 p at_;
          exact = λ _. refl;
          at_most = omega arith;
        })

    logins-Counts :
        (as_ : List Try) (n : ℕ) (d : Doors)
        → All IsWrong as_
        → All (λ (a : Try). a.moment.instant < start + l.window) as_
        → Counts start n d
        → Counts start (n + length as_) (logins as_ d)
    unfolding logins
    logins-Counts [] n d wrong early c = subst (λ (k : ℕ). Counts start k d) (omega arith) c
    logins-Counts (a ∷ as_) n d (w, wrong) (e, early) c =
        subst (λ (k : ℕ). Counts start k (logins (a ∷ as_) d)) (omega arith)
          (logins-Counts as_ (n + 1) (login l ip a.moment (some a.body) d).1 wrong early
            (login-Counts a n d w e c))

  proceed-sessions :
      (decision : RateDecision) (a : Try) (d : Doors)
      → IsWrong a
      → (proceed l ip a.moment decision (some a.body) d).1.sessions ≡ d.sessions
  unfolding proceed answered refuse_login
  proceed-sessions blocked a d w = refl
  proceed-sessions allow a d w = rw w refl

  logins-sessions :
      (as_ : List Try) (d : Doors) → All IsWrong as_ → (logins as_ d).sessions ≡ d.sessions
  unfolding logins login
  logins-sessions [] d wrong = refl
  logins-sessions (a ∷ as_) d (w, wrong) =
      logins-sessions as_ (login l ip a.moment (some a.body) d).1 wrong ∙ proceed-sessions _ a _ w

  -- What a login answers does not depend on the failures.
  open_session-sessions :
      (at_ : Moment) (u : User) (d : Doors)
      → (open_session l ip at_ u d).0
        ≡ (open_session l ip at_ u (record { failures = []; sessions = d.sessions })).0
  unfolding open_session
  open_session-sessions at_ u d =
      elim (Option-cases
        (create l.times at_.now at_.new_id at_.new_csrf u.id
          (delete_expired l.times at_.now d.sessions)).0) [
            | inl p ↦ ground (arith, p)
            | inr (s, p) ↦ ground (arith, p)
          ]

  -- The answer to a right password, for an address that is not blocked.
  login-right :
      (at_ : Moment) (req : LoginRequest) (d : Doors) (u : User)
      → verified l req (find_by_username req.username l.users) ≡ some u
      → (check l.max_failures l.window ip at_.instant d.failures).0 ≡ allow
      → (login l ip at_ (some req) d).0
        ≡ (open_session l ip at_ u (record { failures = []; sessions = d.sessions })).0
  unfolding login proceed answered
  login-right at_ req d u right p =
      rw (p, right)
        (open_session-sessions at_ u
          (record d { failures = (check l.max_failures l.window ip at_.instant d.failures).1 }))

  check-empty : (t : ℕ) → (check l.max_failures l.window ip t []).0 ≡ allow
  unfolding check without_expired Map.get
  check-empty t = refl

  -- For an address without failures, after any number of logins with wrong credentials in the window
  -- of the first: until that window ends a login with the right ones is turned away exactly if they are at
  -- least the allowed number, and is else answered as if there had been none.
  pub login-logins :
      (first : Try) (rest : List Try) (d : Doors) (at_ : Moment) (req : LoginRequest) (u : User)
      → Map.get ip d.failures ≡ none
      → 1 ≤ l.window
      → All IsWrong (first ∷ rest)
      → All (λ (a : Try). a.moment.instant < first.moment.instant + l.window) rest
      → at_.instant < first.moment.instant + l.window
      → verified l req (find_by_username req.username l.users) ≡ some u
      → (login l ip at_ (some req) (logins (first ∷ rest) d)).0 ≡ (
          if leb l.max_failures (1 + length rest)
          then too_many
          else (login l ip at_ (some req) (record d { failures = [] })).0)
  unfolding logins
  login-logins first rest d at_ req u new pos (w, wrong) early now right =
      let start = first.moment.instant in
      let d1 = (login l ip first.moment (some first.body) d).1 in
      let c =
        logins-Counts start pos rest 1 d1 wrong early (login-first start pos first d new w refl) in
      let after = logins rest d1 in
      let (kept, decision) = check-live start pos at_.instant after.failures _ c.known refl now in
      elim (Bool-cases (leb l.max_failures c.count)) [
        | inl full ↦
            let many : leb l.max_failures (1 + length rest) ≡ true =
              ground (arith, full, c.at_most) in
            let a : Try = record { moment = at_; body = req } in
            rw many (
              ap (λ (r : LoginResponse × Doors). r.0)
                (login-blocked start pos a after (decision ∙ rw full refl)))
        | inr free ↦
            let few : leb l.max_failures (1 + length rest) ≡ false = rw (← c.exact free) free in
            rw few (
              login-right at_ req after u right (decision ∙ rw free refl)
              ∙ ap
                  (λ (m : Sessions).
                    (open_session l ip at_ u (record { failures = []; sessions = m })).0)
                  (logins-sessions (first ∷ rest) d (w, wrong))
              ∙ sym (
                  login-right at_ req (record d { failures = [] }) u right
                    (check-empty at_.instant)))
      ]
