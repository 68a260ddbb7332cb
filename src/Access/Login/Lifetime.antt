-- ===== src/Access/Login/Lifetime.antt =====
-- api/auth.rs and api/middleware.rs: how long a session lasts.
use warpdeck.Prelude.{
  ℕ, ◌+◌, ◌≤◌, ◌≡◌, refl, sym, subst, ◌∙◌, Bool, true, false, Option, none, some, List, [], ◌∷◌,
  list_eq, All, arith, Bool-cases, Option-cases, inl, inr,
}
use warpdeck.Access.RateLimit.{RateDecision, allow, blocked}
use warpdeck.Access.Session.{
  Session, Sessions, User, TimeFormat, find, create, delete, delete_expired, session_ttl,
  is_expired, text_le, find_by_username,
}
use warpdeck.Access.Session
use warpdeck.Access.Guard.{Request, unauthorized, auth_guard, session_id_from_cookie}
use warpdeck.Access.Login.{
  LoginRequest, Doors, logged_in, Lobby, Moment, login, logout, open_session, answered, proceed,
  refuse_login,
}
use warpdeck.Access.Login.Entry.{login-HasOpened}

-- What comes in: logins with their address, requests with their time, and log-outs.
pub data Act : Type 0 where
  log_in : ℕ → Moment → Option LoginRequest → Act
  handle : ℕ → Request → Act
  log_out : List ℕ → Act

module _ (is_whitespace : ℕ → Bool) (l : Lobby) where
  pub act : Act → Doors → Doors
  act (log_in ip at_ body) d = (login l ip at_ body d).1
  act (handle t request) d = record d {
    sessions = (auth_guard is_whitespace l.times t l.users request d.sessions).1;
  }
  act (log_out id) d = logout id d

  pub acts : List Act → Doors → Doors
  acts [] d = d
  acts (a ∷ as_) d = acts as_ (act a d)

-- The random id of a login is another one.
abbrev pub IsOther : List ℕ → Act → Type 0
IsOther id (log_in ip at_ body) = list_eq at_.new_id id ≡ false
IsOther id (handle t request) = Unit
IsOther id (log_out k) = Unit

module _ (is_whitespace : ℕ → Bool) (l : Lobby) (t : ℕ) (request : Request) (m : Sessions) where
  auth_guard-none :
      session_id_from_cookie is_whitespace request.cookies ≡ none
      → (auth_guard is_whitespace l.times t l.users request m).1 ≡ m
  unfolding auth_guard
  auth_guard-none p = ground (arith, p)

  -- Whatever it answers, the guard leaves the table as the lookup does.
  auth_guard-some :
      (k : List ℕ)
      → session_id_from_cookie is_whitespace request.cookies ≡ some k
      → (auth_guard is_whitespace l.times t l.users request m).1 ≡ (Session.get l.times t k m).1
  unfolding auth_guard
  auth_guard-some k p = ground (arith, p)

  auth_guard-absent :
      (k : List ℕ)
      → session_id_from_cookie is_whitespace request.cookies ≡ some k
      → (Session.get l.times t k m).0 ≡ none
      → (auth_guard is_whitespace l.times t l.users request m).0 ≡ unauthorized
  unfolding auth_guard
  auth_guard-absent k p q = ground (arith, p, q)

module _ (id ends : List ℕ) where
  -- Every session with the id has the given end.
  abbrev Ends : Sessions → Type 0
  Ends [] = Unit
  Ends (s ∷ m) = (list_eq s.id id ≡ true → s.expires_at ≡ ends) × Ends m

  delete-Ends : (k : List ℕ) (m : Sessions) → Ends m → Ends (delete k m)
  unfolding delete
  delete-Ends k [] h = h
  delete-Ends k (s ∷ m) (a, h) = elim (Bool-cases (list_eq s.id k)) [
    | inl e ↦ rw e (delete-Ends k m h)
    | inr e ↦ rw e (a, delete-Ends k m h)
  ]

  delete_expired-Ends :
      (f : TimeFormat) (t : ℕ) (m : Sessions) → Ends m → Ends (delete_expired f t m)
  unfolding delete_expired
  delete_expired-Ends f t [] h = h
  delete_expired-Ends f t (s ∷ m) (a, h) = elim (Bool-cases (text_le s.expires_at (f.print t))) [
    | inl e ↦ rw e (delete_expired-Ends f t m h)
    | inr e ↦ rw e (a, delete_expired-Ends f t m h)
  ]

  get-Ends :
      (f : TimeFormat) (t : ℕ) (k : List ℕ) (m : Sessions) → Ends m → Ends (Session.get f t k m).1
  unfolding Session.get
  get-Ends f t k m h = elim (Option-cases (find k m)) [
    | inl p ↦ subst Ends (ground (arith, p)) h
    | inr (s, p) ↦ elim (Bool-cases (is_expired f t s.expires_at)) [
      | inl e ↦ subst Ends (ground (arith, p, e)) (delete-Ends s.id m h)
      | inr e ↦ subst Ends (ground (arith, p, e)) h
    ]
  ]

  create-Ends :
      (f : TimeFormat) (t : ℕ) (k csrf : List ℕ) (u : ℕ) (m : Sessions)
      → list_eq k id ≡ false
      → Ends m
      → Ends (create f t k csrf u m).1
  unfolding create
  create-Ends f t k csrf u m other h =
      let s : Session = record {
        id = k;
        user_id = u;
        csrf_token = csrf;
        expires_at = f.print (t + session_ttl);
      } in
      elim (Option-cases (find k m)) [
        | inl p ↦ subst Ends {x = s ∷ m} (ground (arith, p)) (λ e. cc, h)
        | inr (old, p) ↦ subst Ends (ground (arith, p)) h
      ]

  find-Ends : (m : Sessions) (s : Session) → Ends m → find id m ≡ some s → s.expires_at ≡ ends
  unfolding find
  find-Ends [] s h e = cc
  find-Ends (x ∷ m) s (a, h) e = elim (Bool-cases (list_eq x.id id)) [
    | inl p ↦ let q : s.expires_at ≡ x.expires_at = ground (arith, p, e) in q ∙ a p
    | inr p ↦ find-Ends m s h (rw p at e)
  ]

  none-Ends : (m : Sessions) → find id m ≡ none → Ends m
  unfolding find
  none-Ends [] e = tt
  none-Ends (x ∷ m) e = elim (Bool-cases (list_eq x.id id)) [
    | inl p ↦ absurd (ground (arith, p, e))
    | inr p ↦ (λ q. cc, none-Ends m (ground (arith, p, e)))
  ]

  module _ (l : Lobby) (ip : ℕ) (at_ : Moment) (other : list_eq at_.new_id id ≡ false) where
    answered-Ends :
        (o : Option User) (d : Doors) → Ends d.sessions → Ends (answered l ip at_ o d).1.sessions
    unfolding answered open_session refuse_login
    answered-Ends none d h = h
    answered-Ends (some u) d h =
        let kept = delete_expired-Ends l.times at_.now d.sessions h in
        let made =
          create l.times at_.now at_.new_id at_.new_csrf u.id
            (delete_expired l.times at_.now d.sessions) in
        subst Ends {x = made.1}
          (elim (Option-cases made.0) [
            | inl p ↦ ground (arith, p)
            | inr (s, p) ↦ ground (arith, p)
          ])
          (create-Ends l.times at_.now at_.new_id at_.new_csrf u.id _ other kept)

    proceed-Ends :
        (decision : RateDecision) (body : Option LoginRequest) (d : Doors)
        → Ends d.sessions
        → Ends (proceed l ip at_ decision body d).1.sessions
    unfolding proceed
    proceed-Ends blocked body d h = h
    proceed-Ends allow none d h = h
    proceed-Ends allow (some req) d h = answered-Ends _ d h

  module _ (is_whitespace : ℕ → Bool) (l : Lobby) where
    act-Ends :
        (a : Act) (d : Doors)
        → IsOther id a
        → Ends d.sessions
        → Ends (act is_whitespace l a d).sessions
    unfolding act
    act-Ends (log_in ip at_ body) d other h =
        unfold login in (proceed-Ends l ip at_ other _ body _ h)
    act-Ends (handle t request) d other h =
        elim (Option-cases (session_id_from_cookie is_whitespace request.cookies)) [
          | inl p ↦ subst Ends (sym (auth_guard-none is_whitespace l t request d.sessions p)) h
          | inr (k, p) ↦
              subst Ends (sym (auth_guard-some is_whitespace l t request d.sessions k p))
                (get-Ends l.times t k d.sessions h)
        ]
    act-Ends (log_out k) d other h = unfold logout in (delete-Ends k d.sessions h)

    acts-Ends :
        (as_ : List Act) (d : Doors)
        → All (IsOther id) as_
        → Ends d.sessions
        → Ends (acts is_whitespace l as_ d).sessions
    unfolding acts
    acts-Ends [] d others h = h
    acts-Ends (a ∷ as_) d (other, others) h =
        acts-Ends as_ (act is_whitespace l a d) others (act-Ends a d other h)

get-over :
    (f : TimeFormat) (t : ℕ) (id ends : List ℕ) (e : ℕ) (m : Sessions)
    → f.parse ends ≡ some e
    → e ≤ t
    → Ends id ends m
    → (Session.get f t id m).0 ≡ none
unfolding Session.get
get-over f t id ends e m reads over h = elim (Option-cases (find id m)) [
  | inl p ↦ ground (arith, p)
  | inr (s, p) ↦ ground (arith, p, reads, find-Ends id ends m s h p)
]

-- A session lasts 30 days, whatever is done with it: after a login that has succeeded and any further
-- logins, requests and log-outs, where no login is given the same random id once more, a request with the id
-- of the first is refused from 30 days after it on. Given that a time is read as it was printed.
pub auth_guard-acts :
    (is_whitespace : ℕ → Bool) (l : Lobby) (ip : ℕ) (at_ : Moment) (req : LoginRequest) (d : Doors)
    (cookie : List ℕ) (uid : ℕ) (name csrf : List ℕ) (as_ : List Act) (t : ℕ) (request : Request)
    → (login l ip at_ (some req) d).0 ≡ logged_in cookie uid name csrf
    → l.times.parse (l.times.print (at_.now + session_ttl)) ≡ some (at_.now + session_ttl)
    → All (IsOther at_.new_id) as_
    → at_.now + session_ttl ≤ t
    → session_id_from_cookie is_whitespace request.cookies ≡ some at_.new_id
    → (auth_guard is_whitespace l.times t l.users request
        (acts is_whitespace l as_ (login l ip at_ (some req) d).1).sessions).0
      ≡ unauthorized
auth_guard-acts is_whitespace l ip at_ req d cookie uid name csrf as_ t request ok reads others over
      sent =
    let o = login-HasOpened l ip at_ req cookie uid name csrf d ok in
    let id = at_.new_id in
    let ends = l.times.print (at_.now + session_ttl) in
    let after = login l ip at_ (some req) d in
    let start : Ends id ends after.1.sessions =
      subst (Ends id ends) (sym o.opened) (λ _. refl, none-Ends id ends o.rest o.fresh) in
    let m = (acts is_whitespace l as_ after.1).sessions in
    auth_guard-absent is_whitespace l t request m id sent (
      get-over l.times t id ends (at_.now + session_ttl) m reads over
        (acts-Ends id ends is_whitespace l as_ after.1 others start))
