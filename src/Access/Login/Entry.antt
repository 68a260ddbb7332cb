-- ===== src/Access/Login/Entry.antt =====
-- api/auth.rs and api/middleware.rs: the requests that follow a login.
use mathlib.Core.List.{reverse, reverse-cons, reverse-reverse}
use warpdeck.Prelude.{
  ℕ, ◌+◌, ◌<◌, ◌≡◌, refl, ap, ◌∙◌, Bool, false, not, ◌||◌, Option, none, some, List, [], ◌∷◌, ◌++◌,
  ◌==◌, any_of, contains, list_eq_refl, arith, Option-cases, inl, inr,
}
use warpdeck.Prelude.Text.{trim, take_until, drop_until, split_once, split_once-append}
use warpdeck.Access.RateLimit.{RateDecision, allow, blocked, check}
use warpdeck.Access.Session.{
  delete_expired, Session, Sessions, User, Users, TimeFormat, find, create, get_user,
  find_by_username, session_ttl, is_expired,
}
use warpdeck.Access.Session
use warpdeck.Access.Guard.{
  or_default, session_cookie, Request, next, auth_guard, session_id_from_cookie, split_parts,
  named_value, part_value, first_value,
}
use warpdeck.Access.Login.{
  LoginRequest, Doors, logged_in, Lobby, Moment, session_cookie_value, login, open_session,
  answered, proceed, refuse_login, verified,
}

-- The pair that a browser sends back of a Set-Cookie line.
abbrev pub cookie_pair : List ℕ → List ℕ
cookie_pair cookie = take_until (λ (c : ℕ). c == b';') cookie

-- No two users have the same key.
abbrev pub IsKeyed : Users → Type 0
IsKeyed [] = Unit
IsKeyed (u ∷ us) = (get_user u.id us ≡ none) × IsKeyed us

get_user-find :
    (name : List ℕ) (us : Users) (u : User)
    → IsKeyed us
    → find_by_username name us ≡ some u
    → get_user u.id us ≡ some u
unfolding get_user find_by_username
get_user-find name [] u k h = cc
get_user-find name (v ∷ us) u k h = ground (arith, get_user-find name us u k.1)

take_until-append :
    (s t : List ℕ) → contains s b';' ≡ false → take_until (λ (c : ℕ). c == b';') (s ++ b';' ∷ t) ≡ s
take_until-append [] t h = refl
take_until-append (c ∷ s) t h = ground (arith, take_until-append s t)

cookie_pair-value :
    (id : List ℕ) (secure : Bool)
    → contains id b';' ≡ false
    → cookie_pair (session_cookie_value id secure) ≡ session_cookie ++ b'=' ∷ id
cookie_pair-value id secure free =
    take_until-append (session_cookie ++ b'=' ∷ id) _ (ground (arith, free))

split_parts-single : (s : List ℕ) → contains s b';' ≡ false → split_parts s ≡ s ∷ []
unfolding split_parts
split_parts-single [] h = refl
split_parts-single (c ∷ s) h = ground (arith, split_parts-single s)

-- What a login that succeeds has done.
pub record HasOpened (l : Lobby) (at_ : Moment) (req : LoginRequest) (after : Sessions)
    (cookie : List ℕ) (uid : ℕ) (name csrf : List ℕ) : Type 0 where
  pub user : User
  pub rest : Sessions
  pub found : find_by_username req.username l.users ≡ some user
  pub is_user : (uid ≡ user.id) × (name ≡ user.username)
  pub token : csrf ≡ at_.new_csrf
  pub pair : cookie ≡ session_cookie_value at_.new_id l.secure_cookie
  pub fresh : find at_.new_id rest ≡ none
  pub opened :
      after
      ≡ record {
        id = at_.new_id;
        user_id = user.id;
        csrf_token = at_.new_csrf;
        expires_at = l.times.print (at_.now + session_ttl);
      }
        ∷ rest

open_session-HasOpened :
    (l : Lobby) (ip : ℕ) (at_ : Moment) (req : LoginRequest) (d : Doors) (u : User)
    (cookie : List ℕ) (uid : ℕ) (name csrf : List ℕ)
    → find_by_username req.username l.users ≡ some u
    → (open_session l ip at_ u d).0 ≡ logged_in cookie uid name csrf
    → HasOpened l at_ req (open_session l ip at_ u d).1.sessions cookie uid name csrf
unfolding open_session create
open_session-HasOpened l ip at_ req d u cookie uid name csrf found ok =
    let cleaned = Session.delete_expired l.times at_.now d.sessions in
    elim (Option-cases (find at_.new_id cleaned)) [
      | inl p ↦ record {
        user = u;
        rest = cleaned;
        found = found;
        is_user = (ground (arith, p, ok), ground (arith, p, ok));
        token = ground (arith, p, ok);
        pair = ground (arith, p, ok);
        fresh = p;
        opened = ground (arith, p);
      }
      | inr (s, p) ↦ absurd (ground (arith, p, ok))
    ]

module _ (l : Lobby) (ip : ℕ) (at_ : Moment) (req : LoginRequest) (cookie : List ℕ) (uid : ℕ)
    (name csrf : List ℕ) where
  answered-HasOpened :
      (o : Option User) (d : Doors)
      → verified l req (find_by_username req.username l.users) ≡ o
      → (answered l ip at_ o d).0 ≡ logged_in cookie uid name csrf
      → HasOpened l at_ req (answered l ip at_ o d).1.sessions cookie uid name csrf
  unfolding answered refuse_login
  answered-HasOpened none d e ok = absurd (ground (arith, ok))
  answered-HasOpened (some u) d e ok =
      open_session-HasOpened l ip at_ req d u cookie uid name csrf (ground (arith, e)) ok

  proceed-HasOpened :
      (decision : RateDecision) (d : Doors)
      → (proceed l ip at_ decision (some req) d).0 ≡ logged_in cookie uid name csrf
      → HasOpened l at_ req (proceed l ip at_ decision (some req) d).1.sessions cookie uid name csrf
  unfolding proceed
  proceed-HasOpened blocked d ok = absurd (cc)
  proceed-HasOpened allow d ok = answered-HasOpened _ d refl ok

  pub login-HasOpened :
      (d : Doors)
      → (login l ip at_ (some req) d).0 ≡ logged_in cookie uid name csrf
      → HasOpened l at_ req (login l ip at_ (some req) d).1.sessions cookie uid name csrf
  unfolding login
  login-HasOpened d ok =
      let (decision, failures) = check l.max_failures l.window ip at_.instant d.failures in
      proceed-HasOpened decision (record d { failures = failures }) ok

module _ (is_whitespace : ℕ → Bool) where
  drop_until-plain :
      (s : List ℕ)
      → any_of is_whitespace s ≡ false
      → drop_until (λ (c : ℕ). not (is_whitespace c)) s ≡ s
  drop_until-plain [] h = refl
  drop_until-plain (c ∷ s) h = ground (arith, h)

  any_of-append :
      (s t : List ℕ)
      → any_of is_whitespace (s ++ t) ≡ (any_of is_whitespace s || any_of is_whitespace t)
  any_of-append [] t = refl
  any_of-append (c ∷ s) t = ground (arith, any_of-append s t)

  any_of-reverse : (s : List ℕ) → any_of is_whitespace (reverse s) ≡ any_of is_whitespace s
  any_of-reverse [] = refl
  any_of-reverse (c ∷ s) =
      rw (reverse-cons c s, any_of-append (reverse s) (c ∷ []), any_of-reverse s) (ground arith)

  trim-plain : (s : List ℕ) → any_of is_whitespace s ≡ false → trim is_whitespace s ≡ s
  trim-plain s h =
      rw (drop_until-plain s h)
        (rw (drop_until-plain (reverse s) (any_of-reverse s ∙ h)) (reverse-reverse s))

  part_value-pair :
      (id : List ℕ)
      → any_of is_whitespace (session_cookie ++ b'=' ∷ id) ≡ false
      → part_value is_whitespace (session_cookie ++ b'=' ∷ id) ≡ some id
  part_value-pair id plain =
      ap (λ (t : List ℕ). named_value (split_once b'=' t))
        (trim-plain (session_cookie ++ b'=' ∷ id) plain)
      ∙ ap named_value (split_once-append b'=' session_cookie id refl)

  session_id_from_cookie-single :
      (text id : List ℕ)
      → split_parts text ≡ text ∷ []
      → part_value is_whitespace text ≡ some id
      → session_id_from_cookie is_whitespace (some text ∷ []) ≡ some id
  unfolding session_id_from_cookie first_value
  session_id_from_cookie-single text id p q = ground (arith, p, q)

  -- The cookie of a login, as a browser sends it.
  session_id_from_cookie-pair :
      (id : List ℕ)
      → contains id b';' ≡ false
      → any_of is_whitespace (session_cookie ++ b'=' ∷ id) ≡ false
      → session_id_from_cookie is_whitespace (some (session_cookie ++ b'=' ∷ id) ∷ []) ≡ some id
  session_id_from_cookie-pair id free plain =
      let text = session_cookie ++ b'=' ∷ id in
      session_id_from_cookie-single text id (split_parts-single text (ground (arith, free)))
        (part_value-pair id plain)

  auth_guard-first :
      (f : TimeFormat) (t : ℕ) (users : Users) (request : Request) (s : Session) (m : Sessions)
      (u : User)
      → session_id_from_cookie is_whitespace request.cookies ≡ some s.id
      → is_expired f t s.expires_at ≡ false
      → get_user s.user_id users ≡ some u
      → or_default request.csrf_header ≡ s.csrf_token
      → (auth_guard is_whitespace f t users request (s ∷ m)).0
        ≡ next u.id u.username s.csrf_token s.id
  unfolding auth_guard Session.get find
  auth_guard-first f t users request s m u cookie live known token =
      ground (arith, cookie, live, known, token, list_eq_refl s.id, list_eq_refl s.csrf_token)

  -- A login that succeeds, its key not being that of another session, opens a session: a request
  -- with the pair of its cookie and its token, sent until the session expires, is handled for its user, also if
  -- it is no GET. Given that a time is read as it was printed, that the new id has no semicolon, that
  -- the pair has no white space, and that no two users have the same key.
  pub auth_guard-login :
      (l : Lobby) (ip : ℕ) (at_ : Moment) (req : LoginRequest) (d : Doors) (t : ℕ) (cookie : List ℕ)
      (uid : ℕ) (name csrf : List ℕ)
      → (login l ip at_ (some req) d).0 ≡ logged_in cookie uid name csrf
      → l.times.parse (l.times.print (at_.now + session_ttl)) ≡ some (at_.now + session_ttl)
      → t < at_.now + session_ttl
      → contains at_.new_id b';' ≡ false
      → any_of is_whitespace (session_cookie ++ b'=' ∷ at_.new_id) ≡ false
      → IsKeyed l.users
      → (auth_guard is_whitespace l.times t l.users
          (record {
            is_get = false;
            cookies = some (cookie_pair cookie) ∷ [];
            csrf_header = some csrf;
          })
          (login l ip at_ (some req) d).1.sessions).0
        ≡ next uid name csrf at_.new_id
  auth_guard-login l ip at_ req d t cookie uid name csrf ok reads early free plain keyed =
      let o = login-HasOpened l ip at_ req cookie uid name csrf d ok in
      let u = o.user in
      let s : Session = record {
        id = at_.new_id;
        user_id = u.id;
        csrf_token = at_.new_csrf;
        expires_at = l.times.print (at_.now + session_ttl);
      } in
      let pair : cookie_pair cookie ≡ session_cookie ++ b'=' ∷ at_.new_id =
        ap cookie_pair o.pair ∙ cookie_pair-value at_.new_id l.secure_cookie free in
      let p : session_id_from_cookie is_whitespace (some (cookie_pair cookie) ∷ [])
          ≡ some at_.new_id =
        rw pair (session_id_from_cookie-pair at_.new_id free plain) in
      rw (o.opened, o.is_user.0, o.is_user.1)
        (rw o.token (
          auth_guard-first l.times t l.users _ s o.rest u p (ground (arith, reads, early))
            (get_user-find req.username l.users u keyed o.found) refl))
