-- ===== src/Access/Login.antt =====
-- api/auth.rs: `login` and `logout`. The check of a password against its hash, of another crate, is a
-- parameter; what is random in a new session is an argument.
pub mod Entry
pub mod Lifetime
pub mod Locked
use warpdeck.Prelude.{
  ℕ, Bool, true, false, Option, none, some, List, [], ◌∷◌, ◌++◌, if◌then◌else◌, codes,
}
use warpdeck.Access.RateLimit.{
  Failures, RateDecision, allow, blocked, check, record_failure, record_success,
}
use warpdeck.Access.Session.{
  Session, Sessions, User, Users, TimeFormat, find_by_username, create, delete, delete_expired,
}
use warpdeck.Access.Guard.{session_cookie}

pub record LoginRequest : Type 0 where
  pub username : List ℕ
  pub password : List ℕ

-- The state that a login works on.
pub record Doors : Type 0 where
  pub failures : Failures
  pub sessions : Sessions

pub data LoginResponse : Type 0 where
  too_many invalid_body invalid_credentials internal : LoginResponse
  -- The cookie, the user's id and name, and the session's token.
  logged_in : List ℕ → ℕ → List ℕ → List ℕ → LoginResponse

-- The environment of the handler.
pub record Lobby : Type 0 where
  pub times : TimeFormat
  pub verify_password : List ℕ → List ℕ → Bool
  pub secure_cookie : Bool
  pub max_failures : ℕ
  pub window : ℕ
  pub users : Users

-- What a call brings: the limiter's and the calendar's clock, and the random texts.
pub record Moment : Type 0 where
  pub instant : ℕ
  pub now : ℕ
  pub new_id : List ℕ
  pub new_csrf : List ℕ

abbrev pub cookie_flags : List ℕ
cookie_flags = codes "; HttpOnly; Path=/; SameSite=Lax; Max-Age=2592000"

abbrev pub session_cookie_value : List ℕ → Bool → List ℕ
session_cookie_value id secure =
    (session_cookie ++ b'=' ∷ id) ++ (cookie_flags ++ (if secure then codes "; Secure" else []))

abbrev pub verified : Lobby → LoginRequest → Option User → Option User
verified l req none = none
verified l req (some u) = if l.verify_password u.password_hash req.password then some u else none

module _ (l : Lobby) (ip : ℕ) (at_ : Moment) where
  unfoldable pub refuse_login : Doors → LoginResponse × Doors
  refuse_login d =
      let (decision, failures) = record_failure l.max_failures l.window ip at_.instant d.failures in
      (
        elim decision [ blocked ↦ too_many | allow ↦ invalid_credentials ],
        record d { failures = failures },
      )

  unfoldable pub open_session : User → Doors → LoginResponse × Doors
  open_session u d =
      let cleaned = delete_expired l.times at_.now d.sessions in
      let (made, sessions) = create l.times at_.now at_.new_id at_.new_csrf u.id cleaned in
      let d' : Doors = record { failures = record_success ip d.failures; sessions = sessions } in
      elim made [
        | none ↦ (internal, d')
        | some s ↦
            (logged_in (session_cookie_value s.id l.secure_cookie) u.id u.username s.csrf_token, d')
      ]

  unfoldable pub answered : Option User → Doors → LoginResponse × Doors
  answered none d = refuse_login d
  answered (some u) d = open_session u d

  -- A body that is no JSON of this form is none.
  unfoldable pub proceed : RateDecision → Option LoginRequest → Doors → LoginResponse × Doors
  proceed blocked body d = (too_many, d)
  proceed allow none d = (invalid_body, d)
  proceed allow (some req) d = answered (verified l req (find_by_username req.username l.users)) d

  unfoldable pub login : Option LoginRequest → Doors → LoginResponse × Doors
  login body d =
      let (decision, failures) = check l.max_failures l.window ip at_.instant d.failures in
      proceed decision body (record d { failures = failures })

-- `logout`, with the session id that the guard has found.
unfoldable pub logout : List ℕ → Doors → Doors
unfolding delete
logout id d = record d { sessions = delete id d.sessions }
