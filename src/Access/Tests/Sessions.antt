-- ===== src/Access/Tests/Sessions.antt =====
-- api/auth.rs and api/middleware.rs at concrete inputs: times are texts of one character, and a password is its
-- own hash.
use warpdeck.Prelude.{
  ℕ, ◌+◌, ◌≡◌, refl, ◌==◌, Bool, true, false, Option, none, some, List, [], ◌∷◌, list_eq, codes,
  length, leb, if◌then◌else◌, arith,
}
use warpdeck.Prelude.Map
use warpdeck.Access.RateLimit.{check, record_success}
use warpdeck.Access.Session.{
  TimeFormat, User, session_ttl, find_by_username, get_user, create, delete_expired,
}
use warpdeck.Access.Guard.{
  Request, next, unauthorized, forbidden, auth_guard, session_id_from_cookie, first_value,
  split_parts,
}
use warpdeck.Access.Guard.Logout.{auth_guard-logout}
use warpdeck.Access.Login.{
  LoginRequest, Doors, too_many, logged_in, Lobby, Moment, login, logout, proceed, answered,
  open_session, session_cookie_value,
}
use warpdeck.Access.Login.Entry.{cookie_pair, auth_guard-login}
use warpdeck.Access.Login.Lifetime.{Act, log_in, handle, log_out, acts, auth_guard-acts}
use warpdeck.Access.Login.Locked.{Try, logins, login-logins}

abbrev blank : ℕ → Bool
blank c = c == 32

abbrev parse_one : List ℕ → Option ℕ
parse_one (t ∷ []) = some t
parse_one _ = none

abbrev times : TimeFormat
times = record { parse = parse_one; print = λ t. t ∷ [] }

abbrev admin : User
admin = record { id = 1; username = codes "admin"; password_hash = codes "secret" }

abbrev lobby : Lobby
lobby = record {
  times = times;
  verify_password = λ hash password. list_eq hash password;
  secure_cookie = true;
  max_failures = 2;
  window = 10;
  users = admin ∷ [];
}

abbrev right : LoginRequest
right = record { username = codes "admin"; password = codes "secret" }

abbrev wrong : LoginRequest
wrong = record { username = codes "admin"; password = codes "guess" }

abbrev moment : Moment
moment = record { instant = 3; now = 100; new_id = codes "a1"; new_csrf = codes "t1" }

abbrev fresh_doors : Doors
fresh_doors = record { failures = []; sessions = [] }

abbrev cookie : List ℕ
cookie = session_cookie_value (codes "a1") true

abbrev inside : Doors
inside = (login lobby 7 moment (some right) fresh_doors).1

abbrev with_cookie : Bool → Option (List ℕ) → Request
with_cookie is_get token = record {
  is_get = is_get;
  cookies = none ∷ some (codes "x=1; warpdeck_session=a1") ∷ [];
  csrf_header = token;
}

logged_in_once :
    (login lobby 7 moment (some right) fresh_doors).0
    ≡ logged_in cookie 1 (codes "admin") (codes "t1")
unfolding login proceed answered open_session check record_success create delete_expired
    find_by_username Map.get
logged_in_once = refl

cookie_found : session_id_from_cookie blank (with_cookie true none).cookies ≡ some (codes "a1")
unfolding session_id_from_cookie first_value split_parts
cookie_found = refl

-- A POST without the token is refused, with a session that is not over.
post_without_token :
    (auth_guard blank times 200 lobby.users (with_cookie false none) inside.sessions).0 ≡ forbidden
unfolding auth_guard first_value split_parts login proceed answered open_session check
    record_success create delete_expired find_by_username Map.get
post_without_token = refl

auth_guard-login_example :
    (auth_guard blank times 200 lobby.users
      (record {
        is_get = false;
        cookies = some (cookie_pair cookie) ∷ [];
        csrf_header = some (codes "t1");
      })
      inside.sessions).0
    ≡ next 1 (codes "admin") (codes "t1") (codes "a1")
unfolding get_user
auth_guard-login_example =
    auth_guard-login blank lobby 7 moment right fresh_doors 200 cookie 1 (codes "admin")
      (codes "t1") logged_in_once refl (omega arith) refl refl (refl, tt)

auth_guard-logout_example :
    (auth_guard blank times 200 lobby.users
      (with_cookie true none)
      (logout (codes "a1") inside).sessions).0
    ≡ (if list_eq (codes "a1") (codes "a1")
        then unauthorized
        else (auth_guard blank times 200 lobby.users (with_cookie true none) inside.sessions).0)
auth_guard-logout_example =
    auth_guard-logout blank times 200 lobby.users (with_cookie true none) (codes "a1") (codes "a1")
      inside cookie_found

abbrev second_moment : Moment
second_moment = record { instant = 4; now = 150; new_id = codes "b2"; new_csrf = codes "t2" }

abbrev history : List Act
history =
    handle 160 (with_cookie true none)
    ∷ log_in 8 second_moment (some right)
    ∷ log_out (codes "b2")
    ∷ []

auth_guard-acts_example :
    (auth_guard blank times
      (100 + session_ttl)
      lobby.users
      (with_cookie true none)
      (acts blank lobby history inside).sessions).0
    ≡ unauthorized
auth_guard-acts_example =
    auth_guard-acts blank lobby 7 moment right fresh_doors cookie 1 (codes "admin") (codes "t1")
      history (100 + session_ttl) (with_cookie true none) logged_in_once refl (tt, (refl, (tt, tt)))
      (omega arith) cookie_found

abbrev try_at : ℕ → Try
try_at t = record { moment = record moment { instant = t }; body = wrong }

login-logins_example :
    (login lobby 7
      (record moment { instant = 9 })
      (some right)
      (logins lobby 7 (try_at 1 ∷ try_at 5 ∷ try_at 6 ∷ []) fresh_doors)).0
    ≡ (if leb 2 (1 + length (try_at 5 ∷ try_at 6 ∷ []))
        then too_many
        else (login lobby 7
            (record moment { instant = 9 })
            (some right)
            (record fresh_doors { failures = [] })).0)
unfolding find_by_username Map.get
login-logins_example =
    login-logins lobby 7 (try_at 1) (try_at 5 ∷ try_at 6 ∷ []) fresh_doors
      (record moment { instant = 9 }) right admin refl (omega arith) (refl, (refl, (refl, tt)))
      (omega arith, (omega arith, tt)) (omega arith) refl
