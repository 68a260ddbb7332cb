-- ===== src/Access/Guard/Logout.antt =====
-- api/middleware.rs and api/auth.rs: a session that has been logged out.
use warpdeck.Prelude.{
  ℕ, ◌≡◌, Bool, none, some, List, [], ◌∷◌, if◌then◌else◌, list_eq, list_eq_sound, list_eq_refl,
  arith,
}
use warpdeck.Access.Session.{Session, Sessions, Users, TimeFormat, find, get_user}
use warpdeck.Access.Session
use warpdeck.Access.Guard.{Request, unauthorized, auth_guard, session_id_from_cookie}
use warpdeck.Access.Login.{Doors, logout}

pub find-delete :
    (id k : List ℕ) (m : Sessions)
    → find k (Session.delete id m) ≡ (if list_eq id k then none else find k m)
unfolding find Session.delete
find-delete id k [] = ground arith
find-delete id k (s ∷ m) = ground (
  arith,
  find-delete id k m,
  list_eq_sound s.id id,
  list_eq_sound s.id k,
  list_eq_refl k,
  list_eq_sound id k,
)

-- A log-out ends its session and no other: afterwards a request with its cookie is refused, and any other
-- request is answered as before.
pub auth_guard-logout :
    (is_whitespace : ℕ → Bool) (f : TimeFormat) (now : ℕ) (users : Users) (request : Request)
    (id k : List ℕ) (d : Doors)
    → session_id_from_cookie is_whitespace request.cookies ≡ some k
    → (auth_guard is_whitespace f now users request (logout id d).sessions).0 ≡ (
        if list_eq id k
        then unauthorized
        else (auth_guard is_whitespace f now users request d.sessions).0)
unfolding auth_guard logout Session.get
auth_guard-logout is_whitespace f now users request id k d cookie =
    ground (arith, cookie, find-delete id k d.sessions)
