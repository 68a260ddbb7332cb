-- ===== src/Access/Session.antt =====
-- auth/session.rs and auth/repos.rs: the tables `sessions` and `users`. The parser of times and the fresh
-- texts of a new session are arguments; the column `last_seen_at` is written and never read.

use warpdeck.Prelude.{
  ℕ, ◌+◌, ◌*◌, Bool, true, false, Option, none, some, List, [], ◌∷◌, ltb, leb, ◌==◌, if◌then◌else◌,
  list_eq,
}
use warpdeck.Prelude.Machine.{from_secs}

-- 30 days.
abbrev pub session_ttl : ℕ
session_ttl = from_secs (30 * 24 * 3600)

pub record Session : Type 0 where
  pub id : List ℕ
  pub user_id : ℕ
  pub csrf_token : List ℕ
  pub expires_at : List ℕ

abbrev pub Sessions : Type 0
Sessions = List Session

pub record User : Type 0 where
  pub id : ℕ
  pub username : List ℕ
  pub password_hash : List ℕ

abbrev pub Users : Type 0
Users = List User

-- The time library's parser and printer of RFC 3339, in nanoseconds.
pub record TimeFormat : Type 0 where
  pub parse : List ℕ → Option ℕ
  pub print : ℕ → List ℕ

-- `BINARY`, the order of texts in SQLite.
abbrev pub text_le : List ℕ → List ℕ → Bool
text_le [] t = true
text_le (a ∷ s) [] = false
text_le (a ∷ s) (b ∷ t) = let rest = text_le s t in if a == b then rest else ltb a b

unfoldable pub find : List ℕ → Sessions → Option Session
find id [] = none
find id (s ∷ m) = let rest = find id m in if list_eq s.id id then some s else rest

-- `delete`
unfoldable pub delete : List ℕ → Sessions → Sessions
delete id [] = []
delete id (s ∷ m) = let rest = delete id m in if list_eq s.id id then rest else s ∷ rest

-- A text that is no time is taken as expired.
abbrev pub is_expired : TimeFormat → ℕ → List ℕ → Bool
is_expired f now expires_at = elim (f.parse expires_at) [ none ↦ true | some t ↦ leb t now ]

-- `get`: an expired session is deleted and not found.
unfoldable pub get : TimeFormat → ℕ → List ℕ → Sessions → Option Session × Sessions
unfolding find delete
get f now id m = elim (find id m) [
  | none ↦ (none, m)
  | some s ↦ if is_expired f now s.expires_at then (none, delete s.id m) else (some s, m)
]

-- `create`, given the new id and token: the key of the table is unique.
unfoldable pub create : TimeFormat → ℕ → List ℕ → List ℕ → ℕ → Sessions → Option Session × Sessions
unfolding find
create f now id csrf user_id m =
    let s : Session = record {
      id = id;
      user_id = user_id;
      csrf_token = csrf;
      expires_at = f.print (now + session_ttl);
    } in
    elim (find id m) [ none ↦ (some s, s ∷ m) | some old ↦ (none, m) ]

-- `delete_expired`, where the texts are compared.
unfoldable pub delete_expired : TimeFormat → ℕ → Sessions → Sessions
delete_expired f now [] = []
delete_expired f now (s ∷ m) =
    let rest = delete_expired f now m in
    if text_le s.expires_at (f.print now) then rest else s ∷ rest

unfoldable pub find_by_username : List ℕ → Users → Option User
find_by_username name [] = none
find_by_username name (u ∷ us) =
    let rest = find_by_username name us in if list_eq u.username name then some u else rest

unfoldable pub get_user : ℕ → Users → Option User
get_user id [] = none
get_user id (u ∷ us) = let rest = get_user id us in if u.id == id then some u else rest

pub data AdminSetupResult : Type 0 where
  created : ℕ → AdminSetupResult
  already_initialized : AdminSetupResult

-- The first row of the table gets the key 1.
unfoldable pub create_admin_if_empty : List ℕ → List ℕ → Users → AdminSetupResult × Users
create_admin_if_empty name hash [] =
    (created 1, record { id = 1; username = name; password_hash = hash } ∷ [])
create_admin_if_empty name hash (u ∷ us) = (already_initialized, u ∷ us)
