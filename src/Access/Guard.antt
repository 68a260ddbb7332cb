-- ===== src/Access/Guard.antt =====
-- api/middleware.rs: `auth_guard`. Which characters are white space is a parameter.
pub mod Logout
use warpdeck.Prelude.{
  ℕ, Bool, true, false, not, ◌&&◌, Option, none, some, List, [], ◌∷◌, ◌++◌, ◌==◌, if◌then◌else◌,
  list_eq, codes,
}
use warpdeck.Prelude.Text.{trim, split_once}
use warpdeck.Access.Session.{Session, Sessions, User, Users, TimeFormat, get_user}
use warpdeck.Access.Session

abbrev pub session_cookie : List ℕ
session_cookie = codes "warpdeck_session"

-- What a request has of the guard's concern: whether the method is GET, the values of the Cookie lines and
-- the first value of X-CSRF-Token, a value being none where it is no text.
pub record Request : Type 0 where
  pub is_get : Bool
  pub cookies : List (Option (List ℕ))
  pub csrf_header : Option (List ℕ)

pub data Response : Type 0 where
  unauthorized forbidden : Response
  -- The handler runs, for a user id and name, with the session's token and id.
  next : ℕ → List ℕ → List ℕ → List ℕ → Response

abbrev pub onto : ℕ → List (List ℕ) → List (List ℕ)
onto c [] = (c ∷ []) ∷ []
onto c (part ∷ parts) = (c ∷ part) ∷ parts

-- `split(';')`
unfoldable pub split_parts : List ℕ → List (List ℕ)
split_parts [] = [] ∷ []
split_parts (c ∷ s) = if c == b';' then [] ∷ split_parts s else onto c (split_parts s)

abbrev pub or_default : Option (List ℕ) → List ℕ
or_default none = []
or_default (some s) = s

abbrev pub named_value : Option (List ℕ × List ℕ) → Option (List ℕ)
named_value none = none
named_value (some (name, value)) = if list_eq name session_cookie then some value else none

module _ (is_whitespace : ℕ → Bool) where
  -- The value of a part with the cookie's name.
  abbrev pub part_value : List ℕ → Option (List ℕ)
  part_value part = named_value (split_once b'=' (trim is_whitespace part))

  unfoldable pub first_value : List (List ℕ) → Option (List ℕ)
  first_value [] = none
  first_value (part ∷ parts) =
      let rest = first_value parts in elim (part_value part) [ some v ↦ some v | none ↦ rest ]

  unfoldable pub session_id_from_cookie : List (Option (List ℕ)) → Option (List ℕ)
  session_id_from_cookie [] = none
  session_id_from_cookie (none ∷ values) = session_id_from_cookie values
  session_id_from_cookie (some text ∷ values) =
      let rest = session_id_from_cookie values in
      elim (first_value (split_parts text)) [ some v ↦ some v | none ↦ rest ]

  -- `touch` writes a column that is not modelled.
  unfoldable pub auth_guard : TimeFormat → ℕ → Users → Request → Sessions → Response × Sessions
  unfolding session_id_from_cookie Session.get get_user
  auth_guard f now users request m = elim (session_id_from_cookie request.cookies) [
    | none ↦ (unauthorized, m)
    | some id ↦
        let (found, m1) = Session.get f now id m in
        elim found [
          | none ↦ (unauthorized, m1)
          | some s ↦ elim (get_user s.user_id users) [
            | none ↦ (unauthorized, m1)
            | some u ↦
                if not request.is_get && not (list_eq (or_default request.csrf_header) s.csrf_token)
                then (forbidden, m1)
                else (next u.id u.username s.csrf_token id, m1)
          ]
        ]
  ]
