-- ===== src/Access/Setup.antt =====
-- api/setup.rs: the first administrator. The hash of a password, of another crate, and which characters are
-- white space are parameters.
use warpdeck.Prelude.{
  ℕ, ◌≡◌, refl, Bool, ◌||◌, Option, none, some, List, [], ◌∷◌, ltb, length, is_empty, if◌then◌else◌,
  arith,
}
use warpdeck.Prelude.Text.{trim}
use warpdeck.Access.Session.{
  User, Users, AdminSetupResult, created, already_initialized, create_admin_if_empty,
}

pub record CreateAdminRequest : Type 0 where
  pub username : List ℕ
  pub password : List ℕ

pub data SetupError : Type 0 where
  bad_username short_password long_password invalid_body hashing_failed already_completed :
      SetupError

pub data SetupResponse : Type 0 where
  initialized : SetupResponse
  refused : SetupError → SetupResponse

pub data Validated : Type 0 where
  valid : List ℕ → List ℕ → Validated
  invalid : SetupError → Validated

module _ (is_whitespace : ℕ → Bool) (hash_password : List ℕ → Option (List ℕ)) where
  unfoldable pub validate : CreateAdminRequest → Validated
  validate r =
      let username = trim is_whitespace r.username in
      if is_empty username || ltb 64 (length username)
      then invalid bad_username
      else if ltb (length r.password) 8
      then invalid short_password
      else if ltb 1024 (length r.password)
      then invalid long_password
      else valid username r.password

  abbrev pub answer : AdminSetupResult × Users → SetupResponse × Users
  answer (created id, users) = (initialized, users)
  answer (already_initialized, users) = (refused already_completed, users)

  abbrev pub store : Validated → Users → SetupResponse × Users
  unfolding create_admin_if_empty
  store (invalid e) users = (refused e, users)
  store (valid username password) users = elim (hash_password password) [
    | none ↦ (refused hashing_failed, users)
    | some hash ↦ answer (create_admin_if_empty username hash users)
  ]

  -- A body that is no JSON of this form is none.
  unfoldable pub create_admin : Option CreateAdminRequest → Users → SetupResponse × Users
  unfolding validate create_admin_if_empty
  create_admin none users = (refused invalid_body, users)
  create_admin (some r) users = store (validate r) users

  unfoldable pub setups : List (Option CreateAdminRequest) → Users → Users
  unfolding create_admin
  setups [] users = users
  setups (r ∷ rs) users = setups rs (create_admin r users).1

  create_admin-cons :
      (r : Option CreateAdminRequest) (u : User) (us : Users) → (create_admin r (u ∷ us)).1 ≡ u ∷ us
  unfolding create_admin
  create_admin-cons none u us = refl
  create_admin-cons (some r) u us = ground arith

  -- Once there is a user, no setup request changes the users.
  pub setups-cons :
      (rs : List (Option CreateAdminRequest)) (u : User) (us : Users) → setups rs (u ∷ us) ≡ u ∷ us
  unfolding setups
  setups-cons [] u us = refl
  setups-cons (r ∷ rs) u us = rw (create_admin-cons r u us) (setups-cons rs u us)
