-- ===== src/Gateway/Auth.antt =====
-- gateway/mod.rs: the comparison of credentials.
pub mod Equality
use Prim.Native.Nat.{bit_or, bit_xor}
use warpdeck.Prelude.{
  ℕ, Bool, true, false, not, ◌&&◌, Option, none, some, List, [], ◌∷◌, ◌==◌, length, if◌then◌else◌,
}

-- The loop over `zip`, with the difference so far.
pub zip_diff : ℕ → List ℕ → List ℕ → ℕ
zip_diff diff (x ∷ xs) (y ∷ ys) = zip_diff (bit_or diff (bit_xor x y)) xs ys
zip_diff diff _ _ = diff

unfoldable pub ct_eq : List ℕ → List ℕ → Bool
unfolding zip_diff
ct_eq a b = if not (length a == length b) then false else zip_diff 0 a b == 0

unfoldable pub verify_credentials : Option (List ℕ × List ℕ) → List ℕ → List ℕ → Bool
unfolding ct_eq
verify_credentials none user pass = true
verify_credentials (some (u, p)) user pass = ct_eq u user && ct_eq p pass
