-- ===== src/Gateway/Auth/Equality.antt =====
-- gateway/mod.rs: `ct_eq` decides equality of byte strings.
use Prim.Native.Nat.{bit_or, bit_xor}
use warpdeck.Prelude.{
  ℕ, zero, suc, ◌<◌, ◌≡◌, ◌↔◌, refl, Bool, true, false, not, ◌&&◌, List, [], ◌∷◌, ◌==◌, length, All,
  arith, if◌then◌else◌, ltb, list_eq, list_eq_sound, list_eq_refl, Bool-cases, inl, inr, ==_iff,
  subst, some,
}
use warpdeck.Gateway.Auth.{zip_diff, ct_eq, verify_credentials}

-- A test of every number below a bound.
passes : (ℕ → Bool) → ℕ → Bool
passes test zero = true
passes test (suc k) = let rest = passes test k in if test k then rest else false

passes-lt : (test : ℕ → Bool) (k x : ℕ) → x < k → passes test k ≡ true → test x ≡ true
unfolding passes
passes-lt test zero x below all = absurd (omega arith)
passes-lt test (suc k) x below all = ground (arith, passes-lt test k x)

-- A test of every pair of bytes.
pairs_pass : (ℕ → ℕ → Bool) → Bool
unfolding passes
pairs_pass test = passes (λ x. passes (test x) 256) 256

pairs_pass-lt :
    (test : ℕ → ℕ → Bool) (x y : ℕ) → pairs_pass test ≡ true → x < 256 → y < 256 → test x y ≡ true
unfolding pairs_pass
pairs_pass-lt test x y all p q =
    passes-lt (test x) 256 y q (passes-lt (λ z. passes (test z) 256) 256 x p all)

same : Bool → Bool → Bool
same true b = b
same false b = not b

xor_test : ℕ → ℕ → Bool
xor_test x y = same (bit_xor x y == 0) (x == y) && ltb (bit_xor x y) 256

or_test : ℕ → ℕ → Bool
or_test d e = same (d == 0 && e == 0) (bit_or d e == 0) && ltb (bit_or d e) 256

xor_table : pairs_pass xor_test ≡ true
unfolding pairs_pass xor_test same
xor_table = refl

or_table : pairs_pass or_test ≡ true
unfolding pairs_pass or_test same
or_table = refl

xor_zero : (x y : ℕ) → x < 256 → y < 256 → (bit_xor x y == 0) ≡ (x == y)
unfolding xor_test same
xor_zero x y p q = ground (arith, pairs_pass-lt xor_test x y xor_table)

xor_bound : (x y : ℕ) → x < 256 → y < 256 → bit_xor x y < 256
unfolding xor_test same
xor_bound x y p q = ground (arith, pairs_pass-lt xor_test x y xor_table)

or_zero : (d e : ℕ) → d < 256 → e < 256 → (bit_or d e == 0) ≡ (d == 0 && e == 0)
unfolding or_test same
or_zero d e p q = ground (arith, pairs_pass-lt or_test d e or_table)

or_bound : (d e : ℕ) → d < 256 → e < 256 → bit_or d e < 256
unfolding or_test same
or_bound d e p q = ground (arith, pairs_pass-lt or_test d e or_table)

-- Byte strings.
abbrev pub IsBytes : List ℕ → Type 0
IsBytes = All (λ x. x < 256)

-- With equal lengths the loop's difference is 0 exactly for a difference of 0 so far and equal strings.
zip_diff-zero :
    (d : ℕ) (a b : List ℕ)
    → d < 256
    → IsBytes a
    → IsBytes b
    → length a ≡ length b
    → (zip_diff d a b == 0) ≡ (d == 0 && list_eq a b)
unfolding zip_diff
zip_diff-zero d [] [] dd pa pb e = ground arith
zip_diff-zero d [] (y ∷ ys) dd pa pb e = absurd (omega arith)
zip_diff-zero d (x ∷ xs) [] dd pa pb e = absurd (omega arith)
zip_diff-zero d (x ∷ xs) (y ∷ ys) dd (px, pxs) (py, pys) e =
    let xb = xor_bound x y px py in
    ground (
      arith,
      zip_diff-zero (bit_or d (bit_xor x y)) xs ys (or_bound d (bit_xor x y) dd xb) pxs pys
          (omega arith),
      or_zero d (bit_xor x y) dd xb,
      xor_zero x y px py,
    )

list_eq-length : (a b : List ℕ) → list_eq a b ≡ true → length a ≡ length b
list_eq-length [] [] e = refl
list_eq-length (x ∷ xs) (y ∷ ys) e = ground (arith, list_eq-length xs ys)
list_eq-length [] (y ∷ ys) e = cc
list_eq-length (x ∷ xs) [] e = cc

-- On byte strings, the comparison that reads every byte is true exactly for equal strings.
pub ct_eq_iff : (a b : List ℕ) → IsBytes a → IsBytes b → (ct_eq a b ≡ true) ↔ (a ≡ b)
unfolding ct_eq
ct_eq_iff a b pa pb = (
  λ e. elim (Bool-cases (length a == length b)) [
    | inl p ↦
        list_eq_sound a b
          (ground (arith, zip_diff-zero 0 a b (omega arith) pa pb ((==_iff _ _).0 p)))
    | inr p ↦ absurd (ground arith)
  ],
  λ e.
      subst (λ c. ct_eq a c ≡ true) e
        (ground (arith, zip_diff-zero 0 a a (omega arith) pa pa refl, list_eq_refl a)),
)

-- The gateway accepts a user name and a password exactly if they are the configured ones.
pub verify_credentials_iff :
    (u p user pass : List ℕ)
    → IsBytes u
    → IsBytes p
    → IsBytes user
    → IsBytes pass
    → (verify_credentials (some (u, p)) user pass ≡ true) ↔ ((u ≡ user) × (p ≡ pass))
unfolding verify_credentials
verify_credentials_iff u p user pass bu bp buser bpass =
    ground (arith, ct_eq_iff u user bu buser, ct_eq_iff p pass bp bpass)
