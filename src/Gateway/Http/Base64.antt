-- ===== src/Gateway/Http/Base64.antt =====
-- gateway/http.rs: the encoder of the Proxy-Authorization token, and a decoder of RFC 4648 to compare it
-- with. A disjunction of bits that do not overlap is a sum.
use mathlib.Core.Option.{get_or}
use warpdeck.Prelude.{
  ℕ, zero, suc, ◌+◌, ◌-◌, ◌*◌, ◌/◌, ◌%◌, ◌<◌, ◌≡◌, ◌≢◌, not, refl, ap, Bool, true, false, ◌&&◌,
  ◌++◌, is_empty, ==_iff, Option, none, some, List, [], ◌∷◌, ◌==◌, leb, get_elem?, All, codes,
  if◌then◌else◌, arith,
}

abbrev b64_table : List ℕ
b64_table = codes "ABCDEFGHIJKLMNOPQRSTUVWXYZabcdefghijklmnopqrstuvwxyz0123456789+/"

abbrev pub pad : ℕ
pad = b'='

unfoldable pub digit : ℕ → ℕ
digit i = get_or (get_elem? b64_table i) 0

unfoldable pub base64_encode : List ℕ → List ℕ
base64_encode [] = []
base64_encode (a ∷ []) = digit (a / 4) ∷ digit (a % 4 * 16) ∷ pad ∷ pad ∷ []
base64_encode (a ∷ b ∷ []) =
    digit (a / 4) ∷ digit (a % 4 * 16 + b / 16) ∷ digit (b % 16 * 4) ∷ pad ∷ []
base64_encode (a ∷ b ∷ c ∷ rest) =
    digit (a / 4)
    ∷ digit (a % 4 * 16 + b / 16)
    ∷ digit (b % 16 * 4 + c / 64)
    ∷ digit (c % 64)
    ∷ base64_encode rest

-- The value of a digit of the alphabet of RFC 4648; other characters have none.
pub value : ℕ → Option ℕ
value c =
    if leb b'A' c && leb c b'Z'
    then some (c - b'A')
    else if leb b'a' c && leb c b'z'
    then some (c - b'a' + 26)
    else if leb b'0' c && leb c b'9'
    then some (c - b'0' + 52)
    else if c == b'+'
    then some 62
    else if c == b'/'
    then some 63
    else none

-- Four characters: three digits or more, and the padding only at the end of the text.
abbrev group_of : Option ℕ → Option ℕ → Option ℕ → Option ℕ → Option (List ℕ)
group_of (some w) (some x) (some y) (some z) =
    some ((w * 4 + x / 16) ∷ (x % 16 * 16 + y / 4) ∷ (y % 4 * 64 + z) ∷ [])
group_of _ _ _ _ = none

abbrev two_of : Option ℕ → Option ℕ → Option ℕ → Option (List ℕ)
two_of (some w) (some x) (some y) = some ((w * 4 + x / 16) ∷ (x % 16 * 16 + y / 4) ∷ [])
two_of _ _ _ = none

abbrev one_of : Option ℕ → Option ℕ → Option (List ℕ)
one_of (some w) (some x) = some ((w * 4 + x / 16) ∷ [])
one_of _ _ = none

abbrev joined : Option (List ℕ) → Option (List ℕ) → Option (List ℕ)
joined (some a) (some b) = some (a ++ b)
joined _ _ = none

pub base64_decode : List ℕ → Option (List ℕ)
base64_decode [] = some []
base64_decode (w ∷ x ∷ y ∷ z ∷ rest) =
    let more = base64_decode rest in
    if y == pad
    then (if z == pad && is_empty rest then one_of (value w) (value x) else none)
    else if z == pad
    then (if is_empty rest then two_of (value w) (value x) (value y) else none)
    else joined (group_of (value w) (value x) (value y) (value z)) more
base64_decode _ = none

has_value : Option ℕ → ℕ → Bool
has_value none i = false
has_value (some v) i = v == i

-- A digit stands for its index and is not the padding.
is_digit : ℕ → Bool
unfolding digit value has_value
is_digit i = has_value (value (digit i)) i && not (digit i == pad)

has_value-eq : (o : Option ℕ) (i : ℕ) → has_value o i ≡ true → o ≡ some i
unfolding has_value
has_value-eq none i h = ground (arith, h)
has_value-eq (some v) i h = ap some ((==_iff v i).0 h)

checked : ℕ → Bool
checked zero = true
checked (suc n) = is_digit n && checked n

table_checked : checked 64 ≡ true
unfolding checked is_digit has_value
table_checked = refl

is_digit_of_checked : (n i : ℕ) → checked n ≡ true → i < n → is_digit i ≡ true
unfolding checked
is_digit_of_checked zero i h lt = absurd (omega arith)
is_digit_of_checked (suc n) i h lt = ground (arith, is_digit_of_checked n i)

value-digit : (i : ℕ) → i < 64 → (value (digit i) ≡ some i) × (digit i ≢ pad)
value-digit i lt =
    let h = is_digit_of_checked 64 i table_checked lt in
    unfold is_digit in (has_value-eq (value (digit i)) i (ground arith), ground arith)

abbrev pub IsByte : ℕ → Type 0
IsByte n = n < 256

-- Decoding what has been encoded gives the bytes back, so no two texts have the same token.
pub base64_decode-base64_encode :
    (bytes : List ℕ) → All IsByte bytes → base64_decode (base64_encode bytes) ≡ some bytes
unfolding base64_encode base64_decode
base64_decode-base64_encode [] h = refl
base64_decode-base64_encode (a ∷ []) h =
    ground (arith, value-digit (a / 4), value-digit (a % 4 * 16))
base64_decode-base64_encode (a ∷ b ∷ []) h =
    ground (arith, value-digit (a / 4), value-digit (a % 4 * 16 + b / 16), value-digit (b % 16 * 4))
base64_decode-base64_encode (a ∷ b ∷ c ∷ rest) (ha, (hb, (hc, hr))) =
    let w = value-digit (a / 4) (omega arith) in
    let x = value-digit (a % 4 * 16 + b / 16) (omega arith) in
    let y = value-digit (b % 16 * 4 + c / 64) (omega arith) in
    let z = value-digit (c % 64) (omega arith) in
    let more = base64_decode-base64_encode rest hr in ground (arith, w, x, y, z, more)
