-- ===== src/Runtime/Trace/Chunks.antt =====
-- runtime/probe/trace.rs: a chunked body gives its chunks.
use mathlib.Core.Option.{get_or}
use mathlib.Core.List.{append_assoc, append-nil}
use warpdeck.Prelude.{
  ℕ, zero, suc, ◌+◌, ◌-◌, ◌*◌, ◌^◌, ltb, if◌then◌else◌, All, Bool-cases, ap, ◌==◌, ◌≤◌, ◌<◌, ◌≡◌,
  refl, sym, ◌∙◌, Bool, true, false, not, ◌&&◌, some, List, [], ◌∷◌, ◌++◌, contains, length,
  length-append, is_empty, split_at?, arith,
}
use warpdeck.Prelude.Text.{split_once, split_once-append}
use warpdeck.Prelude.Machine.{u64_max}
use warpdeck.Runtime.Trace.{
  chunk_size, dechunk, decode_http_body, all_hex, without_end, first_line, trim_end, hex_digit,
  hex_value, from_hex,
}

-- A chunk with the line that gives its size, without the line feed.
pub record Frame : Type 0 where
  pub line : List ℕ
  pub chunk : List ℕ

-- A hexadecimal digit, with letters of the one case or the other.
pub record Digit : Type 0 where
  pub amount : ℕ
  pub upper : Bool

abbrev pub character : Digit → ℕ
character d =
    if ltb d.amount 10
    then b'0' + d.amount
    else if d.upper
    then b'A' + (d.amount - 10)
    else b'a' + (d.amount - 10)

abbrev pub numeral : List Digit → List ℕ
numeral [] = []
numeral (d ∷ ds) = character d ∷ numeral ds

-- The number of a numeral: a digit counts sixteen times as much for each one that follows it.
abbrev pub number : List Digit → ℕ
number [] = 0
number (d ∷ ds) = d.amount * 16 ^ length ds + number ds

abbrev pub IsDigit : Digit → Type 0
IsDigit d = d.amount < 16

-- The line is a numeral of the number, and what stands behind it is cut off as white space.
pub record Spells (is_whitespace : ℕ → Bool) (line : List ℕ) (n : ℕ) : Type 0 where
  pub first : Digit
  pub others : List Digit
  pub digits : All IsDigit (first ∷ others)
  pub written : trim_end is_whitespace line ≡ numeral (first ∷ others)
  pub total : number (first ∷ others) ≡ n
  pub fits : n ≤ u64_max

pub wire : List Frame → List ℕ → List ℕ
wire [] end = end
wire (f ∷ fs) end = f.line ++ 10 ∷ (f.chunk ++ 13 ∷ 10 ∷ wire fs end)

pub contents : List Frame → List ℕ
contents [] = []
contents (f ∷ fs) = f.chunk ++ contents fs

abbrev pub IsFramed : (ℕ → Bool) → List Frame → Type 0
IsFramed is_whitespace [] = Unit
IsFramed is_whitespace (f ∷ fs) =
    (contains f.line 10 ≡ false)
    × Spells is_whitespace f.line (length f.chunk)
    × (is_empty f.chunk ≡ false)
    × IsFramed is_whitespace fs

hex_digit-character : (d : Digit) → IsDigit d → hex_digit (character d) ≡ some d.amount
hex_digit-character d h = ground (arith, Bool-cases d.upper)

shifted : (n a p m : ℕ) → (n * 16 + a) * p + m ≡ n * (p * 16) + (a * p + m)
shifted n a p m = grind arith

power_suc : (k : ℕ) → 16 ^ suc k ≡ 16 ^ k * 16
power_suc k = grind arith

hex_value-numeral :
    (ds : List Digit) (n : ℕ)
    → All IsDigit ds
    → n * 16 ^ length ds + number ds ≤ u64_max
    → hex_value n (numeral ds) ≡ some (n * 16 ^ length ds + number ds)
unfolding hex_value
hex_value-numeral [] n h fits = let e : n * 1 + 0 ≡ n = omega arith in ground (arith, e, fits)
hex_value-numeral (d ∷ ds) n (a, h) fits =
    let e : (n * 16 + d.amount) * 16 ^ length ds + number ds
        ≡ n * 16 ^ length (d ∷ ds) + number (d ∷ ds) =
      shifted n d.amount (16 ^ length ds) (number ds)
      ∙ ap (λ q. n * q + (d.amount * 16 ^ length ds + number ds)) (sym (power_suc (length ds))) in
    rw (hex_digit-character d a, hex_value)
      (hex_value-numeral ds (n * 16 + d.amount) h (omega (arith, e, fits)) ∙ ap some e)

chunk_size-Spells :
    (is_whitespace : ℕ → Bool) (line : List ℕ) (n : ℕ)
    → Spells is_whitespace line n
    → chunk_size is_whitespace line ≡ n
unfolding chunk_size from_hex
chunk_size-Spells is_whitespace line n s =
    let v = hex_value-numeral (s.first ∷ s.others) 0 s.digits (omega (arith, s.total, s.fits)) in
    let plus : (character s.first == b'+') ≡ false =
      ground (arith, Bool-cases s.first.upper, s.digits.0) in
    let z : 0 * 16 ^ length (s.first ∷ s.others) + number (s.first ∷ s.others) ≡ n =
      omega (arith, s.total) in
    let read : from_hex (numeral (s.first ∷ s.others)) ≡ some n = rw plus (v ∙ ap some z) in
    ap (λ t. get_or (from_hex t) 0) s.written ∙ ap (λ o. get_or o 0) read

split_chunk : (chunk rest : List ℕ) → split_at? (length chunk) (chunk ++ rest) ≡ some (chunk, rest)
split_chunk [] rest = refl
split_chunk (c ∷ chunk) rest = rw (split_chunk chunk rest) refl

module _ (is_whitespace : ℕ → Bool) where
  dechunk-frame :
      (fuel : ℕ) (line chunk rest out : List ℕ)
      → contains line 10 ≡ false
      → chunk_size is_whitespace line ≡ length chunk
      → is_empty chunk ≡ false
      → dechunk is_whitespace (suc fuel) (line ++ 10 ∷ (chunk ++ 13 ∷ 10 ∷ rest)) out
        ≡ dechunk is_whitespace fuel rest (out ++ chunk)
  unfolding dechunk
  dechunk-frame fuel line [] rest out h s e = absurd (ground arith)
  dechunk-frame fuel line (c ∷ chunk) rest out h s e =
      let p = split_once-append 10 line ((c ∷ chunk) ++ 13 ∷ 10 ∷ rest) h in
      let q = split_chunk (c ∷ chunk) (13 ∷ 10 ∷ rest) in ground (arith, p, s, q)

  dechunk-wire :
      (fs : List Frame) (last rest : List ℕ) (fuel : ℕ) (out : List ℕ)
      → IsFramed is_whitespace fs
      → contains last 10 ≡ false
      → chunk_size is_whitespace last ≡ 0
      → length fs < fuel
      → dechunk is_whitespace fuel (wire fs (last ++ 10 ∷ rest)) out ≡ out ++ contents fs
  unfolding wire contents dechunk
  dechunk-wire fs last rest zero out f h z lt = absurd (omega arith)
  dechunk-wire [] last rest (suc fuel) out f h z lt =
      ground (arith, split_once-append 10 last rest h, z, append-nil out)
  dechunk-wire (f ∷ fs) last rest (suc fuel) out (a, b, c, d) h z lt =
      dechunk-frame fuel f.line f.chunk (wire fs (last ++ 10 ∷ rest)) out a
        (chunk_size-Spells is_whitespace f.line (length f.chunk) b) c
      ∙ dechunk-wire fs last rest fuel (out ++ f.chunk) d h z (omega (arith, lt))
      ∙ append_assoc out f.chunk (contents fs)

  length-wire : (fs : List Frame) (end : List ℕ) → length fs + length end ≤ length (wire fs end)
  unfolding wire
  length-wire [] end = omega arith
  length-wire (f ∷ fs) end = omega (
    arith,
    length-wire fs end,
    length-append f.line (10 ∷ (f.chunk ++ 13 ∷ 10 ∷ wire fs end)),
    length-append f.chunk (13 ∷ 10 ∷ wire fs end),
  )

  decode_chunked :
      (body line rest : List ℕ)
      → split_once 10 body ≡ some (line, rest)
      → is_empty line ≡ false
      → all_hex (without_end line) ≡ true
      → decode_http_body is_whitespace body ≡ dechunk is_whitespace (length body) body []
  unfolding decode_http_body
  decode_chunked body line rest p full hex =
      let e : first_line body ≡ line = ground (arith, p) in
      let b : (not (is_empty (first_line body)) && all_hex (without_end (first_line body))) ≡ true =
        rw e (rw (full, hex) refl) in
      ground (arith, b)

  -- A body of at least one chunk, none of them empty, each after a line that is the numeral of its
  -- length in hexadecimal digits of either case, with white space behind it at most, up to a line that
  -- is the numeral of 0: what is read is the chunks one after the other, whatever follows. The first
  -- line has nothing but a carriage return behind its digits.
  pub decode_http_body-wire :
      (f : Frame) (fs : List Frame) (last rest : List ℕ)
      → IsFramed is_whitespace (f ∷ fs)
      → is_empty f.line ≡ false
      → all_hex (without_end f.line) ≡ true
      → contains last 10 ≡ false
      → Spells is_whitespace last 0
      → decode_http_body is_whitespace (wire (f ∷ fs) (last ++ 10 ∷ rest)) ≡ contents (f ∷ fs)
  decode_http_body-wire f fs last rest framed full hex h z =
      let end = last ++ 10 ∷ rest in
      let p : split_once 10 (wire (f ∷ fs) end) ≡ some (f.line, f.chunk ++ 13 ∷ 10 ∷ wire fs end) =
        unfold wire in (split_once-append 10 f.line (f.chunk ++ 13 ∷ 10 ∷ wire fs end) framed.0) in
      let lt : length (f ∷ fs) < length (wire (f ∷ fs) end) =
        omega (arith, length-wire (f ∷ fs) end, length-append last (10 ∷ rest)) in
      decode_chunked (wire (f ∷ fs) end) f.line _ p full hex
      ∙ dechunk-wire (f ∷ fs) last rest (length (wire (f ∷ fs) end)) [] framed h
          (chunk_size-Spells is_whitespace last 0 z) lt
