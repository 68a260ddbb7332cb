-- ===== src/Prelude/Text.antt =====
-- Functions of the standard library on texts, as lists of code points. What is white space in Unicode is a
-- parameter.
use Prim.Native.Nat.{ℕ, ◌+◌}
use mathlib.Core.Bool.{Bool, true, false, not, ◌||◌, ◌&&◌}
use mathlib.Core.Path.{◌≡◌}
use mathlib.Core.Option.{Option, none, some}
use mathlib.Core.List.{List, [], ◌∷◌, ◌++◌, reverse}
use native.Mathlib.Omega.{arith}
use warpdeck.Prelude.Lists.{contains}
use warpdeck.Prelude.Tests.{leb, ◌==◌, if◌then◌else◌}

-- The text begins with another: the rest of it.
abbrev pub strip_prefix : List ℕ → List ℕ → Option (List ℕ)
strip_prefix [] s = some s
strip_prefix (p ∷ ps) [] = none
strip_prefix (p ∷ ps) (c ∷ s) = if p == c then strip_prefix ps s else none

abbrev pub starts_with : List ℕ → List ℕ → Bool
starts_with [] s = true
starts_with (p ∷ ps) [] = false
starts_with (p ∷ ps) (c ∷ s) = p == c && starts_with ps s

abbrev pub lower : ℕ → ℕ
lower c = if leb b'A' c && leb c b'Z' then c + 32 else c

abbrev pub to_ascii_lowercase : List ℕ → List ℕ
to_ascii_lowercase [] = []
to_ascii_lowercase (c ∷ s) = lower c ∷ to_ascii_lowercase s

-- The text up to the first character of a kind, and from that on.
abbrev pub take_until : (ℕ → Bool) → List ℕ → List ℕ
take_until f [] = []
take_until f (c ∷ s) = let rest = take_until f s in if f c then [] else c ∷ rest

abbrev pub drop_until : (ℕ → Bool) → List ℕ → List ℕ
drop_until f [] = []
drop_until f (c ∷ s) = let rest = drop_until f s in if f c then c ∷ s else rest

abbrev pub is_ascii_whitespace : ℕ → Bool
is_ascii_whitespace c = c == 32 || (c == 9 || (c == 10 || (c == 12 || c == 13)))

abbrev pub trim : (ℕ → Bool) → List ℕ → List ℕ
trim is_whitespace s =
    let from = drop_until (λ (c : ℕ). not (is_whitespace c)) s in
    reverse (drop_until (λ (c : ℕ). not (is_whitespace c)) (reverse from))

abbrev pub trim_end_matches : ℕ → List ℕ → List ℕ
trim_end_matches c s = reverse (drop_until (λ (x : ℕ). not (x == c)) (reverse s))

abbrev pub trim_start_matches : ℕ → List ℕ → List ℕ
trim_start_matches c s = drop_until (λ (x : ℕ). not (x == c)) s

abbrev pub prepend : ℕ → List (List ℕ) → List (List ℕ)
prepend c [] = (c ∷ []) ∷ []
prepend c (l ∷ ls) = (c ∷ l) ∷ ls

-- `str::lines`: a line ends before `\n`, or before `\r\n`.
unfoldable pub lines : List ℕ → List (List ℕ)
lines [] = []
lines (c ∷ s) =
    let rest = lines s in
    if c == 10
    then [] ∷ rest
    else if c == 13 && starts_with (10 ∷ []) s
    then rest
    else prepend c rest

abbrev pub first_of : List (List ℕ) → List ℕ
first_of [] = []
first_of (l ∷ ls) = l

-- What stands before and after the first, and the last, occurrence of a character.
abbrev pub after_char : ℕ → Option (List ℕ × List ℕ) → Option (List ℕ × List ℕ)
after_char x none = none
after_char x (some (a, b)) = some (x ∷ a, b)

abbrev pub split_once : ℕ → List ℕ → Option (List ℕ × List ℕ)
split_once c [] = none
split_once c (x ∷ s) =
    let rest = after_char x (split_once c s) in if x == c then some ([], s) else rest

pub split_once-append :
    (c : ℕ) (s rest : List ℕ) → contains s c ≡ false → split_once c (s ++ c ∷ rest) ≡ some (s, rest)
split_once-append c [] rest h = ground arith
split_once-append c (x ∷ s) rest h = ground (arith, split_once-append c s rest)

abbrev pub rsplit_once : ℕ → List ℕ → Option (List ℕ × List ℕ)
rsplit_once c s = elim (split_once c (reverse s)) [
  | none ↦ none
  | some (b, a) ↦ some (reverse a, reverse b)
]
