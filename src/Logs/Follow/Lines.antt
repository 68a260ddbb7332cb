-- ===== src/Logs/Follow/Lines.antt =====
-- runtime/log_tail.rs: the lines of a text that comes in parts.
use mathlib.Core.List.{append_assoc, append-nil}
use warpdeck.Prelude.{
  ℕ, zero, suc, ◌+◌, ◌≤◌, ◌≡◌, refl, ap, ◌∙◌, min, max, Bool, true, false, some, List, [], ◌∷◌,
  ◌++◌, ◌==◌, if◌then◌else◌, contains, length, length-append, arith,
}
use warpdeck.Logs.Tail.{newline, split_lines}
use warpdeck.Logs.Tail.Page.{split_lines-cons}
use warpdeck.Logs.Follow.{LogLine, drain_lines, last, publish_lines}

pub drain_lines-append :
    (acc x y : List ℕ)
    → drain_lines acc (x ++ y) ≡ (
      (drain_lines acc x).0 ++ (drain_lines (drain_lines acc x).1 y).0,
      (drain_lines (drain_lines acc x).1 y).1,
    )
unfolding drain_lines
drain_lines-append acc [] y = refl
drain_lines-append acc (c ∷ x) y =
    ground (arith, drain_lines-append [] x y, drain_lines-append (acc ++ c ∷ []) x y)

-- What is pending has no line feed.
pub drain_lines-free :
    (acc s : List ℕ) → contains s newline ≡ false → drain_lines acc s ≡ ([], acc ++ s)
unfolding drain_lines
drain_lines-free acc [] h = ground (arith, append-nil acc)
drain_lines-free acc (c ∷ s) h =
    ground (arith, drain_lines-free (acc ++ c ∷ []) s, append_assoc acc (c ∷ []) s)

contains-append :
    (s t : List ℕ) (c : ℕ)
    → contains s c ≡ false
    → contains t c ≡ false
    → contains (s ++ t) c ≡ false
contains-append [] t c h k = k
contains-append (x ∷ s) t c h k = ground (arith, contains-append s t c)

pub pending-free :
    (acc s : List ℕ) → contains acc newline ≡ false → contains (drain_lines acc s).1 newline ≡ false
unfolding drain_lines
pending-free acc [] h = h
pending-free acc (c ∷ s) h =
    ground (
      arith,
      pending-free [] s,
      pending-free (acc ++ c ∷ []) s,
      contains-append acc (c ∷ []) newline,
    )

-- The length of the longest line that has not ended.
unfoldable pub width : ℕ → List ℕ → ℕ
width n [] = n
width n (c ∷ s) = elim (c == newline) [ true ↦ max n (width 0 s) | false ↦ width (n + 1) s ]

le-width : (n : ℕ) (s : List ℕ) → n ≤ width n s
unfolding width
le-width n [] = omega arith
le-width n (c ∷ s) = ground (arith, le-width (n + 1) s)

pub pending-width : (acc x y : List ℕ) → length (drain_lines acc x).1 ≤ width (length acc) (x ++ y)
unfolding width drain_lines
pending-width acc [] y = le-width (length acc) y
pending-width acc (c ∷ x) y =
    ground
      (arith, pending-width [] x y, pending-width (acc ++ c ∷ []) x y, length-append acc (c ∷ []))

pub last-append : (x : List ℕ) (c : ℕ) (y : List ℕ) → last (x ++ c ∷ y) ≡ last (c ∷ y)
unfolding last
last-append [] c y = refl
last-append (a ∷ []) c y = refl
last-append (a ∷ b ∷ x) c y = last-append (b ∷ x) c y

pub last-split : (s : List ℕ) (b : ℕ) → last s ≡ some b → (x : List ℕ) × (s ≡ x ++ b ∷ [])
unfolding last
last-split [] b h = cc
last-split (c ∷ []) b h = ([], cc)
last-split (c ∷ d ∷ s) b h = let (x, e) = last-split (d ∷ s) b h in (c ∷ x, ap (◌∷◌ c) e)

pub split_batch :
    (n : ℕ) (s : List ℕ)
    → (buf : List ℕ) × (rest : List ℕ) × (s ≡ buf ++ rest) × (length buf ≡ min n (length s))
split_batch zero s = ([], s, refl, omega arith)
split_batch (suc n) [] = ([], [], refl, omega arith)
split_batch (suc n) (c ∷ s) =
    let (buf, rest, e, l) = split_batch n s in (c ∷ buf, rest, ap (◌∷◌ c) e, omega (arith, l))

abbrev pub ended : List (List ℕ) → List (List ℕ)
ended [] = []
ended (p ∷ []) = []
ended (p ∷ q ∷ ps) = p ∷ ended (q ∷ ps)

-- All parts of a text between line feeds but the last one, which has not ended.
pub ended_lines : List ℕ → List (List ℕ)
ended_lines text = ended (split_lines text)

abbrev pub after : List ℕ → List (List ℕ) → List (List ℕ)
after acc [] = []
after acc (p ∷ ps) = (acc ++ p) ∷ ps

drain_lines-ended :
    (acc text : List ℕ) → (drain_lines acc text).0 ≡ ended (after acc (split_lines text))
unfolding drain_lines split_lines
drain_lines-ended acc [] = refl
drain_lines-ended acc (c ∷ text) =
    let (p, ps, q) = split_lines-cons text in
    ground (
      arith,
      q,
      drain_lines-ended [] text,
      drain_lines-ended (acc ++ c ∷ []) text,
      append-nil acc,
      append_assoc acc (c ∷ []) p,
    )

module _ (render : List ℕ → List ℕ) (is_blank : List ℕ → Bool) where
  pub publish_lines-append :
      (n : ℕ) (xs ys : List (List ℕ))
      → publish_lines render is_blank n (xs ++ ys) ≡ (
        (publish_lines render is_blank n xs).0
            ++ (publish_lines render is_blank (publish_lines render is_blank n xs).1 ys).0,
        (publish_lines render is_blank (publish_lines render is_blank n xs).1 ys).1,
      )
  unfolding publish_lines
  publish_lines-append n [] ys = refl
  publish_lines-append n (x ∷ xs) ys =
      ground (arith, publish_lines-append n xs ys, publish_lines-append (n + 1) xs ys)

  -- The lines that are not blank, numbered after `n`.
  abbrev pub numbered : ℕ → List (List ℕ) → List LogLine
  numbered n [] = []
  numbered n (raw ∷ lines) =
      if is_blank raw
      then numbered n lines
      else record { seq = n + 1; line = render raw } ∷ numbered (n + 1) lines

  publish_lines-numbered :
      (n : ℕ) (lines : List (List ℕ)) → (publish_lines render is_blank n lines).0 ≡ numbered n lines
  unfolding publish_lines
  publish_lines-numbered n [] = refl
  publish_lines-numbered n (raw ∷ lines) =
      ground (arith, publish_lines-numbered n lines, publish_lines-numbered (n + 1) lines)

  pub published_lem :
      (text : List ℕ)
      → (publish_lines render is_blank 0 (drain_lines [] text).0).0 ≡ numbered 0 (ended_lines text)
  unfolding ended_lines
  published_lem text =
      let (p, ps, q) = split_lines-cons text in
      ap (λ (ls : List (List ℕ)). (publish_lines render is_blank 0 ls).0)
        (drain_lines-ended [] text ∙ ap ended (rw q refl))
      ∙ publish_lines-numbered 0 (ended (split_lines text))
