-- ===== src/Runtime/Mdm/Escape.antt =====
-- runtime/mdm.rs: an escaped text is read back, and no markup is in it.
use warpdeck.Prelude.{
  ℕ, zero, suc, ◌≡◌, ◌≢◌, refl, ap, ◌∙◌, Option, none, some, List, [], ◌∷◌, ◌++◌, ◌==◌, length, All,
  codes, if◌then◌else◌, arith,
}
use warpdeck.Runtime.Mdm.{escaped, escape_xml}

abbrev strip : List ℕ → List ℕ → Option (List ℕ)
strip [] s = some s
strip (p ∷ ps) [] = none
strip (p ∷ ps) (c ∷ s) = let rest = strip ps s in if p == c then rest else none

abbrev or_else : ℕ → Option (List ℕ) → Option (ℕ × List ℕ) → Option (ℕ × List ℕ)
or_else c (some rest) other = some (c, rest)
or_else c none other = other

-- The predefined entity that a text begins with, and what follows it.
pub entity : List ℕ → Option (ℕ × List ℕ)
entity s = or_else b'&' (strip (codes "&amp;") s) (
    or_else b'<' (strip (codes "&lt;") s) (
      or_else b'>' (strip (codes "&gt;") s)
        (or_else b'"' (strip (codes "&quot;") s) (or_else 39 (strip (codes "&apos;") s) none))))

-- What a reader of XML makes of the text of an element, up to a number of characters.
pub unescape : ℕ → List ℕ → List ℕ
unfolding entity
unescape zero s = []
unescape (suc n) [] = []
unescape (suc n) (c ∷ s) = elim (entity (c ∷ s)) [
  | some (d, rest) ↦ d ∷ unescape n rest
  | none ↦ c ∷ unescape n s
]

unescape-escaped : (n c : ℕ) (s : List ℕ) → unescape (suc n) (escaped c ++ s) ≡ c ∷ unescape n s
unfolding unescape
unescape-escaped n c s = ground arith

-- A character that neither ends the text of an element nor that of an attribute.
abbrev pub IsPlain : ℕ → Type 0
IsPlain c = (c ≢ b'<') × (c ≢ b'>') × (c ≢ b'"') × (c ≢ 39)

escaped-IsPlain : (c : ℕ) (s : List ℕ) → All IsPlain s → All IsPlain (escaped c ++ s)
escaped-IsPlain c s a = ground arith

-- For any text, a reader of XML makes the same text of what has been escaped, and no angle bracket or
-- quotation mark is left in it, so an organisation, an id or a secret cannot change the document.
pub escape_xml_lem :
    (s : List ℕ) → (unescape (length s) (escape_xml s) ≡ s) × All IsPlain (escape_xml s)
unfolding escape_xml
escape_xml_lem [] = (unfold unescape in refl, tt)
escape_xml_lem (c ∷ s) =
    let (same, plain) = escape_xml_lem s in
    (
      unescape-escaped (length s) c (escape_xml s) ∙ ap (λ (r : List ℕ). c ∷ r) same,
      escaped-IsPlain c (escape_xml s) plain,
    )
