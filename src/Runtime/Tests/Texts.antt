-- ===== src/Runtime/Tests/Texts.antt =====
-- runtime/mdm.rs and runtime/probe/trace.rs at concrete inputs.
use warpdeck.Prelude.{
  ℕ, ◌≡◌, refl, Bool, true, false, some, List, [], ◌∷◌, ◌++◌, ◌==◌, codes, arith,
}
use warpdeck.Runtime.Health.{TraceResult}
use warpdeck.Runtime.Trace.{parse_trace, decode_http_body}
use warpdeck.Runtime.Trace.Chunks.{Frame, Digit, Spells, wire, contents, decode_http_body-wire}
use warpdeck.Prelude.Text.{lines}

abbrev markup : List ℕ
markup = codes "a<b&c>"

abbrev is_blank : ℕ → Bool
is_blank c = c == 32

abbrev trace : TraceResult
trace = parse_trace is_blank (codes "fl=1" ++ 10 ∷ codes "warp = on" ++ 13 ∷ 10 ∷ codes "colo=LAX")

abbrev colo : List ℕ
colo = codes "LAX"

trace_lem : trace.colo ≡ some colo
unfolding parse_trace lines
trace_lem = refl

abbrev one : Frame
one = record { line = codes "3"; chunk = codes "abc" }

abbrev two : Frame
two = record { line = codes "A"; chunk = codes "0123456789" }

abbrev three : Digit
three = record { amount = 3; upper = false }

abbrev ten : Digit
ten = record { amount = 10; upper = true }

abbrev nought : Digit
nought = record { amount = 0; upper = false }

one-Spells : Spells is_blank (codes "3") 3
one-Spells = record {
  first = three;
  others = [];
  digits = (omega arith, tt);
  written = refl;
  total = refl;
  fits = omega arith;
}

two-Spells : Spells is_blank (codes "A") 10
two-Spells = record {
  first = ten;
  others = [];
  digits = (omega arith, tt);
  written = refl;
  total = refl;
  fits = omega arith;
}

end-Spells : Spells is_blank (codes "0") 0
end-Spells = record {
  first = nought;
  others = [];
  digits = (omega arith, tt);
  written = refl;
  total = refl;
  fits = omega arith;
}

decode_http_body-wire_example :
    decode_http_body is_blank (wire (one ∷ two ∷ []) (codes "0" ++ 10 ∷ codes "x"))
    ≡ contents (one ∷ two ∷ [])
decode_http_body-wire_example =
    decode_http_body-wire is_blank one (two ∷ []) (codes "0") (codes "x")
      (refl, one-Spells, refl, (refl, two-Spells, refl, tt)) refl refl refl end-Spells
