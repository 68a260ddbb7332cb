-- ===== src/Runtime/Trace.antt =====
-- runtime/probe/trace.rs: the answer of Cloudflare's trace and the body that carries it. Texts are code
-- points, and bodies bytes; `from_utf8_lossy` of the lines that matter, ASCII, changes nothing. The sum of
-- a chunk's size and 2 is taken not to overflow.
pub mod Chunks
use mathlib.Core.Option.{get_or}
use mathlib.Core.List.{reverse}
use warpdeck.Prelude.{
  ℕ, zero, suc, ◌+◌, ◌-◌, ◌*◌, Bool, true, false, not, ◌&&◌, ◌||◌, Option, none, some, List, [],
  ◌∷◌, ◌++◌, ◌==◌, leb, length, is_empty, list_eq, split_at?, codes, if◌then◌else◌,
}
use warpdeck.Prelude.Machine.{u64_max}
use warpdeck.Prelude.Text.{drop_until, trim, lines, split_once}
use warpdeck.Runtime.Health.{TraceResult}

abbrev pub no_trace : TraceResult
no_trace = record { ip = none; colo = none; warp = none }

module _ (is_whitespace : ℕ → Bool) where
  abbrev pub set_field : List ℕ → List ℕ → TraceResult → TraceResult
  set_field key value t =
      if list_eq key (codes "ip")
      then record t { ip = some value }
      else if list_eq key (codes "colo")
      then record t { colo = some value }
      else if list_eq key (codes "warp")
      then record t { warp = some value }
      else t

  abbrev pub read_line : List ℕ → TraceResult → TraceResult
  read_line line t = elim (split_once b'=' line) [
    | none ↦ t
    | some (key, value) ↦ set_field (trim is_whitespace key) (trim is_whitespace value) t
  ]

  unfoldable pub read_lines : List (List ℕ) → TraceResult → TraceResult
  read_lines [] t = t
  read_lines (l ∷ ls) t = read_lines ls (read_line l t)

  unfoldable pub parse_trace : List ℕ → TraceResult
  unfolding read_lines
  parse_trace text = read_lines (lines text) no_trace

-- `usize::from_str_radix(…, 16)`.
abbrev pub hex_digit : ℕ → Option ℕ
hex_digit c =
    if leb b'0' c && leb c b'9'
    then some (c - b'0')
    else if leb b'a' c && leb c b'f'
    then some (c - b'a' + 10)
    else if leb b'A' c && leb c b'F'
    then some (c - b'A' + 10)
    else none

abbrev pub is_hex : ℕ → Bool
is_hex c = elim (hex_digit c) [ none ↦ false | some d ↦ true ]

unfoldable pub hex_value : ℕ → List ℕ → Option ℕ
hex_value n [] = if leb n u64_max then some n else none
hex_value n (c ∷ s) = elim (hex_digit c) [ none ↦ none | some d ↦ hex_value (n * 16 + d) s ]

abbrev pub unsigned : List ℕ → Option ℕ
unfolding hex_value
unsigned [] = none
unsigned (c ∷ s) = hex_value 0 (c ∷ s)

unfoldable pub from_hex : List ℕ → Option ℕ
unfolding unsigned
from_hex [] = none
from_hex (c ∷ s) = if c == b'+' then unsigned s else unsigned (c ∷ s)

abbrev pub all_hex : List ℕ → Bool
all_hex [] = true
all_hex (c ∷ s) = is_hex c && all_hex s

abbrev pub first_line : List ℕ → List ℕ
first_line body = elim (split_once 10 body) [ none ↦ body | some (line, _) ↦ line ]

abbrev pub without_end : List ℕ → List ℕ
without_end s = reverse (drop_until (λ (c : ℕ). not (c == 13)) (reverse s))

module _ (is_whitespace : ℕ → Bool) where
  abbrev pub trim_end : List ℕ → List ℕ
  trim_end s = reverse (drop_until (λ (c : ℕ). not (is_whitespace c)) (reverse s))

  -- The size on a line; an unreadable one is 0.
  unfoldable pub chunk_size : List ℕ → ℕ
  unfolding from_hex
  chunk_size line = get_or (from_hex (trim_end line)) 0

  -- Each round takes at least one byte, so the length of the body is enough fuel.
  unfoldable pub dechunk : ℕ → List ℕ → List ℕ → List ℕ
  unfolding chunk_size
  dechunk zero body out = out
  dechunk (suc fuel) body out = elim (split_once 10 body) [
    | none ↦ out
    | some (line, rest) ↦ elim (chunk_size line) [
      | ℕ.zero ↦ out
      | suc n ↦ elim (split_at? (suc n) rest) [
        | none ↦ out
        | some (chunk, more) ↦ elim (split_at? 2 more) [
          | none ↦ out
          | some (_, next) ↦ dechunk fuel next (out ++ chunk)
        ]
      ]
    ]
  ]

  unfoldable pub decode_http_body : List ℕ → List ℕ
  unfolding dechunk
  decode_http_body body =
      let line = first_line body in
      if not (is_empty line) && all_hex (without_end line)
      then dechunk (length body) body []
      else body
