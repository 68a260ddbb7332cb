-- ===== src/Gateway/Http.antt =====
-- gateway/http.rs: the HTTP listener. Streams are bytes, texts are code points. `from_utf8_lossy`, the parsers of addresses of the standard library and the
-- white space of Unicode are parameters, and so are the allowlist's test, the limits' answer and the
-- network.
pub mod Base64
pub mod Session
pub mod Dial
use mathlib.Core.List.{reverse}
use warpdeck.Prelude.{
  ℕ, zero, suc, ◌+◌, ◌-◌, ◌*◌, ◌/◌, ◌%◌, Bool, true, false, not, ◌&&◌, ◌||◌, Option, none, some,
  List, [], ◌∷◌, ◌++◌, ◌==◌, ltb, leb, length, list_eq, split_at?, is_empty, any_of, codes,
  if◌then◌else◌,
}
use warpdeck.Prelude.Text.{
  strip_prefix, starts_with, take_until, drop_until, is_ascii_whitespace, trim, trim_end_matches,
  trim_start_matches, prepend, lines, first_of, after_char, split_once, rsplit_once, lower,
  to_ascii_lowercase,
}
use warpdeck.Prelude.Machine.{u16_max}
use warpdeck.Gateway.Http.Base64.{base64_encode}

abbrev pub head_limit : ℕ
head_limit = 16384

-- `\r\n\r\n` stands somewhere in the buffer.
unfoldable pub has_end : List ℕ → Bool
has_end [] = false
has_end (c ∷ s) = starts_with (13 ∷ 10 ∷ 13 ∷ 10 ∷ []) (c ∷ s) || has_end s

-- The reads that succeed, an empty one at the end of the stream; after the last one the client fails or
-- is silent for 30 seconds.
unfoldable pub read_head : List (List ℕ) → List ℕ → Option (List ℕ × List (List ℕ))
unfolding has_end
read_head [] buf = none
read_head (chunk ∷ chunks) buf =
    let rest = read_head chunks (buf ++ chunk) in
    if has_end (buf ++ chunk) || is_empty chunk
    then some (buf ++ chunk, chunks)
    else if ltb head_limit (length (buf ++ chunk))
    then none
    else rest

-- `str::parse::<u16>`: decimal digits after a `+` that may stand there, no more than the largest value.
abbrev pub is_decimal : ℕ → Bool
is_decimal c = leb b'0' c && leb c b'9'

abbrev pub digits_value : ℕ → List ℕ → Option ℕ
digits_value n [] = some n
digits_value n (c ∷ s) =
    let rest = digits_value (n * 10 + (c - b'0')) s in if is_decimal c then rest else none

abbrev pub within_u16 : Option ℕ → Option ℕ
within_u16 none = none
within_u16 (some n) = if leb n u16_max then some n else none

abbrev pub parse_digits : List ℕ → Option ℕ
parse_digits [] = none
parse_digits (c ∷ s) = within_u16 (digits_value 0 (c ∷ s))

unfoldable pub parse_u16 : List ℕ → Option ℕ
parse_u16 [] = none
parse_u16 (c ∷ s) = if c == b'+' then parse_digits s else parse_digits (c ∷ s)

-- `str::parse::<SocketAddr>` gives the text of the address and the port.
unfoldable pub split_host_port : (List ℕ → Option (List ℕ × ℕ)) → List ℕ → List ℕ × ℕ
unfolding parse_u16
split_host_port parse_addr s = elim (parse_addr s) [
  | some (ip, port) ↦ (ip, port)
  | none ↦ elim (rsplit_once b':' s) [
    | none ↦ (s, 80)
    | some (host, port) ↦ elim (parse_u16 port) [
      | none ↦ (s, 80)
      | some n ↦ (trim_end_matches b']' (trim_start_matches b'[' host), n)
    ]
  ]
]

abbrev after_scheme : List ℕ → Option (List ℕ)
after_scheme uri = elim (strip_prefix (codes "http://") uri) [
  | some s ↦ some s
  | none ↦ strip_prefix (codes "https://") uri
]

-- `GET http://example.com/path …` gives `example.com`.
unfoldable pub extract_absolute_uri_host_port : List ℕ → Option (List ℕ)
extract_absolute_uri_host_port first_line = elim (split_once 32 first_line) [
  | none ↦ none
  | some (_, after_method) ↦ elim (split_once 32 after_method) [
    | none ↦ none
    | some (uri, _) ↦ elim (after_scheme uri) [
      | none ↦ none
      | some s ↦ some (take_until (λ (c : ℕ). c == b'/') s)
    ]
  ]
]
