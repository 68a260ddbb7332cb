-- ===== src/Logs/Tail.antt =====
-- runtime/logs.rs: `read_tail`. What a call sees of the file is the length that the metadata gives and
-- the bytes that are there when the blocks are read; a file that has shrunk in between has fewer.
pub mod Page
pub mod Shown
use warpdeck.Prelude.{
  ℕ, zero, suc, ◌+◌, ◌-◌, ◌*◌, ◌%◌, ◌^◌, min, max, Bool, true, false, Option, none, some, List, [],
  ◌∷◌, ◌++◌, map, ◌||◌, ◌==◌, ltb, leb, if◌then◌else◌, length, take, drop, split_at?,
}
use warpdeck.Prelude.Machine.{u64_max}
use warpdeck.Prelude.Text.{split_once}

abbrev pub newline : ℕ
newline = 10

abbrev pub tail_chunk_bytes : ℕ
tail_chunk_bytes = 32 * 1024

pub record TailPage : Type 0 where
  pub lines : List (List ℕ)
  pub has_more : Bool

abbrev pub no_page : TailPage
no_page = record { lines = []; has_more = false }

-- What opening the file gives.
pub data Opened : Type 0 where
  not_found denied : Opened
  opened : ℕ → List ℕ → Opened

pub data TailResult (A : Type 0) : Type 0 where
  ok : A → TailResult A
  unexpected_eof other_error out_of_fuel : TailResult A

-- `seek` and `read_exact`.
unfoldable pub read_exact : ℕ → ℕ → List ℕ → Option (List ℕ)
read_exact from n content = elim (split_at? n (drop from content)) [
  | none ↦ none
  | some (block, rest) ↦ some block
]

-- Up to the first line feed the bytes go, if there is one.
unfoldable pub drain_partial : List ℕ → List ℕ
drain_partial raw = elim (split_once newline raw) [ none ↦ raw | some (a, rest) ↦ rest ]

unfoldable pub newlines : List ℕ → ℕ
newlines [] = 0
newlines (c ∷ s) = (if c == newline then 1 else 0) + newlines s

abbrev pub onto : ℕ → List (List ℕ) → List (List ℕ)
onto c [] = (c ∷ []) ∷ []
onto c (part ∷ parts) = (c ∷ part) ∷ parts

-- `split` at the line feeds: always at least one part.
unfoldable pub split_lines : List ℕ → List (List ℕ)
split_lines [] = [] ∷ []
split_lines (c ∷ s) = if c == newline then [] ∷ split_lines s else onto c (split_lines s)

unfoldable pub without_empty : List (List ℕ) → List (List ℕ)
without_empty [] = []
without_empty ([] ∷ parts) = without_empty parts
without_empty ((c ∷ part) ∷ parts) = (c ∷ part) ∷ without_empty parts

-- The blocks from the end on, until enough line feeds are there.
unfoldable pub collect_tail : ℕ → ℕ → List ℕ → ℕ → ℕ → List ℕ → TailResult (List ℕ)
unfolding newlines
collect_tail chunk collect content zero len raw = out_of_fuel
collect_tail chunk collect content (suc fuel) len raw =
    let read_from = len - chunk in
    elim (len == 0) [
      | true ↦ ok raw
      | false ↦ elim (read_exact read_from (len - read_from) content) [
        | none ↦ unexpected_eof
        | some block ↦
            let joined = block ++ raw in
            let raw' = if ltb 0 read_from then drain_partial joined else joined in
            elim (read_from == 0 || leb collect (newlines raw')) [
              | true ↦ ok raw'
              | false ↦ collect_tail chunk collect content fuel read_from raw'
            ]
      ]
    ]

-- The lines from `start` to `end`.
abbrev pub page_of : ℕ → ℕ → List (List ℕ) → TailPage
page_of limit skip lines =
    let end = length lines - skip in
    let start = end - limit in
    record { lines = take (end - start) (drop start lines); has_more = ltb 0 start }

abbrev pub clamped : ℕ → ℕ
clamped limit = max 1 (min limit 500)

abbrev pub skipped : ℕ → ℕ → ℕ
skipped limit offset = min (offset * clamped limit) u64_max

module _ (lossy : List ℕ → List ℕ) where
  unfoldable pub log_lines : List ℕ → List (List ℕ)
  unfolding split_lines without_empty
  log_lines raw = map lossy (without_empty (split_lines raw))

  abbrev pub to_page : ℕ → ℕ → TailResult (List ℕ) → TailResult TailPage
  unfolding log_lines
  to_page limit skip (ok raw) = ok (page_of limit skip (log_lines raw))
  to_page limit skip unexpected_eof = unexpected_eof
  to_page limit skip other_error = other_error
  to_page limit skip out_of_fuel = out_of_fuel

  -- The blocks have a size of `chunk`; their number is at most the length.
  unfoldable pub read_tail_once : ℕ → ℕ → ℕ → Opened → TailResult TailPage
  unfolding log_lines
  read_tail_once chunk limit offset not_found = ok no_page
  read_tail_once chunk limit offset denied = other_error
  read_tail_once chunk limit offset (opened len content) =
      let skip = skipped limit offset in
      let collect = (skip + clamped limit + 1) % (u64_max + 1) in
      to_page (clamped limit) skip (collect_tail chunk collect content (suc len) len [])

  -- The second try after a file that has shrunk during the first.
  abbrev pub retry : TailResult TailPage → TailResult TailPage → TailResult TailPage
  retry unexpected_eof (ok page) = ok page
  retry unexpected_eof _ = ok no_page
  retry result second = result

  -- The file as it is at the first try and at the second.
  unfoldable pub read_tail : ℕ → ℕ → Opened → Opened → TailResult TailPage
  unfolding read_tail_once
  read_tail limit offset first second =
      retry (read_tail_once tail_chunk_bytes limit offset first)
        (read_tail_once tail_chunk_bytes limit offset second)
