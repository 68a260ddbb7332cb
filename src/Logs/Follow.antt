-- ===== src/Logs/Follow.antt =====
-- runtime/log_tail.rs: the loop that follows one log file, pass by pass. A pass sees the file through the
-- open handle and by its path; the bytes that it reads are those of one moment. The decoding of UTF-8 with
-- the redaction, if the source has one, and the test for a blank line are parameters.
pub mod Lines
pub mod Appended
pub mod Grown
pub mod Raced
use warpdeck.Prelude.{
  ℕ, ◌+◌, ◌-◌, ◌*◌, min, Bool, true, false, not, Option, none, some, List, [], ◌∷◌, ◌++◌, ◌&&◌,
  ◌==◌, ltb, leb, if◌then◌else◌, length,
}
use warpdeck.Logs.Tail.{newline, read_exact}

abbrev pub read_batch_bytes : ℕ
read_batch_bytes = 64 * 1024

abbrev pub pending_max_bytes : ℕ
pending_max_bytes = 1024 * 1024

pub record LogLine : Type 0 where
  pub seq : ℕ
  pub line : List ℕ

-- The identity and the length of the file, through the handle and by the path, and its bytes.
pub record Glance : Type 0 where
  pub handle : Option (ℕ × ℕ)
  pub path : Option (ℕ × ℕ)
  pub content : List ℕ

-- The variables of the inner loop.
pub record Follower : Type 0 where
  pub file_id : ℕ
  pub pos : ℕ
  pub prev_tail_byte : Option ℕ
  pub pending : List ℕ
  pub seq : ℕ
  pub rescue_ticks : ℕ

-- A pass either leaves the inner loop or goes on.
pub data Pass : Type 0 where
  reopen : Pass
  go_on : Follower → List LogLine → Pass

-- The lines that end, with what is pending before them, and what is pending after them.
unfoldable pub drain_lines : List ℕ → List ℕ → List (List ℕ) × List ℕ
drain_lines pending [] = ([], pending)
drain_lines pending (c ∷ s) = elim (c == newline) [
  | true ↦ let (lines, rest) = drain_lines [] s in (pending ∷ lines, rest)
  | false ↦ drain_lines (pending ++ c ∷ []) s
]

-- `rposition` of a line feed and `drain` up to it.
unfoldable pub after_last_newline : List ℕ → List ℕ
after_last_newline s = (drain_lines [] s).1

abbrev pub has_newline : List ℕ → Bool
has_newline [] = false
has_newline (c ∷ s) = if c == newline then true else has_newline s

-- A pending buffer that has grown too long.
unfoldable pub guard_pending : List ℕ → List ℕ
unfolding after_last_newline
guard_pending pending =
    if ltb pending_max_bytes (length pending)
    then (if has_newline pending then after_last_newline pending else [])
    else pending

unfoldable pub last : List ℕ → Option ℕ
last [] = none
last (c ∷ []) = some c
last (c ∷ d ∷ s) = last (d ∷ s)

abbrev pub rewound : Follower → Follower
rewound f = record f { pos = 0; prev_tail_byte = none; pending = []; seq = 0 }

-- The byte before `pos` is another one than was read.
abbrev pub is_rewritten : Follower → List ℕ → Bool
is_rewritten f content = elim f.prev_tail_byte [
  | none ↦ false
  | some prev ↦
      if ltb 0 f.pos
      then (elim (read_exact (f.pos - 1) 1 content) [
        | none ↦ false
        | some probe ↦ elim probe [ [] ↦ false | b ∷ bs ↦ not (b == prev) ]
      ])
      else false
]

-- Every tenth pass looks at the path too: identity and length.
abbrev pub is_same_path : ℕ → ℕ → Option (ℕ × ℕ) → Bool
is_same_path id len none = false
is_same_path id len (some (pid, plen)) = (pid == id) && (plen == len)

-- The outer loop: the file is not open, and whether it has never been, or it is followed.
pub data Watcher : Type 0 where
  closed : Bool → Watcher
  following : Follower → Watcher

abbrev pub opened_at : ℕ → ℕ → Follower
opened_at id pos = record {
  file_id = id;
  pos = pos;
  prev_tail_byte = none;
  pending = [];
  seq = 0;
  rescue_ticks = 0;
}

abbrev pub after_pass : Pass → Watcher × List LogLine
after_pass reopen = (closed false, [])
after_pass (go_on f lines) = (following f, lines)

module _ (render : List ℕ → List ℕ) (is_blank : List ℕ → Bool) where
  unfoldable pub publish_lines : ℕ → List (List ℕ) → List LogLine × ℕ
  publish_lines seq [] = ([], seq)
  publish_lines seq (raw ∷ lines) = elim (is_blank raw) [
    | true ↦ publish_lines seq lines
    | false ↦
        let (rest, last_seq) = publish_lines (seq + 1) lines in
        (record { seq = seq + 1; line = render raw } ∷ rest, last_seq)
  ]

  -- What a batch adds.
  unfoldable pub take_in : List ℕ → Follower → Pass
  take_in buf f =
      let (lines, rest) = drain_lines [] (guard_pending (f.pending ++ buf)) in
      let (published, seq) = publish_lines f.seq lines in
      go_on
        (record f {
          pos = f.pos + length buf;
          prev_tail_byte = last buf;
          pending = rest;
          seq = seq;
        })
        published

  -- The part of a pass behind the checks of the file's identity.
  unfoldable pub read_on : ℕ → List ℕ → Follower → Pass
  unfolding take_in
  read_on len content f =
      if ltb len f.pos
      then go_on (rewound f) []
      else if is_rewritten f content
      then go_on (rewound f) []
      else if len == f.pos
      then go_on f []
      else (elim (read_exact f.pos (min len (f.pos + read_batch_bytes) - f.pos) content) [
        | none ↦ reopen
        | some buf ↦ take_in buf f
      ])

  unfoldable pub pass : Glance → Follower → Pass
  unfolding read_on
  pass g f = elim g.handle [
    | none ↦ reopen
    | some (id, len) ↦
        let ticks = f.rescue_ticks + 1 in
        if not (id == f.file_id)
        then reopen
        else if leb 10 ticks
        then (if is_same_path f.file_id len g.path
            then read_on len g.content (record f { rescue_ticks = 0 })
            else reopen)
        else read_on len g.content (record f { rescue_ticks = ticks })
  ]

  -- The first opening skips what is there.
  unfoldable pub turn : Watcher → Glance → Watcher × List LogLine
  unfolding pass
  turn (closed first) g = elim g.path [
    | none ↦ (closed first, [])
    | some (id, len) ↦ (following (opened_at id (if first then len else 0)), [])
  ]
  turn (following f) g = after_pass (pass g f)

  unfoldable pub turns : Watcher → List Glance → Watcher × List LogLine
  turns w [] = (w, [])
  turns w (g ∷ gs) =
      let (w1, lines) = turn w g in let (w2, more) = turns w1 gs in (w2, lines ++ more)
