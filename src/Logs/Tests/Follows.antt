-- ===== src/Logs/Tests/Follows.antt =====
-- runtime/log_tail.rs at concrete inputs.
use warpdeck.Prelude.{ℕ, ◌≡◌, refl, true, some, List, [], ◌∷◌, ◌++◌, is_empty, codes, arith}
use warpdeck.Logs.Tail.{newline, read_exact}
use warpdeck.Logs.Follow.{
  Follower, closed, following, turn, turns, drain_lines, publish_lines, guard_pending, last,
  opened_at,
}
use warpdeck.Logs.Follow.Lines.{width, numbered, ended_lines}
use warpdeck.Logs.Follow.Appended.{seen}
use warpdeck.Logs.Follow.Grown.{grown, concat, turns-appended}
use warpdeck.Logs.Follow.Raced.{turns-raced}

abbrev as_is : List ℕ → List ℕ
as_is s = s

abbrev old_lines : List ℕ
old_lines = codes "old" ++ newline ∷ []

-- A line in two parts, a blank one, and the begin of another.
abbrev parts : List (List ℕ)
parts =
    codes "al"
    ∷ (codes "pha" ++ newline ∷ newline ∷ [])
    ∷ (codes "beta" ++ newline ∷ codes "g")
    ∷ []

turns_of_parts :
    (turns as_is is_empty (closed true) (seen 7 old_lines ∷ grown 7 old_lines parts)).1
    ≡ record { seq = 1; line = codes "alpha" } ∷ record { seq = 2; line = codes "beta" } ∷ []
unfolding turns turn read_exact drain_lines publish_lines guard_pending last
turns_of_parts = refl

turns-appended_example :
    (turns as_is is_empty (closed true) (seen 7 old_lines ∷ grown 7 old_lines parts)).1
    ≡ numbered as_is is_empty 0 (ended_lines (concat parts))
unfolding width
turns-appended_example =
    turns-appended as_is is_empty parts 7 old_lines (omega arith, (omega arith, (omega arith, tt)))
      (omega arith)

abbrev at_nine : Follower
at_nine = record (opened_at 7 4) { rescue_ticks = 9 }

turns-raced_example :
    (turns as_is is_empty (following at_nine) (
      record { handle = some (7, 4); path = some (7, 6); content = old_lines }
      ∷ seen 7 old_lines
      ∷ grown 7 [] (old_lines ∷ []))).1
    ≡ numbered as_is is_empty 0 (ended_lines (concat (old_lines ∷ [])))
unfolding width
turns-raced_example =
    turns-raced as_is is_empty at_nine 4 6 old_lines old_lines old_lines [] refl (omega arith)
      (omega arith, tt) (omega arith)
