-- ===== src/Logs/Follow/Raced.antt =====
-- runtime/log_tail.rs: a file that grows while it is looked at.
use warpdeck.Prelude.{ℕ, Bool, ◌+◌, ◌≤◌, ◌≡◌, ◌≢◌, some, All, List, [], ◌∷◌, arith}
use warpdeck.Logs.Follow.{
  read_batch_bytes, pending_max_bytes, Follower, pass, reopen, following, turn, turns,
}
use warpdeck.Logs.Follow.Lines.{width, numbered, ended_lines}
use warpdeck.Logs.Follow.Appended.{seen}
use warpdeck.Logs.Follow.Grown.{IsShort, grown, concat, turns-opened}

module _ (render : List ℕ → List ℕ) (is_blank : List ℕ → Bool) where
  pass-raced :
      (f : Follower) (n m : ℕ) (content : List ℕ)
      → f.rescue_ticks ≡ 9
      → n ≢ m
      → pass render is_blank
          (record { handle = some (f.file_id, n); path = some (f.file_id, m); content = content })
          f
        ≡ reopen
  unfolding pass
  pass-raced f n m content t h = ground arith

  -- In every tenth pass the length by the path is compared with the length through the handle, which was read
  -- before. If they differ, as when a line comes in between, the file is opened once more and read
  -- from its start: a file of at most a batch is published as a whole once more, whatever has been
  -- published of it before, numbered from 1 again.
  pub turns-raced :
      (f : Follower) (n m : ℕ) (content before file : List ℕ) (pieces : List (List ℕ))
      → f.rescue_ticks ≡ 9
      → n ≢ m
      → All IsShort (file ∷ pieces)
      → width 0 (concat (file ∷ pieces)) + read_batch_bytes ≤ pending_max_bytes
      → (turns render is_blank (following f) (
          record { handle = some (f.file_id, n); path = some (f.file_id, m); content = content }
          ∷ seen f.file_id before
          ∷ grown f.file_id [] (file ∷ pieces))).1
        ≡ numbered render is_blank 0 (ended_lines (concat (file ∷ pieces)))
  unfolding turns turn
  turns-raced f n m content before file pieces t h shorts room =
      rw (pass-raced f n m content t h)
        (turns-opened render is_blank (file ∷ pieces) f.file_id [] shorts room)
