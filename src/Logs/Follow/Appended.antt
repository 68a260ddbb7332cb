-- ===== src/Logs/Follow/Appended.antt =====
-- runtime/log_tail.rs: one pass over a file that has grown.
use mathlib.Core.List.{append_assoc, append-nil}
use warpdeck.Prelude.{
  ℕ, ◌+◌, ◌-◌, ◌≤◌, ◌≡◌, refl, ap, ◌∙◌, subst, min, Bool, false, some, List, [], ◌∷◌, ◌++◌, leb,
  if◌then◌else◌, length, length-append, arith, Option-cases, inl, inr,
}
use warpdeck.Logs.Tail.{read_exact}
use warpdeck.Logs.Tail.Page.{read_exact-append}
use warpdeck.Logs.Follow.{
  read_batch_bytes, pending_max_bytes, LogLine, Glance, Follower, go_on, drain_lines, last,
  guard_pending, publish_lines, take_in, read_on, pass, is_rewritten,
}
use warpdeck.Logs.Follow.Lines.{
  drain_lines-append, drain_lines-free, pending-free, last-append, last-split, publish_lines-append,
}

guard_pending-room :
    (pending : List ℕ) → length pending ≤ pending_max_bytes → guard_pending pending ≡ pending
unfolding guard_pending
guard_pending-room pending room = ground arith

abbrev pub next_ticks : ℕ → ℕ
next_ticks ticks = if leb 10 (ticks + 1) then 0 else ticks + 1

abbrev pub seen : ℕ → List ℕ → Glance
seen id file = record {
  handle = some (id, length file);
  path = some (id, length file);
  content = file;
}

module _ (render : List ℕ → List ℕ) (is_blank : List ℕ → Bool) where
  -- The lines of a text that have ended, as they are published, and how many they are.
  abbrev pub published : List ℕ → List LogLine
  published text = (publish_lines render is_blank 0 (drain_lines [] text).0).0

  abbrev pub last_seq : List ℕ → ℕ
  last_seq text = (publish_lines render is_blank 0 (drain_lines [] text).0).1

  -- The follower that has read `text` behind what was there when it opened the file.
  abbrev pub follower_at : ℕ → List ℕ → List ℕ → ℕ → Follower
  follower_at id base text ticks = record {
    file_id = id;
    pos = length (base ++ text);
    prev_tail_byte = last text;
    pending = (drain_lines [] text).1;
    seq = last_seq text;
    rescue_ticks = ticks;
  }

  abbrev pub added : List ℕ → List ℕ → List LogLine
  added text buf =
      (publish_lines render is_blank (last_seq text) (drain_lines (drain_lines [] text).1 buf).0).0

  pub published-append :
      (text buf : List ℕ) → published (text ++ buf) ≡ published text ++ added text buf
  published-append text buf =
      let xs = (drain_lines [] text).0 in
      let ys = (drain_lines (drain_lines [] text).1 buf).0 in
      ap (λ (p : List (List ℕ) × List ℕ). (publish_lines render is_blank 0 p.0).0)
        (drain_lines-append [] text buf)
      ∙ ap (λ (p : List LogLine × ℕ). p.0) (publish_lines-append render is_blank 0 xs ys)

  last_seq-append :
      (text buf : List ℕ)
      → last_seq (text ++ buf)
        ≡ (publish_lines render is_blank
            (last_seq text)
            (drain_lines (drain_lines [] text).1 buf).0).1
  last_seq-append text buf =
      let xs = (drain_lines [] text).0 in
      let ys = (drain_lines (drain_lines [] text).1 buf).0 in
      ap (λ (p : List (List ℕ) × List ℕ). (publish_lines render is_blank 0 p.0).1)
        (drain_lines-append [] text buf)
      ∙ ap (λ (p : List LogLine × ℕ). p.1) (publish_lines-append render is_blank 0 xs ys)

  -- A batch that leaves room in the pending buffer.
  take_in-follower_at :
      (id : ℕ) (base text : List ℕ) (c : ℕ) (buf : List ℕ) (ticks : ℕ)
      → length ((drain_lines [] text).1 ++ c ∷ buf) ≤ pending_max_bytes
      → take_in render is_blank (c ∷ buf) (follower_at id base text ticks)
        ≡ go_on (follower_at id base (text ++ c ∷ buf) ticks) (added text (c ∷ buf))
  unfolding take_in
  take_in-follower_at id base text c buf ticks room =
      let pending = (drain_lines [] text).1 in
      let free = pending-free [] text refl in
      let drained : drain_lines [] (pending ++ c ∷ buf) ≡ drain_lines pending (c ∷ buf) =
        ground (arith, drain_lines-append [] pending (c ∷ buf), drain_lines-free [] pending free) in
      ground (
        arith,
        guard_pending-room (pending ++ c ∷ buf) room,
        drained,
        last-append text c buf,
        last_seq-append text (c ∷ buf),
        drain_lines-append [] text (c ∷ buf),
        append_assoc base text (c ∷ buf),
        length-append (base ++ text) (c ∷ buf),
      )

  pub is_rewritten-follower_at :
      (id : ℕ) (base text ahead : List ℕ) (ticks : ℕ)
      → is_rewritten (follower_at id base text ticks) (base ++ (text ++ ahead)) ≡ false
  is_rewritten-follower_at id base text ahead ticks = elim (Option-cases (last text)) [
    | inl e ↦ rw e refl
    | inr (b, e) ↦
        let (x, p) = last-split text b e in
        let content : base ++ (text ++ ahead) ≡ (base ++ x) ++ ((b ∷ []) ++ ahead) =
          ground (arith, p, append_assoc x (b ∷ []) ahead, append_assoc base x (b ∷ ahead)) in
        let at_end : length (base ++ text) - 1 ≡ length (base ++ x) = omega (
          arith,
          length-append base text,
          length-append base x,
          length-append x (b ∷ []),
          ap length p,
        ) in
        let q : read_exact (length (base ++ text) - 1) 1 (base ++ (text ++ ahead)) ≡ some (b ∷ []) =
          rw (content, at_end) (read_exact-append (base ++ x) (b ∷ []) ahead) in
        ground (arith, e, q)
  ]

  pub pass-seen :
      (id : ℕ) (base text ahead : List ℕ) (ticks : ℕ)
      → pass render is_blank (seen id (base ++ (text ++ ahead))) (follower_at id base text ticks)
        ≡ read_on render is_blank
            (length (base ++ (text ++ ahead)))
            (base ++ (text ++ ahead))
            (follower_at id base text (next_ticks ticks))
  unfolding pass
  pass-seen id base text ahead ticks = ground arith

  pub read_on-caught_up :
      (id : ℕ) (base text : List ℕ) (ticks : ℕ)
      → read_on render is_blank
          (length (base ++ (text ++ [])))
          (base ++ (text ++ []))
          (follower_at id base text ticks)
        ≡ go_on (follower_at id base text ticks) []
  unfolding read_on
  read_on-caught_up id base text ticks =
      ground (arith, is_rewritten-follower_at id base text [] ticks, append-nil text)

  pub read_on-behind :
      (id : ℕ) (base text : List ℕ) (c : ℕ) (buf rest : List ℕ) (ticks : ℕ)
      → length (c ∷ buf) ≡ min read_batch_bytes (length ((c ∷ buf) ++ rest))
      → length ((drain_lines [] text).1 ++ c ∷ buf) ≤ pending_max_bytes
      → read_on render is_blank
          (length (base ++ (text ++ ((c ∷ buf) ++ rest))))
          (base ++ (text ++ ((c ∷ buf) ++ rest)))
          (follower_at id base text ticks)
        ≡ go_on (follower_at id base (text ++ c ∷ buf) ticks) (added text (c ∷ buf))
  unfolding read_on
  read_on-behind id base text c buf rest ticks n room =
      let file = base ++ (text ++ ((c ∷ buf) ++ rest)) in
      let whole : length file ≡ length (base ++ text) + length ((c ∷ buf) ++ rest) = omega (
        arith,
        length-append base (text ++ ((c ∷ buf) ++ rest)),
        length-append text ((c ∷ buf) ++ rest),
        length-append base text,
      ) in
      let batch : min (length file) (length (base ++ text) + read_batch_bytes)
            - length (base ++ text)
          ≡ length (c ∷ buf) =
        omega (arith, whole, n) in
      let q : read_exact (length (base ++ text)) (length (c ∷ buf)) file ≡ some (c ∷ buf) =
        subst
          (λ (t : List ℕ). read_exact (length (base ++ text)) (length (c ∷ buf)) t ≡ some (c ∷ buf))
          (append_assoc base text ((c ∷ buf) ++ rest))
          (read_exact-append (base ++ text) (c ∷ buf) rest) in
      ground (
        arith,
        whole,
        batch,
        q,
        is_rewritten-follower_at id base text ((c ∷ buf) ++ rest) ticks,
        take_in-follower_at id base text c buf ticks room,
      )
