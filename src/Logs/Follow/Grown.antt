-- ===== src/Logs/Follow/Grown.antt =====
-- runtime/log_tail.rs: a file that only grows.
use mathlib.Core.List.{append_assoc, append-nil}
use warpdeck.Prelude.{
  ℕ, ◌+◌, ◌≤◌, ◌<◌, ◌≡◌, refl, sym, ap, ◌∙◌, subst, min, Bool, true, List, [], ◌∷◌, ◌++◌, length,
  length-append, All, arith,
}
use warpdeck.Logs.Follow.{
  read_batch_bytes, pending_max_bytes, LogLine, Glance, drain_lines, last, publish_lines, Watcher,
  closed, following, opened_at, turn, turns,
}
use warpdeck.Logs.Follow.Lines.{
  pending-width, split_batch, width, numbered, ended_lines, published_lem,
}
use warpdeck.Logs.Follow.Appended.{
  published, follower_at, added, next_ticks, seen, published-append, pass-seen, read_on-caught_up,
  read_on-behind,
}

nil_of_length : (s : List ℕ) → length s ≡ 0 → s ≡ []
nil_of_length [] h = refl
nil_of_length (c ∷ s) h = absurd (omega (arith, h))

regroup :
    (text buf rest ahead p : List ℕ)
    → ahead ++ p ≡ buf ++ rest
    → (text ++ buf) ++ rest ≡ (text ++ ahead) ++ p
regroup text buf rest ahead p e =
    append_assoc text buf rest
    ∙ ap (λ (t : List ℕ). text ++ t) (sym e)
    ∙ sym (append_assoc text ahead p)

regroup_with :
    (text buf rest ahead p more : List ℕ)
    → ahead ++ p ≡ buf ++ rest
    → (text ++ buf) ++ (rest ++ more) ≡ text ++ (ahead ++ (p ++ more))
regroup_with text buf rest ahead p more e =
    sym (append_assoc (text ++ buf) rest more)
    ∙ ap (λ (t : List ℕ). t ++ more) (regroup text buf rest ahead p e)
    ∙ append_assoc (text ++ ahead) p more
    ∙ append_assoc text ahead (p ++ more)

-- The glances at a file to which the pieces are appended one after the other.
abbrev pub grown : ℕ → List ℕ → List (List ℕ) → List Glance
grown id file [] = []
grown id file (p ∷ ps) = seen id (file ++ p) ∷ grown id (file ++ p) ps

abbrev pub concat : List (List ℕ) → List ℕ
concat [] = []
concat (p ∷ ps) = p ++ concat ps

abbrev pub IsShort : List ℕ → Type 0
IsShort p = length p ≤ read_batch_bytes

module _ (render : List ℕ → List ℕ) (is_blank : List ℕ → Bool) where
  -- What a pass takes in of the bytes that are there: up to a batch.
  record Batch (id : ℕ) (base text ahead : List ℕ) (ticks : ℕ) : Type 0 where
    buf : List ℕ
    rest : List ℕ
    splits : ahead ≡ buf ++ rest
    caught : length ahead ≤ read_batch_bytes → rest ≡ []
    step :
        turn render is_blank
          (following (follower_at render is_blank id base text ticks))
          (seen id (base ++ (text ++ ahead)))
        ≡ (
          following (follower_at render is_blank id base (text ++ buf) (next_ticks ticks)),
          added render is_blank text buf,
        )

  turn-behind :
      (id : ℕ) (base text buf rest : List ℕ) (ticks : ℕ)
      → 0 < length (buf ++ rest)
      → length buf ≡ min read_batch_bytes (length (buf ++ rest))
      → length (drain_lines [] text).1 + read_batch_bytes ≤ pending_max_bytes
      → Batch id base text (buf ++ rest) ticks
  unfolding turn
  turn-behind id base text [] rest ticks h n room = absurd (omega arith)
  turn-behind id base text (c ∷ buf) rest ticks h n room =
      let fits : length ((drain_lines [] text).1 ++ c ∷ buf) ≤ pending_max_bytes =
        omega (arith, n, room, length-append (drain_lines [] text).1 (c ∷ buf)) in
      let go = read_on-behind render is_blank id base text c buf rest (next_ticks ticks) n fits in
      record {
        buf = c ∷ buf;
        rest = rest;
        splits = refl;
        caught = λ k. nil_of_length rest (omega (arith, n, k, length-append (c ∷ buf) rest));
        step = ground (arith, pass-seen render is_blank id base text ((c ∷ buf) ++ rest) ticks, go);
      }

  turn-seen :
      (id : ℕ) (base text ahead : List ℕ) (ticks : ℕ)
      → length (drain_lines [] text).1 + read_batch_bytes ≤ pending_max_bytes
      → Batch id base text ahead ticks
  unfolding turn drain_lines publish_lines
  turn-seen id base text [] ticks room = record {
    buf = [];
    rest = [];
    splits = refl;
    caught = λ _. refl;
    step = ground (
      arith,
      pass-seen render is_blank id base text [] ticks,
      read_on-caught_up render is_blank id base text (next_ticks ticks),
      append-nil text,
    );
  }
  turn-seen id base text (c ∷ ahead) ticks room =
      let (buf, rest, e, n) = split_batch read_batch_bytes (c ∷ ahead) in
      let size = ap (λ (t : List ℕ). length t) e in
      subst (λ (t : List ℕ). Batch id base text t ticks) (sym e)
        (turn-behind id base text buf rest ticks (omega (arith, size)) (omega (arith, n, size))
          room)

  record Followed (id : ℕ) (base text ahead : List ℕ) (ticks : ℕ) (pieces : List (List ℕ))
      : Type 0 where
    read : List ℕ
    rest : List ℕ
    last_ticks : ℕ
    lines : List LogLine
    splits : text ++ (ahead ++ concat pieces) ≡ read ++ rest
    caught : ahead ≡ [] → All IsShort pieces → rest ≡ []
    run :
        turns render is_blank
          (following (follower_at render is_blank id base text ticks))
          (grown id (base ++ (text ++ ahead)) pieces)
        ≡ (following (follower_at render is_blank id base read last_ticks), lines)
    out : published render is_blank read ≡ published render is_blank text ++ lines

  turns-cons :
      (w : Watcher) (g : Glance) (gs : List Glance) (w1 w2 : Watcher) (l1 l2 : List LogLine)
      → turn render is_blank w g ≡ (w1, l1)
      → turns render is_blank w1 gs ≡ (w2, l2)
      → turns render is_blank w (g ∷ gs) ≡ (w2, l1 ++ l2)
  unfolding turns
  turns-cons w g gs w1 w2 l1 l2 p q = ground (arith, p, q)

  turns-next :
      (id : ℕ) (base text ahead p : List ℕ) (ticks : ℕ) (ps : List (List ℕ))
      (b : Batch id base text (ahead ++ p) ticks)
      → Followed id base (text ++ b.buf) b.rest (next_ticks ticks) ps
      → Followed id base text ahead ticks (p ∷ ps)
  turns-next id base text ahead p ticks ps b r =
      let file : base ++ ((text ++ b.buf) ++ b.rest) ≡ (base ++ (text ++ ahead)) ++ p =
        ap (λ (t : List ℕ). base ++ t) (regroup text b.buf b.rest ahead p b.splits)
        ∙ sym (append_assoc base (text ++ ahead) p) in
      let whole : base ++ (text ++ (ahead ++ p)) ≡ (base ++ (text ++ ahead)) ++ p =
        ground (arith, append_assoc text ahead p, append_assoc base (text ++ ahead) p) in
      record {
        read = r.read;
        rest = r.rest;
        last_ticks = r.last_ticks;
        lines = added render is_blank text b.buf ++ r.lines;
        splits = sym (regroup_with text b.buf b.rest ahead p (concat ps) b.splits) ∙ r.splits;
        caught = λ e (short, shorts). r.caught (b.caught (rw e short)) shorts;
        run =
            turns-cons _ _ (grown id ((base ++ (text ++ ahead)) ++ p) ps) _ _ _ _
              (subst
                (λ (t : List ℕ).
                  turn render is_blank (following (follower_at render is_blank id base text ticks))
                    (seen id t)
                  ≡ (
                    following
                        (follower_at render is_blank id base (text ++ b.buf) (next_ticks ticks)),
                    added render is_blank text b.buf,
                  ))
                whole b.step)
              (subst
                (λ (t : List ℕ).
                  turns render is_blank
                    (following
                      (follower_at render is_blank id base (text ++ b.buf) (next_ticks ticks)))
                    (grown id t ps)
                  ≡ (following (follower_at render is_blank id base r.read r.last_ticks), r.lines))
                file r.run);
        out =
            r.out
            ∙ rw (published-append render is_blank text b.buf) (
                append_assoc (published render is_blank text) (added render is_blank text b.buf)
                  r.lines);
      }

  turns-grown :
      (pieces : List (List ℕ)) (id : ℕ) (base text ahead : List ℕ) (ticks : ℕ)
      → width 0 (text ++ (ahead ++ concat pieces)) + read_batch_bytes ≤ pending_max_bytes
      → Followed id base text ahead ticks pieces
  unfolding turns
  turns-grown [] id base text ahead ticks room = record {
    read = text;
    rest = ahead;
    last_ticks = ticks;
    lines = [];
    splits = simp append-nil;
    caught = λ e _. e;
    run = refl;
    out = sym (append-nil (published render is_blank text));
  }
  turns-grown (p ∷ ps) id base text ahead ticks room =
      let b =
        turn-seen id base text (ahead ++ p) ticks
          (omega (arith, room, pending-width [] text (ahead ++ concat (p ∷ ps)))) in
      turns-next id base text ahead p ticks ps b (
        turns-grown ps id base (text ++ b.buf) b.rest (next_ticks ticks)
          (rw (regroup_with text b.buf b.rest ahead p (concat ps) b.splits) room))

  follower_at-opened :
      (id : ℕ) (base : List ℕ)
      → follower_at render is_blank id base [] 0 ≡ opened_at id (length base)
  unfolding drain_lines publish_lines last
  follower_at-opened id base = rw (append-nil base) refl

  published-nil :
      (text : List ℕ) (lines : List LogLine)
      → published render is_blank text ≡ published render is_blank [] ++ lines
      → published render is_blank text ≡ lines
  unfolding drain_lines publish_lines
  published-nil text lines h = h

  pub turns-opened :
      (pieces : List (List ℕ)) (id : ℕ) (base : List ℕ)
      → All IsShort pieces
      → width 0 (concat pieces) + read_batch_bytes ≤ pending_max_bytes
      → (turns render is_blank (following (opened_at id (length base))) (grown id base pieces)).1
        ≡ numbered render is_blank 0 (ended_lines (concat pieces))
  turns-opened pieces id base shorts room =
      let r = turns-grown pieces id base [] [] 0 room in
      let all : concat pieces ≡ r.read = r.splits ∙ rw (r.caught refl shorts) (append-nil r.read) in
      let run =
        subst
          (λ (file : List ℕ).
            turns render is_blank (following (follower_at render is_blank id base [] 0))
              (grown id file pieces)
            ≡ (following (follower_at render is_blank id base r.read r.last_ticks), r.lines))
          (append-nil base) r.run in
      let e = published-nil r.read r.lines r.out in
      rw (← follower_at-opened id base) (
        ap (λ (p : Watcher × List LogLine). p.1) run
        ∙ sym e
        ∙ ap (published render is_blank) (sym all)
        ∙ published_lem render is_blank (concat pieces))

  -- For a file that grows between the passes, by at most a batch each time, and no line of what is added
  -- is so long that it fills the pending buffer: what has been published of the file since it was
  -- first opened is, after any number of passes, the lines that have been added and have ended, without
  -- the blank ones, each once, in order and numbered from 1.
  pub turns-appended :
      (pieces : List (List ℕ)) (id : ℕ) (base : List ℕ)
      → All IsShort pieces
      → width 0 (concat pieces) + read_batch_bytes ≤ pending_max_bytes
      → (turns render is_blank (closed true) (seen id base ∷ grown id base pieces)).1
        ≡ numbered render is_blank 0 (ended_lines (concat pieces))
  unfolding turns turn
  turns-appended pieces id base shorts room = turns-opened pieces id base shorts room
