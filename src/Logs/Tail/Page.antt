-- ===== src/Logs/Tail/Page.antt =====
-- runtime/logs.rs: what the pages of a file hold, and where the reading by blocks loses a line.
use mathlib.Core.List.{append_assoc, append-nil, map-append}
use warpdeck.Prelude.{
  ℕ, zero, suc, ◌+◌, ◌-◌, ◌%◌, ◌≤◌, ◌<◌, ◌≡◌, ◌≢◌, refl, sym, ap, subst, ◌∙◌, ◌⊎◌, inl, inr, false,
  some, List, [], ◌∷◌, ◌++◌, ◌||◌, ◌==◌, ltb, leb, if◌then◌else◌, contains, length, length-append,
  drop-length_append, drop-append, split_at?, arith, Bool-cases, Option-cases,
}
use warpdeck.Prelude.Machine.{u64_max}
use warpdeck.Prelude.Text.{split_once-append}
use warpdeck.Logs.Tail.{
  newline, ok, out_of_fuel, opened, read_exact, drain_partial, newlines, split_lines, without_empty,
  collect_tail, page_of, log_lines, to_page, clamped, skipped, read_tail_once,
}

pub split_lines-cons : (s : List ℕ) → (p : List ℕ) × (ps : List (List ℕ)) × (split_lines s ≡ p ∷ ps)
unfolding split_lines
split_lines-cons [] = ([], [], refl)
split_lines-cons (c ∷ s) = elim (Bool-cases (c == newline)) [
  | inl e ↦ ([], split_lines s, rw e refl)
  | inr e ↦ let (p, ps, q) = split_lines-cons s in (c ∷ p, ps, rw (e, q) refl)
]

split_lines-append :
    (x y : List ℕ) → split_lines (x ++ newline ∷ y) ≡ split_lines x ++ split_lines y
unfolding split_lines
split_lines-append [] y = refl
split_lines-append (c ∷ x) y =
    let (p, ps, q) = split_lines-cons x in ground (arith, split_lines-append x y, q)

without_empty-append :
    (xs ys : List (List ℕ)) → without_empty (xs ++ ys) ≡ without_empty xs ++ without_empty ys
unfolding without_empty
without_empty-append [] ys = refl
without_empty-append ([] ∷ xs) ys = without_empty-append xs ys
without_empty-append ((c ∷ x) ∷ xs) ys = ap (◌∷◌ (c ∷ x)) (without_empty-append xs ys)

log_lines-append :
    (lossy : List ℕ → List ℕ) (x y : List ℕ)
    → log_lines lossy (x ++ newline ∷ y) ≡ log_lines lossy x ++ log_lines lossy y
unfolding log_lines
log_lines-append lossy x y = simp (split_lines-append x y, without_empty-append, map-append)

-- A page that the last lines fill does not depend on the earlier ones.
page_of-append :
    (limit skip : ℕ) (xs ys : List (List ℕ))
    → skip + limit < length ys
    → page_of limit skip (xs ++ ys) ≡ page_of limit skip ys
page_of-append limit skip xs ys h =
    let start = length ys - skip - limit in
    let e : length (xs ++ ys) - skip - limit ≡ length xs + start =
      omega (arith, length-append xs ys) in
    let n : (length (xs ++ ys) - skip) - (length xs + start) ≡ (length ys - skip) - start =
      omega (arith, length-append xs ys) in
    let a : ltb 0 (length xs + start) ≡ ltb 0 start = ground arith in
    rw (e, n, drop-append start xs ys, a) refl

split_at?-self : (xs : List ℕ) → split_at? (length xs) xs ≡ some (xs, [])
split_at?-self [] = refl
split_at?-self (x ∷ xs) = rw (split_at?-self xs) refl

split_at?-append : (xs ys : List ℕ) → split_at? (length xs) (xs ++ ys) ≡ some (xs, ys)
split_at?-append [] ys = refl
split_at?-append (x ∷ xs) ys = rw (split_at?-append xs ys) refl

pub read_exact-append :
    (before block after : List ℕ)
    → read_exact (length before) (length block) (before ++ (block ++ after)) ≡ some block
unfolding read_exact
read_exact-append before block after =
    ground (arith, drop-length_append before (block ++ after), split_at?-append block after)

drain_partial-append :
    (x rest : List ℕ) → contains x newline ≡ false → drain_partial (x ++ newline ∷ rest) ≡ rest
unfolding drain_partial
drain_partial-append x rest h = ground (arith, split_once-append newline x rest h)

module _ (chunk collect : ℕ) where
  abbrev joined : ℕ → List ℕ → List ℕ → List ℕ
  joined read_from block raw =
      if ltb 0 read_from then drain_partial (block ++ raw) else block ++ raw

  collect_tail-round :
      (content block raw : List ℕ) (fuel len read_from : ℕ)
      → 0 < len
      → len - chunk ≡ read_from
      → read_exact read_from (len - read_from) content ≡ some block
      → collect_tail chunk collect content (suc fuel) len raw ≡ (
          if read_from == 0 || leb collect (newlines (joined read_from block raw))
          then ok (joined read_from block raw)
          else collect_tail chunk collect content fuel read_from (joined read_from block raw))
  unfolding collect_tail
  collect_tail-round content block raw fuel len read_from h e p = ground arith

  -- The round that reads the first bytes of the file.
  collect_tail-first :
      (before after raw : List ℕ) (fuel : ℕ)
      → 0 < length before
      → length before ≤ chunk
      → collect_tail chunk collect (before ++ after) (suc fuel) (length before) raw
        ≡ ok (before ++ raw)
  collect_tail-first before after raw fuel h k =
      let n : length before - 0 ≡ length before = omega arith in
      collect_tail-round (before ++ after) before raw fuel (length before) 0 h (omega arith)
        (rw n (read_exact-append [] before after))

  -- A round before that, whose block begins with the end `x` of a line that begins before it.
  collect_tail-block :
      (before x rest : List ℕ) (fuel : ℕ)
      → 0 < length before
      → length (x ++ newline ∷ rest) ≡ chunk
      → contains x newline ≡ false
      → collect_tail chunk collect
          (before ++ (x ++ newline ∷ rest))
          (suc fuel)
          (length (before ++ (x ++ newline ∷ rest)))
          []
        ≡ (if leb collect (newlines rest)
            then ok rest
            else collect_tail chunk collect
                (before ++ (x ++ newline ∷ rest))
                fuel
                (length before)
                rest)
  collect_tail-block before x rest fuel h k free =
      let block = x ++ newline ∷ rest in
      let n : length (before ++ block) - length before ≡ length block =
        omega (arith, length-append before block) in
      let p : read_exact (length before) (length (before ++ block) - length before)
            (before ++ block)
          ≡ some block =
        rw n (
          subst
            (λ (t : List ℕ). read_exact (length before) (length block) (before ++ t) ≡ some block)
            (append-nil block) (read_exact-append before block [])) in
      collect_tail-round (before ++ block) block [] fuel (length (before ++ block)) (length before)
        (omega (arith, length-append before block)) (omega (arith, length-append before block)) p
      ∙ rw (append-nil block) (ground (arith, drain_partial-append x rest free))

-- The last block holds, behind its first line feed, the lines of the page and one more.
pub record IsFilled (lossy : List ℕ → List ℕ) (chunk need : ℕ) (content : List ℕ) : Type 0 where
  pub before : List ℕ
  pub cut : List ℕ
  pub rest : List ℕ
  pub splits : content ≡ before ++ (cut ++ newline ∷ rest)
  pub block : length (cut ++ newline ∷ rest) ≡ chunk
  pub begun : 0 < length before
  pub free : contains cut newline ≡ false
  pub ended : need ≤ newlines rest
  pub shown : need ≤ length (log_lines lossy rest)

module _ (lossy : List ℕ → List ℕ) (chunk limit offset : ℕ)
    (small : skipped limit offset + clamped limit < u64_max) where
  abbrev need : ℕ
  need = skipped limit offset + clamped limit + 1

  read_tail_once-collect :
      (content raw : List ℕ)
      → collect_tail chunk need content (suc (length content)) (length content) [] ≡ ok raw
      → read_tail_once lossy chunk limit offset (opened (length content) content)
        ≡ ok (page_of (clamped limit) (skipped limit offset) (log_lines lossy raw))
  unfolding read_tail_once
  read_tail_once-collect content raw p =
      let e : (skipped limit offset + clamped limit + 1) % (u64_max + 1) ≡ need =
        omega (arith, small) in
      rw e (ap (to_page lossy (clamped limit) (skipped limit offset)) p)

  read_tail_once-short :
      (content : List ℕ)
      → length content ≤ chunk
      → read_tail_once lossy chunk limit offset (opened (length content) content)
        ≡ ok (page_of (clamped limit) (skipped limit offset) (log_lines lossy content))
  unfolding collect_tail
  read_tail_once-short [] k = read_tail_once-collect [] [] refl
  read_tail_once-short (c ∷ content) k =
      let p =
        collect_tail-first chunk need (c ∷ content) [] [] (length (c ∷ content)) (omega arith) k in
      read_tail_once-collect (c ∷ content) (c ∷ content) (
        subst
          (λ (t : List ℕ).
            collect_tail chunk need t (suc (length (c ∷ content))) (length (c ∷ content)) [] ≡ ok t)
          (append-nil (c ∷ content)) p)

  pub read_tail_once-page_of :
      (content : List ℕ)
      → (length content ≤ chunk) ⊎ IsFilled lossy chunk need content
      → read_tail_once lossy chunk limit offset (opened (length content) content)
        ≡ ok (page_of (clamped limit) (skipped limit offset) (log_lines lossy content))
  read_tail_once-page_of content (inl k) = read_tail_once-short content k
  read_tail_once-page_of content (inr f) =
      let block = f.cut ++ newline ∷ f.rest in
      let whole : log_lines lossy (f.before ++ block)
          ≡ log_lines lossy (f.before ++ f.cut) ++ log_lines lossy f.rest =
        ap (log_lines lossy) (sym (append_assoc f.before f.cut (newline ∷ f.rest)))
        ∙ log_lines-append lossy (f.before ++ f.cut) f.rest in
      rw f.splits (
        read_tail_once-collect (f.before ++ block) f.rest (
          collect_tail-block chunk need f.before f.cut f.rest (length (f.before ++ block)) f.begun
            f.block f.free
          ∙ ground (arith, f.ended))
        ∙ rw whole (
            ap ok (
              sym (
                page_of-append (clamped limit) (skipped limit offset)
                  (log_lines lossy (f.before ++ f.cut)) (log_lines lossy f.rest)
                  (omega (arith, f.shown))))))

  -- A file of more than one block and at most two, whose last block does not have enough ended lines:
  -- the line that the border of the blocks cuts loses its end `cut` in every page, and what stands of
  -- it before the border is joined to the line that follows.
  pub read_tail_once-joined :
      (before cut rest : List ℕ)
      → 0 < length before
      → length before ≤ chunk
      → length (cut ++ newline ∷ rest) ≡ chunk
      → contains cut newline ≡ false
      → newlines rest < need
      → read_tail_once lossy chunk limit offset
          (opened (length (before ++ (cut ++ newline ∷ rest))) (before ++ (cut ++ newline ∷ rest)))
        ≡ ok (page_of (clamped limit) (skipped limit offset) (log_lines lossy (before ++ rest)))
  read_tail_once-joined before cut rest b k block free few =
      let content = before ++ (cut ++ newline ∷ rest) in
      let n : length content ≡ suc (length content - 1) =
        omega (arith, length-append before (cut ++ newline ∷ rest)) in
      read_tail_once-collect content (before ++ rest) (
        collect_tail-block chunk need before cut rest (length content) b block free
        ∙ ground (
          arith,
          few,
          n,
          collect_tail-first chunk need before (cut ++ newline ∷ rest) rest (length content - 1) b
              k,
        ))

module _ (chunk collect : ℕ) (some_bytes : 0 < chunk) where
  -- With more fuel than bytes the blocks are read to the end, or to an error.
  pub collect_tail-ne-out_of_fuel :
      (fuel len : ℕ) (content raw : List ℕ)
      → len < fuel
      → collect_tail chunk collect content fuel len raw ≢ out_of_fuel
  unfolding collect_tail
  collect_tail-ne-out_of_fuel zero len content raw h = absurd (omega arith)
  collect_tail-ne-out_of_fuel (suc fuel) len content raw h = elim (Bool-cases (len == 0)) [
    | inl e ↦ ground (arith, e)
    | inr more ↦ elim (Option-cases (read_exact (len - chunk) (len - (len - chunk)) content)) [
      | inl p ↦ ground (arith, more, p)
      | inr (block, p) ↦ ground (
        arith,
        more,
        p,
        collect_tail-ne-out_of_fuel fuel (len - chunk) content
            (joined chunk collect (len - chunk) block raw),
      )
    ]
  ]
