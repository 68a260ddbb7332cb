-- ===== src/Logs/Tail/Shown.antt =====
-- runtime/logs.rs: a page against the lines of the whole file.
use warpdeck.Prelude.{
  ℕ, zero, suc, ◌+◌, ◌-◌, ◌*◌, ◌≤◌, ◌<◌, ◌≡◌, refl, ap, ◌∙◌, ◌⊎◌, min, List, [], ◌∷◌, ◌++◌, ◌==◌,
  ltb, if◌then◌else◌, length, take, drop, arith,
}
use warpdeck.Prelude.Machine.{u64_max}
use warpdeck.Logs.Tail.{TailPage, ok, opened, page_of, log_lines, clamped, skipped, read_tail_once}
use warpdeck.Logs.Tail.Page.{IsFilled, read_tail_once-page_of}

-- The lines on a page: at least one and at most 500.
abbrev pub allowed : ℕ → ℕ
allowed limit = if limit == 0 then 1 else if ltb 500 limit then 500 else limit

-- The page number `offset`, from 0 and from the end of the lines on: behind it are the lines of the later
-- pages, and it is said whether there are lines before it.
pub record IsPage (lines : List (List ℕ)) (limit offset : ℕ) (page : TailPage) : Type 0 where
  pub older : List (List ℕ)
  pub newer : List (List ℕ)
  pub splits : lines ≡ older ++ (page.lines ++ newer)
  pub behind : length newer ≡ min (offset * allowed limit) (length lines)
  pub size : length page.lines ≡ min (allowed limit) (length lines - offset * allowed limit)
  pub more : page.has_more ≡ ltb 0 (length older)

module _ {A : Type 0} where
  take-drop : (n : ℕ) (xs : List A) → xs ≡ take n xs ++ drop n xs
  take-drop zero xs = refl
  take-drop (suc n) [] = refl
  take-drop (suc n) (x ∷ xs) = ap (◌∷◌ x) (take-drop n xs)

  length-take : (n : ℕ) (xs : List A) → length (take n xs) ≡ min n (length xs)
  length-take zero xs = omega arith
  length-take (suc n) [] = omega arith
  length-take (suc n) (x ∷ xs) = omega (arith, length-take n xs)

  length-drop : (n : ℕ) (xs : List A) → length (drop n xs) ≡ length xs - n
  length-drop zero xs = omega arith
  length-drop (suc n) [] = omega arith
  length-drop (suc n) (x ∷ xs) = omega (arith, length-drop n xs)

clamped-allowed : (limit : ℕ) → clamped limit ≡ allowed limit
clamped-allowed limit = ground arith

module _ (lines : List (List ℕ)) (limit offset skip : ℕ)
    (same : skip ≡ offset * allowed limit) where
  abbrev start : ℕ
  start = (length lines - skip) - allowed limit

  abbrev shown : ℕ
  shown = (length lines - skip) - start

  page_of-IsPage : IsPage lines limit offset (page_of (allowed limit) skip lines)
  page_of-IsPage = record {
    older = take start lines;
    newer = drop shown (drop start lines);
    splits =
        take-drop start lines
        ∙ ap (λ t. take start lines ++ t) (take-drop shown (drop start lines));
    behind =
        rw (← same) (omega (arith, length-drop shown (drop start lines), length-drop start lines));
    size =
        rw (← same) (omega (arith, length-take shown (drop start lines), length-drop start lines));
    more = ground (arith, length-take start lines);
  }

-- For a file that one block holds, or whose last block holds, behind its first line feed, enough ended
-- lines and enough lines that are not empty, and numbers that fit 64 bits: there is a page, of the limit,
-- taken to be at least 1 and at most 500, or of the lines that are left; behind it are the lines of
-- the later pages; and whether there are earlier lines is said rightly.
pub read_tail_once-IsPage :
    (lossy : List ℕ → List ℕ) (chunk limit offset : ℕ) (content : List ℕ)
    (small : skipped limit offset + clamped limit < u64_max)
    → (length content ≤ chunk)
      ⊎ IsFilled lossy chunk (skipped limit offset + clamped limit + 1) content
    → (page : TailPage) × (read_tail_once lossy chunk limit offset (opened (length content) content)
        ≡ ok page)
      × IsPage (log_lines lossy content) limit offset page
read_tail_once-IsPage lossy chunk limit offset content small fits =
    let lines = log_lines lossy content in
    let e = clamped-allowed limit in
    let at : skipped limit offset ≡ offset * clamped limit = omega (arith, small) in
    (
      page_of (allowed limit) (skipped limit offset) lines,
      read_tail_once-page_of lossy chunk limit offset small content fits
          ∙ ap (λ n. ok (page_of n (skipped limit offset) lines)) e,
      page_of-IsPage lines limit offset (skipped limit offset) (at ∙ ap (λ n. offset * n) e),
    )
