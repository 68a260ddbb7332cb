-- ===== src/Logs/Tests/Pages.antt =====
-- runtime/logs.rs at concrete inputs, with blocks of eight bytes.
use warpdeck.Prelude.{ℕ, ◌≡◌, refl, inr, true, List, [], ◌∷◌, ◌++◌, length, codes, arith}
use warpdeck.Logs.Tail.{
  TailPage, ok, opened, not_found, no_page, page_of, log_lines, newline, newlines, read_tail_once,
  read_tail, read_exact, drain_partial, collect_tail,
}
use warpdeck.Logs.Tail.Page.{IsFilled, read_tail_once-joined}
use warpdeck.Logs.Tail.Shown.{IsPage, read_tail_once-IsPage}

abbrev as_is : List ℕ → List ℕ
as_is s = s

-- "aa", "bb", "c" and "d", a line each; the last block begins within "bb".
abbrev head : List ℕ
head = codes "aa" ++ newline ∷ codes "b"

abbrev ends : List ℕ
ends = codes "c" ++ newline ∷ (codes "d" ++ newline ∷ [])

abbrev cut : List ℕ
cut = codes "bbb"

abbrev sample : List ℕ
sample = head ++ (cut ++ newline ∷ ends)

-- A page of two lines needs three ended ones, which the last block does not have.
page_of_two :
    read_tail_once as_is 8 2 0 (opened (length sample) sample)
    ≡ ok (record { lines = codes "bc" ∷ codes "d" ∷ []; has_more = true })
unfolding read_tail_once collect_tail read_exact drain_partial
page_of_two = refl

missing_file : read_tail as_is 10 0 not_found not_found ≡ ok no_page
unfolding read_tail
missing_file = refl

-- Cut short at the first try, gone at the second.
shrunk_file : read_tail as_is 10 0 (opened 9 ends) not_found ≡ ok no_page
unfolding read_tail collect_tail read_exact
shrunk_file = refl

filled : IsFilled as_is 8 2 sample
unfolding log_lines newlines
filled = record {
  before = head;
  cut = cut;
  rest = ends;
  splits = refl;
  block = refl;
  begun = omega arith;
  free = refl;
  ended = omega arith;
  shown = omega arith;
}

read_tail_once-IsPage_example :
    (page : TailPage) × (read_tail_once as_is 8 1 0 (opened (length sample) sample) ≡ ok page)
    × IsPage (log_lines as_is sample) 1 0 page
read_tail_once-IsPage_example = read_tail_once-IsPage as_is 8 1 0 sample (omega arith) (inr filled)

read_tail_once-joined_example :
    read_tail_once as_is 8 2 0 (opened (length sample) sample)
    ≡ ok (page_of 2 0 (log_lines as_is (head ++ ends)))
unfolding log_lines newlines
read_tail_once-joined_example =
    read_tail_once-joined as_is 8 2 0 (omega arith) head cut ends (omega arith) (omega arith) refl
      refl (omega arith)
