-- ===== src/Runtime/Flow/Signature.antt =====
-- runtime/flow.rs, `is_missing_registration`: the text by which a missing registration is known.
use warpdeck.Prelude.{
  ℕ, ◌+◌, Bool, true, false, ◌&&◌, ◌||◌, List, [], ◌∷◌, map, ◌==◌, leb, codes, if◌then◌else◌,
}
use warpdeck.Runtime.Message.{WarpControlError, Summary, connect_failure, shown, raw}

abbrev pub to_ascii_lowercase : ℕ → ℕ
to_ascii_lowercase c = if leb b'A' c && leb c b'Z' then c + 32 else c

abbrev starts_with : List ℕ → List ℕ → Bool
starts_with [] text = true
starts_with (c ∷ p) [] = false
starts_with (c ∷ p) (d ∷ text) = c == d && starts_with p text

-- `str::contains`.
abbrev pub has_text : List ℕ → List ℕ → Bool
has_text needle [] = starts_with needle []
has_text needle (c ∷ text) = starts_with needle (c ∷ text) || has_text needle text

unfoldable pub is_missing_registration : List ℕ → Bool
is_missing_registration summary =
    let hay = map to_ascii_lowercase summary in
    has_text (codes "missingregistration") hay
    || (has_text (codes "no registration") hay && has_text (codes "found") hay)
    || has_text (codes "not registered") hay

-- The guard of the retry arm, and the summary of the error that the deadline returns.
unfoldable pub retry_summary : WarpControlError → Bool
unfolding is_missing_registration
retry_summary (connect_failure s) = is_missing_registration s
retry_summary _ = false

abbrev pub stated : WarpControlError → Summary
stated (connect_failure s) = raw s
stated e = shown e
