-- ===== src/Text/Degenerate/Tests.antt =====
-- Short and long texts, three times and six times.
use voxedge.Base.{ℕ, ◌≡◌, refl, ◌+◌, Bool, ◌==◌, List, [], ◌∷◌, length}
use voxedge.Text.Strip.{Text, lstrip, rstrip}
use voxedge.Text.Equality.{same_text}
use voxedge.Text.Degenerate.{key, enough, continues, collapse_segment_repeats}
use voxedge.Text.Degenerate.Runs.{by_runs, collapse_by_runs}
use voxedge.Text.Degenerate.Heads.{heads, collapse_keeps_heads}

abbrev blank : ℕ → Bool
blank c = c == 32

abbrev sorry : Text
sorry = 0x5BF9 ∷ 0x4E0D ∷ 0x8D77 ∷ 0x3002 ∷ []

abbrev again : Text
again = 0x5BF9 ∷ 0x4E0D ∷ 0x8D77 ∷ 0xFF0C ∷ []

abbrev six : List Text
six = sorry ∷ again ∷ sorry ∷ sorry ∷ again ∷ sorry ∷ (65 ∷ []) ∷ []

collapse_six : collapse_segment_repeats blank six ≡ (sorry ∷ (65 ∷ []) ∷ [], 5)
unfolding collapse_segment_repeats key enough continues lstrip rstrip same_text
collapse_six = refl

collapse_three :
    collapse_segment_repeats blank (sorry ∷ sorry ∷ sorry ∷ []) ≡ (sorry ∷ sorry ∷ sorry ∷ [], 0)
unfolding collapse_segment_repeats key enough continues lstrip rstrip same_text
collapse_three = refl

collapse_by_runs_example :
    ((collapse_segment_repeats blank six).0 ≡ by_runs blank six)
    × (length (collapse_segment_repeats blank six).0 + (collapse_segment_repeats blank six).1
        ≡ length six)
collapse_by_runs_example = collapse_by_runs blank six

collapse_keeps_heads_example :
    (heads blank (collapse_segment_repeats blank six).0 ≡ heads blank six)
    × (length (collapse_segment_repeats blank six).0 + (collapse_segment_repeats blank six).1
        ≡ length six)
collapse_keeps_heads_example = collapse_keeps_heads blank six
