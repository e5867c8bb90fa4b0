-- ===== src/Text/Tail/Tests.antt =====
-- A word and six copies of two letters, the last cut off after one more letter.
use voxedge.Base.{◌≡◌, refl, some, List, [], ◌∷◌, ◌++◌}
use voxedge.Text.Strip.{Text}
use voxedge.Text.Equality.{same_text}
use voxedge.Text.Period.{same_units, repeats_needed}
use voxedge.Text.Tail.{copies_before, candidate, phases_from, find_tail_period}

abbrev pair : List Text
pair = (97 ∷ []) ∷ (98 ∷ []) ∷ []

abbrev looped : List Text
looped =
    (120 ∷ []) ∷ (121 ∷ []) ∷ (pair ++ pair ++ pair ++ pair ++ pair ++ pair ++ ((97 ∷ []) ∷ []))

find_looped : find_tail_period looped ≡ some (pair, 2)
unfolding find_tail_period phases_from candidate copies_before repeats_needed same_units same_text
find_looped = refl
