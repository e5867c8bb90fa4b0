-- ===== src/Text/Period/Tests.antt =====
-- Units of one letter: three copies of two letters, and three copies of six of which the last is cut.
use voxedge.Base.{◌≡◌, refl, none, some, List, [], ◌∷◌, ◌++◌}
use voxedge.Text.Strip.{Text}
use voxedge.Text.Equality.{same_text}
use voxedge.Text.Period.{same_units, repeats_needed, copies_from, judge, find_period}
use voxedge.Text.Period.Found.{Explains, find_period-Explains}

abbrev pair : List Text
pair = (97 ∷ []) ∷ (98 ∷ []) ∷ []

abbrev six_letters : List Text
six_letters = (97 ∷ []) ∷ (98 ∷ []) ∷ (99 ∷ []) ∷ (100 ∷ []) ∷ (101 ∷ []) ∷ (102 ∷ []) ∷ []

find_pair : find_period (pair ++ pair ++ pair) 3 (some 8) ≡ some (pair, 6)
unfolding find_period judge copies_from repeats_needed same_units same_text
find_pair = refl

find_twice : find_period (pair ++ pair) 3 (some 8) ≡ none
unfolding find_period judge copies_from repeats_needed same_units same_text
find_twice = refl

find_cut_off : find_period (six_letters ++ six_letters ++ pair) 3 (some 8) ≡ some (six_letters, 18)
unfolding find_period judge copies_from repeats_needed same_units same_text
find_cut_off = refl

find_period-Explains_example : Explains (pair ++ pair ++ pair) 3 (some 8) pair 6
find_period-Explains_example =
    find_period-Explains (pair ++ pair ++ pair) 3 (some 8) pair 6 find_pair
