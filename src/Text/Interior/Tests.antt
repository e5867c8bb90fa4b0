-- ===== src/Text/Interior/Tests.antt =====
-- A word, six copies of two letters, and a word.
use voxedge.Base.{◌≡◌, refl, arith, Option, some, List, [], ◌∷◌, ◌++◌}
use voxedge.Text.Strip.{Text}
use voxedge.Text.Equality.{same_text}
use voxedge.Text.Period.{copies_from, same_units, repeats_needed}
use voxedge.Text.Interior.{Run, scan, scan_lengths, find_interior_run}
use voxedge.Text.Interior.Found.{Best, find_interior_run-IsRun}

abbrev pair : List Text
pair = (97 ∷ []) ∷ (98 ∷ []) ∷ []

abbrev stuck : List Text
stuck = (120 ∷ []) ∷ (pair ++ pair ++ pair ++ pair ++ pair ++ pair ++ ((121 ∷ []) ∷ []))

find_stuck :
    find_interior_run stuck 6 (some 20)
    ≡ some (some (record { start = 1; unit_len = 2; repeats = 6 }))
unfolding copies_from find_interior_run scan_lengths scan repeats_needed same_units same_text
find_stuck = refl

find_interior_run-IsRun_example :
    (best : Option Run) × (find_interior_run stuck 6 (some 20) ≡ some best)
    × Best stuck 6 (some 20) best
find_interior_run-IsRun_example = find_interior_run-IsRun stuck 6 (some 20) (omega arith)
