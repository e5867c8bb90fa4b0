-- ===== src/Audio/Segment/Tests.antt =====
-- The theorems at short clips.
use mathlib.Core.List.{flatten}
use voxedge.Base.{
  ℕ, ◌+◌, ◌≤◌, ◌≡◌, refl, Bool, true, some, List, [], ◌∷◌, arith, length, max, All, ltb,
}
use voxedge.Audio.Segment.{best, next_cut, greedy, pick_cuts, split_at_silence}
use voxedge.Audio.Segment.Lossless.{split_lossless}
use voxedge.Audio.Segment.Lengths.{pick_cuts_bounded}

abbrev clip : List ℕ
clip = 9 ∷ 8 ∷ 9 ∷ 0 ∷ 0 ∷ 7 ∷ 9 ∷ 8 ∷ 0 ∷ 0 ∷ 0 ∷ 6 ∷ []

abbrev quiet : List ℕ → Bool
quiet [] = true
quiet (x ∷ _) = ltb x 1

split_lossless_example :
    (segs : List (List ℕ)) × (split_at_silence quiet 1 2 6 1 2 2 clip ≡ some segs)
    × (flatten segs ≡ clip)
split_lossless_example =
    split_lossless quiet 1 2 6 1 2 2 clip (omega arith) (omega arith) (omega arith)

pick_cuts_bounded_example :
    (segs : List (List ℕ)) × (pick_cuts 6 1 2 3 13 clip (4 ∷ 9 ∷ []) ≡ some segs)
    × All (λ seg. length seg ≤ 6 + max 2 3) segs
pick_cuts_bounded_example =
    pick_cuts_bounded 6 2 3 1 13 clip (4 ∷ 9 ∷ []) (omega arith) (omega arith) (omega arith)
      (omega arith) (omega arith)

split_clip :
    split_at_silence quiet 1 2 6 1 2 2 clip
    ≡ some ((9 ∷ 8 ∷ 9 ∷ 0 ∷ []) ∷ (0 ∷ 7 ∷ 9 ∷ 8 ∷ 0 ∷ []) ∷ (0 ∷ 0 ∷ 6 ∷ []) ∷ [])
unfolding split_at_silence pick_cuts greedy next_cut best
split_clip = refl
