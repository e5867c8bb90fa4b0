-- ===== src/Text/Join/Tests.antt =====
-- Three segments, the second of which is punctuation only.
use voxedge.Base.{ℕ, Bool, ◌≡◌, refl, none, List, [], ◌∷◌, ◌==◌}
use voxedge.Text.Strip.{Text}
use voxedge.Text.Join.{join_segments}
use voxedge.Text.Join.Letters.{letters, letters_of, join_segments-letters}

abbrev is_space : ℕ → Bool
is_space c = c == 32

abbrev segments : List Text
segments = (97 ∷ 46 ∷ []) ∷ (46 ∷ []) ∷ (98 ∷ 46 ∷ []) ∷ []

abbrev joined : Text
joined = join_segments is_space segments none

join_segments-letters_example :
    letters is_space (join_segments is_space segments none) ≡ letters_of is_space segments
join_segments-letters_example = join_segments-letters is_space segments none refl
