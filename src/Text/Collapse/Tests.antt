-- ===== src/Text/Collapse/Tests.antt =====
-- Three copies of two letters, with separators between them; a text without copies; and six copies of a
-- word after two others.
use voxedge.Base.{ℕ, Bool, ◌≡◌, refl, true, some, [], ◌∷◌, ◌==◌}
use voxedge.Text.Strip.{Text, lstrip, rstrip}
use voxedge.Text.Equality.{same_text}
use voxedge.Text.Period.{same_units, repeats_needed, copies_from, find_period}
use voxedge.Text.Collapse.{is_separator, collapse_repetition}
use voxedge.Text.Collapse.Stretch.{Collapses}
use voxedge.Text.Collapse.Total.{collapse_repetition-Collapses}

abbrev is_space : ℕ → Bool
is_space c = c == 32

-- ab,ab,ab.
abbrev thrice : Text
thrice = 97 ∷ 98 ∷ 44 ∷ 97 ∷ 98 ∷ 44 ∷ 97 ∷ 98 ∷ 46 ∷ []

collapse_thrice : collapse_repetition is_space thrice ≡ some (97 ∷ 98 ∷ [], true)
unfolding collapse_repetition is_separator lstrip rstrip find_period copies_from repeats_needed
    same_units same_text
collapse_thrice = refl

collapse_repetition-Collapses_example :
    Collapses is_space thrice (collapse_repetition is_space thrice)
collapse_repetition-Collapses_example = collapse_repetition-Collapses is_space thrice
