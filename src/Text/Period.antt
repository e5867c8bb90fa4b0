-- ===== src/Text/Period.antt =====
-- text/degenerate.py: `_find_period`, the search for a unit whose copies make up a segment. A segment
-- is a list of units, words or characters, as texts. `_MIN_COVERAGE`, 0.8, is taken as 4/5.
pub mod Copies
pub mod Found
mod Tests
use voxedge.Base.{
  ℕ, zero, suc, ◌+◌, ◌-◌, ◌*◌, ◌/◌, min, max, Bool, true, false, not, ◌||◌, ◌&&◌, Option, none,
  some, List, [], ◌∷◌, length, take, drop, all, ltb, leb, ◌==◌, if◌then◌else◌,
}
use voxedge.Text.Strip.{Text}
use voxedge.Text.Equality.{same_text}

abbrev pub long_unit_words : ℕ
long_unit_words = 6

abbrev pub min_repeats_long_unit : ℕ
min_repeats_long_unit = 3

abbrev pub max_period_unit_len : ℕ
max_period_unit_len = 256

-- `==` on two lists of units
unfoldable pub same_units : List Text → List Text → Bool
same_units [] [] = true
same_units (t ∷ ts) (u ∷ us) = same_text t u && same_units ts us
same_units _ _ = false

-- `len(set(unit)) == 1`
is_uniform : List Text → Bool
is_uniform [] = false
is_uniform (t ∷ ts) = all (same_text t) ts

-- `min_repeats_single`, where it is not false
single_bar : Option ℕ → Bool
single_bar none = false
single_bar (some n) = not (n == 0)

-- `min_repeats_single or d`
single_or : ℕ → Option ℕ → ℕ
single_or d none = d
single_or d (some zero) = d
single_or d (some n) = n

unfoldable pub repeats_needed : List Text → ℕ → Option ℕ → ℕ
unfolding is_uniform single_bar single_or
repeats_needed unit min_repeats single =
    if single_bar single && (length unit == 1 || is_uniform unit)
    then single_or min_repeats single
    else if leb long_unit_words (length unit)
    then min min_repeats min_repeats_long_unit
    else min_repeats

module _ (seq : List Text) where
  -- The loop that counts copies of the unit, where `repeats` are known. The fuel is the length of the
  -- sequence.
  unfoldable pub copies_from : ℕ → ℕ → ℕ → ℕ
  copies_from unit_len zero repeats = repeats
  copies_from unit_len (suc fuel) repeats =
      let more = copies_from unit_len fuel (suc repeats) in
      if same_units (take unit_len (drop (repeats * unit_len) seq)) (take unit_len seq)
      then more
      else repeats

  module _ (min_repeats : ℕ) (single : Option ℕ) where
    -- What follows the count of a unit of length `unit_len`.
    pub judge : ℕ → ℕ → Option (List Text × ℕ)
    judge unit_len repeats =
        let n = length seq in
        let unit = take unit_len seq in
        let covered = repeats * unit_len in
        let truncated = ltb covered n && same_units (take (n - covered) unit) (drop covered seq) in
        let counted = if truncated && leb long_unit_words unit_len then suc repeats else repeats in
        if ltb counted (repeats_needed unit min_repeats single)
        then none
        else if ltb (5 * (if truncated then n else covered)) (4 * n)
        then none
        else some (unit, counted * unit_len)

    first_some : Option (List Text × ℕ) → Option (List Text × ℕ) → Option (List Text × ℕ)
    first_some none o = o
    first_some (some p) o = some p

    -- The loop over unit lengths: `k` more of them, from `unit_len`.
    pub search_from : ℕ → ℕ → Option (List Text × ℕ)
    unfolding judge copies_from first_some
    search_from zero unit_len = none
    search_from (suc k) unit_len =
        first_some (judge unit_len (copies_from unit_len (length seq) 1))
          (search_from k (suc unit_len))

    unfoldable pub find_period : Option (List Text × ℕ)
    unfolding search_from single_or
    find_period =
        let n = length seq in
        let divisor =
          max 1
            (min min_repeats (min (single_or min_repeats single) (min_repeats_long_unit - 1))) in
        let found = search_from (min (n / divisor) max_period_unit_len) 1 in
        if ltb n 4 then none else found
