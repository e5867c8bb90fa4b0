-- ===== src/Text/Tail.antt =====
-- text/degenerate.py: `_find_tail_period`, the search for a unit whose copies end a segment. (Its
-- parameters are not used in the source.) Units are as in Text/Period.
pub mod Found
mod Tests
use voxedge.Base.{
  ℕ, zero, suc, ◌+◌, ◌-◌, ◌*◌, ◌/◌, min, Bool, true, false, not, ◌||◌, ◌&&◌, Option, none, some,
  List, [], ◌∷◌, length, take, drop, ltb, ◌==◌, if◌then◌else◌,
}
use voxedge.Text.Strip.{Text}
use voxedge.Text.Period.{same_units, repeats_needed, min_repeats_long_unit, max_period_unit_len}

abbrev pub min_tail_repeats : ℕ
min_tail_repeats = 6

abbrev pub min_tail_repeats_single_char : ℕ
min_tail_repeats_single_char = 12

abbrev pub max_tail_scan_units : ℕ
max_tail_scan_units = 2048

module _ (seq : List Text) where
  -- `seq[end - unit_len:end]`
  abbrev pub unit_at : ℕ → ℕ → List Text
  unit_at unit_len end = take unit_len (drop (end - unit_len) seq)

  -- The loop that counts copies before `end`, where `repeats` are known; the fuel is the length.
  pub copies_before : ℕ → ℕ → ℕ → ℕ → ℕ
  copies_before unit_len end zero repeats = repeats
  copies_before unit_len end (suc fuel) repeats =
      let more = copies_before unit_len end fuel (suc repeats) in
      let start = end - suc repeats * unit_len in
      if ltb end (suc repeats * unit_len)
      then repeats
      else if same_units (take unit_len (drop start seq)) (unit_at unit_len end)
      then more
      else repeats

  -- The body of the loop over phases, after the count: the number of units covered, and the unit.
  pub candidate : ℕ → ℕ → ℕ → Option (ℕ × List Text)
  candidate unit_len phase repeats =
      let end = length seq - phase in
      let unit = unit_at unit_len end in
      let covered = repeats * unit_len + phase in
      if not (phase == 0) && not (same_units (drop end seq) (take phase unit))
      then none
      else if ltb repeats (repeats_needed unit min_tail_repeats (some min_tail_repeats_single_char))
      then none
      else if ltb (2 * covered) (length seq)
      then none
      else some (covered, unit)

  pub better : Option (ℕ × List Text) → Option (ℕ × List Text) → Option (ℕ × List Text)
  better best none = best
  better none (some c) = some c
  better (some b) (some c) = if ltb b.0 c.0 then some c else some b

  -- The loop over phases: `k` more of them, from `phase`.
  pub phases_from : ℕ → ℕ → ℕ → Option (ℕ × List Text) → Option (ℕ × List Text)
  unfolding candidate better copies_before
  phases_from unit_len zero phase best = best
  phases_from unit_len (suc k) phase best =
      let repeats = copies_before unit_len (length seq - phase) (length seq) 1 in
      phases_from unit_len k (suc phase) (better best (candidate unit_len phase repeats))

  pub or_next : Option (ℕ × List Text) → Option (List Text × ℕ) → Option (List Text × ℕ)
  or_next none o = o
  or_next (some (covered, unit)) o = some (unit, length seq - covered)

  -- The loop over unit lengths: `k` more of them, from `unit_len`.
  pub tails_from : ℕ → ℕ → Option (List Text × ℕ)
  unfolding phases_from or_next
  tails_from zero unit_len = none
  tails_from (suc k) unit_len =
      or_next (phases_from unit_len unit_len 0 none) (tails_from k (suc unit_len))

  -- The unit and the start of its copies; `none` is the source's (None, n).
  unfoldable pub find_tail_period : Option (List Text × ℕ)
  unfolding tails_from
  find_tail_period =
      let n = length seq in
      let found =
        tails_from (min (n / min min_tail_repeats min_repeats_long_unit) max_period_unit_len) 1 in
      if ltb n 4 || ltb max_tail_scan_units n then none else found
