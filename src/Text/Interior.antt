-- ===== src/Text/Interior.antt =====
-- text/degenerate.py: `_find_interior_run`, the search for copies of a unit within a segment. Units are
-- as in Text/Period. `min_repeats` is not 0, which the source divides by.
pub mod Found
mod Tests
use voxedge.Base.{
  ℕ, zero, suc, ◌+◌, ◌*◌, ◌/◌, min, Bool, true, false, ◌||◌, Option, none, some, List, [], ◌∷◌,
  length, take, drop, ltb, leb, if◌then◌else◌,
}
use voxedge.Text.Strip.{Text}
use voxedge.Text.Tail.{max_tail_scan_units}
use voxedge.Text.Period.{copies_from, repeats_needed, min_repeats_long_unit}

abbrev pub max_interior_unit_len : ℕ
max_interior_unit_len = 12

-- The tuple `best`: what is covered is the product of the last two.
pub record Run : Type 0 where
  pub start : ℕ
  pub unit_len : ℕ
  pub repeats : ℕ

pub larger_run : Option Run → Run → Option Run
larger_run none r = some r
larger_run (some b) r =
    if ltb (b.repeats * b.unit_len) (r.repeats * r.unit_len) then some r else some b

module _ (seq : List Text) (min_repeats : ℕ) (single : Option ℕ) where
  abbrev pub repeats_at : ℕ → ℕ → ℕ
  repeats_at l i = copies_from (drop i seq) l (length seq) 1

  -- The loop over starts; `none` if the fuel runs out.
  pub scan : ℕ → ℕ → ℕ → Option Run → Option (Option Run)
  unfolding larger_run
  scan l zero i best = none
  scan l (suc fuel) i best =
      let r = repeats_at l i in
      let hit = leb (repeats_needed (take l (drop i seq)) min_repeats single) r in
      let run : Run = record { start = i; unit_len = l; repeats = r } in
      let after = scan l fuel (i + r * l) (larger_run best run) in
      let next = scan l fuel (suc i) best in
      if leb (i + l * min min_repeats min_repeats_long_unit) (length seq)
      then if hit then after else next
      else some best

  -- The loop over unit lengths: `k` more of them, from `l`.
  pub scan_lengths : ℕ → ℕ → Option Run → Option (Option Run)
  unfolding scan
  scan_lengths zero l best = some best
  scan_lengths (suc k) l best = elim (scan l (suc (suc (length seq))) 0 best) [
    | none ↦ none
    | some best' ↦ scan_lengths k (suc l) best'
  ]

  unfoldable pub find_interior_run : Option (Option Run)
  unfolding scan_lengths
  find_interior_run =
      let n = length seq in
      let scan_to = min max_interior_unit_len (n / min min_repeats min_repeats_long_unit) in
      let found = scan_lengths scan_to 1 none in
      if ltb n 4 || ltb max_tail_scan_units n then some none else found
