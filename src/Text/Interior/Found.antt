-- ===== src/Text/Interior/Found.antt =====
-- What `_find_interior_run` finds.
use native.Mathlib.Nat.{one-le-mul}
use voxedge.Base.{
  ℕ, zero, suc, ◌+◌, ◌*◌, ◌/◌, min, ◌≤◌, ◌<◌, ◌≡◌, refl, ◌||◌, Option, none, some, List, arith,
  length, take, drop, length-drop, if_intro, if◌then◌else◌, ltb, leb, leb→le,
}
use voxedge.Text.Strip.{Text}
use voxedge.Text.Period.{repeats_needed, min_repeats_long_unit}
use voxedge.Text.Period.Copies.{Counts, copies_from-Counts, copies_from-positive}
use voxedge.Text.Period.Found.{one-repeated}
use voxedge.Text.Tail.{max_tail_scan_units}
use voxedge.Text.Interior.{
  Run, larger_run, repeats_at, scan, scan_lengths, find_interior_run, max_interior_unit_len,
}

module _ (seq : List Text) (min_repeats : ℕ) (single : Option ℕ) where
  -- The run is that many copies of its first unit, which are enough, and no further copy follows.
  abbrev pub IsRun : Run → Type 0
  IsRun r =
      (1 ≤ r.unit_len)
      × Counts (drop r.start seq) r.unit_len r.repeats
      × (repeats_needed (take r.unit_len (drop r.start seq)) min_repeats single ≤ r.repeats)

  -- A run, if there is one, is right.
  abbrev pub Best : Option Run → Type 0
  Best none = Unit
  Best (some r) = IsRun r

  -- A loop that ends, with a run that is right.
  abbrev Finds : Option (Option Run) → Type 0
  Finds none = ⊥
  Finds (some o) = Best o

  larger_run-Best : (o : Option Run) (r : Run) → Best o → IsRun r → Best (larger_run o r)
  unfolding larger_run
  larger_run-Best none r h k = k
  larger_run-Best (some b) r h k =
      if_intro Best (ltb (b.repeats * b.unit_len) (r.repeats * r.unit_len)) (some r) (some b)
        (λ _. k) (λ _. h)

  scan-Finds :
      (l fuel i : ℕ) (best : Option Run)
      → 1 ≤ l
      → 1 ≤ min_repeats
      → 1 ≤ fuel
      → length seq + 1 < fuel + i
      → Best best
      → Finds (scan seq min_repeats single l fuel i best)
  unfolding scan
  scan-Finds l zero i best p m o q h = absurd (omega (arith, o))
  scan-Finds l (suc fuel) i best p m o q h =
      let n = length seq in
      let floor = min min_repeats min_repeats_long_unit in
      let s = drop i seq in
      let r = repeats_at seq min_repeats single l i in
      let run : Run = record { start = i; unit_len = l; repeats = r } in
      let need = repeats_needed (take l s) min_repeats single in
      let after = scan seq min_repeats single l fuel (i + r * l) (larger_run best run) in
      let next = scan seq min_repeats single l fuel (suc i) best in
      let pos = one-le-mul {a = l} {b = floor} p (omega (arith, m)) in
      let far = one-le-mul {a = r} {b = l} (copies_from-positive s l n 1 (omega arith)) p in
      if_intro Finds (leb (i + l * floor) n) (if leb need r then after else next) (some best)
        (λ g.
          let room : i + l * floor ≤ n = leb→le (i + l * floor) n g in
          if_intro Finds (leb need r) after next
            (λ e.
              scan-Finds l fuel (i + r * l) (larger_run best run) p m (omega (arith, room, pos, q))
                (omega (arith, q, far))
                (larger_run-Best best run h (
                  p,
                  copies_from-Counts s l n 1 p (omega (arith, length-drop i seq, room, pos))
                      (omega (arith, length-drop i seq)) (one-repeated s min_repeats single l),
                  leb→le need r e,
                )))
            (λ e.
              scan-Finds l fuel (suc i) best p m (omega (arith, room, pos, q)) (omega (arith, q))
                h))
        (λ g. h)

  next_length :
      (k l : ℕ) (o : Option (Option Run))
      → Finds o
      → ((b : Option Run) → Best b → Finds (scan_lengths seq min_repeats single k (suc l) b))
      → Finds (elim o [
        | none ↦ none
        | some best' ↦ scan_lengths seq min_repeats single k (suc l) best'
      ])
  next_length k l none h f = absurd h
  next_length k l (some b) h f = f b h

  scan_lengths-Finds :
      (k l : ℕ) (best : Option Run)
      → 1 ≤ l
      → 1 ≤ min_repeats
      → Best best
      → Finds (scan_lengths seq min_repeats single k l best)
  unfolding scan_lengths
  scan_lengths-Finds zero l best p m h = h
  scan_lengths-Finds (suc k) l best p m h =
      next_length k l (scan seq min_repeats single l (suc (suc (length seq))) 0 best)
        (scan-Finds l (suc (suc (length seq))) 0 best p m (omega arith) (omega arith) h)
        (λ b g. scan_lengths-Finds k (suc l) b (omega arith) m g)

  interior-Finds : 1 ≤ min_repeats → Finds (find_interior_run seq min_repeats single)
  unfolding find_interior_run
  interior-Finds m =
      let n = length seq in
      let k = min max_interior_unit_len (n / min min_repeats min_repeats_long_unit) in
      if_intro Finds (ltb n 4 || ltb max_tail_scan_units n) (some none)
        (scan_lengths seq min_repeats single k 1 none) (λ _. tt)
        (λ _. scan_lengths-Finds k 1 none (omega arith) m tt)

  found : (o : Option (Option Run)) → Finds o → (best : Option Run) × (o ≡ some best) × Best best
  found none h = absurd h
  found (some best) h = (best, refl, h)

  -- Where `min_repeats` is not 0, the loops end; and a run that they find is that many copies of its
  -- unit from its start on, enough of them by `repeats_needed`, and no further copy follows.
  pub find_interior_run-IsRun :
      1 ≤ min_repeats
      → (best : Option Run) × (find_interior_run seq min_repeats single ≡ some best) × Best best
  find_interior_run-IsRun m = found (find_interior_run seq min_repeats single) (interior-Finds m)
