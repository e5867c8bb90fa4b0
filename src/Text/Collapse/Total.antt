-- ===== src/Text/Collapse/Total.antt =====
-- `collapse_repetition` gives an answer for every text.
use voxedge.Base.{
  ℕ, ◌≤◌, ◌≡◌, refl, Bool, true, false, Option, none, some, [], arith, length, is_empty, any,
  Option-cases, inl, inr, if_intro, ltb,
}
use voxedge.Text.Strip.{Text, strip}
use voxedge.Text.Period.{find_period}
use voxedge.Text.Tail.{find_tail_period}
use voxedge.Text.Interior.{Run, find_interior_run}
use voxedge.Text.Interior.Found.{Best, find_interior_run-IsRun}
use voxedge.Text.Collapse.{
  Segment, units_of, segment_of, collapse_interior, or_interior, or_tail, collapse_repetition,
}
use voxedge.Text.Collapse.Units.{Within, segment_of-Within}
use voxedge.Text.Collapse.Indices.{AtLeastThree, find_period_lt, find_tail_period_lt, IsRun-lt}
use voxedge.Text.Collapse.Stretch.{
  Collapses, Cut, letters, length-map, segment_of-Lettered, whole-Cut, tail-Cut, run-Cut,
}

module _ (blank : ℕ → Bool) where
  abbrev HasBars : Segment → Type 0
  HasBars g = (3 ≤ g.min_repeats) × AtLeastThree g.single

  segment_of-HasBars : (t : Text) → HasBars (segment_of blank t)
  unfolding segment_of
  segment_of-HasBars t =
      if_intro HasBars (any blank t) _ _ (λ _. (omega arith, tt)) (λ _. (omega arith, omega arith))

  module _ (text : Text) (g : Segment) (w : Within 0 (length g.stripped) g.units)
      (spaced : letters blank g.joiner ≡ []) (bars : HasBars g) where
    abbrev Ends : Option (Text × Bool) → Type 0
    Ends o = Cut blank text g w spaced o

    same_length : length (units_of g) ≡ length g.units
    same_length = length-map g.units

    interior-Ends :
        (best : Option Run)
        → Best (units_of g) 6 (some 20) best
        → Ends (collapse_interior blank g text (some best))
    unfolding collapse_interior
    interior-Ends none h = refl
    interior-Ends (some r) h =
        let (p, q) = IsRun-lt (units_of g) 6 (some 20) r (omega arith) (omega arith) h in
        run-Cut blank text g w spaced r h.0 (omega (arith, p, same_length)) q

    inner-Ends : Ends (collapse_interior blank g text (find_interior_run (units_of g) 6 (some 20)))
    inner-Ends =
        let (best, e, h) = find_interior_run-IsRun (units_of g) 6 (some 20) (omega arith) in
        rw e (interior-Ends best h)

    or_interior-Ends : Ends (or_interior blank g text (find_tail_period (units_of g)))
    unfolding or_interior
    or_interior-Ends = elim (Option-cases (find_tail_period (units_of g))) [
      | inl e ↦ rw e inner-Ends
      | inr ((u, start), e) ↦
          let (p, q) = find_tail_period_lt (units_of g) u start e in
          rw e (
            if_intro Ends (ltb 0 start) _ _
              (λ _. tail-Cut blank text g w spaced u start p (omega (arith, q, same_length)))
              (λ _. inner-Ends))
    ]

    or_tail-Ends : Ends (or_tail blank g text (find_period (units_of g) g.min_repeats g.single))
    unfolding or_tail
    or_tail-Ends = elim (Option-cases (find_period (units_of g) g.min_repeats g.single)) [
      | inl e ↦ rw e or_interior-Ends
      | inr ((u, c), e) ↦
          let (one, p, q) =
            find_period_lt (units_of g) g.min_repeats g.single u c bars.0 bars.1 e in
          rw e (whole-Cut blank text g w spaced u c one (omega (arith, p, same_length)) q)
    ]

  as_Collapses :
      (text : Text) (w : _) (spaced : _) (o : Option (Text × Bool))
      → Cut blank text (segment_of blank (strip blank text)) w spaced o
      → Collapses blank text o
  as_Collapses text w spaced none h = h
  as_Collapses text w spaced (some (t, true)) h = h
  as_Collapses text w spaced (some (t, false)) h = h

  -- For every text there is an answer: no index is out of range and no loop runs out of fuel. Either
  -- it is the text itself. Or a stretch of the text, stripped, goes, from the start of a unit that is
  -- not the first to that of a later unit or the end; blanks and separators aside, the answer is what
  -- stands before the stretch and what stands after it.
  pub collapse_repetition-Collapses :
      (text : Text) → Collapses blank text (collapse_repetition blank text)
  unfolding collapse_repetition
  collapse_repetition-Collapses text =
      let stripped = strip blank text in
      let g = segment_of blank stripped in
      if_intro (Collapses blank text) (is_empty stripped) (some (text, false)) _ (λ _. refl)
        (λ _.
          let w = segment_of-Within blank stripped in
          let spaced = segment_of-Lettered blank stripped in
          as_Collapses text w spaced
            (or_tail blank g text (find_period (units_of g) g.min_repeats g.single))
            (or_tail-Ends text g w spaced (segment_of-HasBars stripped)))
