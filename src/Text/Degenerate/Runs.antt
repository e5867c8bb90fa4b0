-- ===== src/Text/Degenerate/Runs.antt =====
-- The loop of `collapse_segment_repeats` against a definition by runs.
use voxedge.Base.{
  ℕ, suc, ◌+◌, ◌-◌, ◌≡◌, refl, ap, ◌∙◌, sym, Bool, true, false, Option, none, some, List, [], ◌∷◌,
  ◌++◌, append_assoc, arith, length, length-append, get_elem?, take, if◌then◌else◌, Bool-cases, inl,
  inr,
}
use voxedge.Text.Strip.{Text}
use voxedge.Text.Degenerate.{
  Kept, enough, continues, trimmed, trim, last_of, segment_step, segment_loop,
  collapse_segment_repeats,
}

-- The last text of a run.
abbrev pub end_of : Text → List Text → Text
end_of h [] = h
end_of h (t ∷ ts) = end_of t ts

last_of-run : (h : Text) (run : List Text) → last_of (some h) run ≡ some (end_of h run)
unfolding last_of
last_of-run h [] = refl
last_of-run h (t ∷ ts) = last_of-run t ts

last_of-end :
    (o : Option Text) (front : List Text) (h : Text) (run : List Text)
    → last_of o (front ++ (h ∷ run)) ≡ some (end_of h run)
unfolding last_of
last_of-end o [] h run = last_of-run h run
last_of-end o (f ∷ fs) h run = last_of-end (some f) fs h run

pred_suc : (n : ℕ) → suc n - 1 ≡ n
pred_suc n = omega arith

add_zero : (n : ℕ) → n + 0 ≡ n
add_zero n = omega arith

module _ (blank : ℕ → Bool) where
  -- What is kept of a run after its first text.
  abbrev pub rest_kept : Text → List Text → List Text
  rest_kept h run = if enough blank (suc (length run)) h then [] else run

  -- What is kept after the first text `h` of a run that goes on with `run`, and then of `ts`.
  unfoldable pub kept_after : Text → List Text → List Text → List Text
  kept_after h run [] = rest_kept h run
  kept_after h run (t ∷ ts) =
      let longer = kept_after h (run ++ (t ∷ [])) ts in
      let next = kept_after t [] ts in
      if continues blank t (some (end_of h run)) then longer else rest_kept h run ++ (t ∷ next)

  unfoldable pub by_runs : List Text → List Text
  by_runs [] = []
  by_runs (t ∷ ts) = t ∷ kept_after t [] ts

  -- The variables of the loop in a run.
  abbrev at_run : List Text → Text → List Text → ℕ → Kept
  at_run front h run d = record { kept = front ++ (h ∷ run); dropped = d; run_start = length front }

  get_elem?-append :
      (front : List Text) (h : Text) (run : List Text)
      → get_elem? (front ++ (h ∷ run)) (length front) ≡ some h
  get_elem?-append [] h run = refl
  get_elem?-append (f ∷ fs) h run = get_elem?-append fs h run

  take-append :
      (front : List Text) (h : Text) (run : List Text)
      → take (suc (length front)) (front ++ (h ∷ run)) ≡ front ++ (h ∷ [])
  take-append [] h run = refl
  take-append (f ∷ fs) h run = ap (λ l. f ∷ l) (take-append fs h run)

  run-length :
      (front : List Text) (h : Text) (run : List Text)
      → length (front ++ (h ∷ run)) - length front ≡ suc (length run)
  run-length front h run = omega (arith, length-append front (h ∷ run))

  -- What `dropped` grows by when a run ends.
  abbrev lost : Text → List Text → ℕ
  lost h run = if enough blank (suc (length run)) h then length run else 0

  trim-run :
      (front : List Text) (h : Text) (run : List Text) (d : ℕ)
      → trim blank (at_run front h run d) ≡ at_run front h (rest_kept h run) (d + lost h run)
  unfolding trim trimmed
  trim-run front h run d =
      rw (get_elem?-append front h run, run-length front h run, take-append front h run)
        (elim (Bool-cases (enough blank (suc (length run)) h)) [
          | inl k ↦ rw (k, pred_suc (length run)) refl
          | inr k ↦ rw (k, add_zero d) refl
        ])

  kept_run :
      (front : List Text) (h : Text) (run : List Text) (t : Text)
      → (front ++ (h ∷ run)) ++ (t ∷ []) ≡ front ++ (h ∷ (run ++ (t ∷ [])))
  kept_run front h run t = append_assoc front (h ∷ run) (t ∷ [])

  step-longer :
      (front : List Text) (h : Text) (run : List Text) (d : ℕ) (t : Text)
      → continues blank t (some (end_of h run)) ≡ true
      → segment_step blank t (at_run front h run d) ≡ at_run front h (run ++ (t ∷ [])) d
  unfolding segment_step
  step-longer front h run d t e = rw (last_of-end none front h run, e, kept_run front h run t) refl

  step-next :
      (front : List Text) (h : Text) (run : List Text) (d : ℕ) (t : Text)
      → continues blank t (some (end_of h run)) ≡ false
      → segment_step blank t (at_run front h run d)
        ≡ at_run (front ++ (h ∷ rest_kept h run)) t [] (d + lost h run)
  unfolding segment_step
  step-next front h run d t e = rw (last_of-end none front h run, e, trim-run front h run d) refl

  -- The kept texts in the end, and the count.
  abbrev Ends : List Text → ℕ → Kept → Type 0
  Ends texts total k =
      ((trim blank k).kept ≡ texts) × (length (trim blank k).kept + (trim blank k).dropped ≡ total)

  rest-lost : (h : Text) (run : List Text) → length (rest_kept h run) + lost h run ≡ length run
  rest-lost h run = elim (Bool-cases (enough blank (suc (length run)) h)) [
    | inl k ↦ rw k (omega arith)
    | inr k ↦ rw k (add_zero (length run))
  ]

  kept-length :
      (front : List Text) (h : Text) (run : List Text) (d n : ℕ)
      → length (front ++ (h ∷ rest_kept h run)) + (d + lost h run) + n
        ≡ length front + suc (length run) + d + n
  kept-length front h run d n =
      let r = rest_kept h run in omega (arith, rest-lost h run, length-append front (h ∷ r))

  Ends-of :
      (texts texts' : List Text) (n n' : ℕ) (k k' : Kept)
      → texts' ≡ texts
      → n' ≡ n
      → k ≡ k'
      → Ends texts' n' k'
      → Ends texts n k
  Ends-of texts texts' n n' k k' e f g h = rw (sym e, sym f, g) h

  loop-Ends :
      (ts : List Text) (front : List Text) (h : Text) (run : List Text) (d : ℕ)
      → Ends
          (front ++ (h ∷ kept_after h run ts))
          (length front + suc (length run) + d + length ts)
          (segment_loop blank ts (at_run front h run d))
  unfolding segment_loop kept_after
  loop-Ends [] front h run d =
      rw (trim-run front h run d) (refl, omega (arith, kept-length front h run d 0))
  loop-Ends (t ∷ ts) front h run d =
      let c = continues blank t (some (end_of h run)) in
      let longer = kept_after h (run ++ (t ∷ [])) ts in
      let next = rest_kept h run ++ (t ∷ kept_after t [] ts) in
      elim (Bool-cases c) [
        | inl k ↦
            Ends-of (front ++ (h ∷ (if c then longer else next))) (front ++ (h ∷ longer))
              (length front + suc (length run) + d + suc (length ts))
              (length front + suc (length (run ++ (t ∷ []))) + d + length ts)
              (segment_loop blank ts (segment_step blank t (at_run front h run d)))
              (segment_loop blank ts (at_run front h (run ++ (t ∷ [])) d))
              (ap (λ b. front ++ (h ∷ (if b then longer else next))) (sym k))
              (omega (arith, length-append run (t ∷ [])))
              (ap (segment_loop blank ts) (step-longer front h run d t k))
              (loop-Ends ts front h (run ++ (t ∷ [])) d)
        | inr k ↦
            Ends-of (front ++ (h ∷ (if c then longer else next)))
              ((front ++ (h ∷ rest_kept h run)) ++ (t ∷ kept_after t [] ts))
              (length front + suc (length run) + d + suc (length ts))
              (length (front ++ (h ∷ rest_kept h run)) + 1 + (d + lost h run) + length ts)
              (segment_loop blank ts (segment_step blank t (at_run front h run d)))
              (segment_loop blank ts
                (at_run (front ++ (h ∷ rest_kept h run)) t [] (d + lost h run)))
              (append_assoc front (h ∷ rest_kept h run) (t ∷ kept_after t [] ts)
                ∙ ap (λ b. front ++ (h ∷ (if b then longer else next))) (sym k))
              (omega (arith, kept-length front h run d (suc (length ts))))
              (ap (segment_loop blank ts) (step-next front h run d t k))
              (loop-Ends ts (front ++ (h ∷ rest_kept h run)) t [] (d + lost h run))
      ]

  abbrev empty : Kept
  empty = record { kept = []; dropped = 0; run_start = 0 }

  first_step : (t : Text) → segment_step blank t empty ≡ at_run [] t [] 0
  unfolding segment_step trim trimmed last_of continues
  first_step t = refl

  -- The loop over indices keeps what the definition by runs keeps, and counts what it drops: the kept
  -- and the dropped texts are as many as the given.
  pub collapse_by_runs :
      (texts : List Text)
      → ((collapse_segment_repeats blank texts).0 ≡ by_runs texts)
        × (length (collapse_segment_repeats blank texts).0
              + (collapse_segment_repeats blank texts).1
            ≡ length texts)
  unfolding collapse_segment_repeats by_runs segment_loop
  collapse_by_runs [] = (refl, refl)
  collapse_by_runs (t ∷ ts) =
      Ends-of (t ∷ kept_after t [] ts) (t ∷ kept_after t [] ts) (suc (length ts))
        (0 + 1 + 0 + length ts) (segment_loop blank ts (segment_step blank t empty))
        (segment_loop blank ts (at_run [] t [] 0)) refl (omega arith)
        (ap (segment_loop blank ts) (first_step t)) (loop-Ends ts [] t [] 0)
