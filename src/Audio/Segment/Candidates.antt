-- ===== src/Audio/Segment/Candidates.antt =====
-- Where the cut candidates lie.
use native.Mathlib.Nat.{add-zero, eq-or-lt_of_le}
use voxedge.Base.{
  ℕ, suc, ◌+◌, ◌-◌, ◌*◌, ◌/◌, ◌≤◌, ◌<◌, ◌≡◌, refl, ap, ◌∙◌, Option, none, some, List, [], ◌∷◌, Bool,
  true, false, arith, inl, inr, leb, get_elem?, All, All-append, if_intro,
}
use voxedge.Audio.Segment.{cut_of, cut_candidates}

-- A candidate starts a frame that is silent.
abbrev pub AtSilence : ℕ → List Bool → ℕ → Type 0
AtSilence frame_len frames c = (k : ℕ) × (c ≡ k * frame_len) × (get_elem? frames k ≡ some true)

module _ (frame_len min_run : ℕ) (some_run : 0 < min_run) (frames : List Bool) where
  -- A run of silent frames from `s` to before `i`.
  Run : ℕ → ℕ → Type 0
  Run s i = (k : ℕ) → s ≤ k → k < i → get_elem? frames k ≡ some true

  abbrev State : Option ℕ → ℕ → Type 0
  State none i = Unit
  State (some s) i = (s < i) × Run s i

  cut_of-AtSilence :
      (o : Option ℕ) (i : ℕ)
      → State o i
      → All (AtSilence frame_len frames) (cut_of frame_len min_run o i)
  unfolding cut_of Run
  cut_of-AtSilence none i h = tt
  cut_of-AtSilence (some s) i h =
      if_intro (All (AtSilence frame_len frames)) (leb min_run (i - s)) _ _
        (λ e. (((s + i) / 2, refl, h.1 ((s + i) / 2) (omega arith) (omega (arith, h.0))), tt))
        (λ e. tt)

  -- The frames from `i` on are the list.
  From : ℕ → List Bool → Type 0
  From i r = (k : ℕ) → get_elem? frames (i + k) ≡ get_elem? r k

  From-head : (i : ℕ) (b : Bool) (r : List Bool) → From i (b ∷ r) → get_elem? frames i ≡ some b
  unfolding From
  From-head i b r f = rw add-zero at (f 0)

  From-tail : (i : ℕ) (b : Bool) (r : List Bool) → From i (b ∷ r) → From (suc i) r
  unfolding From
  From-tail i b r f = λ k. ap (get_elem? frames) (omega arith) ∙ f (suc k)

  Run-suc : (s i : ℕ) → Run s i → get_elem? frames i ≡ some true → Run s (suc i)
  unfolding Run
  Run-suc s i h e = λ k p q. elim (eq-or-lt_of_le (let below : k ≤ i = omega arith in below)) [
    | inl same ↦ ap (get_elem? frames) same ∙ e
    | inr before ↦ h k p before
  ]

  Run-one : (i : ℕ) → get_elem? frames i ≡ some true → Run i (suc i)
  unfolding Run
  Run-one i e = λ k p q. ap (get_elem? frames) (omega arith) ∙ e

  candidates-AtSilence :
      (o : Option ℕ) (i : ℕ) (r : List Bool)
      → State o i
      → From i r
      → All (AtSilence frame_len frames) (cut_candidates frame_len min_run o i r)
  unfolding cut_candidates
  candidates-AtSilence o i [] h f = cut_of-AtSilence o i h
  candidates-AtSilence none i (true ∷ r) h f =
      candidates-AtSilence (some i) (suc i) r (omega arith, Run-one i (From-head i true r f))
        (From-tail i true r f)
  candidates-AtSilence (some s) i (true ∷ r) h f =
      candidates-AtSilence (some s) (suc i) r
        (omega (arith, h.0), Run-suc s i h.1 (From-head i true r f)) (From-tail i true r f)
  candidates-AtSilence o i (false ∷ r) h f =
      All-append (AtSilence frame_len frames) (cut_of frame_len min_run o i)
        (cut_candidates frame_len min_run none (suc i) r) (cut_of-AtSilence o i h)
        (candidates-AtSilence none (suc i) r tt (From-tail i false r f))

-- Where a silent run must have at least one frame, every candidate that the loop over frames finds
-- is the start of a silent frame.
pub cut_candidates-AtSilence :
    (frame_len min_run : ℕ) (frames : List Bool) (some_run : 0 < min_run)
    → All (AtSilence frame_len frames) (cut_candidates frame_len min_run none 0 frames)
cut_candidates-AtSilence frame_len min_run frames some_run =
    candidates-AtSilence frame_len min_run some_run frames none 0 frames tt
      (unfold From in λ k. ap (get_elem? frames) (omega arith))
