-- ===== src/Audio/Segment/Lengths.antt =====
-- How long a segment can be, after the passes that merge.
use voxedge.Base.{
  ℕ, ◌+◌, ◌-◌, ◌*◌, ◌≤◌, ◌<◌, ◌≡◌, refl, some, List, [], ◌∷◌, arith, Bool-cases, inl, inr, ltb,
  length, drop, ltb→lt, ltb→le, All, max, length-take,
}
use voxedge.Audio.Segment.{next_of, drop_fragments, pop_tails, slices, pick_cuts}
use voxedge.Audio.Segment.Cuts.{IsWide, greedy_total}

module _ (n max_seg min_frag min_tail : ℕ) (small : min_frag + min_tail ≤ max_seg)
    (frag : 2 * min_frag ≤ max_seg) where
  abbrev pub bound : ℕ
  bound = max_seg + max min_frag min_tail

  -- Neighbours are at most `bound` apart.
  abbrev pub Near : ℕ → List ℕ → Type 0
  Near a [] = n ≤ a + bound
  Near a (c ∷ cs) = (c ≤ a + bound) × Near c cs

  pub passes : List ℕ → List ℕ
  passes cs = pop_tails n min_tail (drop_fragments n min_frag cs)

  -- A cut that is far enough from the next one and from the end stays.
  stays :
      (c : ℕ) (cs : List ℕ)
      → min_frag ≤ next_of n cs - c
      → min_tail ≤ n - c
      → passes (c ∷ cs) ≡ c ∷ passes cs
  unfolding passes drop_fragments pop_tails
  stays c cs h k = ground arith

  -- A cut with another after it is far from the end.
  far : (a c : ℕ) (cs : List ℕ) → IsWide n max_seg a (c ∷ cs) → a + max_seg < n
  far a c [] w = w.3
  far a c (d ∷ cs) w = omega arith

  drops : (c : ℕ) (cs : List ℕ) → next_of n cs - c < min_frag → passes (c ∷ cs) ≡ passes cs
  unfolding passes drop_fragments
  drops c cs h = ground arith

  pops : (c : ℕ) → min_frag ≤ n - c → n - c < min_tail → passes (c ∷ []) ≡ []
  unfolding passes drop_fragments pop_tails
  pops c h k = ground arith

  passes_nil : passes [] ≡ []
  unfolding passes drop_fragments pop_tails
  passes_nil = refl

  pub passes-Near : (a : ℕ) (cs : List ℕ) → IsWide n max_seg a cs → Near a (passes cs)
  passes-Near a [] w = rw passes_nil (omega arith)
  passes-Near a (c ∷ []) w = elim (Bool-cases (ltb (n - c) min_frag)) [
    | inl e ↦ rw (drops c [] (ltb→lt _ _ e), passes_nil) (omega (arith, ltb→lt _ _ e))
    | inr e ↦ elim (Bool-cases (ltb (n - c) min_tail)) [
      | inl f ↦ rw (pops c (ltb→le _ _ e) (ltb→lt _ _ f)) (omega (arith, ltb→lt _ _ f))
      | inr f ↦ rw (stays c [] (ltb→le _ _ e) (ltb→le _ _ f), passes_nil) (omega arith)
    ]
  ]
  passes-Near a (c ∷ d ∷ cs) w = elim (Bool-cases (ltb (d - c) min_frag)) [
    | inl e ↦
        let fragment = ltb→lt _ _ e in
        rw (drops c (d ∷ cs) fragment) (
          rw (stays d cs (omega arith) (omega (arith, far c d cs w.4)))
            (omega arith, passes-Near d cs w.4.4))
    | inr e ↦
        rw (stays c (d ∷ cs) (ltb→le _ _ e) (omega (arith, far c d cs w.4)))
          (omega arith, passes-Near c (d ∷ cs) w.4)
  ]

module _ {ℓ} {A : Type ℓ} (max_seg min_frag min_tail : ℕ) where
  slices-short :
      (small : min_frag + min_tail ≤ max_seg) (frag : 2 * min_frag ≤ max_seg) (audio : List A)
      (a : ℕ) (cs : List ℕ)
      → Near (length audio) max_seg min_frag min_tail small frag a cs
      → All (λ seg. length seg ≤ max_seg + max min_frag min_tail) (slices audio a cs)
  unfolding slices
  slices-short small frag audio a [] h =
      (omega (arith, length-take (length audio - a) (drop a audio)), tt)
  slices-short small frag audio a (c ∷ cs) h = (
    omega (arith, length-take (c - a) (drop a audio), h.0),
    slices-short small frag audio c cs h.1,
  )

  -- Where `max_seg` and `min_seg` are not 0, `min_frag` and `min_tail` together and twice `min_frag` are
  -- at most `max_seg`, and the fuel is more than the length of the audio, the split is made and no
  -- segment is longer than `max_seg` and the longer of `min_frag` and `min_tail` together.
  pub pick_cuts_bounded :
      (min_seg fuel : ℕ) (audio : List A) (cand : List ℕ)
      → 0 < max_seg
      → 0 < min_seg
      → min_frag + min_tail ≤ max_seg
      → 2 * min_frag ≤ max_seg
      → length audio < fuel
      → (segs : List (List A)) × (pick_cuts max_seg min_seg min_frag min_tail fuel audio cand
          ≡ some segs)
        × All (λ seg. length seg ≤ max_seg + max min_frag min_tail) segs
  unfolding pick_cuts
  pick_cuts_bounded min_seg fuel audio cand p q small frag h =
      let n = length audio in
      let (cs, run, w, _) =
        greedy_total n cand max_seg min_seg q p fuel 0 (omega arith) (omega arith) in
      let cuts = passes n max_seg min_frag min_tail small frag cs in
      (
        slices audio 0 cuts,
        unfold passes in rw (run, pick_cuts),
        slices-short small frag audio 0 cuts
            (passes-Near n max_seg min_frag min_tail small frag 0 cs w),
      )
