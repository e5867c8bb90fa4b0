-- ===== src/Audio/Segment/Cuts.antt =====
-- The greedy loop: it ends, and where its cuts lie.
use voxedge.Base.{
  ℕ, zero, suc, ◌+◌, ◌-◌, ◌≤◌, ◌<◌, ◌≡◌, refl, none, some, List, [], ◌∷◌, arith, Bool-cases,
  Option-cases, inl, inr, ltb, ltb→lt, ltb→le, ◌⊎◌,
}
use voxedge.Audio.Segment.{best, next_of, next_cut, greedy}

best_bounds : (lo t c : ℕ) (cs : List ℕ) → best lo t cs ≡ some c → (lo ≤ c) × (c ≤ t)
unfolding best
best_bounds lo t c [] h = cc
best_bounds lo t c (d ∷ cs) h = elim (Option-cases (best lo t cs)) [
  | inl e ↦ ground (arith, e)
  | inr (a, e) ↦ ground (arith, e, best_bounds lo t a cs e)
]

-- Where there is no best candidate, none is in the range.
best-none :
    (lo t lo' t' d : ℕ) (cs : List ℕ)
    → best lo t cs ≡ none
    → best lo' t' cs ≡ some d
    → lo ≤ d
    → d ≤ t
    → ⊥
unfolding best
best-none lo t lo' t' d [] h k p q = cc
best-none lo t lo' t' d (e ∷ cs) h k p q = elim (Option-cases (best lo t cs)) [
  | inl u ↦ elim (Option-cases (best lo' t' cs)) [
    | inl v ↦ ground (arith, u, v)
    | inr (a, v) ↦ ground (arith, u, v, best-none lo t lo' t' a cs u v)
  ]
  | inr (b, u) ↦ ground (arith, u)
]

-- No candidate in the range of a best one is larger.
best_max :
    (lo t lo' t' c d : ℕ) (cs : List ℕ)
    → best lo t cs ≡ some c
    → best lo' t' cs ≡ some d
    → lo ≤ d
    → d ≤ t
    → d ≤ c
unfolding best
best_max lo t lo' t' c d [] h k p q = cc
best_max lo t lo' t' c d (e ∷ cs) h k p q = elim (Option-cases (best lo t cs)) [
  | inl u ↦ elim (Option-cases (best lo' t' cs)) [
    | inl v ↦ ground (arith, u, v)
    | inr (a, v) ↦ ground (arith, u, v, best-none lo t lo' t' a cs u v)
  ]
  | inr (b, u) ↦ elim (Option-cases (best lo' t' cs)) [
    | inl v ↦ ground (arith, u, v)
    | inr (a, v) ↦ ground (arith, u, v, best_max lo t lo' t' b a cs u v)
  ]
]

module _ (n max_seg : ℕ) where
  -- What a list of cuts after `a` keeps: neighbours are at most `max_seg` apart, and the next but one
  -- is farther.
  abbrev pub IsWide : ℕ → List ℕ → Type 0
  IsWide a [] = (a ≤ n) × (n ≤ a + max_seg)
  IsWide a (c ∷ cs) =
      (a < c) × (c ≤ a + max_seg) × (c < n) × (a + max_seg < next_of n cs) × IsWide c cs

module _ (n : ℕ) (cand : List ℕ) (max_seg min_seg : ℕ) (some_gap : 0 < min_seg)
    (room : 0 < max_seg) where
  abbrev next : ℕ → ℕ
  next = next_cut n cand max_seg min_seg

  next_cut_cases :
      (last : ℕ)
      → ((best (last + min_seg) (last + max_seg) cand ≡ none) × (next last ≡ last + max_seg))
        ⊎ (best (last + min_seg) (last + max_seg) cand ≡ some (next last))
  unfolding next_cut
  next_cut_cases last = elim (Option-cases (best (last + min_seg) (last + max_seg) cand)) [
    | inl e ↦ inl (e, ground (arith, e))
    | inr (c, e) ↦ inr (ground (arith, e))
  ]

  next_cut_bounds : (last : ℕ) → (last < next last) × (next last ≤ last + max_seg)
  next_cut_bounds last = elim (next_cut_cases last) [
    | inl e ↦ omega (arith, e.1)
    | inr e ↦ omega (arith, best_bounds (last + min_seg) (last + max_seg) (next last) cand e)
  ]

  -- Two cuts in a row pass `max_seg`.
  next_cut_wide : (last : ℕ) → last + max_seg < next (next last)
  next_cut_wide last =
      let c = next last in
      let one = next_cut_bounds last in
      let two = next_cut_bounds c in
      elim (next_cut_cases last) [
        | inl e ↦ omega (arith, e.1, two)
        | inr e ↦ elim (next_cut_cases c) [
          | inl f ↦ omega (arith, f.1, one)
          | inr f ↦ elim (Bool-cases (ltb (last + max_seg) (next c))) [
            | inl k ↦ ltb→lt _ _ k
            | inr k ↦ absurd (
                omega (
                  arith,
                  ltb→le _ _ k,
                  one,
                  two,
                  best_max (last + min_seg) (last + max_seg) (c + min_seg) (c + max_seg) c (next c)
                      cand e f
                      (omega
                        (arith, one, two, best_bounds (last + min_seg) (last + max_seg) c cand e))
                      (ltb→le _ _ k),
                ))
          ]
        ]
      ]

  -- With fuel for every sample the loop ends.
  pub greedy_total :
      (fuel last : ℕ)
      → n < last + fuel
      → last ≤ n
      → (cs : List ℕ) × (greedy n cand max_seg min_seg fuel last ≡ some cs)
        × IsWide n max_seg last cs
        × ((next_of n cs ≡ n) ⊎ (next_of n cs ≡ next last))
  unfolding greedy
  greedy_total zero last h k = absurd (omega arith)
  greedy_total (suc fuel) last h k = elim (Bool-cases (ltb max_seg (n - last))) [
    | inr e ↦ ([], rw e, (k, ground arith), inl refl)
    | inl e ↦
        let c = next last in
        let at = next_cut_bounds last in
        let below : c < n = omega (arith, ltb→lt _ _ e, at) in
        let wide = next_cut_wide last in
        let (cs, run, w, head) = greedy_total fuel c (omega (arith, at)) (omega (arith, below)) in
        (
          c ∷ cs,
          rw (e, run),
          (at.0, at.1, below, omega (arith, head, wide, ltb→lt _ _ e), w),
          inr refl,
        )
  ]
