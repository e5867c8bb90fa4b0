-- ===== src/Audio/Segment.antt =====
-- audio/segment.py: long audio is split at silence. Lengths and positions are sample counts: the
-- callers' `round(seconds * sr)` are done before. What is silence (frame RMS, or webrtcvad) is a test
-- on frames.
pub mod Cuts
pub mod Lossless
pub mod Lengths
pub mod Candidates
mod Tests
use voxedge.Base.{
  ℕ, zero, suc, ◌+◌, ◌-◌, ◌*◌, ◌/◌, max, Bool, true, false, not, ◌&&◌, Option, none, some, List, [],
  ◌∷◌, ◌++◌, length, take, drop, ltb, leb, ◌==◌, is_empty, if◌then◌else◌,
}

abbrev pub larger : Bool → ℕ → Option ℕ → Option ℕ
larger false c o = o
larger true c none = some c
larger true c (some d) = some (max c d)

-- The largest candidate from `lo` to `target`: `cand[mask][np.argmax(cand[mask])]`.
best : ℕ → ℕ → List ℕ → Option ℕ
best lo target [] = none
best lo target (c ∷ cs) = larger (leb lo c && leb c target) c (best lo target cs)

-- Cuts lie between 0 and the end `n`; the list `cuts` of the source is 0, they and `n`.
module _ (n : ℕ) where
  -- The cut after the last of the list, or its head.
  abbrev pub next_of : List ℕ → ℕ
  next_of [] = n
  next_of (c ∷ cs) = c

  module _ (cand : List ℕ) (max_seg min_seg : ℕ) where
    -- The cut after `last`: the best candidate, or else a hard cut.
    pub next_cut : ℕ → ℕ
    next_cut last = elim (best (last + min_seg) (last + max_seg) cand) [
      | none ↦ last + max_seg
      | some c ↦ c
    ]

    -- The greedy loop; `none` if the fuel runs out.
    pub greedy : ℕ → ℕ → Option (List ℕ)
    greedy zero last = none
    greedy (suc fuel) last =
        let c = next_cut last in
        let rest : Option (List ℕ) = elim (greedy fuel c) [
          | none ↦ none
          | some cs ↦ some (c ∷ cs)
        ] in
        if ltb max_seg (n - last) then rest else some []

  -- The pass that merges a fragment into the segment before it.
  drop_fragments : ℕ → List ℕ → List ℕ
  drop_fragments min_frag [] = []
  drop_fragments min_frag (c ∷ cs) =
      let rest = drop_fragments min_frag cs in
      if ltb (next_of cs - c) min_frag then rest else c ∷ rest

  -- The loop that pops cuts from the back: a cut goes if all after it went and the end is too near.
  pop_tails : ℕ → List ℕ → List ℕ
  pop_tails min_tail [] = []
  pop_tails min_tail (c ∷ cs) =
      let rest = pop_tails min_tail cs in
      if is_empty rest && ltb (n - c) min_tail then [] else c ∷ rest

module _ {ℓ} {A : Type ℓ} where
  -- `audio[a:c]` for neighbouring cuts.
  slices : List A → ℕ → List ℕ → List (List A)
  slices audio a [] = take (length audio - a) (drop a audio) ∷ []
  slices audio a (c ∷ cs) = take (c - a) (drop a audio) ∷ slices audio c cs

  module _ (max_seg min_seg min_frag min_tail : ℕ) where
    pub pick_cuts : ℕ → List A → List ℕ → Option (List (List A))
    unfolding drop_fragments pop_tails slices
    pick_cuts fuel audio cand =
        let n = length audio in
        elim (greedy n cand max_seg min_seg fuel 0) [
          | none ↦ none
          | some cs ↦ some (slices audio 0 (pop_tails n min_tail (drop_fragments n min_frag cs)))
        ]

-- A silent run from frame `start` to before frame `i` gives its middle, if it is long enough.
cut_of : ℕ → ℕ → Option ℕ → ℕ → List ℕ
cut_of frame_len min_run none i = []
cut_of frame_len min_run (some start) i =
    if leb min_run (i - start) then ((start + i) / 2) * frame_len ∷ [] else []

-- The loop over frames; `i` is the frame, `run_start` the start of the silent run before it.
pub cut_candidates : ℕ → ℕ → Option ℕ → ℕ → List Bool → List ℕ
unfolding cut_of
cut_candidates frame_len min_run run_start i [] = cut_of frame_len min_run run_start i
cut_candidates frame_len min_run none i (true ∷ r) =
    cut_candidates frame_len min_run (some i) (suc i) r
cut_candidates frame_len min_run (some s) i (true ∷ r) =
    cut_candidates frame_len min_run (some s) (suc i) r
cut_candidates frame_len min_run run_start i (false ∷ r) =
    cut_of frame_len min_run run_start i ++ cut_candidates frame_len min_run none (suc i) r

module _ {ℓ} {A : Type ℓ} where
  -- The first `k` frames, each tested.
  silences : (List A → Bool) → ℕ → ℕ → List A → List Bool
  silences silent frame_len zero audio = []
  silences silent frame_len (suc k) audio =
      silent (take frame_len audio) ∷ silences silent frame_len k (drop frame_len audio)

  -- Both splitters: `silent` tells `rms < split_rms`, or that webrtcvad finds no speech.
  module _ (silent : List A → Bool) (frame_len min_run max_seg min_seg min_frag min_tail : ℕ) where
    pub split_at_silence : List A → Option (List (List A))
    unfolding silences cut_candidates
    split_at_silence audio =
        let n_frames = length audio / frame_len in
        let cand =
          cut_candidates frame_len (max 1 min_run) none 0
            (silences silent frame_len n_frames audio) in
        let cut = pick_cuts max_seg min_seg min_frag min_tail (suc (length audio)) audio cand in
        if leb (length audio) max_seg
        then some (audio ∷ [])
        else if n_frames == 0
        then some (audio ∷ [])
        else cut
