-- ===== src/Audio/Segment/Lossless.antt =====
-- Splitting loses no sample and repeats none.
use mathlib.Core.List.{flatten}
use native.Mathlib.Nat.{suc-add}
use voxedge.Base.{
  ℕ, zero, suc, ◌+◌, ◌-◌, ◌≤◌, ◌<◌, ◌≡◌, refl, ap, ◌∙◌, sym, some, List, [], ◌∷◌, ◌++◌, arith, ltb,
  leb, ◌==◌, length, take, drop, take-append-drop, append-nil, if_intro, Bool, ◌/◌, is_empty, ◌&&◌,
  length-drop, take_all,
}
use voxedge.Audio.Segment.{next_of, drop_fragments, pop_tails, slices, pick_cuts, split_at_silence}
use voxedge.Audio.Segment.Cuts.{IsWide, greedy_total}

-- Cuts that rise from `a` to `n`.
abbrev pub Rising : ℕ → ℕ → List ℕ → Type 0
Rising n a [] = a ≤ n
Rising n a (c ∷ cs) = (a ≤ c) × Rising n c cs

module _ (n : ℕ) where
  Rising-weaken : (a b : ℕ) (cs : List ℕ) → a ≤ b → Rising n b cs → Rising n a cs
  Rising-weaken a b [] h r = omega arith
  Rising-weaken a b (c ∷ cs) h r = (omega arith, r.1)

  IsWide-Rising : (m a : ℕ) (cs : List ℕ) → IsWide n m a cs → Rising n a cs
  IsWide-Rising m a [] w = w.0
  IsWide-Rising m a (c ∷ cs) w = (omega arith, IsWide-Rising m c cs w.4)

  drop_fragments-Rising :
      (f a : ℕ) (cs : List ℕ) → Rising n a cs → Rising n a (drop_fragments n f cs)
  unfolding drop_fragments
  drop_fragments-Rising f a [] r = r
  drop_fragments-Rising f a (c ∷ cs) r =
      let ih = drop_fragments-Rising f c cs r.1 in
      if_intro (Rising n a) (ltb (next_of n cs - c) f) _ _
        (λ e. Rising-weaken a c (drop_fragments n f cs) r.0 ih) (λ e. (r.0, ih))

  Rising-end : (a : ℕ) (cs : List ℕ) → Rising n a cs → a ≤ n
  Rising-end a [] r = r
  Rising-end a (c ∷ cs) r = omega (arith, Rising-end c cs r.1)

  pop_tails-Rising : (t a : ℕ) (cs : List ℕ) → Rising n a cs → Rising n a (pop_tails n t cs)
  unfolding pop_tails
  pop_tails-Rising t a [] r = r
  pop_tails-Rising t a (c ∷ cs) r =
      if_intro (Rising n a) (is_empty (pop_tails n t cs) && ltb (n - c) t) _ _
        (λ e. Rising-end a (c ∷ cs) r) (λ e. (r.0, pop_tails-Rising t c cs r.1))

module _ {ℓ} {A : Type ℓ} where
  drop-drop : (a k : ℕ) (xs : List A) → drop k (drop a xs) ≡ drop (a + k) xs
  drop-drop zero k xs = ap (λ i. drop i xs) (omega arith)
  drop-drop (suc a) zero [] = rw suc-add
  drop-drop (suc a) (suc k) [] = rw suc-add
  drop-drop (suc a) k (x ∷ xs) = rw suc-add (drop-drop a k xs)

  slices-flatten :
      (audio : List A) (a : ℕ) (cs : List ℕ)
      → Rising (length audio) a cs
      → flatten (slices audio a cs) ≡ drop a audio
  unfolding slices flatten
  slices-flatten audio a [] r =
      append-nil _ ∙ take_all (length audio - a) (drop a audio) (omega (arith, length-drop a audio))
  slices-flatten audio a (c ∷ cs) r =
      let rest = drop-drop a (c - a) audio ∙ ap (λ i. drop i audio) (omega (arith, r.0)) in
      ap (λ l. take (c - a) (drop a audio) ++ l) (slices-flatten audio c cs r.1 ∙ sym rest)
      ∙ take-append-drop (c - a) (drop a audio)

  -- From a positive `min_seg` and `max_seg`, with fuel for every sample, the audio is split, and the
  -- segments joined are the audio.
  pub pick_cuts_lossless :
      (max_seg min_seg min_frag min_tail fuel : ℕ) (audio : List A) (cand : List ℕ)
      → 0 < max_seg
      → 0 < min_seg
      → length audio < fuel
      → (segs : List (List A)) × (pick_cuts max_seg min_seg min_frag min_tail fuel audio cand
          ≡ some segs)
        × (flatten segs ≡ audio)
  unfolding pick_cuts
  pick_cuts_lossless max_seg min_seg min_frag min_tail fuel audio cand p q h =
      let n = length audio in
      let (cs, run, w, _) =
        greedy_total n cand max_seg min_seg q p fuel 0 (omega arith) (omega arith) in
      let merged = pop_tails n min_tail (drop_fragments n min_frag cs) in
      (
        slices audio 0 merged,
        rw (run, pick_cuts),
        slices-flatten audio 0 merged (
            pop_tails-Rising n min_tail 0 _
              (drop_fragments-Rising n min_frag 0 cs (IsWide-Rising n max_seg 0 cs w))),
      )

  -- Where a frame, `max_seg` and `min_seg` are not 0, splitting at silence, whatever is silent, ends,
  -- and the segments joined are the audio.
  pub split_lossless :
      (silent : List A → Bool) (frame_len min_run max_seg min_seg min_frag min_tail : ℕ)
      (audio : List A)
      → 0 < frame_len
      → 0 < max_seg
      → 0 < min_seg
      → (segs : List (List A)) × (split_at_silence silent frame_len min_run max_seg min_seg min_frag
            min_tail audio
          ≡ some segs)
        × (flatten segs ≡ audio)
  unfolding split_at_silence flatten
  split_lossless silent frame_len min_run max_seg min_seg min_frag min_tail audio _ p q =
      if_intro (λ o. (segs : List (List A)) × (o ≡ some segs) × (flatten segs ≡ audio))
        (leb (length audio) max_seg) _ _ (λ e. (audio ∷ [], refl, append-nil audio))
        (λ e.
          if_intro (λ o. (segs : List (List A)) × (o ≡ some segs) × (flatten segs ≡ audio))
            (length audio / frame_len == 0) _ _ (λ e. (audio ∷ [], refl, append-nil audio))
            (λ e.
              pick_cuts_lossless max_seg min_seg min_frag min_tail (suc (length audio)) audio _ p q
                (omega arith)))
