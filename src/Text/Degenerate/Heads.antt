-- ===== src/Text/Degenerate/Heads.antt =====
-- The texts that begin a run are all kept.
use voxedge.Base.{
  ℕ, suc, ◌≡◌, refl, ap, ◌∙◌, sym, Bool, true, false, some, List, [], ◌∷◌, ◌++◌, append-nil, arith,
  length, is_empty, ◌+◌, All, All-append, if◌then◌else◌, Bool-cases, inl, inr,
}
use voxedge.Text.Strip.{Text}
use voxedge.Text.Equality.{same_text→≡, same_text_refl}
use voxedge.Text.Degenerate.{key, enough, continues, collapse_segment_repeats}
use voxedge.Text.Degenerate.Runs.{end_of, rest_kept, kept_after, by_runs, collapse_by_runs}

module _ (blank : ℕ → Bool) where
  -- The texts after `p` that do not go on with the run of the text before them.
  unfoldable pub heads_after : Text → List Text → List Text
  heads_after p [] = []
  heads_after p (t ∷ ts) =
      let rest = heads_after t ts in if continues blank t (some p) then rest else t ∷ rest

  unfoldable pub heads : List Text → List Text
  heads [] = []
  heads (t ∷ ts) = t ∷ heads_after t ts

  continues-key :
      (t p q : Text)
      → key blank p ≡ key blank q
      → continues blank t (some p) ≡ continues blank t (some q)
  unfolding continues
  continues-key t p q e = rw e refl

  -- A text with the key of the one before it goes on with its run, if the key is not empty, and only
  -- such a text does.
  goes_on :
      (t p : Text)
      → key blank t ≡ key blank p
      → is_empty (key blank t) ≡ false
      → continues blank t (some p) ≡ true
  unfolding continues
  goes_on t p e n = rw (n, e, same_text_refl (key blank p)) refl

  went_on :
      (t p : Text)
      → continues blank t (some p) ≡ true
      → (key blank t ≡ key blank p) × (is_empty (key blank t) ≡ false)
  unfolding continues
  went_on t p e = (same_text→≡ (key blank t) (key blank p) (ground (arith, e)), ground (arith, e))

  heads_after-key :
      (ts : List Text) (p q : Text)
      → key blank p ≡ key blank q
      → heads_after p ts ≡ heads_after q ts
  unfolding heads_after
  heads_after-key [] p q e = refl
  heads_after-key (t ∷ ts) p q e =
      ap (λ b. if b then heads_after t ts else t ∷ heads_after t ts) (continues-key t p q e)

  abbrev IsRun : Text → List Text → Type 0
  IsRun h run = All (λ r. (key blank r ≡ key blank h) × (is_empty (key blank r) ≡ false)) run

  heads_after-run :
      (h : Text) (run ts : List Text) → IsRun h run → heads_after h (run ++ ts) ≡ heads_after h ts
  unfolding heads_after
  heads_after-run h [] ts k = refl
  heads_after-run h (r ∷ run) ts k =
      rw (goes_on r h k.0.0 k.0.1)
        (heads_after-key (run ++ ts) r h k.0.0 ∙ heads_after-run h run ts k.1)

  rest_kept-heads :
      (h : Text) (run ts : List Text)
      → IsRun h run
      → heads_after h (rest_kept blank h run ++ ts) ≡ heads_after h ts
  rest_kept-heads h run ts k = elim (Bool-cases (enough blank (suc (length run)) h)) [
    | inl e ↦ rw e refl
    | inr e ↦ rw e (heads_after-run h run ts k)
  ]

  end_of-key :
      (h g : Text) (run : List Text)
      → key blank g ≡ key blank h
      → IsRun h run
      → key blank (end_of g run) ≡ key blank h
  end_of-key h g [] e k = e
  end_of-key h g (r ∷ run) e k = end_of-key h r run k.0.0 k.1

  head-new :
      (t h : Text) (us ts : List Text)
      → continues blank t (some h) ≡ false
      → heads_after t us ≡ heads_after t ts
      → heads_after h (t ∷ us) ≡ (t ∷ heads_after t ts)
  unfolding heads_after
  head-new t h us ts c e = rw c (ap (λ l. t ∷ l) e)

  kept_after-heads :
      (ts : List Text) (h : Text) (run : List Text)
      → IsRun h run
      → heads_after h (kept_after blank h run ts) ≡ heads_after h ts
  unfolding kept_after heads_after
  kept_after-heads [] h run k =
      ap (heads_after h) (sym (append-nil (rest_kept blank h run))) ∙ rest_kept-heads h run [] k
  kept_after-heads (t ∷ ts) h run k =
      let same = continues-key t (end_of h run) h (end_of-key h h run refl k) in
      elim (Bool-cases (continues blank t (some h))) [
        | inl c ↦
            let w = went_on t h c in
            let longer =
              All-append (λ r. (key blank r ≡ key blank h) × (is_empty (key blank r) ≡ false)) run
                (t ∷ []) k (w, tt) in
            rw (same, c)
              (kept_after-heads ts h (run ++ (t ∷ [])) longer ∙ heads_after-key ts h t (sym w.0))
        | inr c ↦
            rw (same, c)
              (rest_kept-heads h run (t ∷ kept_after blank t [] ts) k
                ∙ head-new t h (kept_after blank t [] ts) ts c (kept_after-heads ts t [] tt))
      ]

  by_runs-heads : (texts : List Text) → heads (by_runs blank texts) ≡ heads texts
  unfolding heads by_runs
  by_runs-heads [] = refl
  by_runs-heads (t ∷ ts) = ap (λ l. t ∷ l) (kept_after-heads ts t [] tt)

  -- The texts that begin a run of texts of the same key are all kept, in their order: the kept texts
  -- have the same ones. The kept and the dropped texts are as many as the given.
  pub collapse_keeps_heads :
      (texts : List Text)
      → (heads (collapse_segment_repeats blank texts).0 ≡ heads texts)
        × (length (collapse_segment_repeats blank texts).0
              + (collapse_segment_repeats blank texts).1
            ≡ length texts)
  collapse_keeps_heads texts =
      let h = collapse_by_runs blank texts in (ap heads h.0 ∙ by_runs-heads texts, h.1)
