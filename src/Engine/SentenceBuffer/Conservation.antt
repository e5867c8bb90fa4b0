-- ===== src/Engine/SentenceBuffer/Conservation.antt =====
-- The sentences hold the text.
use voxedge.Base.{
  ℕ, zero, suc, ◌<◌, ◌≡◌, ap, sym, ◌∙◌, Bool, true, Option, none, some, List, [], ◌∷◌, ◌++◌, arith,
  is_empty, length, append_assoc, append-nil, if_intro,
}
use voxedge.Text.Strip.{Text, visible}
use voxedge.Engine.SentenceBuffer.{SentenceBuffer, extract, collect, add}
use voxedge.Engine.SentenceBuffer.Ends.{Extracted, extract-Extracted}

module _ (blank : ℕ → Bool) where
  abbrev pub spoken : List Text → Text
  spoken [] = []
  spoken (s ∷ ss) = visible blank s ++ spoken ss

  -- The loop has ended, and its sentences and what stays have the visible characters of `t`.
  abbrev pub Speaks : Text → Option (List Text × SentenceBuffer) → Type 0
  Speaks t none = ⊥
  Speaks t (some (ss, b)) = spoken ss ++ visible blank b.buf ≡ visible blank t

  more :
      (t s rest : Text) (r : Option (List Text × SentenceBuffer))
      → visible blank s ++ visible blank rest ≡ visible blank t
      → Speaks rest r
      → Speaks t (elim r [ none ↦ none | some (ss, b') ↦ some (s ∷ ss, b') ])
  more t s rest none e k = absurd k
  more t s rest (some (ss, b')) e k =
      append_assoc (visible blank s) (spoken ss) (visible blank b'.buf)
      ∙ (ap (λ l. visible blank s ++ l) k ∙ e)

  collected :
      (fuel : ℕ) (b : SentenceBuffer) (o : Option (Option Text × Text))
      → Extracted blank b.buf o
      → ((rest : Text)
          → length rest < length b.buf
          → Speaks rest (collect blank fuel (record b { buf = rest })))
      → Speaks b.buf (elim o [
        | none ↦ none
        | some (none, rest) ↦ some ([], record b { buf = rest })
        | some (some s, rest) ↦ elim (collect blank fuel (record b { buf = rest })) [
          | none ↦ none
          | some (ss, b') ↦ some (s ∷ ss, b')
        ]
      ])
  collected fuel b none e k = absurd e
  collected fuel b (some (none, rest)) e k = e
  collected fuel b (some (some s, rest)) e k =
      more b.buf s rest (collect blank fuel (record b { buf = rest })) e.0 (k rest e.1)

  collect-Speaks :
      (fuel : ℕ) (b : SentenceBuffer)
      → 0 < b.max_buffer
      → length b.buf < fuel
      → Speaks b.buf (collect blank fuel b)
  unfolding collect
  collect-Speaks zero b m f = absurd (omega (arith, f))
  collect-Speaks (suc fuel) b m f =
      collected fuel b (extract blank b) (extract-Extracted blank b m)
        (λ rest p. collect-Speaks fuel (record b { buf = rest }) m (omega (arith, p, f)))

  -- The loops of `add` end where the buffer's limit is not 0. The sentences that it gives and the text
  -- that stays have the characters of the buffer and of the chunk, in order, blanks aside.
  pub add-Speaks :
      (chunk : Text) (b : SentenceBuffer)
      → 0 < b.max_buffer
      → Speaks (b.buf ++ chunk) (add blank chunk b)
  unfolding add
  add-Speaks chunk b m =
      if_intro (Speaks (b.buf ++ chunk)) (is_empty chunk) _ _ (λ e. nothing chunk e)
        (λ _.
          collect-Speaks (suc (length (b.buf ++ chunk))) (record b { buf = b.buf ++ chunk }) m
            (omega arith))
    where
      nothing : (c : Text) → is_empty c ≡ true → visible blank b.buf ≡ visible blank (b.buf ++ c)
      nothing [] e = ap (visible blank) (sym (append-nil b.buf))
      nothing (d ∷ c) e = absurd (ground (arith, e))
