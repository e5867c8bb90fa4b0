-- ===== src/Engine/SentenceBuffer/Ends.antt =====
-- A sentence that is cut off is not empty, and the rest is shorter.
use voxedge.Base.{
  ℕ, zero, suc, ◌+◌, ◌≤◌, ◌<◌, ◌≡◌, refl, ap, sym, ◌∙◌, Bool, ◌&&◌, Option, none, some, [], ◌∷◌,
  ◌++◌, arith, length, length-drop, take, drop, take-append-drop, append-nil, leb, leb→le, if_intro,
  if◌then◌else◌,
}
use voxedge.Text.Strip.{Text, strip, visible, visible-append, visible-strip}
use voxedge.Engine.SentenceBuffer.{
  SentenceBuffer, is_hard, is_soft, run_end, at_gap, next_end, or_none, overflow, extract_from,
  extract,
}

run_end-within : (i : ℕ) (t : Text) → (i ≤ run_end i t) × (run_end i t ≤ i + length t)
unfolding run_end
run_end-within i [] = (omega arith, omega arith)
run_end-within i (c ∷ t) =
    let rest = run_end-within (suc i) t in
    if_intro (λ e. (i ≤ e) × (e ≤ i + suc (length t))) (is_hard c) _ _
      (λ _. (omega (arith, rest.0), omega (arith, rest.1))) (λ _. (omega arith, omega arith))

module _ (blank : ℕ → Bool) where
  abbrev Within : ℕ → ℕ → Option ℕ → Type 0
  Within i n none = Unit
  Within i n (some e) = (i < e) × (e ≤ i + n)

  later : (i n : ℕ) (o : Option ℕ) → Within (suc i) n o → Within i (suc n) o
  later i n none w = tt
  later i n (some e) w = (omega (arith, w.0), omega (arith, w.1))

  next_end-within : (i : ℕ) (t : Text) → Within i (length t) (next_end blank i t)
  unfolding next_end
  next_end-within i [] = tt
  next_end-within i (c ∷ t) =
      let run = run_end-within (suc i) t in
      if_intro (Within i (suc (length t))) (is_hard c) _ _
        (λ _. (omega (arith, run.0), omega (arith, run.1)))
        (λ _.
          if_intro (Within i (suc (length t))) (is_soft c && at_gap blank t) _ _
            (λ _. (omega arith, omega arith))
            (λ _. later i (length t) _ (next_end-within (suc i) t)))

  -- What is returned and what stays have the visible characters of the buffer.
  abbrev pub Splits : Text → Option Text × Text → Type 0
  Splits t (none, rest) = visible blank rest ≡ visible blank t
  Splits t (some s, rest) =
      (visible blank s ++ visible blank rest ≡ visible blank t) × (length rest < length t)

  abbrev pub Extracted : Text → Option (Option Text × Text) → Type 0
  Extracted t none = ⊥
  Extracted t (some r) = Splits t r

  or_none-Splits :
      (t s : Text)
      → visible blank s ≡ visible blank t
      → 0 < length t
      → Splits t (or_none blank s, [])
  or_none-Splits t [] e n = e
  or_none-Splits t (c ∷ s) e n = (append-nil (visible blank (c ∷ s)) ∙ e, n)

  overflow-Splits : (b : SentenceBuffer) → 0 < b.max_buffer → Splits b.buf (overflow blank b)
  unfolding overflow
  overflow-Splits b m =
      if_intro {A = Option Text × Text} (Splits b.buf) (leb b.max_buffer (length b.buf)) _ _
        (λ e.
          or_none-Splits b.buf (strip blank b.buf) (visible-strip blank b.buf)
            (omega (arith, leb→le b.max_buffer (length b.buf) e)))
        (λ _. refl)

  cut-Splits :
      (end : ℕ) (t : Text)
      → 0 < end
      → end ≤ length t
      → Splits t (some (strip blank (take end t)), drop end t)
  cut-Splits end t p q = (
    ap (λ v. v ++ visible blank (drop end t)) (visible-strip blank (take end t))
        ∙ (sym (visible-append blank (take end t) (drop end t))
            ∙ ap (visible blank) (take-append-drop end t)),
    omega (arith, length-drop end t, p, q),
  )

  extract_from-Extracted :
      (fuel pos : ℕ) (b : SentenceBuffer)
      → 0 < b.max_buffer
      → pos ≤ length b.buf
      → length b.buf < fuel + pos
      → Extracted b.buf (extract_from blank fuel pos b)
  unfolding extract_from
  extract_from-Extracted zero pos b m p f = absurd (omega (arith, p, f))
  extract_from-Extracted (suc fuel) pos b m p f =
      at (next_end blank pos (drop pos b.buf)) (next_end-within pos (drop pos b.buf))
        (λ end p' f'. extract_from-Extracted fuel end b m p' f')
    where
      at :
          (o : Option ℕ)
          → Within pos (length (drop pos b.buf)) o
          → ((end : ℕ)
              → end ≤ length b.buf
              → length b.buf < fuel + end
              → Extracted b.buf (extract_from blank fuel end b))
          → Extracted b.buf (elim o [
            | none ↦ some (overflow blank b)
            | some end ↦
                let rest = extract_from blank fuel end b in
                if leb b.min_chars (length (strip blank (take end b.buf)))
                then some (some (strip blank (take end b.buf)), drop end b.buf)
                else rest
          ])
      at none w k = overflow-Splits b m
      at (some end) w k =
          if_intro (Extracted b.buf) (leb b.min_chars (length (strip blank (take end b.buf)))) _ _
            (λ _.
              cut-Splits end b.buf (omega (arith, w.0))
                (omega (arith, w.1, length-drop pos b.buf, p)))
            (λ _. k end (omega (arith, w.1, length-drop pos b.buf, p)) (omega (arith, w.0, f)))

  pub extract-Extracted :
      (b : SentenceBuffer) → 0 < b.max_buffer → Extracted b.buf (extract blank b)
  unfolding extract
  extract-Extracted b m =
      extract_from-Extracted (suc (length b.buf)) 0 b m (omega arith) (omega arith)
