-- ===== src/Engine/TtsBuffer/Conservation.antt =====
-- The buffer speaks the text that it is given, and its loop ends.
use mathlib.Core.List.{flatten}
use mathlib.Core.Bool.{false≢true}
use voxedge.Base.{
  ℕ, zero, suc, ◌<◌, ◌≡◌, refl, ap, ◌∙◌, sym, Bool, true, false, Option, none, some, List, [], ◌∷◌,
  ◌++◌, append_assoc, append-nil, arith, length, is_empty, All, All-append,
}
use voxedge.Text.Strip.{Text, visible, visible-append}
use voxedge.Engine.TtsBuffer.{Buffer, make, collect, next_chunk, emit_ready, add, flush}
use voxedge.Engine.TtsBuffer.Chunks.{Chunks, next_chunk-Chunks, next_chunk-final}

-- No chunk is empty.
abbrev pub IsFull : List Text → Type 0
IsFull parts = All (λ p. is_empty p ≡ false) parts

module _ (blank : ℕ → Bool) (lower : Text → Text) where
  -- A run of the loop on `b` that ends: the chunks and the rest have the visible characters of `b`.
  abbrev Emits : Bool → Buffer → Option (List Text × Buffer) → Type 0
  Emits final b none = ⊥
  Emits final b (some (parts, b')) =
      (visible blank (flatten parts) ++ visible blank b'.buf ≡ visible blank b.buf)
      × (b' ≡ record b { buf = b'.buf })
      × IsFull parts
      × (final ≡ true → b'.buf ≡ [])

  flatten-visible :
      (p : Text) (ps : List Text)
      → visible blank (flatten (p ∷ ps)) ≡ visible blank p ++ visible blank (flatten ps)
  unfolding flatten
  flatten-visible p ps = visible-append blank p (flatten ps)

  collect-Emits :
      (final : Bool) (b : Buffer) (o : Option Text) (c : Buffer)
      (rest : Option (List Text × Buffer))
      → Chunks blank lower b o c
      → (final ≡ true → c.buf ≡ [])
      → (length c.buf < length b.buf → Emits final c rest)
      → Emits final b (collect blank lower o c rest)
  unfolding collect flatten
  collect-Emits final b none c rest h l k = (h.0, h.1, tt, l)
  collect-Emits final b (some p) c none h l k = absurd (k h.3)
  collect-Emits final b (some p) c (some (qs, d)) h l k =
      let m = k h.3 in
      (
        rw
            (
              flatten-visible p qs,
              append_assoc (visible blank p) (visible blank (flatten qs)) (visible blank d.buf),
              m.0,
            )
            h.0,
        m.1 ∙ ap (λ (w : Buffer). record w { buf = d.buf }) h.1,
        (h.2, m.2),
        m.3,
      )

  emit_ready-Emits :
      (fuel : ℕ) (final : Bool) (b : Buffer)
      → length b.buf < fuel
      → Emits final b (emit_ready blank lower fuel final b)
  unfolding emit_ready
  emit_ready-Emits zero final b h = absurd (omega (arith, h))
  emit_ready-Emits (suc fuel) final b h =
      let r = next_chunk blank lower final b in
      collect-Emits final b r.0 r.1 (emit_ready blank lower fuel final r.1)
        (next_chunk-Chunks blank lower final b) (next_chunk-final blank lower final b)
        (λ l. emit_ready-Emits fuel final r.1 (omega arith))

  visible-flatten :
      (ps qs : List Text)
      → visible blank (flatten (ps ++ qs))
        ≡ visible blank (flatten ps) ++ visible blank (flatten qs)
  unfolding flatten
  visible-flatten [] qs = refl
  visible-flatten (p ∷ ps) qs =
      rw
        (
          visible-append blank p (flatten (ps ++ qs)),
          visible-append blank p (flatten ps),
          visible-flatten ps qs,
          append_assoc (visible blank p) (visible blank (flatten ps)) (visible blank (flatten qs)),
        )
        refl

  -- A turn: texts are added as they come, and the rest is flushed. `none` if a loop does not end.
  flushed : Option (List Text × Buffer) → Option (List Text)
  flushed none = none
  flushed (some (parts, b)) = some parts

  joined : List Text → Option (List Text) → Option (List Text)
  joined parts none = none
  joined parts (some rest) = some (parts ++ rest)

  pub speak : List Text → Buffer → Option (List Text)
  unfolding flushed joined
  speak [] b = flushed (flush blank lower b)
  speak (t ∷ ts) b = elim (add blank lower t b) [
    | none ↦ none
    | some (parts, b') ↦ joined parts (speak ts b')
  ]

  -- A turn that ends, and speaks what is visible in `before` and `ts`.
  abbrev Speaks : Text → List Text → Option (List Text) → Type 0
  Speaks before ts none = ⊥
  Speaks before ts (some parts) =
      (visible blank (flatten parts) ≡ visible blank (before ++ flatten ts)) × IsFull parts

  flushed-Speaks :
      (b : Buffer) (out : Option (List Text × Buffer))
      → Emits true b out
      → Speaks b.buf [] (flushed out)
  unfolding flushed flatten
  flushed-Speaks b none h = absurd h
  flushed-Speaks b (some (parts, b')) h = (
    rw (append-nil b.buf) (
        sym (append-nil (visible blank (flatten parts)))
        ∙ ap (λ w. visible blank (flatten parts) ++ visible blank w) (sym (h.3 refl))
        ∙ h.0),
    h.2,
  )

  joined-Speaks :
      (b : Buffer) (t : Text) (ts : List Text) (parts : List Text) (b' : Buffer)
      (rest : Option (List Text))
      → Emits false (record b { buf = b.buf ++ t }) (some (parts, b'))
      → Speaks b'.buf ts rest
      → Speaks b.buf (t ∷ ts) (joined parts rest)
  unfolding joined flatten
  joined-Speaks b t ts parts b' none h k = absurd k
  joined-Speaks b t ts parts b' (some rest) h k = (
    visible-flatten parts rest
        ∙ ap (λ w. visible blank (flatten parts) ++ w)
            (k.0 ∙ visible-append blank b'.buf (flatten ts))
        ∙ sym (
            append_assoc (visible blank (flatten parts)) (visible blank b'.buf)
              (visible blank (flatten ts)))
        ∙ ap (λ w. w ++ visible blank (flatten ts)) h.0
        ∙ sym (visible-append blank (b.buf ++ t) (flatten ts))
        ∙ ap (visible blank) (append_assoc b.buf t (flatten ts)),
    All-append (λ p. is_empty p ≡ false) parts rest h.2 k.1,
  )

  add-Emits :
      (t : Text) (b : Buffer) → Emits false (record b { buf = b.buf ++ t }) (add blank lower t b)
  unfolding add flatten
  add-Emits [] b = rw (append-nil b.buf) (refl, refl, tt, λ e. absurd (false≢true e))
  add-Emits (c ∷ t) b =
      emit_ready-Emits (suc (length (b.buf ++ (c ∷ t)))) false (record b { buf = b.buf ++ (c ∷ t) })
        (omega arith)

  ended :
      (final : Bool) (b : Buffer) (out : Option (List Text × Buffer))
      → Emits final b out
      → (parts : List Text) × (b' : Buffer) × (out ≡ some (parts, b'))
  ended final b none h = absurd h
  ended final b (some (parts, b')) h = (parts, b', refl)

  -- The loop of an `add` ends.
  pub add_ends :
      (t : Text) (b : Buffer)
      → (parts : List Text) × (b' : Buffer) × (add blank lower t b ≡ some (parts, b'))
  add_ends t b = ended false (record b { buf = b.buf ++ t }) (add blank lower t b) (add-Emits t b)

  after_add :
      (t : Text) (ts : List Text) (b : Buffer) (out : Option (List Text × Buffer))
      → ((b' : Buffer) → Speaks b'.buf ts (speak ts b'))
      → Emits false (record b { buf = b.buf ++ t }) out
      → Speaks b.buf
          (t ∷ ts)
          (elim out [ none ↦ none | some (parts, b') ↦ joined parts (speak ts b') ])
  after_add t ts b none k h = absurd h
  after_add t ts b (some (parts, b')) k h = joined-Speaks b t ts parts b' (speak ts b') h (k b')

  speak-Speaks : (ts : List Text) (b : Buffer) → Speaks b.buf ts (speak ts b)
  unfolding speak flush
  speak-Speaks [] b =
      flushed-Speaks b (flush blank lower b)
        (emit_ready-Emits (suc (length b.buf)) true b (omega arith))
  speak-Speaks (t ∷ ts) b =
      after_add t ts b (add blank lower t b) (λ b'. speak-Speaks ts b') (add-Emits t b)

  spoken :
      (ts : List Text) (out : Option (List Text))
      → Speaks [] ts out
      → (parts : List Text) × (out ≡ some parts)
        × (visible blank (flatten parts) ≡ visible blank (flatten ts))
        × IsFull parts
  spoken ts none h = absurd h
  spoken ts (some parts) h = (parts, refl, h.0, h.1)

  -- Texts added one after another to a new buffer, and a flush: the loops end, no chunk is empty, and
  -- the chunks in order have the characters of the texts in order, blanks aside.
  pub speak_conserves :
      (language : Option Text) (min_chars target_chars max_chars : Option ℕ) (ts : List Text)
      → (parts : List Text) × (speak ts (make blank lower language min_chars target_chars max_chars)
          ≡ some parts)
        × (visible blank (flatten parts) ≡ visible blank (flatten ts))
        × IsFull parts
  unfolding make
  speak_conserves language m t x ts =
      spoken ts (speak ts (make blank lower language m t x))
        (speak-Speaks ts (make blank lower language m t x))
