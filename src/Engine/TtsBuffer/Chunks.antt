-- ===== src/Engine/TtsBuffer/Chunks.antt =====
-- `_next_chunk`: a chunk is what it takes off the front of the buffer.
use voxedge.Base.{
  ℕ, zero, suc, ◌<◌, ◌≡◌, refl, ap, ◌∙◌, sym, Bool, true, false, Option, none, some, [], ◌∷◌, ◌++◌,
  append-nil, arith, length, take, drop, is_empty, take-append-drop, length-drop, if_intro,
  if◌then◌else◌, leb, ltb, ◌⊎◌, inl, inr,
}
use voxedge.Text.Strip.{
  Text, strip, lstrip, visible, IsFlush, visible-append, visible-strip, visible-lstrip,
  lstrip-IsFlush, lstrip-length, strip-flush,
}
use voxedge.Engine.TtsBuffer.{
  Buffer, or_none, take_chunk, choose_length_cut, length_chunk, soft_chunk, softly, hard_chunk,
  stripped_chunk, next_chunk, min_sentence_chars, first_break_index, hard_breaks,
}

module _ (blank : ℕ → Bool) (lower : Text → Text) where
  -- A result of the parts of `_next_chunk`: nothing, or a take of at least one character.
  abbrev pub IsCut : Buffer → Option Text × Buffer → Type 0
  IsCut b r = (r ≡ (none, b)) ⊎ ((e : ℕ) × (r ≡ take_chunk blank lower (suc e) b))

  positive-IsCut : (n : ℕ) (b : Buffer) → leb n 0 ≡ false → IsCut b (take_chunk blank lower n b)
  positive-IsCut zero b h = absurd (ground (arith, h))
  positive-IsCut (suc e) b h = inr (e, refl)

  length_chunk-IsCut : (c : Bool) (b : Buffer) → IsCut b (length_chunk blank lower c b)
  unfolding length_chunk
  length_chunk-IsCut c b =
      let n = choose_length_cut blank lower c b in
      if_intro (IsCut b)
        (ltb (length (strip blank b.buf)) (if c then b.max_chars else b.target_chars)) (none, b)
        (if leb n 0 then (none, b) else take_chunk blank lower n b) (λ _. inl refl)
        (λ _.
          if_intro (IsCut b) (leb n 0) (none, b) (take_chunk blank lower n b) (λ _. inl refl)
            (λ e. positive-IsCut n b e))

  soft_chunk-IsCut :
      (c : Bool) (o : Option ℕ) (b : Buffer)
      → is_empty b.buf ≡ false
      → IsCut b (soft_chunk blank lower c o b)
  unfolding soft_chunk
  soft_chunk-IsCut c none b h = length_chunk-IsCut c b
  soft_chunk-IsCut c (some i) b h =
      let all_of = take_chunk blank lower (length b.buf) b in
      let rest = length_chunk blank lower c b in
      let long = leb b.target_chars (length (strip blank b.buf)) in
      if_intro (IsCut b) (leb b.min_chars (length (strip blank (take (suc i) b.buf))))
        (take_chunk blank lower (suc i) b) (if long then all_of else rest) (λ _. inr (i, refl))
        (λ _.
          if_intro (IsCut b) long all_of rest
            (λ _. positive-IsCut (length b.buf) b (ground (arith, h)))
            (λ _. length_chunk-IsCut c b))

  softly-IsCut : (b : Buffer) → is_empty b.buf ≡ false → IsCut b (softly blank lower b)
  unfolding softly
  softly-IsCut b h = soft_chunk-IsCut _ _ b h

  pub hard_chunk-IsCut :
      (o : Option ℕ) (b : Buffer) → is_empty b.buf ≡ false → IsCut b (hard_chunk blank lower o b)
  unfolding hard_chunk
  hard_chunk-IsCut none b h = softly-IsCut b h
  hard_chunk-IsCut (some i) b h =
      if_intro (IsCut b) (leb min_sentence_chars (length (strip blank (take (suc i) b.buf))))
        (take_chunk blank lower (suc i) b) (softly blank lower b) (λ _. inr (i, refl))
        (λ _. softly-IsCut b h)

  -- What a call of `_next_chunk` does to the buffer `b`: no chunk, and only blanks go; or a chunk that
  -- is not empty, and a shorter rest; the two have the visible characters of `b`.
  abbrev pub Chunks : Buffer → Option Text → Buffer → Type 0
  Chunks b none b' = (visible blank b'.buf ≡ visible blank b.buf) × (b' ≡ record b { buf = b'.buf })
  Chunks b (some p) b' =
      (visible blank p ++ visible blank b'.buf ≡ visible blank b.buf)
      × (b' ≡ record b { buf = b'.buf })
      × (is_empty p ≡ false)
      × (length b'.buf < length b.buf)

  pub or_none-full : (p : Text) → is_empty p ≡ false → or_none p ≡ some p
  unfolding or_none
  or_none-full [] h = absurd (ground (arith, h))
  or_none-full (c ∷ p) h = refl

  split-visible :
      (n : ℕ) (t : Text)
      → visible blank (strip blank (take n t)) ++ visible blank (lstrip blank (drop n t))
        ≡ visible blank t
  split-visible n t =
      rw (visible-strip blank (take n t), visible-lstrip blank (drop n t))
        (sym (visible-append blank (take n t) (drop n t))
          ∙ ap (visible blank) (take-append-drop n t))

  take_chunk-Chunks :
      (e : ℕ) (b : Buffer) (t : Text)
      → b.buf ≡ t
      → is_empty t ≡ false
      → IsFlush blank t
      → Chunks b (take_chunk blank lower (suc e) b).0 (take_chunk blank lower (suc e) b).1
  unfolding take_chunk
  take_chunk-Chunks e b [] p h f = absurd (ground (arith, h))
  take_chunk-Chunks e b (c ∷ t) p h f =
      rw (p, or_none-full (strip blank (c ∷ take e t)) (strip-flush blank c (take e t) f))
        (
          split-visible (suc e) (c ∷ t),
          refl,
          strip-flush blank c (take e t) f,
          omega (arith, lstrip-length blank (drop e t), length-drop e t),
        )

  stripped : Buffer → Buffer
  stripped b = record b { buf = lstrip blank b.buf }

  stripped-Chunks :
      (b : Buffer) (o : Option Text) (b' : Buffer) → Chunks (stripped b) o b' → Chunks b o b'
  unfolding stripped
  stripped-Chunks b none b' h = (h.0 ∙ visible-lstrip blank b.buf, h.1)
  stripped-Chunks b (some p) b' h =
      (h.0 ∙ visible-lstrip blank b.buf, h.1, h.2, omega (arith, h.3, lstrip-length blank b.buf))

  cut-Chunks :
      (b : Buffer) (r : Option Text × Buffer)
      → is_empty b.buf ≡ false
      → IsFlush blank b.buf
      → IsCut b r
      → Chunks b r.0 r.1
  cut-Chunks b r h f (inl e) = rw e (refl, refl)
  cut-Chunks b r h f (inr (n, e)) = rw e (take_chunk-Chunks n b b.buf refl h f)

  whole :
      (b : Buffer) (t : Text)
      → b.buf ≡ t
      → is_empty t ≡ false
      → IsFlush blank t
      → Chunks b (or_none (strip blank t)) (record b { buf = [] })
  whole b [] p h f = absurd (ground (arith, h))
  whole b (c ∷ t) p h f =
      rw (p, or_none-full (strip blank (c ∷ t)) (strip-flush blank c t f))
        (
          append-nil (visible blank (strip blank (c ∷ t))) ∙ visible-strip blank (c ∷ t),
          refl,
          strip-flush blank c t f,
          omega arith,
        )

  Both : Buffer → Option Text × Buffer → Type 0
  Both b r = Chunks b r.0 r.1

  stripped_chunk-Chunks :
      (final : Bool) (b : Buffer)
      → IsFlush blank b.buf
      → Chunks b (stripped_chunk blank lower final b).0 (stripped_chunk blank lower final b).1
  unfolding stripped_chunk Both
  stripped_chunk-Chunks final b f =
      let hard = hard_chunk blank lower (first_break_index b.buf hard_breaks) b in
      let all_of : Option Text × Buffer = (or_none (strip blank b.buf), record b { buf = [] }) in
      if_intro (Both b) (is_empty b.buf) (none, b) (if final then all_of else hard)
        (λ _. (refl, refl))
        (λ h.
          if_intro (Both b) final all_of hard (λ _. whole b b.buf refl h f)
            (λ _.
              cut-Chunks b hard h f (hard_chunk-IsCut (first_break_index b.buf hard_breaks) b h)))

  pub next_chunk-Chunks :
      (final : Bool) (b : Buffer)
      → Chunks b (next_chunk blank lower final b).0 (next_chunk blank lower final b).1
  unfolding next_chunk stripped
  next_chunk-Chunks final b =
      let r = next_chunk blank lower final b in
      stripped-Chunks b r.0 r.1
        (stripped_chunk-Chunks final (stripped b) (lstrip-IsFlush blank b.buf))

  -- The final chunk is all that is left.
  pub next_chunk-final :
      (final : Bool) (b : Buffer) → final ≡ true → (next_chunk blank lower final b).1.buf ≡ []
  unfolding next_chunk stripped_chunk
  next_chunk-final final b e = ground (arith, e)
