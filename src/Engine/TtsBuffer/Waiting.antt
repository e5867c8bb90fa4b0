-- ===== src/Engine/TtsBuffer/Waiting.antt =====
-- What waits in the buffer after an `add`: less than a longest chunk, and no sentence.
use mathlib.Core.Bool.{false≢true}
use voxedge.Base.{
  ℕ, zero, suc, ◌-◌, ◌≤◌, ◌<◌, ◌≡◌, ◌≢◌, refl, ap, ◌∙◌, sym, min, max, Bool, true, false, Option,
  none, some, List, [], ◌∷◌, ◌++◌, arith, length, take, is_empty, get_elem?, if_intro,
  if◌then◌else◌, leb, ltb, ltb→lt, leb→lt, inl, inr,
}
use voxedge.Text.Strip.{Text, strip, lstrip, rstrip, IsFlush, lstrip-IsFlush, strip-flush}
use voxedge.Engine.TtsBuffer.{
  Buffer, make, or_none, soft_cut, space_cut, or_default, take_chunk, choose_length_cut,
  length_chunk, soft_chunk, softly, hard_chunk, stripped_chunk, next_chunk, min_sentence_chars,
  first_break_index, hard_breaks, blank_at, cjk_soft_breaks, last_break_index, collect, emit_ready,
  add,
}
use voxedge.Engine.TtsBuffer.Conservation.{add_ends}
use voxedge.Engine.TtsBuffer.Chunks.{
  or_none-full, IsCut, hard_chunk-IsCut, Chunks, next_chunk-Chunks,
}

-- The knobs are in order.
abbrev pub IsSized : Buffer → Type 0
IsSized b = (2 ≤ b.min_chars) × (b.min_chars ≤ b.target_chars) × (b.target_chars ≤ b.max_chars)

module _ (blank : ℕ → Bool) (lower : Text → Text) where
  -- A buffer that begins with a character that is no blank.
  abbrev IsStarted : Buffer → Type 0
  IsStarted b = (is_empty b.buf ≡ false) × IsFlush blank b.buf

  taken :
      (e : ℕ) (t : Text)
      → is_empty t ≡ false
      → IsFlush blank t
      → or_none (strip blank (take (suc e) t)) ≢ none
  taken e [] h f n = absurd (ground (arith, h))
  taken e (c ∷ t) h f n = ground (
    arith,
    n,
    or_none-full blank lower (strip blank (c ∷ take e t)) (strip-flush blank c (take e t) f),
  )

  take_chunk-some :
      (n : ℕ) (b : Buffer) → leb n 0 ≡ false → IsStarted b → (take_chunk blank lower n b).0 ≢ none
  unfolding take_chunk
  take_chunk-some zero b k h n = absurd (ground (arith, k))
  take_chunk-some (suc e) b k h n = taken e b.buf h.0 h.1 n

  soft_cut-pos :
      (least limit : ℕ) (o : Option ℕ) → 1 ≤ limit → 1 ≤ soft_cut blank lower least limit o
  unfolding soft_cut
  soft_cut-pos least limit none h = h
  soft_cut-pos least limit (some i) h =
      if_intro (λ r. 1 ≤ r) (leb (least - 1) i) (suc i) limit (λ _. omega arith) (λ _. h)

  space_cut-pos :
      (least d k : ℕ) (w : Text) → 1 ≤ d → 1 ≤ or_default (space_cut blank lower least k w) d
  unfolding space_cut or_default
  space_cut-pos least d zero w h = h
  space_cut-pos least d (suc k) w h =
      let found = blank_at blank (get_elem? w k) in
      let rest = space_cut blank lower least k w in
      if_intro (λ o. 1 ≤ or_default o d) (leb least (suc k)) (if found then some (suc k) else rest)
        none
        (λ _.
          if_intro (λ o. 1 ≤ or_default o d) found (some (suc k)) rest (λ _. omega arith)
            (λ _. space_cut-pos least d k w h))
        (λ _. h)

  pos : (n : ℕ) → 1 ≤ n → leb n 0 ≡ false
  pos n h = ground (arith, h)

  full : (t : Text) → is_empty t ≡ false → 1 ≤ length t
  full [] h = absurd (ground (arith, h))
  full (c ∷ t) h = omega arith

  choose_length_cut-pos :
      (c : Bool) (b : Buffer)
      → is_empty b.buf ≡ false
      → IsSized b
      → leb (choose_length_cut blank lower c b) 0 ≡ false
  unfolding choose_length_cut
  choose_length_cut-pos c b h s =
      let n = full b.buf h in
      let limit = min (length b.buf) b.max_chars in
      let soft =
        soft_cut blank lower b.min_chars limit (last_break_index b.buf cjk_soft_breaks limit) in
      let window = take limit b.buf in
      let space =
        or_default (space_cut blank lower b.min_chars (length window) window)
          (min (length b.buf) b.target_chars) in
      pos (choose_length_cut blank lower c b) (
        if_intro (λ r. 1 ≤ r) c soft space
          (λ _.
            soft_cut-pos b.min_chars limit (last_break_index b.buf cjk_soft_breaks limit)
              (omega (arith, n, s)))
          (λ _.
            space_cut-pos b.min_chars (min (length b.buf) b.target_chars) (length window) window
              (omega (arith, n, s))))

  -- What a result without a chunk tells of the buffer.
  abbrev IsShort : Buffer → Option Text × Buffer → Type 0
  IsShort b r = r.0 ≡ none → length (strip blank b.buf) < b.max_chars

  length_chunk-IsShort :
      (c : Bool) (b : Buffer) → IsStarted b → IsSized b → IsShort b (length_chunk blank lower c b)
  unfolding length_chunk
  length_chunk-IsShort c b h s =
      let n = choose_length_cut blank lower c b in
      let threshold = if c then b.max_chars else b.target_chars in
      if_intro (IsShort b) (ltb (length (strip blank b.buf)) threshold) (none, b)
        (if leb n 0 then (none, b) else take_chunk blank lower n b)
        (λ l _. ground (arith, ltb→lt (length (strip blank b.buf)) threshold l))
        (λ _.
          if_intro (IsShort b) (leb n 0) (none, b) (take_chunk blank lower n b)
            (λ e. absurd (false≢true (sym (choose_length_cut-pos c b h.0 s) ∙ e)))
            (λ e z. absurd (take_chunk-some n b e h z)))

  soft_chunk-IsShort :
      (c : Bool) (o : Option ℕ) (b : Buffer)
      → IsStarted b
      → IsSized b
      → IsShort b (soft_chunk blank lower c o b)
  unfolding soft_chunk
  soft_chunk-IsShort c none b h s = length_chunk-IsShort c b h s
  soft_chunk-IsShort c (some i) b h s =
      let all_of = take_chunk blank lower (length b.buf) b in
      let rest = length_chunk blank lower c b in
      let long = leb b.target_chars (length (strip blank b.buf)) in
      if_intro (IsShort b) (leb b.min_chars (length (strip blank (take (suc i) b.buf))))
        (take_chunk blank lower (suc i) b) (if long then all_of else rest)
        (λ _ z. absurd (take_chunk-some (suc i) b (pos (suc i) (omega arith)) h z))
        (λ _.
          if_intro (IsShort b) long all_of rest
            (λ _ z.
              absurd (take_chunk-some (length b.buf) b (pos (length b.buf) (full b.buf h.0)) h z))
            (λ _. length_chunk-IsShort c b h s))

  softly-IsShort : (b : Buffer) → IsStarted b → IsSized b → IsShort b (softly blank lower b)
  unfolding softly
  softly-IsShort b h s = soft_chunk-IsShort _ _ b h s

  -- The break, if there is one, closes less than a sentence.
  abbrev pub ClosesLittle : Option ℕ → Buffer → Type 0
  ClosesLittle none b = Unit
  ClosesLittle (some i) b = length (strip blank (take (suc i) b.buf)) < min_sentence_chars

  -- A result without a chunk leaves no sentence: what the break at `o` closes is too short for one.
  abbrev NoSentence : Option ℕ → Buffer → Option Text × Buffer → Type 0
  NoSentence o b r = r.0 ≡ none → (length (strip blank b.buf) < b.max_chars) × ClosesLittle o b

  hard_chunk-NoSentence :
      (o : Option ℕ) (b : Buffer)
      → IsStarted b
      → IsSized b
      → NoSentence o b (hard_chunk blank lower o b)
  unfolding hard_chunk
  hard_chunk-NoSentence none b h s = λ z. (softly-IsShort b h s z, tt)
  hard_chunk-NoSentence (some i) b h s =
      let n = length (strip blank (take (suc i) b.buf)) in
      if_intro (NoSentence (some i) b) (leb min_sentence_chars n) (take_chunk blank lower (suc i) b)
        (softly blank lower b)
        (λ _ z. absurd (take_chunk-some (suc i) b (pos (suc i) (omega arith)) h z))
        (λ l z. (softly-IsShort b h s z, leb→lt min_sentence_chars n l))

  -- The buffer is short, and its first hard break closes no sentence.
  abbrev pub Waits : Buffer → Type 0
  Waits b =
      (length (strip blank b.buf) < b.max_chars)
      × ClosesLittle (first_break_index b.buf hard_breaks) b

  Done : Buffer → Option Text × Buffer → Type 0
  Done b r = r.0 ≡ none → Waits r.1

  cut-Done :
      (b : Buffer) (r : Option Text × Buffer)
      → IsStarted b
      → IsCut blank lower b r
      → NoSentence (first_break_index b.buf hard_breaks) b r
      → Done b r
  unfolding Done
  cut-Done b r h (inl e) k z = rw e (k z)
  cut-Done b r h (inr (n, e)) k z =
      absurd (take_chunk-some (suc n) b (pos (suc n) (omega arith)) h (ap (λ w. w.0) (sym e) ∙ z))

  empty-Waits : (b : Buffer) (t : Text) → b.buf ≡ t → is_empty t ≡ true → IsSized b → Waits b
  unfolding first_break_index lstrip rstrip
  empty-Waits b [] p h s = rw p (omega (arith, s), tt)
  empty-Waits b (c ∷ t) p h s = absurd (ground (arith, h))

  stripped_chunk-Done :
      (b : Buffer) → IsFlush blank b.buf → IsSized b → Done b (stripped_chunk blank lower false b)
  unfolding stripped_chunk Done
  stripped_chunk-Done b f s =
      let o = first_break_index b.buf hard_breaks in
      let hard = hard_chunk blank lower o b in
      if_intro (Done b) (is_empty b.buf) (none, b) hard (λ h z. empty-Waits b b.buf refl h s)
        (λ h.
          cut-Done b hard (h, f) (hard_chunk-IsCut blank lower o b h)
            (hard_chunk-NoSentence o b (h, f) s))

  next_chunk-Waits :
      (b : Buffer)
      → IsSized b
      → (next_chunk blank lower false b).0 ≡ none
      → Waits (next_chunk blank lower false b).1
  unfolding next_chunk Done
  next_chunk-Waits b s =
      stripped_chunk-Done (record b { buf = lstrip blank b.buf }) (lstrip-IsFlush blank b.buf) s

  -- What an end of the loop leaves.
  abbrev pub Leaves : Option (List Text × Buffer) → Type 0
  Leaves none = Unit
  Leaves (some (parts, b)) = Waits b

  collect-Leaves :
      (o : Option Text) (c : Buffer) (rest : Option (List Text × Buffer))
      → (o ≡ none → Waits c)
      → Leaves rest
      → Leaves (collect blank lower o c rest)
  unfolding collect
  collect-Leaves none c rest h k = h refl
  collect-Leaves (some p) c none h k = tt
  collect-Leaves (some p) c (some (ps, d)) h k = k

  Chunks-IsSized :
      (b : Buffer) (o : Option Text) (c : Buffer) → Chunks blank lower b o c → IsSized b → IsSized c
  Chunks-IsSized b none c h s = rw h.1 s
  Chunks-IsSized b (some p) c h s = rw h.1 s

  emit_ready-Leaves :
      (fuel : ℕ) (b : Buffer) → IsSized b → Leaves (emit_ready blank lower fuel false b)
  unfolding emit_ready
  emit_ready-Leaves zero b s = tt
  emit_ready-Leaves (suc fuel) b s =
      let r = next_chunk blank lower false b in
      collect-Leaves r.0 r.1 (emit_ready blank lower fuel false r.1) (next_chunk-Waits b s) (
        emit_ready-Leaves fuel r.1
          (Chunks-IsSized b r.0 r.1 (next_chunk-Chunks blank lower false b) s))

  le_max : (a c : ℕ) → a ≤ max a c
  le_max a c = omega arith

  pub make-IsSized :
      (language : Option Text) (m t x : Option ℕ) → IsSized (make blank lower language m t x)
  unfolding make
  make-IsSized language m t x = (le_max _ _, le_max _ _, le_max _ _)

  add-Leaves :
      (t : Text) (b : Buffer) → is_empty t ≡ false → IsSized b → Leaves (add blank lower t b)
  unfolding add
  add-Leaves [] b h s = absurd (ground (arith, h))
  add-Leaves (c ∷ t) b h s =
      emit_ready-Leaves (suc (length (b.buf ++ (c ∷ t)))) (record b { buf = b.buf ++ (c ∷ t) }) s

  -- After a text that is not empty is added to a buffer whose knobs are in order, the loop has ended,
  -- what waits has fewer than `max_chars` characters (blanks around it aside), and its first hard
  -- break, if it has one, closes less than a sentence.
  pub add-Waits :
      (t : Text) (b : Buffer)
      → is_empty t ≡ false
      → IsSized b
      → (parts : List Text) × (b' : Buffer) × (add blank lower t b ≡ some (parts, b')) × Waits b'
  add-Waits t b h s =
      let (parts, b', e) = add_ends blank lower t b in (parts, b', e, rw e at (add-Leaves t b h s))
