-- ===== src/Engine/TtsSequencer/Order.antt =====
-- Sentences are started in the order in which they were queued.
use voxedge.Base.{
  ◌≡◌, refl, ap, sym, ◌∙◌, Bool, true, false, Option, none, some, List, [], ◌∷◌, ◌++◌, arith,
  is_empty, if_intro, append_assoc, All,
}
use voxedge.Text.Strip.{Text}
use voxedge.Engine.TtsSequencer.{
  Splitter, Out, tts_started, Item, chunk, end_of, error, no_chunk, too_many, Pc, at_head, waiting,
  late, ended, taken, opening, header_sent, acquiring, sounding, reported, closing, Channel, Action,
  text, flush, interrupt, reset, deadline, client_leaves, input_ends, goes_on, put_speakable,
  put_all, with_buffer, finish, turn_done, head, get, announce, hear, resume, act, run,
}

-- The sentences that were started, oldest first.
abbrev pub spoken : List Out → List Text
spoken [] = []
spoken (tts_started t ∷ os) = spoken os ++ (t ∷ [])
spoken (_ ∷ os) = spoken os

-- The sentence that was taken from the queue and is not started yet.
abbrev pub held : Pc → List Text
held (taken s) = s ∷ []
held (opening s) = s ∷ []
held (header_sent s) = s ∷ []
held _ = []

-- Whether no sentence is given up.
abbrev pub loses_none : Action → Bool
loses_none interrupt = false
loses_none reset = false
loses_none deadline = false
loses_none _ = true

abbrev pub IsQuiet : Action → Type 0
IsQuiet a = loses_none a ≡ true

module _ {B : Type 0} where
  -- What was started, what is held, and what waits.
  abbrev pub line : Channel B → List Text
  line c = spoken c.outs ++ (held c.pc ++ c.q)

-- A relation between the line and what was queued, which one more sentence keeps.
module _ {B : Type 0} (splitter : Splitter B) (speakable : Text → Text) (multi : Bool)
    (R : List Text → List Text → Type 0)
    (grows : (xs ys : List Text) (t : Text) → R xs ys → R (xs ++ (t ∷ [])) (ys ++ (t ∷ []))) where
  abbrev Keeps : Channel B → Type 0
  Keeps c = R (line c) c.queued

  same_line : (xs xs' ys : List Text) → xs ≡ xs' → R xs ys → R xs' ys
  same_line xs xs' ys e h = rw (← e) h

  put-Keeps :
      (s : Text) (c : Channel B) → Keeps c → Keeps (put_speakable splitter speakable multi s c)
  unfolding put_speakable
  put-Keeps s c h =
      if_intro Keeps (is_empty (speakable s)) _ _ (λ _. h)
        (λ _.
          same_line (line c ++ (speakable s ∷ [])) _ _
            (append_assoc (spoken c.outs) (held c.pc ++ c.q) (speakable s ∷ [])
              ∙ ap (λ l. spoken c.outs ++ l) (append_assoc (held c.pc) c.q (speakable s ∷ [])))
            (grows (line c) c.queued (speakable s) h))

  put_all-Keeps :
      (ss : List Text) (c : Channel B) → Keeps c → Keeps (put_all splitter speakable multi ss c)
  unfolding put_all
  put_all-Keeps [] c h = h
  put_all-Keeps (s ∷ ss) c h =
      put_all-Keeps ss (put_speakable splitter speakable multi s c) (put-Keeps s c h)

  with_buffer-Keeps :
      (b : Option B) (f : B → List Text × B) (c : Channel B)
      → Keeps c
      → Keeps (with_buffer splitter speakable multi b f c)
  unfolding with_buffer
  with_buffer-Keeps none f c h = h
  with_buffer-Keeps (some b) f c h = put_all-Keeps (f b).0 (record c { buffer = some (f b).1 }) h

  -- The outputs of the loop but the start of a sentence do not count.
  head-Keeps : (c : Channel B) → c.pc ≡ at_head → Keeps c → Keeps (head splitter speakable multi c)
  unfolding head finish turn_done
  head-Keeps c p h = let h' : R (spoken c.outs ++ c.q) c.queued = rw p at h in ground arith

  get-Keeps :
      (q : List Text) (c : Channel B)
      → R (spoken c.outs ++ q) c.queued
      → c.q ≡ q
      → Keeps (get splitter speakable multi q c)
  unfolding get
  get-Keeps [] c h e = rw e h
  get-Keeps (s ∷ q) c h e = h

  announce-Keeps :
      (s : Text) (c : Channel B)
      → R (spoken c.outs ++ ((s ∷ []) ++ c.q)) c.queued
      → Keeps (announce splitter speakable multi s c)
  unfolding announce
  announce-Keeps s c h =
      same_line (spoken c.outs ++ ((s ∷ []) ++ c.q)) _ _
        (sym (append_assoc (spoken c.outs) (s ∷ []) c.q)) h

  hear-Keeps :
      (s : Text) (i : Item) (c : Channel B)
      → c.pc ≡ sounding s
      → R (spoken c.outs ++ c.q) c.queued
      → Keeps (hear splitter speakable multi s i c)
  unfolding hear
  hear-Keeps s chunk c p h = rw p h
  hear-Keeps s end_of c p h = h
  hear-Keeps s error c p h = h
  hear-Keeps s no_chunk c p h = h
  hear-Keeps s (too_many n) c p h = h

  resume-Keeps :
      (p : Pc) (i : Item) (c : Channel B)
      → c.pc ≡ p
      → R (spoken c.outs ++ (held p ++ c.q)) c.queued
      → Keeps (resume splitter speakable multi p i c)
  unfolding resume
  resume-Keeps at_head i c p h = head-Keeps c p (rw p h)
  resume-Keeps waiting i c p h = get-Keeps c.q c h refl
  resume-Keeps (taken s) i c p h = h
  resume-Keeps (opening s) i c p h =
      if_intro Keeps c.sr_header_sent _ _ (λ _. announce-Keeps s c h) (λ _. h)
  resume-Keeps (header_sent s) i c p h = announce-Keeps s (record c { sr_header_sent = true }) h
  resume-Keeps (acquiring s) i c p h = h
  resume-Keeps (sounding s) i c p h = hear-Keeps s i c p h
  resume-Keeps (reported s) i c p h = h
  resume-Keeps (closing s) i c p h = h
  resume-Keeps late i c p h = if_intro Keeps c.client_closed _ _ (λ _. h) (λ _. h)
  resume-Keeps ended i c p h = rw p h

  pub act-Keeps :
      (a : Action) (c : Channel B) → IsQuiet a → Keeps c → Keeps (act splitter speakable multi a c)
  unfolding act
  act-Keeps (text t) c q h =
      if_intro Keeps (is_empty t) _ _ (λ _. h)
        (λ _. with_buffer-Keeps c.buffer (splitter.add t) c h)
  act-Keeps flush c q h = with_buffer-Keeps c.buffer splitter.flush c h
  act-Keeps interrupt c q h = absurd (cc q)
  act-Keeps reset c q h = absurd (cc q)
  act-Keeps deadline c q h = absurd (cc q)
  act-Keeps client_leaves c q h = h
  act-Keeps input_ends c q h = h
  act-Keeps (goes_on i) c q h = resume-Keeps c.pc i c refl h

  pub quiet-Keeps :
      (as' : List Action) (c : Channel B)
      → All IsQuiet as'
      → Keeps c
      → Keeps (run splitter speakable multi as' c)
  unfolding run
  quiet-Keeps [] c q h = h
  quiet-Keeps (a ∷ as') c q h =
      quiet-Keeps as' (act splitter speakable multi a c) q.1 (act-Keeps a c q.0 h)
