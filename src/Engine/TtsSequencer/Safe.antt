-- ===== src/Engine/TtsSequencer/Safe.antt =====
-- The outputs are in place, whatever happens in between.
use voxedge.Base.{
  ◌≡◌, refl, ap, sym, ◌∙◌, Bool, true, false, not, ◌&&◌, Option, none, some, List, [], ◌∷◌,
  is_empty, if_intro, if◌then◌else◌,
}
use voxedge.Text.Strip.{Text}
use voxedge.Engine.TtsSequencer.{
  Splitter, header, sound, failed, saturated, sentence_done, Item, chunk, end_of, error, no_chunk,
  too_many, Pc, at_head, waiting, late, ended, taken, opening, header_sent, acquiring, sounding,
  reported, closing, Channel, in_drain, Action, text, flush, interrupt, reset, deadline,
  client_leaves, input_ends, goes_on, put, put_speakable, put_all, with_buffer, finish, turn_done,
  head, get, announce, hear, resume, act, run, start,
}
use voxedge.Engine.TtsSequencer.Transcript.{Mode, unheard, between, over, within, follows, heard}
use voxedge.Engine.TtsSequencer.Modes.{
  Open, Fits, Fits-Open, heard-send, follows-failed, follows-turn_done, follows-end, follows-header,
  follows-started, follows-done,
}

module _ {B : Type 0} where
  abbrev pub IsSafe : Channel B → Type 0
  IsSafe c = (m : Mode) × (heard c.outs ≡ some m) × Fits c.pc c.sr_header_sent m

  -- What the outputs, the place and the header of a channel show.
  same-IsSafe :
      (c c' : Channel B)
      → c'.outs ≡ c.outs
      → c'.pc ≡ c.pc
      → c'.sr_header_sent ≡ c.sr_header_sent
      → IsSafe c
      → IsSafe c'
  same-IsSafe c c' o p s (m, e, f) = (m, rw o e, rw (p, s) f)

module _ {B : Type 0} (splitter : Splitter B) (speakable : Text → Text) (multi : Bool) where
  put-IsSafe :
      (s : Text) (c : Channel B) → IsSafe c → IsSafe (put_speakable splitter speakable multi s c)
  unfolding put_speakable
  put-IsSafe s c h =
      if_intro IsSafe (is_empty (speakable s)) _ _ (λ _. h)
        (λ _. same-IsSafe c (put splitter speakable multi (speakable s) c) refl refl refl h)

  put_all-IsSafe :
      (ss : List Text) (c : Channel B) → IsSafe c → IsSafe (put_all splitter speakable multi ss c)
  unfolding put_all
  put_all-IsSafe [] c h = h
  put_all-IsSafe (s ∷ ss) c h =
      put_all-IsSafe ss (put_speakable splitter speakable multi s c) (put-IsSafe s c h)

  with_buffer-IsSafe :
      (b : Option B) (f : B → List Text × B) (c : Channel B)
      → IsSafe c
      → IsSafe (with_buffer splitter speakable multi b f c)
  unfolding with_buffer
  with_buffer-IsSafe none f c h = h
  with_buffer-IsSafe (some b) f c h =
      put_all-IsSafe (f b).0 (record c { buffer = some (f b).1 })
        (same-IsSafe c (record c { buffer = some (f b).1 }) refl refl refl h)

  -- The loop between sentences.
  finish-IsSafe :
      (c : Channel B)
      → (m : Mode) → heard c.outs ≡ some m
      → Open c.sr_header_sent m
      → IsSafe (finish splitter speakable multi c)
  unfolding finish
  finish-IsSafe c m e h =
      if_intro IsSafe c.client_closed _ _ (λ _. (m, e, tt))
        (λ _. (over, heard-send _ c.outs m over e (follows-end c.sr_header_sent multi m h), tt))

  turn_done-IsSafe :
      (c : Channel B) (m : Mode)
      → c.pc ≡ at_head
      → heard c.outs ≡ some m
      → Open c.sr_header_sent m
      → IsSafe (turn_done splitter speakable multi c)
  unfolding turn_done
  turn_done-IsSafe c m p e h =
      if_intro IsSafe c.client_closed _ _ (λ _. (m, e, rw p h))
        (λ _. (m, heard-send _ c.outs m m e (follows-turn_done c.sr_header_sent m h), rw p h))

  head-IsSafe :
      (c : Channel B) (m : Mode)
      → c.pc ≡ at_head
      → heard c.outs ≡ some m
      → Open c.sr_header_sent m
      → IsSafe (head splitter speakable multi c)
  unfolding head
  head-IsSafe c m p e h =
      if_intro IsSafe c.client_closed _ _ (λ _. finish-IsSafe c m e h)
        (λ _.
          if_intro IsSafe (c.tts_flush && is_empty c.q) _ _
            (λ _.
              if_intro IsSafe (multi && not c.asr_session_closed) _ _
                (λ _. turn_done-IsSafe c m p e h) (λ _. finish-IsSafe c m e h))
            (λ _. (m, e, h)))

  get-IsSafe :
      (q : List Text) (c : Channel B) (m : Mode)
      → heard c.outs ≡ some m
      → Open c.sr_header_sent m
      → IsSafe (get splitter speakable multi q c)
  unfolding get
  get-IsSafe [] c m e h = (m, e, h)
  get-IsSafe (s ∷ q) c m e h = (m, e, h)

  announce-IsSafe :
      (s : Text) (c : Channel B) (m : Mode)
      → c.sr_header_sent ≡ true
      → heard c.outs ≡ some m
      → Open true m
      → IsSafe (announce splitter speakable multi s c)
  unfolding announce
  announce-IsSafe s c m b e h =
      (within s, heard-send _ c.outs m (within s) e (follows-started m s h), (b, refl))

  hear-IsSafe :
      (s : Text) (i : Item) (c : Channel B)
      → c.pc ≡ sounding s
      → c.sr_header_sent ≡ true
      → heard c.outs ≡ some (within s)
      → IsSafe (hear splitter speakable multi s i c)
  unfolding hear follows
  hear-IsSafe s chunk c p b e =
      (within s, heard-send sound c.outs (within s) (within s) e refl, rw p (b, refl))
  hear-IsSafe s end_of c p b e =
      (between, heard-send _ c.outs (within s) between e (follows-done s), (b, refl))
  hear-IsSafe s error c p b e =
      (within s, heard-send failed c.outs (within s) (within s) e refl, (b, refl))
  hear-IsSafe s no_chunk c p b e =
      (within s, heard-send failed c.outs (within s) (within s) e refl, (b, refl))
  hear-IsSafe s (too_many n) c p b e =
      (within s, heard-send (saturated n) c.outs (within s) (within s) e refl, (b, refl))

  -- The cases of the loop, by where it stands.
  resume-IsSafe :
      (p : Pc) (i : Item) (c : Channel B) (b : Bool) (m : Mode)
      → c.pc ≡ p
      → c.sr_header_sent ≡ b
      → heard c.outs ≡ some m
      → Fits p b m
      → IsSafe (resume splitter speakable multi p i c)
  unfolding resume
  resume-IsSafe at_head i c b m p q e h = head-IsSafe c m p e (rw q h)
  resume-IsSafe waiting i c b m p q e h = get-IsSafe c.q c m e (rw q h)
  resume-IsSafe (taken s) i c b m p q e h = (m, e, rw q h)
  resume-IsSafe (opening s) i c b m p q e h =
      if_intro IsSafe c.sr_header_sent _ _
        (λ k. let o : Open true m = rw (sym q ∙ k) at h in announce-IsSafe s c m k e o)
        (λ k.
          let o : Open false m = rw (sym q ∙ k) at h in
          (between, heard-send header c.outs m between e (follows-header m o), refl))
  resume-IsSafe (header_sent s) i c b m p q e h =
      announce-IsSafe s (record c { sr_header_sent = true }) m refl e (rw h tt)
  resume-IsSafe (acquiring s) i c b m p q e h = (m, e, (q ∙ h.0, h.1))
  resume-IsSafe (sounding s) i c b m p q e h = hear-IsSafe s i c p (q ∙ h.0) (e ∙ ap some h.1)
  resume-IsSafe (reported s) i c b m p q e h = (
    between,
    heard-send (sentence_done s) c.outs (within s) between (e ∙ ap some h.1) (follows-done s),
    (q ∙ h.0, refl),
  )
  resume-IsSafe (closing s) i c b m p q e h = (m, e, rw h.1 tt)
  resume-IsSafe late i c b m p q e h =
      if_intro IsSafe c.client_closed _ _ (λ _. (m, e, rw q h))
        (λ _. (m, heard-send failed c.outs m m e (follows-failed b m h), rw q h))
  resume-IsSafe ended i c b m p q e h = (m, e, rw p tt)

  -- The task that is cancelled was in `drain`.
  cancelled-IsSafe :
      (p : Pc) (c : Channel B)
      → ((b : Bool) (m : Mode) → Open b m → Fits p b m)
      → IsSafe c
      → IsSafe (record c { pc = if in_drain c.pc then p else c.pc })
  cancelled-IsSafe p c f (m, e, h) = (
    m,
    e,
    if_intro (λ x. Fits x c.sr_header_sent m) (in_drain c.pc) p c.pc
        (λ d. f c.sr_header_sent m (Fits-Open c.pc c.sr_header_sent m d h)) (λ _. h),
  )

  act-IsSafe : (a : Action) (c : Channel B) → IsSafe c → IsSafe (act splitter speakable multi a c)
  unfolding act
  act-IsSafe (text t) c h =
      if_intro IsSafe (is_empty t) _ _ (λ _. h)
        (λ _. with_buffer-IsSafe c.buffer (splitter.add t) c h)
  act-IsSafe flush c h =
      let c' = with_buffer splitter speakable multi c.buffer splitter.flush c in
      same-IsSafe c' (record c' { tts_flush = true }) refl refl refl
        (with_buffer-IsSafe c.buffer splitter.flush c h)
  act-IsSafe interrupt c h = cancelled-IsSafe at_head c (λ b m o. o) h
  act-IsSafe reset c h = h
  act-IsSafe deadline c h = cancelled-IsSafe late c (λ b m o. o) h
  act-IsSafe client_leaves c h = h
  act-IsSafe input_ends c h = h
  act-IsSafe (goes_on i) c (m, e, h) = resume-IsSafe c.pc i c c.sr_header_sent m refl refl e h

  pub run-IsSafe :
      (as' : List Action) (c : Channel B) → IsSafe c → IsSafe (run splitter speakable multi as' c)
  unfolding run
  run-IsSafe [] c h = h
  run-IsSafe (a ∷ as') c h = run-IsSafe as' (act splitter speakable multi a c) (act-IsSafe a c h)

  -- From a new channel, after any actions in any order, the outputs are ones that the transcript allows:
  -- the sample rate before the first sentence and never within one; sound, and the end of a sentence,
  -- only in the sentence that was last started; nothing after the event that ends the session.
  pub run-heard :
      (has_tts : Bool) (as' : List Action)
      → (m : Mode) × (heard
            (run splitter speakable multi as' (start splitter speakable multi has_tts)).outs
          ≡ some m)
  unfolding heard
  run-heard has_tts as' =
      let (m, e, h) =
        run-IsSafe as' (start splitter speakable multi has_tts) (unheard, refl, refl) in
      (m, e)
