-- ===== src/Engine/TtsSequencer/BargeIn.antt =====
-- What is started after a barge-in, and what may be given up.
use voxedge.Base.{
  ◌≡◌, refl, ap, sym, ◌∙◌, Bool, true, false, ◌&&◌, List, [], ◌∷◌, ◌++◌, if_intro, append-nil,
  append_assoc, All, if◌then◌else◌,
}
use mathlib.Core.Path.{subst}
use mathlib.Core.List.Sublistᴰ
use mathlib.Core.List.{Sublistᴰ}
use voxedge.Text.Strip.{Text}
use voxedge.Engine.TtsSequencer.{
  Splitter, tts_started, Item, Pc, at_head, waiting, late, ended, taken, opening, header_sent,
  acquiring, sounding, reported, closing, Channel, in_drain, Action, text, flush, interrupt, reset,
  deadline, client_leaves, input_ends, goes_on, interrupt_synth, drain_and_reset, head, get,
  announce, resume, act, run, start,
}
use voxedge.Engine.TtsSequencer.Order.{spoken, held, IsQuiet, line, act-Keeps, quiet-Keeps}

-- The sentence that has left the queue and has no task yet.
abbrev pub taken_of : Pc → List Text
taken_of (taken s) = s ∷ []
taken_of _ = []

-- A relation that giving up a part of the line keeps, too.
module _ {B : Type 0} (splitter : Splitter B) (speakable : Text → Text) (multi : Bool)
    (R : List Text → List Text → Type 0)
    (grows : (xs ys : List Text) (t : Text) → R xs ys → R (xs ++ (t ∷ [])) (ys ++ (t ∷ [])))
    (shrinks : (xs xs' ys : List Text) → Sublistᴰ xs xs' → R xs' ys → R xs ys) where
  abbrev Keeps : Channel B → Type 0
  Keeps c = R (line c) c.queued

  -- The part of a line that is given up.
  fewer : (xs ys zs ts : List Text) → Sublistᴰ ys zs → R (xs ++ zs) ts → R (xs ++ ys) ts
  fewer xs ys zs ts p q = shrinks (xs ++ ys) (xs ++ zs) ts (Sublistᴰ.append (Sublistᴰ.refl xs) p) q

  cancelled :
      (p : Pc) (c : Channel B)
      → held p ≡ []
      → Keeps c
      → Keeps (record c { pc = if in_drain c.pc then p else c.pc })
  cancelled p c e h =
      if_intro (λ x. R (spoken c.outs ++ (held x ++ c.q)) c.queued) (in_drain c.pc) p c.pc
        (λ _.
          fewer (spoken c.outs) (held p ++ c.q) (held c.pc ++ c.q) c.queued
            (rw e (Sublistᴰ.append (Sublistᴰ.nil-sublist (held c.pc)) (Sublistᴰ.refl c.q))) h)
        (λ _. h)

  quietly :
      (a : Action) (c : Channel B) → IsQuiet a → Keeps c → Keeps (act splitter speakable multi a c)
  quietly = act-Keeps splitter speakable multi R grows

  any_act-Keeps : (a : Action) (c : Channel B) → Keeps c → Keeps (act splitter speakable multi a c)
  unfolding act
  any_act-Keeps interrupt c h = cancelled at_head c refl h
  any_act-Keeps deadline c h = cancelled late c refl h
  any_act-Keeps reset c h =
      fewer (spoken c.outs) (held c.pc ++ []) (held c.pc ++ c.q) c.queued
        (Sublistᴰ.append (Sublistᴰ.refl (held c.pc)) (Sublistᴰ.nil-sublist c.q)) h
  any_act-Keeps (text t) c h = quietly (text t) c refl h
  any_act-Keeps flush c h = quietly flush c refl h
  any_act-Keeps client_leaves c h = h
  any_act-Keeps input_ends c h = h
  any_act-Keeps (goes_on i) c h = quietly (goes_on i) c refl h

  run-Keeps :
      (as' : List Action) (c : Channel B) → Keeps c → Keeps (run splitter speakable multi as' c)
  unfolding run
  run-Keeps [] c h = h
  run-Keeps (a ∷ as') c h = run-Keeps as' (act splitter speakable multi a c) (any_act-Keeps a c h)

-- What was queued is the old texts and new ones, and the line is among other old texts and the new.
abbrev Since : List Text → List Text → List Text → List Text → Type 0
Since said old xs ys = (new : List Text) × (ys ≡ old ++ new) × Sublistᴰ xs (said ++ new)

Since-grows :
    (said old xs ys : List Text) (t : Text)
    → Since said old xs ys
    → Since said old (xs ++ (t ∷ [])) (ys ++ (t ∷ []))
Since-grows said old xs ys t (new, e, p) = (
  new ++ (t ∷ []),
  ap (λ l. l ++ (t ∷ [])) e ∙ append_assoc old new (t ∷ []),
  subst (λ l. Sublistᴰ (xs ++ (t ∷ [])) l) (append_assoc said new (t ∷ []))
      (Sublistᴰ.append p (Sublistᴰ.refl (t ∷ []))),
)

module _ {B : Type 0} (splitter : Splitter B) (speakable : Text → Text) (multi : Bool) where
  -- From a new channel, where no barge-in, reset or deadline of a sentence is among the actions: the
  -- sentences that were started, then the one that the loop holds, then those that wait, are all the
  -- queued ones, in their order.
  pub quiet-spoken :
      (has_tts : Bool) (as' : List Action)
      → All IsQuiet as'
      → line (run splitter speakable multi as' (start splitter speakable multi has_tts))
        ≡ (run splitter speakable multi as' (start splitter speakable multi has_tts)).queued
  quiet-spoken has_tts as' q =
      quiet-Keeps splitter speakable multi ◌≡◌ (λ xs ys t e. ap (λ l. l ++ (t ∷ [])) e) as'
        (start splitter speakable multi has_tts) q refl

  -- A barge-in with nothing between its two steps.
  abbrev pub barge_in : Channel B → Channel B
  barge_in c = drain_and_reset splitter speakable multi (interrupt_synth splitter speakable multi c)

  still_held : (p : Pc) → held (if in_drain p then at_head else p) ≡ taken_of p
  still_held at_head = refl
  still_held waiting = refl
  still_held late = refl
  still_held ended = refl
  still_held (taken s) = refl
  still_held (opening s) = refl
  still_held (header_sent s) = refl
  still_held (acquiring s) = refl
  still_held (sounding s) = refl
  still_held (reported s) = refl
  still_held (closing s) = refl

  barge_in-line : (c : Channel B) → line (barge_in c) ≡ spoken c.outs ++ taken_of c.pc
  unfolding drain_and_reset interrupt_synth
  barge_in-line c = ap (λ l. spoken c.outs ++ l) (append-nil _ ∙ still_held c.pc)

  -- After a barge-in between whose steps nothing else happens, and any actions after it: with the
  -- sentences that were queued since then, what was started since then, what the loop holds and what
  -- waits are among these, in their order and each at most once, after the one sentence that `run` had
  -- taken from the queue without making its task, if there was one. No other sentence that was queued
  -- before is started any more.
  pub barge_in-spoken :
      (c : Channel B) (as' : List Action)
      → (new : List Text) × ((run splitter speakable multi as' (barge_in c)).queued
          ≡ c.queued ++ new)
        × Sublistᴰ
            (line (run splitter speakable multi as' (barge_in c)))
            ((spoken c.outs ++ taken_of c.pc) ++ new)
  unfolding drain_and_reset interrupt_synth
  barge_in-spoken c as' =
      let said = spoken c.outs ++ taken_of c.pc in
      run-Keeps splitter speakable multi (Since said c.queued) (Since-grows said c.queued)
        (λ xs xs' ys p h. (h.0, h.1, Sublistᴰ.trans p h.2)) as' (barge_in c)
        (
          [],
          sym (append-nil c.queued),
          subst (λ l. Sublistᴰ l (said ++ [])) (sym (barge_in-line c))
              (subst (λ l. Sublistᴰ said l) (sym (append-nil said)) (Sublistᴰ.refl said)),
        )

  -- The sentence that was taken is started, though the whole barge-in comes before its task is made.
  taken_sentence :
      (c : Channel B) (s : Text) (i j : Item)
      → c.pc ≡ taken s
      → c.sr_header_sent ≡ true
      → (run splitter speakable multi (interrupt ∷ reset ∷ goes_on i ∷ goes_on j ∷ []) c).outs
        ≡ tts_started s ∷ c.outs
  unfolding run act resume announce interrupt_synth drain_and_reset
  taken_sentence c s i j e f = rw e (rw f refl)

  and_false : (b : Bool) → b && false ≡ false
  and_false true = refl
  and_false false = refl

  -- A barge-in that waits between its steps while the loop goes on: a sentence that was queued before is
  -- started, and the reset does not stop it.
  stale_sentence :
      (c : Channel B) (s : Text) (q : List Text) (i j k l : Item)
      → in_drain c.pc ≡ true
      → c.q ≡ s ∷ q
      → c.client_closed ≡ false
      → c.sr_header_sent ≡ true
      → ((run splitter speakable multi
            (interrupt ∷ goes_on i ∷ goes_on j ∷ goes_on k ∷ goes_on l ∷ reset ∷ [])
            c).outs
          ≡ tts_started s ∷ c.outs)
        × ((run splitter speakable multi
              (interrupt ∷ goes_on i ∷ goes_on j ∷ goes_on k ∷ goes_on l ∷ reset ∷ [])
              c).pc
            ≡ acquiring s)
  unfolding run act resume head get announce interrupt_synth drain_and_reset
  stale_sentence c s q i j k l d e f g =
      rw d (rw f (rw e (rw (and_false c.tts_flush) (rw g (refl, refl)))))
