-- ===== src/Engine/TurnDriver/Steps.antt =====
-- What the parts of a round add to the messages, and how they leave a turn.
use voxedge.Base.{
  ℕ, zero, suc, ◌≡◌, refl, ap, ◌∙◌, sym, true, false, ◌||◌, ◌&&◌, not, Bool, false, Option, none,
  some, List, [], ◌∷◌, ◌++◌, any, is_empty, append_assoc, append-nil, if_intro,
}
use voxedge.Text.Strip.{Text}
use voxedge.Text.Equality.{same_text}
use voxedge.Engine.TurnDriver.Host.{
  LlmEvent, text, tool_call_delta, finish, Item, event, stall, failure, Call, Message, tool_result,
  Output, spoke, preamble, flushed, started, completed, misconfigured, Host, Turn, emit, polled,
  Fault, first_token, stream_idle, backend_error, tool_error,
}
use voxedge.Engine.TurnDriver.Stream.{
  Acc, preamble_of, Streamed, drained, dropped, broke, announce, on_event, is_watched, timeout_kind,
  stream_loop,
}
use voxedge.Engine.TurnDriver.Tools.{
  Entry, OneCall, did, failed, AllCalls, all_did, stopped, with_entry, add_result, use_result,
  dispatch_one, dispatch_all, is_template, report_misconfigured,
}

-- The exceptions that leave calls without results.
abbrev pub is_tool_error : Fault → Bool
is_tool_error tool_error = true
is_tool_error first_token = false
is_tool_error stream_idle = false
is_tool_error backend_error = false

-- An output that does not end the turn's speech.
abbrev pub Goes : Output → Type 0
Goes flushed = ⊥
Goes _ = Unit

abbrev pub NoFlush : List Output → Type 0
NoFlush [] = Unit
NoFlush (o ∷ os) = Goes o × NoFlush os

-- The end of the speech is the last output, and there is one.
abbrev pub FlushedOnce : List Output → Type 0
FlushedOnce (flushed ∷ os) = NoFlush os
FlushedOnce _ = ⊥

-- The results answer the calls, one each, in their order.
abbrev pub Answers : List Call → List Message → Type 0
Answers [] [] = Unit
Answers (c ∷ cs) (tool_result id content ∷ ms) = (id ≡ c.id) × Answers cs ms
Answers _ _ = ⊥

-- The results answer the first calls, one each, in their order, and not all of the calls.
abbrev pub AnswersSome : List Call → List Message → Type 0
AnswersSome (c ∷ cs) [] = Unit
AnswersSome (c ∷ cs) (tool_result id content ∷ ms) = (id ≡ c.id) × AnswersSome cs ms
AnswersSome _ _ = ⊥

module _ {A R W : Type 0} (h : Host A R W) where
  -- Every call of `should_abort` before the number `n` answered no.
  abbrev pub NotAborted : ℕ → Type 0
  NotAborted zero = Unit
  NotAborted (suc n) = (h.poll n ≡ false) × NotAborted n

  -- The last call of `should_abort` was the first to answer yes.
  abbrev pub LastAborted : ℕ → Type 0
  LastAborted zero = ⊥
  LastAborted (suc n) = (h.poll n ≡ true) × NotAborted n

  -- A turn that goes on: it was never told to stop, and has not ended its speech.
  abbrev pub IsOpen : Turn W → Type 0
  IsOpen t = NotAborted t.polls × NoFlush t.outputs

  -- A turn that was told to stop, and did not end its speech.
  abbrev pub IsDropped : Turn W → Type 0
  IsDropped t = LastAborted t.polls × NoFlush t.outputs

  -- A turn that was never told to stop, and has ended its speech.
  abbrev pub IsFlushed : Turn W → Type 0
  IsFlushed t = NotAborted t.polls × FlushedOnce t.outputs

  -- From `t` to `t'` the messages `ms` are added, and a turn that goes on comes to `P`.
  pub record Ends (P : Turn W → Type 0) (ms : List Message) (t t' : Turn W) : Type 0 where
    pub added : t'.messages ≡ t.messages ++ ms
    pub ends : IsOpen t → P t'

  pub chain :
      {P : Turn W → Type 0} {ms ns : List Message} {t t' t'' : Turn W}
      → Ends IsOpen ms t t'
      → Ends P ns t' t''
      → Ends P (ms ++ ns) t t''
  chain {P} {ms} {ns} {t} {t'} {t''} f g = record {
    added = g.added ∙ (ap (λ l. l ++ ns) f.added ∙ append_assoc t.messages ms ns);
    ends = λ o. g.ends (f.ends o);
  }

  pub stays : (t : Turn W) → Ends IsOpen [] t t
  stays t = record { added = sym (append-nil t.messages); ends = λ o. o }

  pub emits : (o : Output) (t : Turn W) → Goes o → Ends IsOpen [] t (emit o t)
  emits o t g = record { added = sym (append-nil t.messages); ends = λ p. (p.0, (g, p.1)) }

  pub flushes : (t : Turn W) → Ends IsFlushed [] t (emit flushed t)
  flushes t = record { added = sym (append-nil t.messages); ends = λ p. p }

  pub goes_on : (t : Turn W) → h.poll t.polls ≡ false → Ends IsOpen [] t (polled t)
  goes_on t e = record { added = sym (append-nil t.messages); ends = λ p. ((e, p.0), p.1) }

  pub is_told : (t : Turn W) → h.poll t.polls ≡ true → Ends IsDropped [] t (polled t)
  is_told t e = record { added = sym (append-nil t.messages); ends = λ p. ((e, p.0), p.1) }

  pub announces :
      (name : Text) (fired : List Text) (t : Turn W) → Ends IsOpen [] t (announce h name fired t).1
  unfolding announce
  announces name fired t =
      if_intro {A = List Text × Turn W} (λ r. Ends IsOpen [] t r.1)
        (is_empty name || any (same_text name) fired || is_empty (preamble_of (h.tool name))) _ _
        (λ _. stays t) (λ _. emits (preamble _) t tt)

  pub on_event-Ends : (e : LlmEvent) (a : Acc) (t : Turn W) → Ends IsOpen [] t (on_event h e a t).1
  unfolding on_event
  on_event-Ends (text s) a t =
      if_intro {A = Acc × Turn W} (λ r. Ends IsOpen [] t r.1) (is_empty s) _ _ (λ _. stays t)
        (λ _. emits (spoke s) t tt)
  on_event-Ends (tool_call_delta index id name arguments) a t = announces name a.preamble_fired t
  on_event-Ends (finish reason) a t = stays t

  -- How the loop over the events of a stream ends.
  abbrev pub StreamEnds : Turn W → Streamed W → Type 0
  StreamEnds t (drained a t') = Ends IsOpen [] t t'
  StreamEnds t (dropped t') = Ends IsDropped [] t t'
  StreamEnds t (broke e t') = (is_tool_error e ≡ false) × Ends IsOpen [] t t'

  after_event :
      {t t' : Turn W} (r : Streamed W) → Ends IsOpen [] t t' → StreamEnds t' r → StreamEnds t r
  after_event (drained a t'') f g = chain f g
  after_event (dropped t'') f g = chain f g
  after_event (broke e t'') f g = (g.0, chain f g.1)

  timeout-stream : (b : Bool) → is_tool_error (timeout_kind h b) ≡ false
  timeout-stream true = refl
  timeout-stream false = refl

  pub stream_loop-Ends :
      (items : List Item) (a : Acc) (t : Turn W) → StreamEnds t (stream_loop h items a t)
  unfolding stream_loop
  stream_loop-Ends [] a t = stays t
  stream_loop-Ends (failure ∷ items) a t = (refl, stays t)
  stream_loop-Ends (stall ∷ items) a t =
      if_intro (StreamEnds t) (is_watched h a.received_payload) _ _
        (λ _. (timeout-stream a.received_payload, stays t)) (λ _. stream_loop-Ends items a t)
  stream_loop-Ends (event e ∷ items) a t =
      if_intro (StreamEnds t) (h.poll t.polls) _ _ (λ p. is_told t p)
        (λ p.
          after_event _ (chain (goes_on t p) (on_event-Ends e a (polled t)))
            (stream_loop-Ends items _ _))

  pub adds :
      (m : Message) (t : Turn W)
      → Ends IsOpen (m ∷ []) t (record t { messages = t.messages ++ (m ∷ []) })
  adds m t = record { added = refl; ends = λ o. o }

  goes_with : (w : W) (t : Turn W) → Ends IsOpen [] t (record t { world = w })
  goes_with w t = record { added = sym (append-nil t.messages); ends = λ o. o }

  -- How one call ends, and how all do.
  abbrev pub OneEnds : Call → Turn W → OneCall R W → Type 0
  OneEnds c t (did e fired t') = (content : Text) × Ends IsOpen (tool_result c.id content ∷ []) t t'
  OneEnds c t (failed t') = Ends IsOpen [] t t'

  abbrev pub AllEnd : List Call → Turn W → AllCalls R W → Type 0
  AllEnd cs t (all_did es t') = (ms : List Message) × Answers cs ms × Ends IsOpen ms t t'
  AllEnd cs t (stopped t') = (ms : List Message) × AnswersSome cs ms × Ends IsOpen ms t t'

  add_result-Ends :
      (c : Call) (fired : List Text) (r : R) (content : Option Text) (t t' : Turn W)
      → Ends IsOpen [] t t'
      → OneEnds c t (add_result h c fired r content t')
  unfolding add_result
  add_result-Ends c fired r none t t' e = e
  add_result-Ends c fired r (some content) t t' e =
      (content, chain e (chain (adds (tool_result c.id content) t') (emits (completed c.id) _ tt)))

  use_result-Ends :
      (c : Call) (fired : List Text) (r : Option R) (t t' : Turn W)
      → Ends IsOpen [] t t'
      → OneEnds c t (use_result h c fired r t')
  unfolding use_result
  use_result-Ends c fired none t t' e = e
  use_result-Ends c fired (some r) t t' e = add_result-Ends c fired r (h.dumps r) t t' e

  dispatch_one-Ends :
      (c : Call) (fired : List Text) (t : Turn W) → OneEnds c t (dispatch_one h c fired t)
  unfolding dispatch_one
  dispatch_one-Ends c fired t =
      use_result-Ends c _ _ t _
        (chain (emits (started c.id) t tt) (chain (announces c.name fired _) (goes_with _ _)))

  -- The calls after one that has its result.
  with_entry-Ends :
      (c : Call) (cs : List Call) (e : Entry R) (content : Text) (t t' : Turn W) (r : AllCalls R W)
      → Ends IsOpen (tool_result c.id content ∷ []) t t'
      → AllEnd cs t' r
      → AllEnd (c ∷ cs) t (with_entry e r)
  with_entry-Ends c cs e content t t' (all_did es t'') f k =
      (tool_result c.id content ∷ k.0, (refl, k.1), chain f k.2)
  with_entry-Ends c cs e content t t' (stopped t'') f k =
      (tool_result c.id content ∷ k.0, (refl, k.1), chain f k.2)

  next_calls :
      (c : Call) (cs : List Call) (t : Turn W) (one : OneCall R W)
      → ((fired : List Text) (t' : Turn W) → AllEnd cs t' (dispatch_all h cs fired t'))
      → OneEnds c t one
      → AllEnd (c ∷ cs) t (elim one [
        | did e fired t' ↦ with_entry e (dispatch_all h cs fired t')
        | failed t' ↦ stopped t'
      ])
  next_calls c cs t (did e fired t') f k =
      with_entry-Ends c cs e k.0 t t' (dispatch_all h cs fired t') k.1 (f fired t')
  next_calls c cs t (failed t') f k = ([], tt, k)

  pub dispatch_all-Ends :
      (cs : List Call) (fired : List Text) (t : Turn W) → AllEnd cs t (dispatch_all h cs fired t)
  unfolding dispatch_all
  dispatch_all-Ends [] fired t = ([], tt, stays t)
  dispatch_all-Ends (c ∷ cs) fired t =
      next_calls c cs t (dispatch_one h c fired t) (dispatch_all-Ends cs)
        (dispatch_one-Ends c fired t)

  pub report-Ends :
      (es : List (Entry R)) (t : Turn W) → Ends IsOpen [] t (report_misconfigured h es t)
  unfolding report_misconfigured
  report-Ends [] t = stays t
  report-Ends (e ∷ es) t =
      chain
        (if_intro (Ends IsOpen [] t)
          (is_template h e && (is_empty e.completion_text && not (h.has_failed e.result))) _ _
          (λ _. emits (misconfigured e.name) t tt) (λ _. stays t))
        (report-Ends es _)
