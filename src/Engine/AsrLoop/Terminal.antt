-- ===== src/Engine/AsrLoop/Terminal.antt =====
-- The last final of a session.
use voxedge.Base.{
  is_some, ℕ, zero, suc, ◌≡◌, Bool, true, false, not, ◌&&◌, ◌||◌, ◌⊎◌, inl, inr, Option, none, some,
  List, [], ◌∷◌, is_empty, if_intro, ◌==◌, if◌then◌else◌,
}
use voxedge.Text.Strip.{Text, strip}
use voxedge.Engine.SessionState.{Reason, SessionState, clear_endpoint, deactivate_asr}
use voxedge.Engine.AsrLoop.{
  Event, endpoint, error, final, only_final, heard, Finalized, Host, Loop, start, Next, again,
  returned, died, text_or_empty, is_client_eos, same_partial, yielded, send, is_late, time_out,
  snapshot, send_partial, poll_partial, last_check, emit_multi, emit, after_finalize, fire,
  is_stale, resolve_endpoint, iteration, run,
}

-- An event that does not say that the session is complete.
abbrev pub Plain : Event → Type 0
Plain (final text complete duplicate language) = complete ≡ false
Plain (only_final text language) = ⊥
Plain _ = Unit

abbrev pub NoTerminal : List Event → Type 0
NoTerminal [] = Unit
NoTerminal (e ∷ es) = Plain e × NoTerminal es

-- One event says so, and after it there are only calls of `_on_asr_final`.
abbrev pub OneTerminal : List Event → Type 0
OneTerminal (heard text ∷ es) = OneTerminal es
OneTerminal (final text complete duplicate language ∷ es) = (complete ≡ true) × NoTerminal es
OneTerminal (only_final text language ∷ es) = NoTerminal es
OneTerminal _ = ⊥

-- While the loop runs, or where it died, there is no such event, and where it returned at most one.
abbrev pub TerminalLast : Next → Type 0
TerminalLast (again l) = NoTerminal l.events
TerminalLast (died l) = NoTerminal l.events
TerminalLast (returned l) = NoTerminal l.events ⊎ OneTerminal l.events

module _ (h : Host) where
  last_check-TerminalLast : (l : Loop) → NoTerminal l.events → TerminalLast (last_check h l)
  unfolding last_check
  last_check-TerminalLast l n =
      if_intro TerminalLast (l.state.asr_session_closed && not l.state.asr_active) _ _ (λ _. inl n)
        (λ _. n)

  heard-if :
      (P : Loop → Type 0) (b : Bool) (text : Text) (l : Loop)
      → P l
      → P (send h (heard text) l)
      → P (if b then l else send h (heard text) l)
  heard-if P b text l p q = if_intro {A = Loop} P b _ _ (λ _. p) (λ _. q)

  emit_multi-TerminalLast :
      (text : Text) (language : Option Text) (l : Loop)
      → NoTerminal l.events
      → TerminalLast (emit_multi h text language l)
  unfolding emit_multi
  emit_multi-TerminalLast text language l n =
      if_intro TerminalLast l.state.asr_session_closed _ _
        (λ c. inr (
          heard-if (λ t. OneTerminal t.events) (is_empty (strip h.blank text)) text _ (c, n)
            (c, n)))
        (λ c. last_check-TerminalLast _ (
          heard-if (λ t. NoTerminal t.events) (is_empty (strip h.blank text)) text _ (c, n)
            (tt, (c, n))))

  emit-TerminalLast :
      (text : Text) (language : Option Text) (l : Loop)
      → NoTerminal l.events
      → TerminalLast (emit h text language l)
  unfolding emit
  emit-TerminalLast text language l n =
      if_intro TerminalLast h.multi _ _ (λ _. emit_multi-TerminalLast text language l n)
        (λ _. inr n)

  after_finalize-TerminalLast :
      (gen : ℕ) (f : Option Finalized) (l : Loop)
      → NoTerminal l.events
      → TerminalLast (after_finalize h gen f l)
  unfolding after_finalize
  after_finalize-TerminalLast gen none l n = n
  after_finalize-TerminalLast gen (some f) l n =
      let n' =
        if_intro {A = Loop} (λ l'. NoTerminal l'.events) (l.state.asr_active_gen == gen)
          (record l { state = deactivate_asr l.state }) l (λ _. n) (λ _. n) in
      if_intro TerminalLast f.accepted _ _
        (λ _. emit-TerminalLast (text_or_empty f.text) f.language _ n')
        (λ _. emit-TerminalLast [] none _ n')

  told-NoTerminal :
      (reason : Option Reason) (l : Loop)
      → NoTerminal l.events
      → NoTerminal (if is_client_eos reason then l else send h endpoint l).events
  told-NoTerminal reason l n =
      if_intro {A = Loop} (λ l'. NoTerminal l'.events) (is_client_eos reason) l _ (λ _. n)
        (λ _. (tt, n))

  fire-TerminalLast :
      (reason : Option Reason) (l : Loop) → NoTerminal l.events → TerminalLast (fire h reason l)
  unfolding fire
  fire-TerminalLast reason l n =
      let told =
        if is_client_eos reason
        then record l { state = clear_endpoint l.state }
        else send h endpoint (record l { state = clear_endpoint l.state }) in
      let n' = told-NoTerminal reason (record l { state = clear_endpoint l.state }) n in
      if_intro TerminalLast told.state.asr_active _ _
        (λ _. after_finalize-TerminalLast told.state.asr_active_gen _ _ n')
        (λ _. emit-TerminalLast [] none told n')

  resolve-TerminalLast :
      (l : Loop) (is_endpoint : Bool)
      → NoTerminal l.events
      → TerminalLast (resolve_endpoint h (l, is_endpoint))
  unfolding resolve_endpoint
  resolve-TerminalLast l is_endpoint n =
      let stale = is_stale h l.state in
      let l' = if stale then record l { state = clear_endpoint l.state } else l in
      let n' =
        if_intro {A = Loop} (λ x. NoTerminal x.events) stale
          (record l { state = clear_endpoint l.state }) l (λ _. n) (λ _. n) in
      if_intro TerminalLast
        (is_some (if stale then none else l.state.endpoint_pending)
          || (is_endpoint && l'.state.asr_active))
        _ _ (λ _. fire-TerminalLast _ l' n') (λ _. last_check-TerminalLast l' n')

  send_partial-NoTerminal :
      (p : ℕ × Text × Bool) (l : Loop)
      → NoTerminal l.events
      → NoTerminal (send_partial h p l).events
  unfolding send_partial
  send_partial-NoTerminal (gen, text, stable) l n =
      if_intro {A = Loop} (λ l'. NoTerminal l'.events)
        (not (is_empty text)
          && (gen == l.state.asr_active_gen && not (same_partial gen text l.last_partial)))
        _ _ (λ _. (tt, n)) (λ _. n)

  poll-TerminalLast :
      (l : Loop) → NoTerminal l.events → TerminalLast (resolve_endpoint h (poll_partial h l))
  unfolding poll_partial
  poll-TerminalLast l n =
      if_intro {A = Loop × Bool} (λ r. TerminalLast (resolve_endpoint h r)) l.state.asr_active _ _
        (λ _.
          resolve-TerminalLast _ _
            (send_partial-NoTerminal (snapshot h (h.get_partial l.awaits)) _ n))
        (λ _. resolve-TerminalLast l false n)

  time_out-TerminalLast : (l : Loop) → NoTerminal l.events → TerminalLast (time_out h l)
  unfolding time_out
  time_out-TerminalLast l n =
      let cancelled = yielded h l in
      let sent =
        send h error
          (record cancelled { state = clear_endpoint (deactivate_asr cancelled.state) }) in
      if_intro TerminalLast (h.multi && not sent.state.asr_session_closed) (again (yielded h sent))
        (returned sent) (λ _. (tt, n)) (λ _. inl (tt, n))

  iteration-TerminalLast : (l : Loop) → NoTerminal l.events → TerminalLast (iteration h l)
  unfolding iteration
  iteration-TerminalLast l n =
      if_intro TerminalLast l.state.client_closed _ _ (λ _. inl n)
        (λ _.
          if_intro TerminalLast (is_late h l) _ _ (λ _. time_out-TerminalLast l n)
            (λ _. poll-TerminalLast l n))

  next-TerminalLast :
      (n : ℕ) (r : Next)
      → ((l : Loop) → NoTerminal l.events → TerminalLast (run h n l))
      → TerminalLast r
      → TerminalLast (elim r [ again l ↦ run h n l | returned l ↦ returned l | died l ↦ died l ])
  next-TerminalLast n (again l) f t = f l t
  next-TerminalLast n (returned l) f t = t
  next-TerminalLast n (died l) f t = t

  run-TerminalLast : (n : ℕ) (l : Loop) → NoTerminal l.events → TerminalLast (run h n l)
  unfolding run
  run-TerminalLast zero l e = e
  run-TerminalLast (suc n) l e =
      next-TerminalLast n (iteration h l) (run-TerminalLast n) (iteration-TerminalLast l e)

  -- However long the loop runs and whatever other tasks do while it awaits, at most one event says that
  -- the session is complete, or is the only final; the loop then returns, and sends nothing after it.
  pub at_most_one_terminal : (n : ℕ) (s : SessionState) → TerminalLast (run h n (start s))
  at_most_one_terminal n s = run-TerminalLast n (start s) tt
