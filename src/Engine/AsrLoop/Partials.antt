-- ===== src/Engine/AsrLoop/Partials.antt =====
-- The partials that are sent.
use voxedge.Base.{
  is_some, sym, arith, ℕ, zero, suc, ◌≡◌, refl, Bool, true, false, not, ◌&&◌, ◌||◌, Option, none,
  some, List, [], ◌∷◌, is_empty, if_intro, ◌==◌, if◌then◌else◌,
}
use voxedge.Text.Strip.{Text, strip}
use voxedge.Engine.SessionState.{Reason, SessionState, clear_endpoint, deactivate_asr}
use voxedge.Engine.AsrLoop.{
  Event, partial, endpoint, error, final, heard, Finalized, Host, Loop, start, Next, again,
  returned, died, text_or_empty, given, is_client_eos, same_partial, yielded, send, is_late,
  time_out, snapshot, send_partial, poll_partial, last_check, emit_multi, emit, after_finalize,
  fire, is_stale, resolve_endpoint, iteration, run,
}

-- The generation and the text of the last partial.
abbrev pub last_sent : List Event → Option (ℕ × Text)
last_sent [] = none
last_sent (partial gen text stable ∷ es) = some (gen, text)
last_sent (_ ∷ es) = last_sent es

-- No partial has the generation and the text of the one before it.
abbrev pub NoRepeat : List Event → Type 0
NoRepeat [] = Unit
NoRepeat (partial gen text stable ∷ es) =
    (is_empty text ≡ false) × (same_partial gen text (last_sent es) ≡ false) × NoRepeat es
NoRepeat (_ ∷ es) = NoRepeat es

abbrev Fresh : Loop → Type 0
Fresh l = (l.last_partial ≡ last_sent l.events) × NoRepeat l.events

abbrev pub OfLoop : (Loop → Type 0) → Next → Type 0
OfLoop P (again l) = P l
OfLoop P (returned l) = P l
OfLoop P (died l) = P l

abbrev AllFresh : Next → Type 0
AllFresh = OfLoop Fresh

second_false : (a b c : Bool) → not a && (b && not c) ≡ true → c ≡ false
second_false a b c e = ground (arith, e)

module _ (h : Host) where
  last_check-Fresh : (l : Loop) → Fresh l → AllFresh (last_check h l)
  unfolding last_check
  last_check-Fresh l f =
      if_intro AllFresh (l.state.asr_session_closed && not l.state.asr_active) _ _ (λ _. f) (λ _. f)

  heard-Fresh :
      (b : Bool) (text : Text) (l : Loop) → Fresh l → Fresh (if b then l else send h (heard text) l)
  heard-Fresh b text l f = if_intro {A = Loop} Fresh b l (send h (heard text) l) (λ _. f) (λ _. f)

  emit_multi-Fresh :
      (text : Text) (language : Option Text) (l : Loop)
      → Fresh l
      → AllFresh (emit_multi h text language l)
  unfolding emit_multi
  emit_multi-Fresh text language l f =
      let told =
        heard-Fresh (is_empty (strip h.blank text)) text
          (send h (final _ l.state.asr_session_closed _ (given language)) l) f in
      if_intro AllFresh l.state.asr_session_closed _ _ (λ c. told) (λ c. last_check-Fresh _ told)

  emit-Fresh :
      (text : Text) (language : Option Text) (l : Loop)
      → Fresh l
      → AllFresh (emit h text language l)
  unfolding emit
  emit-Fresh text language l f =
      if_intro AllFresh h.multi _ _ (λ _. emit_multi-Fresh text language l f) (λ _. f)

  after_finalize-Fresh :
      (gen : ℕ) (x : Option Finalized) (l : Loop) → Fresh l → AllFresh (after_finalize h gen x l)
  unfolding after_finalize
  after_finalize-Fresh gen none l f = f
  after_finalize-Fresh gen (some x) l f =
      let f' =
        if_intro {A = Loop} Fresh (l.state.asr_active_gen == gen)
          (record l { state = deactivate_asr l.state }) l (λ _. f) (λ _. f) in
      if_intro AllFresh x.accepted _ _ (λ _. emit-Fresh (text_or_empty x.text) x.language _ f')
        (λ _. emit-Fresh [] none _ f')

  fire-Fresh : (reason : Option Reason) (l : Loop) → Fresh l → AllFresh (fire h reason l)
  unfolding fire
  fire-Fresh reason l f =
      let cleared : Loop = record l { state = clear_endpoint l.state } in
      let told = if is_client_eos reason then cleared else send h endpoint cleared in
      let f' =
        if_intro {A = Loop} Fresh (is_client_eos reason) cleared (send h endpoint cleared) (λ _. f)
          (λ _. f) in
      if_intro AllFresh told.state.asr_active _ _
        (λ _. after_finalize-Fresh told.state.asr_active_gen _ _ f')
        (λ _. emit-Fresh [] none told f')

  resolve-Fresh :
      (l : Loop) (is_endpoint : Bool) → Fresh l → AllFresh (resolve_endpoint h (l, is_endpoint))
  unfolding resolve_endpoint
  resolve-Fresh l is_endpoint f =
      let stale = is_stale h l.state in
      let l' = if stale then record l { state = clear_endpoint l.state } else l in
      let f' =
        if_intro {A = Loop} Fresh stale (record l { state = clear_endpoint l.state }) l (λ _. f)
          (λ _. f) in
      if_intro AllFresh
        (is_some (if stale then none else l.state.endpoint_pending)
          || (is_endpoint && l'.state.asr_active))
        _ _ (λ _. fire-Fresh _ l' f') (λ _. last_check-Fresh l' f')

  sent-Fresh :
      (gen : ℕ) (text : Text) (stable : Bool) (l : Loop)
      → not (is_empty text)
          && (gen == l.state.asr_active_gen && not (same_partial gen text l.last_partial))
        ≡ true
      → Fresh l
      → Fresh (send h (partial gen text stable) (record l { last_partial = some (gen, text) }))
  sent-Fresh gen text stable l c f = (
    refl,
    (
      ground (arith, c),
      rw (sym f.0) (
          second_false (is_empty text) (gen == l.state.asr_active_gen)
            (same_partial gen text l.last_partial) c),
      f.1,
    ),
  )

  send_partial-Fresh : (p : ℕ × Text × Bool) (l : Loop) → Fresh l → Fresh (send_partial h p l)
  unfolding send_partial
  send_partial-Fresh (gen, text, stable) l f =
      if_intro {A = Loop} Fresh
        (not (is_empty text)
          && (gen == l.state.asr_active_gen && not (same_partial gen text l.last_partial)))
        _ _ (λ c. sent-Fresh gen text stable l c f) (λ _. f)

  poll-Fresh : (l : Loop) → Fresh l → AllFresh (resolve_endpoint h (poll_partial h l))
  unfolding poll_partial
  poll-Fresh l f =
      if_intro {A = Loop × Bool} (λ r. AllFresh (resolve_endpoint h r)) l.state.asr_active _ _
        (λ _. resolve-Fresh _ _ (send_partial-Fresh (snapshot h (h.get_partial l.awaits)) _ f))
        (λ _. resolve-Fresh l false f)

  time_out-Fresh : (l : Loop) → Fresh l → AllFresh (time_out h l)
  unfolding time_out
  time_out-Fresh l f =
      let cancelled = yielded h l in
      let sent =
        send h error
          (record cancelled { state = clear_endpoint (deactivate_asr cancelled.state) }) in
      if_intro AllFresh (h.multi && not sent.state.asr_session_closed) (again (yielded h sent))
        (returned sent) (λ _. f) (λ _. f)

  iteration-Fresh : (l : Loop) → Fresh l → AllFresh (iteration h l)
  unfolding iteration
  iteration-Fresh l f =
      if_intro AllFresh l.state.client_closed _ _ (λ _. f)
        (λ _. if_intro AllFresh (is_late h l) _ _ (λ _. time_out-Fresh l f) (λ _. poll-Fresh l f))

  next-Fresh :
      (n : ℕ) (r : Next)
      → ((l : Loop) → Fresh l → AllFresh (run h n l))
      → AllFresh r
      → AllFresh (elim r [ again l ↦ run h n l | returned l ↦ returned l | died l ↦ died l ])
  next-Fresh n (again l) k t = k l t
  next-Fresh n (returned l) k t = t
  next-Fresh n (died l) k t = t

  run-Fresh : (n : ℕ) (l : Loop) → Fresh l → AllFresh (run h n l)
  unfolding run
  run-Fresh zero l f = f
  run-Fresh (suc n) l f = next-Fresh n (iteration h l) (run-Fresh n) (iteration-Fresh l f)

  no_repeat : (r : Next) → AllFresh r → OfLoop (λ l. NoRepeat l.events) r
  no_repeat (again l) f = f.1
  no_repeat (returned l) f = f.1
  no_repeat (died l) f = f.1

  -- However long the loop runs and whatever other tasks do while it awaits, no partial is empty, and none
  -- has both the generation and the text of the partial before it.
  pub partials_differ :
      (n : ℕ) (s : SessionState) → OfLoop (λ l. NoRepeat l.events) (run h n (start s))
  partials_differ n s = no_repeat (run h n (start s)) (run-Fresh n (start s) (refl, tt))
