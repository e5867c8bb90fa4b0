-- ===== src/Engine/AsrLoop/CloseOut.antt =====
-- The end of a session whose input is closed.
use voxedge.Base.{
  is_some, arith, ℕ, suc, ◌≡◌, Bool, true, false, not, ◌&&◌, Option, none, some, [], is_empty,
  if_intro, ◌==◌, if◌then◌else◌,
}
use voxedge.Text.Strip.{Text, strip}
use voxedge.Engine.SessionState.{Reason, SessionState, clear_endpoint, deactivate_asr}
use voxedge.Engine.AsrLoop.{
  endpoint, final, heard, Finalized, Host, Loop, Next, again, returned, died, text_or_empty, given,
  other_gen, is_client_eos, same_partial, yielded, send, is_late, snapshot, send_partial,
  poll_partial, emit_multi, emit, after_finalize, fire, is_stale, resolve_endpoint, iteration, run,
}
use voxedge.Engine.AsrLoop.Terminal.{NoTerminal, OneTerminal}

-- The input is closed, and an endpoint of the active generation is pending.
abbrev pub IsClosing : SessionState → Type 0
IsClosing s =
    (s.asr_session_closed ≡ true)
    × (is_some s.endpoint_pending ≡ true)
    × (other_gen s.asr_active_gen s.endpoint_pending_gen ≡ false)

-- The loop has returned, and has sent the one event that ends the session.
abbrev pub Completes : Next → Type 0
Completes (returned l) = OneTerminal l.events
Completes _ = ⊥

module _ (h : Host)
    (keeps_closed : (n : ℕ) (s : SessionState)
      → s.asr_session_closed ≡ true
      → (h.others n s).asr_session_closed ≡ true)
    (keeps_closing : (n : ℕ) (s : SessionState) → IsClosing s → IsClosing (h.others n s))
    (never_raises : (n : ℕ) (reason : Reason) → is_some (h.finalize n reason) ≡ true) where
  -- What a final needs: the input is closed, and no final has ended the session.
  abbrev Open : Loop → Type 0
  Open l = (l.state.asr_session_closed ≡ true) × NoTerminal l.events

  yielded-Open : (l : Loop) → Open l → Open (yielded h l)
  yielded-Open l o = (keeps_closed l.awaits l.state o.0, o.1)

  heard-OneTerminal :
      (b : Bool) (text : Text) (l : Loop)
      → OneTerminal l.events
      → OneTerminal (if b then l else send h (heard text) l).events
  heard-OneTerminal b text l o =
      if_intro {A = Loop} (λ l'. OneTerminal l'.events) b l (send h (heard text) l) (λ _. o)
        (λ _. o)

  emit-Completes :
      (text : Text) (language : Option Text) (l : Loop)
      → Open l
      → Completes (emit h text language l)
  unfolding emit emit_multi
  emit-Completes text language l o =
      if_intro Completes h.multi (emit_multi h text language l) _
        (λ _.
          if_intro Completes l.state.asr_session_closed _ _
            (λ c.
              heard-OneTerminal (is_empty (strip h.blank text)) text
                (send h (final _ l.state.asr_session_closed _ (given language)) l) o)
            (λ c. absurd (ground (arith, c, o.0))))
        (λ _. o.1)

  after_finalize-Completes :
      (gen : ℕ) (x : Option Finalized) (l : Loop)
      → is_some x ≡ true
      → Open l
      → Completes (after_finalize h gen x l)
  unfolding after_finalize
  after_finalize-Completes gen none l e o = absurd (ground (arith, e))
  after_finalize-Completes gen (some f) l e o =
      let o' =
        if_intro {A = Loop} Open (l.state.asr_active_gen == gen)
          (record l { state = deactivate_asr l.state }) l (λ _. o) (λ _. o) in
      if_intro Completes f.accepted _ _ (λ _. emit-Completes (text_or_empty f.text) f.language _ o')
        (λ _. emit-Completes [] none _ o')

  fire-Completes : (reason : Option Reason) (l : Loop) → Open l → Completes (fire h reason l)
  unfolding fire
  fire-Completes reason l o =
      let cleared : Loop = record l { state = clear_endpoint l.state } in
      let told = if is_client_eos reason then cleared else send h endpoint cleared in
      let o' =
        if_intro {A = Loop} Open (is_client_eos reason) cleared (send h endpoint cleared) (λ _. o)
          (λ _. (keeps_closed l.awaits cleared.state o.0, (tt, o.1))) in
      if_intro Completes told.state.asr_active _ _
        (λ _.
          after_finalize-Completes told.state.asr_active_gen _ _ (never_raises _ _)
            (yielded-Open (yielded h told) (yielded-Open told o')))
        (λ _. emit-Completes [] none told o')

  resolve-Completes :
      (l : Loop) (is_endpoint : Bool)
      → IsClosing l.state
      → NoTerminal l.events
      → Completes (resolve_endpoint h (l, is_endpoint))
  unfolding resolve_endpoint is_stale
  resolve-Completes l is_endpoint c n =
      rw (c.1, c.2) (rw c.1 (fire-Completes l.state.endpoint_pending l (c.0, n)))

  Closing : Loop → Type 0
  Closing l = IsClosing l.state × NoTerminal l.events

  send_partial-Closing : (p : ℕ × Text × Bool) (l : Loop) → Closing l → Closing (send_partial h p l)
  unfolding send_partial Closing
  send_partial-Closing (gen, text, stable) l c =
      if_intro {A = Loop} Closing
        (not (is_empty text)
          && (gen == l.state.asr_active_gen && not (same_partial gen text l.last_partial)))
        _ _ (λ _. (keeps_closing l.awaits l.state c.0, (tt, c.1))) (λ _. c)

  poll-Completes : (l : Loop) → Closing l → Completes (resolve_endpoint h (poll_partial h l))
  unfolding poll_partial Closing
  poll-Completes l c =
      let c' =
        send_partial-Closing (snapshot h (h.get_partial l.awaits)) (yielded h l)
          (keeps_closing l.awaits l.state c.0, c.1) in
      if_intro {A = Loop × Bool} (λ r. Completes (resolve_endpoint h r)) l.state.asr_active _ _
        (λ _. resolve-Completes _ _ c'.0 c'.1) (λ _. resolve-Completes l false c.0 c.1)

  iteration-Completes :
      (l : Loop)
      → l.state.client_closed ≡ false
      → is_late h l ≡ false
      → Closing l
      → Completes (iteration h l)
  unfolding iteration
  iteration-Completes l g d c =
      if_intro Completes l.state.client_closed _ _ (λ e. absurd (ground (arith, e, g)))
        (λ _.
          if_intro Completes (is_late h l) _ _ (λ e. absurd (ground (arith, e, d)))
            (λ _. poll-Completes l c))

  completed :
      (n : ℕ) (r : Next)
      → Completes r
      → Completes (elim r [ again l ↦ run h n l | returned l ↦ returned l | died l ↦ died l ])
  completed n (again l) c = absurd c
  completed n (returned l) c = c
  completed n (died l) c = absurd c

  -- The client has not gone, the turn is within its deadline, the input is closed and an endpoint of the
  -- active generation is pending. Where other tasks do not take these back and the manager's finalize
  -- does not raise, one iteration sends the final that ends the session, and the loop returns.
  pub close_out :
      (n : ℕ) (l : Loop)
      → l.state.client_closed ≡ false
      → is_late h l ≡ false
      → IsClosing l.state
      → NoTerminal l.events
      → Completes (run h (suc n) l)
  unfolding run Closing
  close_out n l g d c e = completed n (iteration h l) (iteration-Completes l g d (c, e))
