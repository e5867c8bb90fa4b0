-- ===== src/Engine/AsrLoop.antt =====
-- engine/asr_loop.py: `_ASRLoop.run`. Other tasks run where the loop awaits: `others n` is what they do
-- to the session's state at the await number `n`, and the manager's answers may depend on it too.
pub mod Terminal
pub mod Partials
pub mod CloseOut
mod Tests
use voxedge.Base.{
  is_some, ℕ, zero, suc, ◌+◌, Bool, true, false, not, ◌&&◌, ◌||◌, Option, none, some, List, [], ◌∷◌,
  is_empty, ltb, ◌==◌, if◌then◌else◌,
}
use voxedge.Text.Strip.{Text, strip}
use voxedge.Text.Equality.{same_text}
use voxedge.Engine.SessionState.{
  Reason, client_eos, vad_end, SessionState, clear_endpoint, deactivate_asr,
}

-- What the loop sends: the fields of the events, and the calls of `_on_asr_final`. A final of a session
-- with many utterances says whether the session is complete, and then whether it repeats the last one.
pub data Event : Type 0 where
  partial : ℕ → Text → Bool → Event
  endpoint error : Event
  final : Text → Bool → Option Bool → Option Text → Event
  only_final : Text → Option Text → Event
  heard : Text → Event

-- What a finalize gives: text, whether it is accepted, and language.
pub record Finalized : Type 0 where
  pub text : Option Text
  pub accepted : Bool
  pub language : Option Text

-- `partial` and `finalize` are the manager's, where `none` is an exception; `time` is the loop's clock.
pub record Host : Type 0 where
  pub others : ℕ → SessionState → SessionState
  pub get_partial : ℕ → Option (ℕ × Text × Bool)
  pub finalize : ℕ → Reason → Option Finalized
  pub time : ℕ → ℕ
  pub asr_turn_timeout : ℕ
  pub multi : Bool
  pub blank : ℕ → Bool

-- The loop's variables; events have the last one first, and `awaits` counts the awaits.
pub record Loop : Type 0 where
  pub state : SessionState
  pub last_partial : Option (ℕ × Text)
  pub last_streamed_final : Option Text
  pub events : List Event
  pub awaits : ℕ

abbrev pub start : SessionState → Loop
start s = record {
  state = s;
  last_partial = none;
  last_streamed_final = none;
  events = [];
  awaits = 0;
}

-- How an iteration ends.
pub data Next : Type 0 where
  again returned died : Loop → Next

abbrev pub text_or_empty : Option Text → Text
text_or_empty none = []
text_or_empty (some t) = t

-- A language is sent where it is not empty.
abbrev pub given : Option Text → Option Text
given (some (c ∷ cs)) = some (c ∷ cs)
given _ = none

abbrev pub is_client_eos : Option Reason → Bool
is_client_eos (some client_eos) = true
is_client_eos _ = false

abbrev pub reason_or_vad_end : Option Reason → Reason
reason_or_vad_end none = vad_end
reason_or_vad_end (some r) = r

abbrev pub same_partial : ℕ → Text → Option (ℕ × Text) → Bool
same_partial gen text none = false
same_partial gen text (some p) = gen == p.0 && same_text text p.1

-- A generation that is stamped and is not the active one.
abbrev pub other_gen : ℕ → Option ℕ → Bool
other_gen gen none = false
other_gen gen (some g) = not (g == gen)

module _ (h : Host) where
  abbrev pub yielded : Loop → Loop
  yielded l = record l { state = h.others l.awaits l.state; awaits = suc l.awaits }

  -- `_send_event`
  abbrev pub send : Event → Loop → Loop
  send e l = yielded (record l { events = e ∷ l.events })

  abbrev pub is_over : ℕ → Option ℕ → Bool
  is_over now none = false
  is_over now (some t) = ltb (t + h.asr_turn_timeout) now

  -- The deadline of a turn.
  unfoldable pub is_late : Loop → Bool
  is_late l = l.state.asr_active && is_over (h.time l.awaits) l.state.asr_turn_started_at

  unfoldable pub time_out : Loop → Next
  time_out l =
      let cancelled = yielded l in
      let sent =
        send error (record cancelled { state = clear_endpoint (deactivate_asr cancelled.state) }) in
      if h.multi && not sent.state.asr_session_closed then again (yielded sent) else returned sent

  abbrev pub snapshot : Option (ℕ × Text × Bool) → ℕ × Text × Bool
  snapshot none = (0, [], false)
  snapshot (some p) = p

  unfoldable pub send_partial : ℕ × Text × Bool → Loop → Loop
  send_partial (gen, text, stable) l =
      if not (is_empty text)
        && (gen == l.state.asr_active_gen && not (same_partial gen text l.last_partial))
      then send (partial gen text stable) (record l { last_partial = some (gen, text) })
      else l

  -- The poll, and whether the manager says that the utterance has ended.
  unfoldable pub poll_partial : Loop → Loop × Bool
  poll_partial l =
      let p = snapshot (h.get_partial l.awaits) in
      if l.state.asr_active then (send_partial p (yielded l), p.2) else (l, false)

  -- The end of an iteration: out of the loop, or asleep.
  unfoldable pub last_check : Loop → Next
  last_check l =
      if l.state.asr_session_closed && not l.state.asr_active then returned l else again (yielded l)

  -- A final of a session with many utterances.
  unfoldable pub emit_multi : Text → Option Text → Loop → Next
  emit_multi text language l =
      let closing = l.state.asr_session_closed in
      let last = text_or_empty l.last_streamed_final in
      let said = if closing && (is_empty text && not (is_empty last)) then last else text in
      let duplicate = if closing then some (same_text said last) else none in
      let sent = send (final said closing duplicate (given language)) l in
      let told = if is_empty (strip h.blank text) then sent else send (heard text) sent in
      if closing
      then returned told
      else last_check (record told { last_streamed_final = some text })

  unfoldable pub emit : Text → Option Text → Loop → Next
  emit text language l =
      if h.multi
      then emit_multi text language l
      else returned (send (heard text) (send (only_final text (given language)) l))

  -- After a finalize of the generation `gen`; a result that is not accepted is dropped.
  unfoldable pub after_finalize : ℕ → Option Finalized → Loop → Next
  after_finalize gen none l = died l
  after_finalize gen (some f) l =
      let l' =
        if l.state.asr_active_gen == gen then record l { state = deactivate_asr l.state } else l in
      if f.accepted then emit (text_or_empty f.text) f.language l' else emit [] none l'

  -- The endpoint has fired. The slot is awaited, and then the manager's finalize.
  unfoldable pub fire : Option Reason → Loop → Next
  fire reason l =
      let cleared = record l { state = clear_endpoint l.state } in
      let told = if is_client_eos reason then cleared else send endpoint cleared in
      let acquired = yielded told in
      if told.state.asr_active
      then after_finalize told.state.asr_active_gen
          (h.finalize acquired.awaits (reason_or_vad_end reason)) (yielded acquired)
      else emit [] none told

  unfoldable pub is_stale : SessionState → Bool
  is_stale s = is_some s.endpoint_pending && other_gen s.asr_active_gen s.endpoint_pending_gen

  -- The endpoint of a generation that was preempted is dropped.
  unfoldable pub resolve_endpoint : Loop × Bool → Next
  resolve_endpoint (l, is_endpoint) =
      let stale = is_stale l.state in
      let l' = if stale then record l { state = clear_endpoint l.state } else l in
      let reason = if stale then none else l.state.endpoint_pending in
      if is_some reason || (is_endpoint && l'.state.asr_active)
      then fire reason l'
      else last_check l'

  unfoldable pub iteration : Loop → Next
  iteration l =
      if l.state.client_closed
      then returned l
      else if is_late l
      then time_out l
      else resolve_endpoint (poll_partial l)

  -- At most this many iterations; `again` is a loop that still runs.
  unfoldable pub run : ℕ → Loop → Next
  run zero l = again l
  run (suc n) l = elim (iteration l) [
    | again l' ↦ run n l'
    | returned l' ↦ returned l'
    | died l' ↦ died l'
  ]
