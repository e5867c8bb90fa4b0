-- ===== src/Engine/AudioDispatcher.antt =====
-- engine/audio_dispatcher.py, and `open_turn` of engine/asr_loop.py. Other tasks run where the loop
-- awaits: `others n` is what they do to the session's state at the await number `n`. A frame is the
-- list of its samples; neither the VAD nor the manager's `accept_audio` raises.
pub mod Ring
pub mod Sound
pub mod Order
mod Tests
use voxedge.Base.{
  ℕ, suc, ◌+◌, ◌-◌, Bool, true, false, not, ◌&&◌, ◌||◌, Option, none, some, List, [], ◌∷◌, ◌++◌,
  length, is_empty, ltb, if◌then◌else◌,
}
use voxedge.Engine.SessionState.{
  vad, SessionState, open_asr_generation, stamp_endpoint, clear_endpoint,
}

pub data VadEvent : Type 0 where
  quiet speech_start speech_end : VadEvent

-- How `on_speech_start` ends: with a generation, or with ASRSessionUnavailable or another exception,
-- which may come from a saturated pool.
pub data Started : Type 0 where
  opened : ℕ → Started
  unavailable failed : Bool → Started

pub data Event : Type 0 where
  vad_start vad_end pool_saturated asr_unavailable : Event

-- What the loop is given. `started n` and `time n` are the answers at the await number `n`.
pub record Host : Type 0 where
  pub others : ℕ → SessionState → SessionState
  pub started : ℕ → Started
  pub time : ℕ → ℕ
  pub asr_enabled : Bool
  pub has_vad : Bool
  pub preroll_cap : ℕ
  pub multi : Bool

-- `fed` is the samples that `accept_audio` was given, in order; events have the last one first.
pub record Dispatcher (S : Type 0) : Type 0 where
  pub state : SessionState
  pub preroll : List (List S)
  pub preroll_samples : ℕ
  pub fed : List S
  pub events : List Event
  pub awaits : ℕ

pub data Next (S : Type 0) : Type 0 where
  goes_on stops : Dispatcher S → Next S

-- How `open_turn` ends: it returns True or False, or raises.
pub data Opening (S : Type 0) : Type 0 where
  open_turned refused raises : Dispatcher S → Opening S

-- `np.concatenate`
abbrev pub concatenate : {S : Type 0} → List (List S) → List S
concatenate [] = []
concatenate (f ∷ fs) = f ++ concatenate fs

-- The loop that drops the oldest frames, with the count of samples.
unfoldable pub trim : {S : Type 0} → ℕ → ℕ → List (List S) → List (List S) × ℕ
trim cap count [] = ([], count)
trim cap count (f ∷ []) = (f ∷ [], count)
trim cap count (f ∷ (g ∷ fs)) =
    let rest = trim cap (count - length f) (g ∷ fs) in
    if ltb cap count then rest else (f ∷ (g ∷ fs), count)

module _ {S : Type 0} (h : Host) where
  abbrev pub yielded : Dispatcher S → Dispatcher S
  yielded d = record d { state = h.others d.awaits d.state; awaits = suc d.awaits }

  abbrev pub send : Event → Dispatcher S → Dispatcher S
  send e d = yielded (record d { events = e ∷ d.events })

  abbrev pub accept : List S → Dispatcher S → Dispatcher S
  accept samples d = yielded (record d { fed = d.fed ++ samples })

  abbrev pub inactive : Dispatcher S → Dispatcher S
  inactive d = record d { state = record d.state { asr_active = false } }

  -- `_ASRLoop.open_turn`, after the await of `on_speech_start`
  unfoldable pub turn_opened : Started → Dispatcher S → Opening S
  turn_opened (opened gen) d =
      open_turned (record d { state = open_asr_generation gen (h.time d.awaits) d.state })
  turn_opened (unavailable saturated) d =
      let off = inactive d in
      let cleared : Dispatcher S = record off { state = clear_endpoint off.state } in
      refused (send (if saturated then pool_saturated else asr_unavailable) cleared)
  turn_opened (failed true) d = refused (inactive (send pool_saturated d))
  turn_opened (failed false) d = raises d

  unfoldable pub open_turn : Dispatcher S → Opening S
  open_turn d = turn_opened (h.started d.awaits) (yielded d)

  -- A frame outside of a turn.
  unfoldable pub push : List S → Dispatcher S → Dispatcher S
  push samples d =
      let kept =
        trim h.preroll_cap (d.preroll_samples + length samples) (d.preroll ++ (samples ∷ [])) in
      record d { preroll = kept.0; preroll_samples = kept.1 }

  unfoldable pub latch : Bool → Dispatcher S → Dispatcher S
  latch ended d =
      let stamped : Dispatcher S = record d { state = stamp_endpoint vad d.state } in
      let closed : Dispatcher S =
        if h.multi
        then stamped
        else record stamped { state = record stamped.state { asr_session_closed = true } } in
      if ended then send vad_end closed else d

  unfoldable pub feed : List S → Bool → Dispatcher S → Dispatcher S
  feed samples ended d = latch ended (
      if d.state.asr_active
      then accept samples d
      else if h.has_vad && ltb 0 h.preroll_cap
      then push samples d
      else d)

  -- The frames before the speech are fed first, and then dropped.
  unfoldable pub replay : Dispatcher S → Dispatcher S
  replay d =
      let fed =
        if not (is_empty d.preroll) && d.state.asr_active
        then accept (concatenate d.preroll) d
        else d in
      record fed { preroll = []; preroll_samples = 0 }

  -- An exception ends the loop and closes the client.
  abbrev pub closed : Dispatcher S → Dispatcher S
  closed d = record d { state = record d.state { client_closed = true } }

  unfoldable pub after_start : List S → Opening S → Next S
  after_start samples (open_turned d) = goes_on (feed samples false (replay d))
  after_start samples (refused d) = goes_on d
  after_start samples (raises d) = stops (closed d)

  -- `_bargein_tts` marks the turn of the language model, and awaits it.
  abbrev pub barge_in : Dispatcher S → Dispatcher S
  barge_in d = yielded (record d { state = record d.state { llm_barged = true } })

  unfoldable pub after_lazy_open : List S → Opening S → Next S
  after_lazy_open samples (open_turned d) = goes_on (feed samples false d)
  after_lazy_open samples (refused d) = goes_on d
  after_lazy_open samples (raises d) = stops (closed d)

  unfoldable pub on_vad : List S → VadEvent → Dispatcher S → Next S
  on_vad samples quiet d = goes_on (feed samples false d)
  on_vad samples speech_end d = goes_on (feed samples true d)
  on_vad samples speech_start d = after_start samples (open_turn (barge_in (send vad_start d)))

  -- The body of the loop, with what the VAD says of the frame.
  unfoldable pub on_frame : List S × VadEvent → Dispatcher S → Next S
  on_frame (samples, event) d =
      if d.state.client_closed
      then stops d
      else if not h.asr_enabled || d.state.asr_session_closed
      then goes_on d
      else if h.has_vad
      then on_vad samples event d
      else if d.state.asr_active
      then goes_on (feed samples false d)
      else after_lazy_open samples (open_turn d)

  -- The frames that arrive; between two of them the loop awaits.
  unfoldable pub run : List (List S × VadEvent) → Dispatcher S → Dispatcher S
  run [] d = d
  run (f ∷ fs) d = elim (on_frame f (yielded d)) [ goes_on d' ↦ run fs d' | stops d' ↦ d' ]
