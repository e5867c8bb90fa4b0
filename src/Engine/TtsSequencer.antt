-- ===== src/Engine/TtsSequencer.antt =====
-- engine/tts_sequencer.py: `_TTSChannel`. The loop of `run` goes from one await to the next; between
-- them other tasks add text, end it, interrupt or reset the channel, or close the client. `speakable` is
-- `_to_speakable`, whose numbers Engine/SpokenNumbers models; `Splitter` is the interface of the two
-- sentence buffers. A send hands its event to the transport at once.
pub mod Transcript
pub mod Modes
pub mod Safe
pub mod Order
pub mod BargeIn
mod Tests
use voxedge.Base.{
  ℕ, Bool, true, false, not, ◌&&◌, Option, none, some, List, [], ◌∷◌, ◌++◌, is_empty, if◌then◌else◌,
}
use voxedge.Text.Strip.{Text}

-- What the channel calls of its buffer.
pub record Splitter (B : Type 0) : Type 0 where
  pub fresh : B
  pub add : Text → B → List Text × B
  pub flush : B → List Text × B

pub data Out : Type 0 where
  header sound failed : Out
  saturated : Option ℕ → Out
  tts_started sentence_done : Text → Out
  tts_done : (session_complete : Option Bool) → Out

-- What the synthesis thread puts into its queue, or that nothing came in time.
pub data Item : Type 0 where
  chunk end_of error no_chunk : Item
  too_many : Option ℕ → Item

-- Where `run` stands: the head of its loop, at `q.get`, at a place in `drain` of a sentence, after the
-- deadline of a sentence, or after its end. At `taken` the sentence has left the queue and its task is
-- not made yet: before Python 3.12 `wait_for` runs `q.get` in a task of its own, so others run between.
pub data Pc : Type 0 where
  at_head waiting late ended : Pc
  taken opening header_sent acquiring sounding reported closing : Text → Pc

-- The session's state as far as the channel reads or writes it. `queued` is what was put into the
-- queue, oldest first; `outs` has the last output first.
pub record Channel (B : Type 0) : Type 0 where
  pub q : List Text
  pub buffer : Option B
  pub tts_flush : Bool
  pub client_closed : Bool
  pub asr_session_closed : Bool
  pub sr_header_sent : Bool
  pub pc : Pc
  pub queued : List Text
  pub outs : List Out

-- A task that is not done: only `drain` is cancelled.
abbrev pub in_drain : Pc → Bool
in_drain at_head = false
in_drain waiting = false
in_drain late = false
in_drain ended = false
in_drain (taken s) = false
in_drain _ = true

-- What happens to the channel, one at a time.
pub data Action : Type 0 where
  text : Text → Action
  flush interrupt reset deadline client_leaves input_ends : Action
  goes_on : Item → Action

module _ {B : Type 0} (splitter : Splitter B) (speakable : Text → Text) (multi : Bool) where
  abbrev pub send : Out → Channel B → Channel B
  send o c = record c { outs = o ∷ c.outs }

  abbrev pub put : Text → Channel B → Channel B
  put s c = record c { q = c.q ++ (s ∷ []); queued = c.queued ++ (s ∷ []) }

  pub put_speakable : Text → Channel B → Channel B
  put_speakable sentence c = if is_empty (speakable sentence) then c else put (speakable sentence) c

  pub put_all : List Text → Channel B → Channel B
  unfolding put_speakable
  put_all [] c = c
  put_all (s ∷ ss) c = put_all ss (put_speakable s c)

  with_buffer : Option B → (B → List Text × B) → Channel B → Channel B
  with_buffer none f c = c
  with_buffer (some b) f c = let r = f b in put_all r.0 (record c { buffer = some r.1 })

  pub enqueue_text : Text → Channel B → Channel B
  unfolding with_buffer
  enqueue_text t c = if is_empty t then c else with_buffer c.buffer (splitter.add t) c

  pub flush_and_signal : Channel B → Channel B
  unfolding with_buffer
  flush_and_signal c = record (with_buffer c.buffer splitter.flush c) { tts_flush = true }

  pub interrupt_synth : Channel B → Channel B
  interrupt_synth c = record c { pc = if in_drain c.pc then at_head else c.pc }

  rebuilt : Option B → Option B
  rebuilt none = none
  rebuilt (some b) = some splitter.fresh

  pub drain_and_reset : Channel B → Channel B
  unfolding rebuilt
  drain_and_reset c = record c { q = []; buffer = rebuilt c.buffer; tts_flush = false }

  -- The per-sentence deadline: the task is cancelled.
  pub time_out : Channel B → Channel B
  time_out c = record c { pc = if in_drain c.pc then late else c.pc }

  pub finish : Channel B → Channel B
  finish c =
      let over = record c { pc = ended } in
      if c.client_closed then over else send (tts_done (if multi then some true else none)) over

  -- The end of a turn of a session that goes on.
  turn_done : Channel B → Channel B
  turn_done c =
      let c' = record c { tts_flush = false } in
      if c.client_closed then c' else send (tts_done (some false)) c'

  pub head : Channel B → Channel B
  unfolding finish turn_done
  head c =
      if c.client_closed
      then finish c
      else if c.tts_flush && is_empty c.q
      then if multi && not c.asr_session_closed then turn_done c else finish c
      else record c { pc = waiting }

  -- `q.get` with its time limit
  pub get : List Text → Channel B → Channel B
  get [] c = record c { pc = at_head }
  get (s ∷ q) c = record c { q = q; pc = taken s }

  announce : Text → Channel B → Channel B
  announce s c = send (tts_started s) (record c { pc = acquiring s })

  pub hear : Text → Item → Channel B → Channel B
  hear s chunk c = send sound c
  hear s end_of c = send (sentence_done s) (record c { pc = closing s })
  hear s error c = send failed (record c { pc = reported s })
  hear s no_chunk c = send failed (record c { pc = reported s })
  hear s (too_many n) c = send (saturated n) (record c { pc = reported s })

  -- From one await of the loop to the next.
  pub resume : Pc → Item → Channel B → Channel B
  unfolding head get announce hear
  resume at_head i c = head c
  resume waiting i c = get c.q c
  resume (taken s) i c = record c { pc = opening s }
  resume (opening s) i c =
      if c.sr_header_sent then announce s c else send header (record c { pc = header_sent s })
  resume (header_sent s) i c = announce s (record c { sr_header_sent = true })
  resume (acquiring s) i c = record c { pc = sounding s }
  resume (sounding s) i c = hear s i c
  resume (reported s) i c = send (sentence_done s) (record c { pc = closing s })
  resume (closing s) i c = record c { pc = at_head }
  resume late i c =
      let c' = record c { pc = at_head } in if c.client_closed then c' else send failed c'
  resume ended i c = c

  pub act : Action → Channel B → Channel B
  unfolding enqueue_text flush_and_signal interrupt_synth drain_and_reset time_out resume
  act (text t) c = enqueue_text t c
  act flush c = flush_and_signal c
  act interrupt c = interrupt_synth c
  act reset c = drain_and_reset c
  act deadline c = time_out c
  act client_leaves c = record c { client_closed = true }
  act input_ends c = record c { asr_session_closed = true }
  act (goes_on i) c = resume c.pc i c

  unfoldable pub run : List Action → Channel B → Channel B
  unfolding act
  run [] c = c
  run (a ∷ as') c = run as' (act a c)

  -- `has_tts` is whether the session has a TTS backend.
  abbrev pub start : (has_tts : Bool) → Channel B
  start has_tts = record {
    q = [];
    buffer = if has_tts then some splitter.fresh else none;
    tts_flush = false;
    client_closed = false;
    asr_session_closed = false;
    sr_header_sent = false;
    pc = at_head;
    queued = [];
    outs = [];
  }
