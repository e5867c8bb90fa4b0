-- ===== src/Engine/ClientEvents.antt =====
-- engine/client_events.py, with the handlers of engine/conversation.py that it calls: the barge-in, and
-- the gate that holds a final until the client asks for a response. Each handler is one step; what the
-- session does besides comes as inputs between them. The client is not closed.
pub mod Gate
mod Tests
use voxedge.Base.{
  ℕ, suc, Bool, true, false, not, ◌||◌, ◌&&◌, Option, none, some, List, [], ◌∷◌, ◌++◌, is_empty,
  if◌then◌else◌,
}
use voxedge.Text.Strip.{Text, strip}
use voxedge.Engine.SessionState.{client_eos, SessionState, stamp_endpoint, deactivate_asr}
use voxedge.Engine.RemoteTools.{
  Reply, delivered, client_error, Registry, resolve_remote, cancel_pending_remote,
}

-- The client's events, by their type. A tool's result has a call id, unless it is missing, and what it
-- replies: `ok`, the result and the error.
pub data ClientEvent (R : Type 0) : Type 0 where
  text : Text → ClientEvent R
  tts_flush asr_eos abort tool_advertise response_create unknown : ClientEvent R
  tool_result : Option ℕ → Bool → R → Text → ClientEvent R

-- The client's events, the finals of the ASR loop, and the end of a response's task.
pub data Input (R : Type 0) : Type 0 where
  event : ClientEvent R → Input R
  asr_final : Text → Input R
  response_done : Input R

pub data Refusal : Type 0 where
  response_already_automatic response_in_progress no_pending_response : Refusal

-- What the handlers call and send.
pub data Output : Type 0 where
  enqueue_text : Text → Output
  flush_and_signal barge_in cancel_asr advertise : Output
  refused : Refusal → Output
  answer : Text → Output

pub record Config : Type 0 where
  pub has_llm : Bool
  pub has_asr : Bool
  pub auto_create_response : Bool
  pub multi_utterance : Bool
  pub blank : ℕ → Bool

-- `pending` is `_pending_response_text`; `running` is whether a manual response's task runs; `started`
-- is the texts of those tasks, in order, and `finished` how many have ended. Outputs have the last one
-- first.
pub record Session (R : Type 0) : Type 0 where
  pub state : SessionState
  pub registry : Option (Registry R)
  pub pending : Option Text
  pub running : Bool
  pub started : List Text
  pub finished : ℕ
  pub outputs : List Output

-- "remote tool failed"
abbrev remote_tool_failed : Text
remote_tool_failed =
    114 ∷ 101 ∷ 109 ∷ 111 ∷ 116 ∷ 101 ∷ 32 ∷ 116 ∷ 111 ∷ 111 ∷ 108 ∷ 32 ∷ 102 ∷ 97 ∷ 105 ∷ 108 ∷ 101
    ∷ 100 ∷ []

abbrev pub error_or : Text → Text
error_or [] = remote_tool_failed
error_or (c ∷ cs) = c ∷ cs

abbrev pub held : Option Text → Text
held none = []
held (some t) = t

module _ {R : Type 0} where
  abbrev pub output : Output → Session R → Session R
  output o s = record s { outputs = o ∷ s.outputs }

  abbrev pub cancel_tools : Option (Registry R) → Option (Registry R)
  cancel_tools none = none
  cancel_tools (some r) = some (cancel_pending_remote r).0

  -- `_bargein_tts`
  unfoldable pub bargein_tts : Session R → Session R
  bargein_tts s = output barge_in (record s {
    state = record s.state { llm_barged = true };
    registry = cancel_tools s.registry;
  })

  abbrev pub reply_of : Bool → R → Text → Reply R
  reply_of true result error = delivered result
  reply_of false result error = client_error (error_or error)

  abbrev pub resolve : Option ℕ → Reply R → Option (Registry R) → Option (Registry R)
  resolve (some id) reply (some r) = some (resolve_remote id reply r)
  resolve _ reply registry = registry

module _ {R : Type 0} (k : Config) where
  -- `_handle_response_create`
  unfoldable pub handle_response_create : Session R → Session R
  handle_response_create s =
      if k.auto_create_response
      then output (refused response_already_automatic) s
      else if s.running
      then output (refused response_in_progress) s
      else if is_empty (held s.pending)
      then output (refused no_pending_response) s
      else record s { pending = none; running = true; started = s.started ++ (held s.pending ∷ []) }

  -- `_on_asr_final`; an automatic response runs before the loop goes on.
  unfoldable pub on_asr_final : Text → Session R → Session R
  on_asr_final t s =
      if not k.has_llm || is_empty (strip k.blank t)
      then s
      else if not k.auto_create_response
      then record s { pending = some t }
      else output (answer t) s

  unfoldable pub on_eos : Session R → Session R
  on_eos s =
      let stamped : Session R = record s { state = stamp_endpoint client_eos s.state } in
      if k.multi_utterance
      then stamped
      else record stamped { state = record stamped.state { asr_session_closed = true } }

  unfoldable pub on_abort : Session R → Session R
  on_abort s =
      let barged = bargein_tts (record s { pending = none }) in
      if k.has_asr && barged.state.asr_active
      then output cancel_asr (record barged { state = deactivate_asr barged.state })
      else barged

  -- The body of `_ClientEvents.run`
  unfoldable pub handle : ClientEvent R → Session R → Session R
  handle (text t) s = output (enqueue_text t) s
  handle tts_flush s = output flush_and_signal s
  handle asr_eos s = on_eos s
  handle abort s = on_abort s
  handle (tool_result id ok result error) s = record s {
    registry = resolve id (reply_of ok result error) s.registry;
  }
  handle tool_advertise s = output advertise s
  handle response_create s = handle_response_create s
  handle unknown s = s

  -- `_clear`, when the task of a response ends
  unfoldable pub task_done : Session R → Session R
  task_done s = if s.running then record s { running = false; finished = suc s.finished } else s

  unfoldable pub step : Input R → Session R → Session R
  step (event e) s = handle e s
  step (asr_final t) s = on_asr_final t s
  step response_done s = task_done s

  unfoldable pub run : List (Input R) → Session R → Session R
  run [] s = s
  run (i ∷ is) s = run is (step i s)
