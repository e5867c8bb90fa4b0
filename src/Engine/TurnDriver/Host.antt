-- ===== src/Engine/TurnDriver/Host.antt =====
-- engine/turn_driver.py: what `run_turn` is given, and what it keeps and leaves. The text sink, the
-- message sink and the callbacks do not raise. A callback leaves an output; a missing one leaves an
-- output that nobody reads. Latencies, logging and the parameters of a request are left out.
use voxedge.Base.{ℕ, suc, Bool, Option, List, ◌∷◌}
use voxedge.Text.Strip.{Text}

-- LLMEvent, by its kind. A text that is None is an empty one.
pub data LlmEvent : Type 0 where
  text : Text → LlmEvent
  tool_call_delta : Option ℕ → Text → Text → Text → LlmEvent
  finish : Option Text → LlmEvent

-- What the stream does next: an event, a silence longer than the watchdog's limits, or an exception.
pub data Item : Type 0 where
  event : LlmEvent → Item
  stall failure : Item

-- An entry of `tc_payload`.
pub record Call : Type 0 where
  pub id : Text
  pub name : Text
  pub arguments : Text

pub data Message : Type 0 where
  given : Text → Message
  assistant_tool_calls : Option Text → List Call → Message
  assistant_text : Text → Message
  tool_result : Text → Text → Message

-- What `run_turn` reads of a registered tool.
pub record Tool : Type 0 where
  pub preamble_text : Text
  pub response_mode : Text
  pub completion_text : Text

-- What goes to the text sink and to the callbacks.
pub data Output : Type 0 where
  spoke preamble completed_with : Text → Output
  flushed : Output
  started completed misconfigured : Text → Output
  limit_hit : Output

-- `A` is the type of parsed arguments, `R` that of results, `W` the world of the tools. `poll n` is
-- the answer of the call number `n` of `should_abort`. The registry's part is `tool` and `dispatch`; `dispatch`
-- and `dumps` may raise, and then answer none.
pub record Host (A R W : Type 0) : Type 0 where
  pub stream_events : ℕ → List Message → List Item
  pub poll : ℕ → Bool
  pub tool : Text → Option Tool
  pub dispatch : Text → A → W → Option R × W
  pub loads : Text → Option A
  pub dumps : R → Option Text
  pub invalid_arguments : Text → R
  pub has_failed : R → Bool
  pub first_token_timeout : Bool
  pub idle_timeout : Bool
  pub reraise_errors : Bool
  pub record_template_text : Bool
  pub completion_text_cb : Bool

-- The outputs have the last one first; `polls` is how often `should_abort` was called.
pub record Turn (W : Type 0) : Type 0 where
  pub messages : List Message
  pub outputs : List Output
  pub polls : ℕ
  pub world : W

abbrev pub emit : {W : Type 0} → Output → Turn W → Turn W
emit o t = record t { outputs = o ∷ t.outputs }

abbrev pub polled : {W : Type 0} → Turn W → Turn W
polled t = record t { polls = suc t.polls }

-- An exception: a timeout of the stream, before its first event or after it, the backend's, or that of a
-- tool's dispatch or of the print of its result. That the turn's own task is cancelled is left out.
pub data Fault : Type 0 where
  first_token stream_idle backend_error tool_error : Fault
