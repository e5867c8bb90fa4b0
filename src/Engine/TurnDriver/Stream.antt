-- ===== src/Engine/TurnDriver/Stream.antt =====
-- engine/turn_driver.py: the loop of `run_turn` over the events of one stream.
use voxedge.Base.{
  ℕ, Bool, true, false, ◌||◌, Option, none, some, List, [], ◌∷◌, ◌++◌, any, is_empty, ltb, ◌==◌,
  if◌then◌else◌,
}
use voxedge.Text.Strip.{Text}
use voxedge.Text.Equality.{same_text}
use voxedge.Engine.TurnDriver.Host.{
  LlmEvent, text, tool_call_delta, finish, Item, event, stall, failure, Tool, spoke, preamble, Host,
  Turn, emit, polled, Fault, first_token, stream_idle, backend_error,
}

-- `_ToolCallAcc`
pub record ToolCallAcc : Type 0 where
  pub id : Text
  pub name : Text
  pub arguments : Text

-- The variables of a round. `tool_accs` is kept in ascending order of its keys, the order in which it
-- is read; `text_chunks` is joined.
pub record Acc : Type 0 where
  pub text_chunks : Text
  pub tool_accs : List (ℕ × ToolCallAcc)
  pub finish_reason : Option Text
  pub preamble_fired : List Text
  pub received_payload : Bool

abbrev pub fresh : Acc
fresh = record {
  text_chunks = [];
  tool_accs = [];
  finish_reason = none;
  preamble_fired = [];
  received_payload = false;
}

-- `tool_accs.setdefault(idx, _ToolCallAcc())`, changed by `f`
pub update_slot : ℕ → (ToolCallAcc → ToolCallAcc) → List (ℕ × ToolCallAcc) → List (ℕ × ToolCallAcc)
update_slot idx f [] = (idx, f (record { id = []; name = []; arguments = [] })) ∷ []
update_slot idx f ((i, a) ∷ accs) =
    if idx == i
    then (i, f a) ∷ accs
    else if ltb idx i
    then (idx, f (record { id = []; name = []; arguments = [] })) ∷ ((i, a) ∷ accs)
    else (i, a) ∷ update_slot idx f accs

-- `new or old`
abbrev pub or_else : Text → Text → Text
or_else [] old = old
or_else (c ∷ cs) old = c ∷ cs

pub merge_delta : Text → Text → Text → ToolCallAcc → ToolCallAcc
merge_delta id name arguments slot = record {
  id = or_else id slot.id;
  name = or_else name slot.name;
  arguments = slot.arguments ++ arguments;
}

abbrev pub or_zero : Option ℕ → ℕ
or_zero none = 0
or_zero (some n) = n

-- The preamble of `registry.get(name)`, empty for an unknown tool.
abbrev pub preamble_of : Option Tool → Text
preamble_of none = []
preamble_of (some tool) = tool.preamble_text

pub data Streamed (W : Type 0) : Type 0 where
  drained : Acc → Turn W → Streamed W
  dropped : Turn W → Streamed W
  broke : Fault → Turn W → Streamed W

module _ {A R W : Type 0} (h : Host A R W) where
  -- The preamble of a tool that has a name and that was not announced before.
  unfoldable pub announce : Text → List Text → Turn W → List Text × Turn W
  announce name fired t =
      let pre = preamble_of (h.tool name) in
      if is_empty name || any (same_text name) fired || is_empty pre
      then (fired, t)
      else (name ∷ fired, emit (preamble pre) t)

  unfoldable pub on_event : LlmEvent → Acc → Turn W → Acc × Turn W
  unfolding announce
  on_event (text s) a t = if is_empty s then (a, t) else (
    record a { text_chunks = a.text_chunks ++ s; received_payload = true },
    emit (spoke s) t,
  )
  on_event (tool_call_delta index id name arguments) a t =
      let said = announce name a.preamble_fired t in
      (
        record a {
          tool_accs = update_slot (or_zero index) (merge_delta id name arguments) a.tool_accs;
          preamble_fired = said.0;
          received_payload = true;
        },
        said.1,
      )
  on_event (finish reason) a t = (record a { finish_reason = reason }, t)

  -- The watchdog that holds: the first token's before a payload, and else that of an idle stream.
  pub is_watched : Bool → Bool
  is_watched received = if received then h.idle_timeout else h.first_token_timeout

  abbrev pub timeout_kind : Bool → Fault
  timeout_kind true = stream_idle
  timeout_kind false = first_token

  -- The end of the list is the end of the stream.
  unfoldable pub stream_loop : List Item → Acc → Turn W → Streamed W
  unfolding is_watched
  stream_loop [] a t = drained a t
  stream_loop (failure ∷ items) a t = broke backend_error t
  stream_loop (stall ∷ items) a t =
      let rest = stream_loop items a t in
      if is_watched a.received_payload then broke (timeout_kind a.received_payload) t else rest
  stream_loop (event e ∷ items) a t =
      let next = on_event e a (polled t) in
      let rest = stream_loop items next.0 next.1 in
      if h.poll t.polls then dropped (polled t) else rest
