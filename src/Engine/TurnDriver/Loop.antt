-- ===== src/Engine/TurnDriver/Loop.antt =====
-- engine/turn_driver.py: the rounds of `run_turn`.
use voxedge.Base.{
  ℕ, zero, suc, Bool, false, not, ◌||◌, Option, none, some, List, [], ◌∷◌, ◌++◌, is_empty, ◌&&◌,
  if◌then◌else◌,
}
use voxedge.Text.Strip.{Text}
use voxedge.Text.Equality.{same_text}
use voxedge.Engine.TurnDriver.Host.{
  assistant_tool_calls, assistant_text, spoke, completed_with, flushed, limit_hit, Host, Turn, emit,
  polled, Fault, tool_error,
}
use voxedge.Engine.TurnDriver.Stream.{Acc, fresh, Streamed, drained, dropped, broke, stream_loop}
use voxedge.Engine.TurnDriver.Tools.{
  payload_of, Entry, AllCalls, all_did, stopped, dispatch_all, template_fires, template_completion,
  report_misconfigured,
}

-- "tool_calls"
abbrev pub tool_calls : Text
tool_calls = 116 ∷ 111 ∷ 111 ∷ 108 ∷ 95 ∷ 99 ∷ 97 ∷ 108 ∷ 108 ∷ 115 ∷ []

pub is_reason : Text → Option Text → Bool
is_reason reason none = false
is_reason reason (some r) = same_text r reason

-- `text or None`
pub or_none : Text → Option Text
or_none [] = none
or_none (c ∷ cs) = some (c ∷ cs)

-- How a round ends: the turn is over, with what it returns; or another round follows; or an
-- exception.
pub data Round (W : Type 0) : Type 0 where
  over : Option Text → Turn W → Round W
  again : Turn W → Round W
  raises : Fault → Turn W → Round W

-- How a turn ends: it returns or it raises.
pub data Result : Type 0 where
  returned : Option Text → Result
  raised : Fault → Result

abbrev pub add_text : {W : Type 0} → Text → Turn W → Turn W
add_text [] t = t
add_text (c ∷ cs) t = record t { messages = t.messages ++ (assistant_text (c ∷ cs) ∷ []) }

module _ {A R W : Type 0} (h : Host A R W) where
  -- The stream has ended without a call of a tool.
  unfoldable pub answer : Acc → Turn W → Round W
  answer a t =
      if h.poll t.polls
      then over none (polled t)
      else over (some a.text_chunks) (emit flushed (add_text a.text_chunks (polled t)))

  -- A completion by template.
  unfoldable pub complete : Text → Turn W → Round W
  complete spoken t =
      let said =
        if h.completion_text_cb
        then (if is_empty spoken then t else emit (completed_with spoken) t)
        else emit (spoke spoken) t in
      let noted = if h.record_template_text then add_text spoken said else said in
      over (some spoken) (emit flushed noted)

  -- After the tools' results.
  unfoldable pub after_tools : List (Entry R) → Turn W → Round W
  unfolding complete
  after_tools entries t =
      if h.poll t.polls
      then over none (polled t)
      else if not (is_empty entries) && template_fires h entries
      then complete (template_completion h entries) (polled t)
      else again (report_misconfigured h entries (polled t))

  unfoldable pub after_calls : AllCalls R W → Round W
  after_calls (all_did entries t) = after_tools entries t
  after_calls (stopped t) = raises tool_error t

  unfoldable pub call_tools : Acc → Turn W → Round W
  unfolding or_none
  call_tools a t =
      let calls = payload_of a.tool_accs in
      let committed = record t {
        messages = t.messages ++ (assistant_tool_calls (or_none a.text_chunks) calls ∷ []);
      } in
      after_calls (dispatch_all h calls a.preamble_fired committed)

  unfoldable pub after_stream : Streamed W → Round W
  unfolding is_reason
  after_stream (dropped t) = over none t
  after_stream (broke e t) = raises e t
  after_stream (drained a t) =
      if is_empty a.tool_accs || not (is_reason tool_calls a.finish_reason)
      then answer a t
      else call_tools a t

  unfoldable pub round : ℕ → Turn W → Round W
  round index t =
      if h.poll t.polls
      then over none (polled t)
      else after_stream (stream_loop h (h.stream_events index t.messages) fresh (polled t))

  -- The cap on the rounds is hit.
  unfoldable pub at_limit : Turn W → Round W
  at_limit t =
      if h.poll t.polls
      then over none (polled t)
      else over none (emit flushed (emit limit_hit (polled t)))

  -- `left` more rounds, from number `index`
  unfoldable pub rounds : ℕ → ℕ → Turn W → Round W
  rounds zero index t = at_limit t
  rounds (suc left) index t = elim (round index t) [
    | over r t' ↦ over r t'
    | raises e t' ↦ raises e t'
    | again t' ↦ rounds left (suc index) t'
  ]

  unfoldable pub end_turn : Round W → Result × Turn W
  end_turn (over r t) = (returned r, t)
  end_turn (again t) = (returned none, t)
  end_turn (raises e t) =
      if h.reraise_errors then (raised e, t) else (returned none, emit flushed t)

  unfoldable pub run_turn : ℕ → Turn W → Result × Turn W
  run_turn max_rounds t = end_turn (rounds max_rounds 0 t)
