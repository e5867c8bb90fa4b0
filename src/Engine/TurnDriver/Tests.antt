-- ===== src/Engine/TurnDriver/Tests.antt =====
-- A turn that calls a tool in its first round and answers in its second.
use voxedge.Base.{ℕ, zero, suc, ◌≡◌, refl, true, false, none, some, List, [], ◌∷◌, ◌++◌}
use voxedge.Text.Strip.{Text}
use voxedge.Engine.TurnDriver.Host.{
  text, tool_call_delta, finish, Item, event, Message, given, started, Host, Turn,
}
use voxedge.Engine.TurnDriver.Loop.{tool_calls, rounds, run_turn}
use voxedge.Engine.TurnDriver.Stream.{announce}
use voxedge.Engine.TurnDriver.Tools.{stopped, dispatch_all, dispatch_one, use_result}
use voxedge.Text.Equality.{same_text}
use voxedge.Engine.TurnDriver.Dialogue.{Dialogue}
use voxedge.Engine.TurnDriver.Outcome.{is_cut, HasEnded, run_turn-Dialogue, run_turn-HasEnded}

-- "clock"
abbrev clock : Text
clock = 99 ∷ 108 ∷ 111 ∷ 99 ∷ 107 ∷ []

abbrev events : ℕ → List Message → List Item
events zero ms =
    event (text (72 ∷ []))
    ∷ event (tool_call_delta none [] clock [])
    ∷ event (finish (some tool_calls))
    ∷ []
events (suc n) ms = event (text (49 ∷ [])) ∷ event (text (50 ∷ [])) ∷ event (finish none) ∷ []

abbrev clock_host : Host Text Text ℕ
clock_host = record {
  stream_events = events;
  poll = λ n. false;
  tool = λ n. some (record { preamble_text = 87 ∷ []; response_mode = []; completion_text = [] });
  dispatch = λ n a w. (some (49 ∷ 50 ∷ []), suc w);
  loads = λ s. some s;
  dumps = λ r. some r;
  invalid_arguments = λ s. [];
  has_failed = λ r. false;
  first_token_timeout = true;
  idle_timeout = false;
  reraise_errors = false;
  record_template_text = false;
  completion_text_cb = false;
}

-- "call_0"
abbrev call_0 : Text
call_0 = 99 ∷ 97 ∷ 108 ∷ 108 ∷ 95 ∷ 48 ∷ []

abbrev asked : Turn ℕ
asked = record { messages = given (81 ∷ []) ∷ []; outputs = []; polls = 0; world = 0 }

abbrev clock_turn : Turn ℕ
clock_turn = (run_turn clock_host 2 asked).1

run_turn-Dialogue_example :
    (ms : List Message) × Dialogue (is_cut clock_host (rounds clock_host 2 0 asked)) 2 ms
    × ((run_turn clock_host 2 asked).1.messages ≡ asked.messages ++ ms)
run_turn-Dialogue_example = run_turn-Dialogue clock_host 2 asked

run_turn-HasEnded_example : HasEnded clock_host (run_turn clock_host 2 asked)
run_turn-HasEnded_example = run_turn-HasEnded clock_host 2 asked (tt, tt)

-- A tool whose dispatch raises: its call stays without a result.
abbrev raising_host : Host Text Text ℕ
raising_host = record clock_host { dispatch = λ n a w. (none, w) }

left_open :
    dispatch_all raising_host
      (record { id = call_0; name = clock; arguments = [] } ∷ [])
      (clock ∷ [])
      asked
    ≡ stopped (record asked { outputs = started call_0 ∷ [] })
unfolding dispatch_all dispatch_one use_result announce same_text
left_open = refl
