-- ===== src/Engine/TurnDriver/Outcome.antt =====
-- The messages that a turn commits, and how the turn ends.
use voxedge.Base.{ℕ, Bool, false, ◌≡◌, true, inr, Option, none, some, List, ◌++◌, if_intro}
use voxedge.Text.Strip.{Text}
use voxedge.Engine.TurnDriver.Host.{Message, Host, Turn}
use voxedge.Engine.TurnDriver.Loop.{
  rounds, Result, returned, raised, end_turn, run_turn, Round, over, again, raises, Result,
  returned, raised, end_turn, run_turn,
}
use voxedge.Engine.TurnDriver.Steps.{is_tool_error, IsOpen, IsFlushed}
use voxedge.Engine.TurnDriver.Dialogue.{Dialogue, IsDone, OverWith, TurnEnds, rounds-Ends}

module _ {A R W : Type 0} (h : Host A R W) where
  -- How a turn that begins open has ended, by its result.
  abbrev pub HasEnded : Result × Turn W → Type 0
  HasEnded (returned none, t) = IsDone h t
  HasEnded (returned (some said), t) = IsFlushed h t
  HasEnded (raised e, t) = (h.reraise_errors ≡ true) × IsOpen h t

  -- Whether the rounds end in an exception of a tool.
  abbrev pub is_cut : Round W → Bool
  is_cut (raises e t) = is_tool_error e
  is_cut (over r t) = false
  is_cut (again t) = false

  abbrev TurnDone : Bool → ℕ → Turn W → Result × Turn W → Type 0
  TurnDone cut n t r =
      ((ms : List Message) × Dialogue cut n ms × (r.1.messages ≡ t.messages ++ ms))
      × (IsOpen h t → HasEnded r)

  over-HasEnded : (r : Option Text) (t : Turn W) → OverWith h r t → HasEnded (returned r, t)
  over-HasEnded none t e = e
  over-HasEnded (some said) t e = e

  end_turn-TurnDone :
      (n : ℕ) (t : Turn W) (r : Round W) → TurnEnds h n t r → TurnDone (is_cut r) n t (end_turn h r)
  unfolding end_turn
  end_turn-TurnDone n t (over r t') e =
      ((e.0, e.1, e.2.added), λ o. over-HasEnded r t' (e.2.ends o))
  end_turn-TurnDone n t (again t') e = absurd e
  end_turn-TurnDone n t (raises x t') e =
      if_intro {A = Result × Turn W} (TurnDone (is_tool_error x) n t) h.reraise_errors _ _
        (λ p. ((e.0, e.1, e.2.added), λ o. (p, e.2.ends o)))
        (λ p. ((e.0, e.1, e.2.added), λ o. inr (e.2.ends o)))

  run_turn-TurnDone :
      (max_rounds : ℕ) (t : Turn W)
      → TurnDone (is_cut (rounds h max_rounds 0 t)) max_rounds t (run_turn h max_rounds t)
  unfolding run_turn
  run_turn-TurnDone max_rounds t =
      end_turn-TurnDone max_rounds t (rounds h max_rounds 0 t) (rounds-Ends h max_rounds 0 t)

  -- A turn only adds messages: at most `max_rounds` blocks, each an assistant's calls of at least one
  -- tool followed by one result per call, with the call's id and in the order of the calls, and after
  -- them at most one answer of the assistant. If its rounds end in an exception of a tool's dispatch, or
  -- of the print of a result, and only then, no answer follows, and the last block has results for the
  -- first of its calls, but not for all.
  pub run_turn-Dialogue :
      (max_rounds : ℕ) (t : Turn W)
      → (ms : List Message) × Dialogue (is_cut (rounds h max_rounds 0 t)) max_rounds ms
        × ((run_turn h max_rounds t).1.messages ≡ t.messages ++ ms)
  run_turn-Dialogue max_rounds t = (run_turn-TurnDone max_rounds t).0

  -- A turn that was not told to stop and has not ended its speech ends in one of three ways. It
  -- ends its speech once, as its last output, and was never told to stop; so does every turn that
  -- returns a text. Or the last `should_abort` was the first to answer yes, the speech is not ended,
  -- and no text is returned. Or it raises, where errors are reraised, and the speech is not ended.
  pub run_turn-HasEnded :
      (max_rounds : ℕ) (t : Turn W) → IsOpen h t → HasEnded (run_turn h max_rounds t)
  run_turn-HasEnded max_rounds t o = (run_turn-TurnDone max_rounds t).1 o
