-- ===== src/Engine/AsrLoop/Tests.antt =====
-- A session with one utterance of generation 1, whose input is then closed.
use voxedge.Base.{◌≡◌, refl, true, false, none, some, [], ◌∷◌, ◌==◌}
use voxedge.Engine.SessionState.{
  client_eos, SessionState, initial, open_asr_generation, stamp_endpoint, close_input,
}
use voxedge.Engine.AsrLoop.{Host, Next, start, is_late, run}
use voxedge.Engine.AsrLoop.Terminal.{TerminalLast, at_most_one_terminal}
use voxedge.Engine.AsrLoop.Partials.{NoRepeat, OfLoop, partials_differ}
use voxedge.Engine.AsrLoop.CloseOut.{Completes, close_out}

abbrev quiet_host : Host
quiet_host = record {
  others = λ n s. s;
  get_partial = λ n. some (1, 104 ∷ [], false);
  finalize =
      λ n reason. some (record { text = some (104 ∷ 105 ∷ []); accepted = true; language = none });
  time = λ n. n;
  asr_turn_timeout = 100;
  multi = true;
  blank = λ c. c == 32;
}

abbrev ended : SessionState
ended = close_input (stamp_endpoint client_eos (open_asr_generation 1 0 initial))

abbrev ended_run : Next
ended_run = run quiet_host 5 (start ended)

at_most_one_terminal_example : TerminalLast (run quiet_host 5 (start ended))
at_most_one_terminal_example = at_most_one_terminal quiet_host 5 ended

partials_differ_example : OfLoop (λ l. NoRepeat l.events) (run quiet_host 5 (start ended))
partials_differ_example = partials_differ quiet_host 5 ended

ended-late : is_late quiet_host (start ended) ≡ false
unfolding is_late
ended-late = refl

close_out_example : Completes (run quiet_host 1 (start ended))
close_out_example =
    close_out quiet_host (λ n s c. c) (λ n s c. c) (λ n reason. refl) 0 (start ended) refl
      ended-late (refl, refl, refl) tt
