-- ===== src/Engine/ClientEvents/Tests.antt =====
-- Two finals while no response is asked for, a response, and an abort.
use voxedge.Base.{ℕ, refl, true, false, none, some, List, [], ◌∷◌, ◌==◌}
use voxedge.Engine.SessionState.{initial}
use voxedge.Engine.RemoteTools.{empty}
use voxedge.Engine.ClientEvents.{
  Input, event, asr_final, response_done, response_create, abort, Config, Session, run,
}
use voxedge.Engine.ClientEvents.Gate.{IsGated, finals, run-IsGated}

abbrev manual : Config
manual = record {
  has_llm = true;
  has_asr = true;
  auto_create_response = false;
  multi_utterance = true;
  blank = λ c. c == 32;
}

abbrev idle_session : Session ℕ
idle_session = record {
  state = initial;
  registry = some empty;
  pending = none;
  running = false;
  started = [];
  finished = 0;
  outputs = [];
}

abbrev inputs : List (Input ℕ)
inputs =
    asr_final (97 ∷ [])
    ∷ asr_final (98 ∷ [])
    ∷ event response_create
    ∷ asr_final (99 ∷ [])
    ∷ event response_create
    ∷ event abort
    ∷ response_done
    ∷ []

abbrev after : Session ℕ
after = run manual inputs idle_session

run-IsGated_example : IsGated (finals inputs) (run manual inputs idle_session)
run-IsGated_example = run-IsGated manual inputs idle_session refl refl refl refl
