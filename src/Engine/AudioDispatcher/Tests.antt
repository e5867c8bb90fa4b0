-- ===== src/Engine/AudioDispatcher/Tests.antt =====
-- Three frames before speech, of which two are kept, and the frame that starts it.
use voxedge.Base.{ℕ, true, List, [], ◌∷◌}
use voxedge.Engine.SessionState.{initial}
use voxedge.Engine.AudioDispatcher.{
  VadEvent, quiet, speech_start, speech_end, opened, Host, Dispatcher, run,
}
use voxedge.Engine.AudioDispatcher.Sound.{IsSound}
use voxedge.Engine.AudioDispatcher.Order.{arrived, fresh, run-IsSound}

abbrev calm : Host
calm = record {
  others = λ n s. s;
  started = λ n. opened n;
  time = λ n. n;
  asr_enabled = true;
  has_vad = true;
  preroll_cap = 4;
  multi = true;
}

abbrev frames : List (List ℕ × VadEvent)
frames =
    (1 ∷ 2 ∷ [], quiet)
    ∷ (3 ∷ 4 ∷ [], quiet)
    ∷ (5 ∷ 6 ∷ [], quiet)
    ∷ (7 ∷ 8 ∷ [], speech_start)
    ∷ (9 ∷ [], speech_end)
    ∷ []

abbrev spoken : Dispatcher ℕ
spoken = run calm frames (fresh initial)

run-IsSound_example : IsSound calm (arrived frames) (run calm frames (fresh initial))
run-IsSound_example = run-IsSound calm (λ n s e. e) frames initial
