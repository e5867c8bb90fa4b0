-- ===== src/Engine/AsrManager/Tests.antt =====
-- A worker that counts the streams it made, and the theorems at runs of it.
use voxedge.Base.{ℕ, ◌+◌, ◌≡◌, refl, true, false, none, some, List, [], ◌∷◌}
use voxedge.Engine.AsrWorker.{Exn, returned, acked, Backend}
use voxedge.Engine.AsrRecovery.{completes, in_wait, Manager, idle, active, init}
use voxedge.Engine.AsrRecovery.Wellformed.{IsWellformed}
use voxedge.Engine.AsrManager.{finalize_with_status}
use voxedge.Engine.AsrManager.Generations.{finalize_accepted}
use voxedge.Engine.AsrManager.Run.{
  Call, speech_start, audio, eos, poll, abort, run, run-IsWellformed,
}
use voxedge.Engine.AsrManager.Uniqueness.{one_final_per_generation, Rises, finals}

-- A stream is its number; the world is the number of the next one.
abbrev counting : Backend ℕ ℕ ℕ
counting = record {
  create_stream = λ w. (returned w, w + 1);
  accept_waveform = λ s x w. (returned tt, w);
  finalize = λ s w. (returned (some "hello", none), w);
  prepare_finalize = none;
  get_partial = λ s w. (returned (some "he", false), w);
  cancel = λ s w. (acked, w);
  close = λ s w. w;
  restart_worker = none;
}

abbrev talking : Manager ℕ ℕ
talking = record {
  state = active;
  stream = some 0;
  generation = 1;
  abort_epoch = 1;
  worker_op_epoch = 0;
  last_error = none;
  recovery_in_progress = false;
  world = 1;
}

abbrev resting : Manager ℕ ℕ
resting = record talking { state = idle; stream = none }

abbrev crash : Exn
crash = record { mro = "WorkerExitError" ∷ []; status = none; max_slots = none }

abbrev two_turns : List (Call ℕ)
two_turns =
    speech_start
    ∷ audio 7
    ∷ eos 0
    ∷ speech_start
    ∷ poll
    ∷ eos 1
    ∷ abort in_wait
    ∷ poll
    ∷ speech_start
    ∷ abort completes
    ∷ []

run-IsWellformed_example : IsWellformed true (run counting two_turns (init 0))
run-IsWellformed_example = run-IsWellformed counting two_turns 0

one_final_per_generation_example : Rises 0 (finals counting two_turns (init 0))
one_final_per_generation_example = one_final_per_generation counting two_turns 0 tt

finalize_accepted_example :
    (talking.state ≡ active)
    × (◌≡◌ {A = ℕ} 0 0)
    × ((finalize_with_status counting 0 talking).1.generation ≡ 1)
    × ((finalize_with_status counting 0 talking).0.state ≡ idle)
    × ((finalize_with_status counting 0 talking).0.stream ≡ none)
    × ((finalize_with_status counting 0 talking).0.generation ≡ 1)
unfolding finalize_with_status
finalize_accepted_example = finalize_accepted counting 0 talking refl
