-- ===== src/Engine/AsrWorker.antt =====
-- The ASR backend as the engine sees it: the methods of backends/base.py's ASRBackend and ASRStream
-- that engine/asr_session_manager.py calls. A backend is a parameter of the engine's model; its
-- methods act on a world `W`, and return or raise.
use Prim.Native.String.{String}
use text.Mathlib.Text.{◌==◌}
use voxedge.Base.{ℕ, Bool, Option, List, [], ◌∷◌, any}

-- An exception, by what the engine reads of it: the names of its classes, in method resolution
-- order, and the attributes `status` and `max_slots`.
pub record Exn : Type 0 where
  pub mro : List String
  pub status : Option ℕ
  pub max_slots : Option ℕ

abbrev worker_error_names : List String
worker_error_names =
    "NoActiveSessionError" ∷ "SessionAlreadyActiveError" ∷ "WorkerExitError" ∷ "WorkerProtocolError"
    ∷ []

unfoldable pub is_worker_protocol_error : Exn → Bool
is_worker_protocol_error e = any (λ c. any (λ n. c == n) worker_error_names) e.mro

pub data Outcome (A : Type 0) : Type 0 where
  returned : A → Outcome A
  raised : Exn → Outcome A

-- How a bounded `cancel` of a stream ends: the call returned, a restart had retired it, it did not
-- end in time, or it raised.
pub data CancelOutcome : Type 0 where
  acked retired timed_out : CancelOutcome
  failed : Exn → CancelOutcome

-- `S` is the type of streams, `X` that of audio chunks. `prepare_finalize` and `restart_worker` are
-- optional.
pub record Backend (S W X : Type 0) : Type 0 where
  pub create_stream : W → Outcome S × W
  pub accept_waveform : S → X → W → Outcome (Unit {0}) × W
  pub finalize : S → W → Outcome (Option String × Option String) × W
  pub prepare_finalize : Option (S → W → Outcome (Unit {0}) × W)
  pub get_partial : S → W → Outcome (Option String × Bool) × W
  pub cancel : S → W → CancelOutcome × W
  pub close : S → W → W
  pub restart_worker : Option (W → Outcome (Unit {0}) × W)
