-- ===== src/Engine/AsrManager.antt =====
-- engine/asr_session_manager.py: the methods of the ASR session manager. Every worker operation runs
-- under the manager's lock, so a method is one step on the manager. What `cancel` and
-- `on_speech_start` do before they have the lock is `abort_epoch`: a finalize is given the number of
-- such calls that came while the worker was busy with it. Each of them counts once more when it has
-- the lock; only whether the epoch changed is ever read. A `cancel` may be interrupted, since the ASR
-- loop gives it a time limit. That a task of the session is cancelled within another method is left out.
pub mod Invariant
pub mod Idle
pub mod Start
pub mod Run
pub mod Generations
pub mod Uniqueness
mod Tests
use Prim.Native.String.{String}
use voxedge.Base.{ℕ, ◌+◌, Bool, true, false, not, ◌||◌, Option, none, some, ◌==◌, if◌then◌else◌}
use voxedge.Engine.AsrWorker.{Exn, Outcome, returned, raised, Backend}
use voxedge.Engine.AsrRecovery.{
  Manager, Interruption, completes, at_lock, in_wait, in_restart, idle, active, finalizing,
  is_active, is_finalizing, safe_close_stream, handle_error_locked, inner_cancel,
}

-- What `on_speech_start` returns, or the cause of the ASRSessionUnavailable that it raises.
pub data SpeechStart : Type 0 where
  opened : ℕ → SpeechStart
  unavailable : Exn → SpeechStart

-- The tuple that `finalize_with_status` returns.
pub record Final : Type 0 where
  pub generation : ℕ
  pub text : String
  pub accepted : Bool
  pub language : Option String

-- `text or ""`
abbrev pub or_empty : Option String → String
or_empty none = ""
or_empty (some s) = s

-- A result that is not accepted.
abbrev pub discard : ℕ → Final
discard gen = record { generation = gen; text = ""; accepted = false; language = none }

module _ {S W X : Type 0} (b : Backend S W X) where
  -- `cancel` once it has bumped the epoch; an interruption at the lock leaves it at that.
  pub cancel_locked : Interruption → Manager S W → Manager S W
  cancel_locked at_lock m = m
  cancel_locked completes m = inner_cancel b completes m
  cancel_locked in_wait m = inner_cancel b in_wait m
  cancel_locked in_restart m = inner_cancel b in_restart m

  pub cancel : Interruption → Manager S W → Manager S W
  unfolding cancel_locked
  cancel i m = cancel_locked i (record m { abort_epoch = m.abort_epoch + 1 })

  speech_rebuilt : Exn → Option S → Manager S W → Manager S W × SpeechStart
  speech_rebuilt e none m = (record m { state = idle }, unavailable e)
  speech_rebuilt e (some s) m = (record m { state = active }, opened m.generation)

  speech_created : Outcome S × W → Manager S W → Manager S W × SpeechStart
  unfolding speech_rebuilt
  speech_created (returned s, w) m =
      (record m { stream = some s; state = active; world = w }, opened m.generation)
  speech_created (raised e, w) m =
      let m' = handle_error_locked b e (record m { world = w }) in speech_rebuilt e m'.stream m'

  pub on_speech_start : Manager S W → Manager S W × SpeechStart
  unfolding speech_created
  on_speech_start m =
      let m₁ = record m { abort_epoch = m.abort_epoch + 1 } in
      let m₂ =
        if is_active m.state || is_finalizing m.state then inner_cancel b completes m₁ else m₁ in
      let m₃ = record m₂ { generation = m₂.generation + 1 } in
      speech_created (b.create_stream m₃.world) m₃

  accepted_audio : Outcome Unit × W → Manager S W → Manager S W
  accepted_audio (returned u, w) m = record m { world = w }
  accepted_audio (raised e, w) m = handle_error_locked b e (record m { world = w })

  late_stream : X → Outcome S × W → Manager S W → Manager S W
  unfolding accepted_audio
  late_stream x (returned s, w) m =
      accepted_audio (b.accept_waveform s x w) (record m { stream = some s; world = w })
  late_stream x (raised e, w) m = handle_error_locked b e (record m { world = w })

  push_audio : X → Option S → Manager S W → Manager S W
  unfolding late_stream
  push_audio x none m = late_stream x (b.create_stream m.world) m
  push_audio x (some s) m = accepted_audio (b.accept_waveform s x m.world) m

  pub accept_audio : X → Manager S W → Manager S W
  unfolding push_audio
  accept_audio x m = if is_active m.state then push_audio x m.stream m else m

  -- After the worker's `finalize`, during which `preempts` calls bumped the epoch.
  finalized : ℕ → Manager S W → Outcome (Option String × Option String) × W → Manager S W × Final
  finalized preempts m (raised e, w) =
      (handle_error_locked b e (record m { world = w }), discard m.generation)
  finalized preempts m (returned (text, language), w) =
      let m' = record m { abort_epoch = m.abort_epoch + preempts; world = w } in
      if not (m'.abort_epoch == m.abort_epoch)
      then (m', discard m.generation)
      else if not (is_finalizing m'.state)
      then (m', discard m.generation)
      else if not (m'.generation == m.generation)
      then (m', discard m.generation)
      else (
        record m' { world = safe_close_stream b m'.stream w; stream = none; state = idle },
        record {
          generation = m.generation;
          text = or_empty text;
          accepted = true;
          language = language;
        },
      )

  finalize_stream : ℕ → Option S → Manager S W → Manager S W × Final
  unfolding finalized
  finalize_stream preempts none m = (record m { state = idle }, discard m.generation)
  finalize_stream preempts (some s) m = finalized preempts m (b.finalize s m.world)

  pub finalize_with_status : ℕ → Manager S W → Manager S W × Final
  unfolding finalize_stream
  finalize_with_status preempts m =
      if is_active m.state
      then finalize_stream preempts m.stream (record m { state = finalizing })
      else (m, discard m.generation)

  prepared : Manager S W → Outcome Unit × W → Manager S W × (ℕ × Bool)
  prepared m (returned u, w) = (record m { world = w }, (m.generation, true))
  prepared m (raised e, w) =
      (handle_error_locked b e (record m { world = w }), (m.generation, false))

  hook : S → Manager S W → Option (S → W → Outcome Unit × W) → Manager S W × (ℕ × Bool)
  unfolding prepared
  hook s m none = (m, (m.generation, false))
  hook s m (some prepare) = prepared m (prepare s m.world)

  -- Under the lock the generation, the state and the stream are still those of before the call.
  prepare_stream : Option S → Manager S W → Manager S W × (ℕ × Bool)
  unfolding hook
  prepare_stream none m = (m, (m.generation, false))
  prepare_stream (some s) m = hook s m b.prepare_finalize

  -- `none` asks for whatever generation is current.
  pub prepare_finalize_for_generation : Option ℕ → Manager S W → Manager S W × (ℕ × Bool)
  unfolding prepare_stream
  prepare_finalize_for_generation none m =
      if is_active m.state then prepare_stream m.stream m else (m, (m.generation, false))
  prepare_finalize_for_generation (some g) m =
      if not (g == m.generation)
      then (m, (m.generation, false))
      else if is_active m.state
      then prepare_stream m.stream m
      else (m, (m.generation, false))

  partial_read : ℕ → Outcome (Option String × Bool) → ℕ × String × Bool
  partial_read gen (returned (partial, is_endpoint)) = (gen, or_empty partial, is_endpoint)
  partial_read gen (raised e) = (gen, "", false)

  partial_stream : Option S → Manager S W → Manager S W × (ℕ × String × Bool)
  unfolding partial_read
  partial_stream none m = (m, (m.generation, "", false))
  partial_stream (some s) m =
      let r = b.get_partial s m.world in (record m { world = r.1 }, partial_read m.generation r.0)

  pub get_partial_for_generation : Manager S W → Manager S W × (ℕ × String × Bool)
  unfolding partial_stream
  get_partial_for_generation m =
      if is_active m.state then partial_stream m.stream m else (m, (m.generation, "", false))

  -- The recovery that `mark_error` schedules, once it has the lock.
  pub mark_error : Exn → Manager S W → Manager S W
  mark_error e m = handle_error_locked b e (record m { last_error = some e })
