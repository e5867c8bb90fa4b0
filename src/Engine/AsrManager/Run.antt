-- ===== src/Engine/AsrManager/Run.antt =====
-- Sequences of calls: every method keeps the manager well formed, whatever the worker does.
use voxedge.Base.{ℕ, Bool, true, false, ◌≡◌, any, arith, refl, Option, List, [], ◌∷◌}
use voxedge.Engine.AsrWorker.{Exn, Backend}
use voxedge.Engine.AsrRecovery.{Manager, Interruption, init}
use voxedge.Engine.AsrRecovery.Wellformed.{is_cut, IsWellformed}
use voxedge.Engine.AsrManager.{
  cancel, on_speech_start, accept_audio, finalize_with_status, prepare_finalize_for_generation,
  get_partial_for_generation, mark_error,
}
use voxedge.Engine.AsrManager.Invariant.{
  accept_audio-Keeps, finalize-Keeps, prepare-Keeps, partial-Keeps, cancel-Keeps, mark_error-Keeps,
}
use voxedge.Engine.AsrManager.Start.{on_speech_start-IsWellformed}

-- A call of one of the methods. A finalize comes with the number of calls that preempt it.
pub data Call (X : Type 0) : Type 0 where
  speech_start poll : Call X
  abort : Interruption → Call X
  audio : X → Call X
  eos : ℕ → Call X
  eou : Option ℕ → Call X
  fault : Exn → Call X

module _ {S W X : Type 0} (b : Backend S W X) where
  unfoldable pub step : Call X → Manager S W → Manager S W
  step speech_start m = (on_speech_start b m).0
  step poll m = (get_partial_for_generation b m).0
  step (abort i) m = cancel b i m
  step (audio x) m = accept_audio b x m
  step (eos n) m = (finalize_with_status b n m).0
  step (eou g) m = (prepare_finalize_for_generation b g m).0
  step (fault e) m = mark_error b e m

  pub run : List (Call X) → Manager S W → Manager S W
  run [] m = m
  run (c ∷ cs) m = run cs (step c m)

  -- Whether the cancel of a call is interrupted where that matters.
  abbrev pub is_cut_call : Call X → Bool
  is_cut_call (abort i) = is_cut i
  is_cut_call _ = false

  pub step-IsWellformed :
      (cut : Bool) (c : Call X) (m : Manager S W)
      → (is_cut_call c ≡ true → cut ≡ true)
      → IsWellformed cut m
      → IsWellformed cut (step c m)
  unfolding step
  step-IsWellformed cut speech_start m k h = (on_speech_start-IsWellformed b cut m h).0
  step-IsWellformed cut poll m k h = (partial-Keeps b cut m h).0
  step-IsWellformed cut (abort i) m k h = (cancel-Keeps b cut i m k h).0
  step-IsWellformed cut (audio x) m k h = (accept_audio-Keeps b cut x m h).0
  step-IsWellformed cut (eos n) m k h = (finalize-Keeps b cut n m h).0
  step-IsWellformed cut (eou g) m k h = (prepare-Keeps b cut g m h).0
  step-IsWellformed cut (fault e) m k h = (mark_error-Keeps b cut e m h).0

  run_from-IsWellformed :
      (cut : Bool) (cs : List (Call X)) (m : Manager S W)
      → (any is_cut_call cs ≡ true → cut ≡ true)
      → IsWellformed cut m
      → IsWellformed cut (run cs m)
  unfolding run
  run_from-IsWellformed cut [] m k h = h
  run_from-IsWellformed cut (c ∷ cs) m k h =
      run_from-IsWellformed cut cs (step c m) (λ e. k (ground (arith, e)))
        (step-IsWellformed cut c m (λ e. k (ground (arith, e))) h)

  -- From a new manager, after any sequence of calls and whatever the worker answers, no recovery is
  -- under way and the manager is idle with no stream, or active or finalizing with one, or cancelling
  -- with none; and cancelling only if a cancel was interrupted in its wait or in the restart. The other
  -- calls run to their end.
  pub run-IsWellformed :
      (cs : List (Call X)) (w : W) → IsWellformed (any is_cut_call cs) (run cs (init w))
  unfolding init
  run-IsWellformed cs w =
      run_from-IsWellformed (any is_cut_call cs) cs (init w) (λ e. e)
        (record { holds = tt; settled = refl })
