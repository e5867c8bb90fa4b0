-- ===== src/Engine/AsrManager/Idle.antt =====
-- On an idle manager a method other than `on_speech_start` does nothing.
use voxedge.Base.{ℕ, ◌+◌, ◌≡◌, false, Option, arith}
use voxedge.Engine.AsrWorker.{Backend}
use voxedge.Engine.AsrRecovery.{
  Interruption, completes, at_lock, in_wait, in_restart, Manager, idle,
}
use voxedge.Engine.AsrRecovery.Wellformed.{inner_cancel-idle}
use voxedge.Engine.AsrManager.{
  cancel_locked, cancel, accept_audio, finalize_with_status, discard,
  prepare_finalize_for_generation, get_partial_for_generation,
}

module _ {S W X : Type 0} (b : Backend S W X) where
  -- Nothing but a new utterance or an error ends idleness.
  pub accept_audio-idle : (x : X) (m : Manager S W) → m.state ≡ idle → accept_audio b x m ≡ m
  unfolding accept_audio
  accept_audio-idle x m p = ground arith

  pub finalize-idle :
      (n : ℕ) (m : Manager S W)
      → m.state ≡ idle
      → finalize_with_status b n m ≡ (m, discard m.generation)
  unfolding finalize_with_status
  finalize-idle n m p = ground arith

  pub prepare-idle :
      (g : Option ℕ) (m : Manager S W)
      → m.state ≡ idle
      → prepare_finalize_for_generation b g m ≡ (m, (m.generation, false))
  unfolding prepare_finalize_for_generation
  prepare-idle g m p = ground arith

  pub partial-idle :
      (m : Manager S W)
      → m.state ≡ idle
      → get_partial_for_generation b m ≡ (m, (m.generation, "", false))
  unfolding get_partial_for_generation
  partial-idle m p = ground arith

  pub cancel-idle :
      (i : Interruption) (m : Manager S W) → m.state ≡ idle → (cancel b i m).state ≡ idle
  unfolding cancel cancel_locked
  cancel-idle at_lock m p = p
  cancel-idle completes m p =
      inner_cancel-idle b completes (record m { abort_epoch = m.abort_epoch + 1 }) p
  cancel-idle in_wait m p =
      inner_cancel-idle b in_wait (record m { abort_epoch = m.abort_epoch + 1 }) p
  cancel-idle in_restart m p =
      inner_cancel-idle b in_restart (record m { abort_epoch = m.abort_epoch + 1 }) p
