-- ===== src/Engine/SessionState.antt =====
-- engine/session_state.py. The handles of tasks are left out, since the parts that read them are.
use voxedge.Base.{ℕ, Bool, true, false, Option, none, some}

-- The reasons that are stamped, and the one that a finalize takes where none is.
pub data Reason : Type 0 where
  vad client_eos vad_end : Reason

-- Times are counted in ticks of the loop's clock.
pub record SessionState : Type 0 where
  pub client_closed : Bool
  pub asr_active : Bool
  pub asr_active_gen : ℕ
  pub asr_session_closed : Bool
  pub endpoint_pending : Option Reason
  pub endpoint_pending_gen : Option ℕ
  pub llm_barged : Bool
  pub tts_flush : Bool
  pub tts_started : Bool
  pub asr_turn_started_at : Option ℕ

abbrev pub initial : SessionState
initial = record {
  client_closed = false;
  asr_active = false;
  asr_active_gen = 0;
  asr_session_closed = false;
  endpoint_pending = none;
  endpoint_pending_gen = none;
  llm_barged = false;
  tts_flush = false;
  tts_started = false;
  asr_turn_started_at = none;
}

abbrev pub open_asr_generation : ℕ → ℕ → SessionState → SessionState
open_asr_generation new_gen now s = record s {
  endpoint_pending = none;
  endpoint_pending_gen = none;
  asr_active = true;
  asr_active_gen = new_gen;
  asr_turn_started_at = some now;
}

abbrev pub stamp_endpoint : Reason → SessionState → SessionState
stamp_endpoint reason s = record s {
  endpoint_pending = some reason;
  endpoint_pending_gen = some s.asr_active_gen;
}

abbrev pub clear_endpoint : SessionState → SessionState
clear_endpoint s = record s { endpoint_pending = none; endpoint_pending_gen = none }

abbrev pub deactivate_asr : SessionState → SessionState
deactivate_asr s = record s { asr_active = false; asr_turn_started_at = none }

abbrev pub close_input : SessionState → SessionState
close_input s = record s { asr_session_closed = true; tts_flush = true }
