-- ===== src/Engine/AsrRecovery.antt =====
-- engine/asr_session_manager.py: the state of the ASR session manager, and what its error and cancel
-- paths do under the lock. A restart's new mutex is not modelled: under the lock no call waits on it.
pub mod Wellformed
use voxedge.Base.{
  is_some, ℕ, zero, suc, ◌+◌, ◌&&◌, Bool, true, false, Option, none, some, if◌then◌else◌,
}
use voxedge.Engine.AsrWorker.{
  Exn, is_worker_protocol_error, Outcome, returned, raised, CancelOutcome, acked, retired,
  timed_out, failed, Backend,
}

pub data SessionState : Type 0 where
  idle active finalizing cancelling error_rebuild : SessionState

pub record Manager (S W : Type 0) : Type 0 where
  pub state : SessionState
  pub stream : Option S
  pub generation : ℕ
  pub abort_epoch : ℕ
  pub worker_op_epoch : ℕ
  pub last_error : Option Exn
  pub recovery_in_progress : Bool
  pub world : W

-- Where the caller of a `cancel` ends it: nowhere, at the lock, in the wait for the worker's cancel, or in
-- the restart. The ASR loop does so after its time limit.
pub data Interruption : Type 0 where
  completes at_lock in_wait in_restart : Interruption

-- The number of delays in `_REBUILD_BACKOFF_S`.
abbrev pub rebuild_attempts : ℕ
rebuild_attempts = 3

abbrev pub is_active : SessionState → Bool
is_active active = true
is_active _ = false

abbrev pub is_idle : SessionState → Bool
is_idle idle = true
is_idle _ = false

abbrev pub is_finalizing : SessionState → Bool
is_finalizing finalizing = true
is_finalizing _ = false

module _ {S W : Type 0} where
  unfoldable pub init : W → Manager S W
  init w = record {
    state = idle;
    stream = none;
    generation = 0;
    abort_epoch = 0;
    worker_op_epoch = 0;
    last_error = none;
    recovery_in_progress = false;
    world = w;
  }

module _ {S W X : Type 0} (b : Backend S W X) where
  unfoldable pub safe_close_stream : Option S → W → W
  safe_close_stream none w = w
  safe_close_stream (some s) w = b.close s w

  -- A failed restart is logged only.
  maybe_restart_worker : Manager S W → Manager S W
  maybe_restart_worker m = elim b.restart_worker [
    | none ↦ m
    | some fn ↦ record m { worker_op_epoch = m.worker_op_epoch + 1; world = (fn m.world).1 }
  ]

  -- One round of the loop of `_do_rebuild_locked`; `true` is its `return`.
  attempt : Outcome S × W → Manager S W → Manager S W × Bool
  attempt (returned s, w) m = (record m { stream = some s; state = active; world = w }, true)
  attempt (raised e, w) m = (record m { last_error = some e; world = w }, false)

  rebuild_loop : ℕ → Manager S W → Manager S W × Bool
  rebuild_loop zero m = (m, false)
  rebuild_loop (suc n) m =
      let r = attempt (b.create_stream m.world) m in
      let rest = rebuild_loop n r.0 in if r.1 then r else rest

  -- The `create_stream` after the restart.
  last_attempt : Outcome S × W → Manager S W → Manager S W
  last_attempt (returned s, w) m = record m { stream = some s; state = active; world = w }
  last_attempt (raised e, w) m = record m {
    stream = none;
    state = idle;
    world = safe_close_stream m.stream w;
  }

  do_rebuild_locked : Manager S W → Manager S W
  unfolding attempt last_attempt
  do_rebuild_locked m =
      let r = rebuild_loop rebuild_attempts m in
      let restarted = maybe_restart_worker r.0 in
      let again = last_attempt (b.create_stream restarted.world) restarted in
      if r.1 then r.0 else again

  pub handle_error_locked : Exn → Manager S W → Manager S W
  handle_error_locked e m =
      let m' = record m {
        last_error = some e;
        recovery_in_progress = true;
        world = safe_close_stream m.stream m.world;
        stream = none;
        state = error_rebuild;
      } in
      if m.recovery_in_progress
      then record m { last_error = some e }
      else record (do_rebuild_locked m') { recovery_in_progress = false }

  -- What follows the bounded wait for the cancel call on `s`.
  cancel_done : CancelOutcome → S → Manager S W → Manager S W
  cancel_done acked s m = record m { world = safe_close_stream (some s) m.world }
  cancel_done retired s m = m
  cancel_done timed_out s m = maybe_restart_worker m
  cancel_done (failed e) s m =
      let m' = if is_worker_protocol_error e then maybe_restart_worker m else m in
      record m' { world = safe_close_stream (some s) m'.world }

  -- Whether a restart is awaited then.
  needs_restart : CancelOutcome → Bool
  needs_restart acked = false
  needs_restart retired = false
  needs_restart timed_out = true
  needs_restart (failed e) = is_worker_protocol_error e

  -- From the wait on, with the interruption there or in the restart, which the worker goes on with.
  cancel_waited : Interruption → CancelOutcome → S → Manager S W → Manager S W
  unfolding cancel_done needs_restart
  cancel_waited in_wait o s m = m
  cancel_waited in_restart o s m =
      if needs_restart o && is_some b.restart_worker
      then maybe_restart_worker m
      else record (cancel_done o s m) { state = idle }
  cancel_waited at_lock o s m = record (cancel_done o s m) { state = idle }
  cancel_waited completes o s m = record (cancel_done o s m) { state = idle }

  cancel_stream : Interruption → Option S → Manager S W → Manager S W
  unfolding cancel_waited
  cancel_stream i none m = record m { state = idle }
  cancel_stream i (some s) m =
      let r = b.cancel s m.world in cancel_waited i r.0 s (record m { world = r.1 })

  pub inner_cancel : Interruption → Manager S W → Manager S W
  unfolding cancel_stream
  inner_cancel i m =
      if is_idle m.state
      then m
      else cancel_stream i m.stream (record m { state = cancelling; stream = none })
