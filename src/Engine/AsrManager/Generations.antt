-- ===== src/Engine/AsrManager/Generations.antt =====
-- Generations: which results of a finalize reach the caller, and at most one for an utterance.
use Prim.Native.String.{String}
use voxedge.Base.{ℕ, ◌+◌, ◌≡◌, true, Option, none, some, arith}
use voxedge.Engine.AsrWorker.{returned, Backend}
use voxedge.Engine.AsrRecovery.{Manager, idle, active, safe_close_stream}
use voxedge.Engine.AsrManager.{finalize_with_status}
use voxedge.Engine.AsrManager.Invariant.{final_of}

module _ {S W X : Type 0} (b : Backend S W X) where
  -- What a finalize of a live stream returns, and the manager that it leaves, if no call preempted it
  -- and the worker returned: the text, in the current generation, and an idle manager whose stream
  -- has been closed, in the worker's world after that.
  pub finalize_commits :
      (m : Manager S W) (s : S) (t l : Option String)
      → m.state ≡ active
      → m.stream ≡ some s
      → (b.finalize s m.world).0 ≡ returned (t, l)
      → finalize_with_status b 0 m ≡ (
        record m {
          stream = none;
          state = idle;
          abort_epoch = m.abort_epoch + 0;
          world = b.close s (b.finalize s m.world).1;
        },
        final_of t l m,
      )
  unfolding finalize_with_status safe_close_stream
  finalize_commits m s t l p q r = ground arith

  -- A finalize is accepted only on an active manager with no preempting call; then its generation is
  -- the current one, and the manager is idle in the same generation, without a stream.
  pub finalize_accepted :
      (n : ℕ) (m : Manager S W)
      → (finalize_with_status b n m).1.accepted ≡ true
      → (m.state ≡ active)
        × (n ≡ 0)
        × ((finalize_with_status b n m).1.generation ≡ m.generation)
        × ((finalize_with_status b n m).0.state ≡ idle)
        × ((finalize_with_status b n m).0.stream ≡ none)
        × ((finalize_with_status b n m).0.generation ≡ m.generation)
  unfolding finalize_with_status
  finalize_accepted n m h = ground arith
