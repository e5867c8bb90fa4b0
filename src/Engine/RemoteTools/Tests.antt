-- ===== src/Engine/RemoteTools/Tests.antt =====
-- A call that is answered, and one that a barge-in aborts.
use voxedge.Base.{All, ℕ, ◌≡◌, refl, []}
use voxedge.Engine.RemoteTools.{
  delivered, Registry, begin, resolve_remote, cancel_pending_remote, finish, empty, begins, replies,
  cancels, finishes, Reach, start, next,
}
use voxedge.Engine.RemoteTools.Settled.{AreSettled, Reach-AreSettled, IsWoken, cancel-IsWoken}

abbrev called : Registry ℕ
called = resolve_remote 1 (delivered 7) (begin 2 (begin 1 empty))

abbrev answered : Registry ℕ
answered = finish 2 (finish 1 (cancel_pending_remote called).0)

called-Reach : Reach called
unfolding begin
called-Reach = next (next (next start (begins 1 refl)) (begins 2 refl)) (replies 1 (delivered 7))

answered-Reach : Reach answered
unfolding begin resolve_remote cancel_pending_remote finish
answered-Reach = next (next (next called-Reach cancels) (finishes 1 refl)) (finishes 2 refl)

Reach-AreSettled_example : AreSettled answered
Reach-AreSettled_example = Reach-AreSettled answered-Reach

cancel-IsWoken_example :
    All IsWoken (cancel_pending_remote called).0.calls
    × ((cancel_pending_remote called).0.pending ≡ [])
cancel-IsWoken_example = cancel-IsWoken called-Reach
