-- ===== src/Backends/WorkerIo/Tests.antt =====
-- The requests of worker_io.py at concrete histories.
use voxedge.Base.{◌+◌, ◌≡◌, refl, true, max, List, [], ◌∷◌, arith}
use voxedge.Backends.WorkerIo.{
  progress, finished, exited, reading, goes, init, Action, request, emits, eof, closes, wakes, run,
  take_event, read, write, start, acquire, advance, dispatch, act,
}
use voxedge.Backends.WorkerIo.Tokens.{in_flight, run-tokens}
use voxedge.Backends.WorkerIo.Endings.{is_finished, close-ends}

-- Request 0 takes the only token and writes its line while request 1 waits for one.
abbrev opening : List Action
opening =
    request 0 goes
    ∷ request 1 goes
    ∷ request 0 goes
    ∷ request 1 goes
    ∷ request 0 goes
    ∷ request 0 goes
    ∷ request 0 goes
    ∷ emits 0 progress
    ∷ []

abbrev closed_then : List Action
closed_then =
    request 0 goes
    ∷ request 1 goes
    ∷ request 0 goes
    ∷ request 1 goes
    ∷ request 0 goes
    ∷ request 0 goes
    ∷ request 0 goes
    ∷ emits 0 progress
    ∷ closes
    ∷ wakes
    ∷ []

abbrev its_steps : List Action
its_steps =
    request 0 goes ∷ request 1 goes ∷ request 0 goes ∷ eof ∷ request 0 goes ∷ request 0 goes ∷ []

served : (run opening (init 1)).pc 0 ≡ reading
unfolding run act advance acquire start write dispatch
served = refl

ended : (run its_steps (run closed_then (init 1))).pc 0 ≡ finished exited
unfolding run act advance acquire start write dispatch read take_event
ended = refl

run-tokens_example : (run opening (init 1)).sem + in_flight 2 (run opening (init 1)) ≡ max 1 1
run-tokens_example = run-tokens 2 1 opening (
  omega arith,
  (
    omega arith,
    (omega arith, (omega arith, (omega arith, (omega arith, (omega arith, (tt, tt)))))),
  ),
)

close-ends_example : is_finished ((run its_steps (run closed_then (init 1))).pc 0) ≡ true
unfolding run act advance acquire start write dispatch
close-ends_example = close-ends 1 closed_then its_steps 0 refl refl (omega arith)

abbrev after_the_end : List Action
after_the_end =
    eof ∷ request 0 goes ∷ request 0 goes ∷ request 0 goes ∷ request 0 goes ∷ request 0 goes ∷ []

-- A request that registers after the reader's end writes its line and waits: nothing will wake it.
late_request :
    ((run after_the_end (init 1)).pc 0 ≡ reading) × ((run after_the_end (init 1)).queue 0 ≡ [])
unfolding run act advance acquire start write dispatch
late_request = (refl, refl)
