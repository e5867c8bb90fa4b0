-- ===== src/Backends/WorkerIo.antt =====
-- backends/jetson/worker_io.py: requests to one worker process, which the threads of their callers, the
-- reader thread and `close` interleave. A step goes from one shared access to the next. The id of a
-- request is a number that no other request has, so a table by ids is a function from numbers.
pub mod Family
pub mod Endings
pub mod Frame
pub mod OwnSteps
pub mod Reached
mod Tests
pub mod Tokens
pub mod Wakes
use voxedge.Base.{
  ℕ, zero, suc, ◌+◌, ◌-◌, max, Bool, true, false, Option, none, some, List, [], ◌∷◌, ◌++◌, ltb,
  ◌==◌, if◌then◌else◌,
}
use voxedge.Backends.WorkerIo.Family.{update}

-- An event of the worker; `worker_exit` is the one that wakes a caller.
pub data Event : Type 0 where
  progress done cancelled worker_exit : Event

-- How a request ends: with its last event, by WorkerExitError, by an error of the write, by the time
-- limit, by its caller, or without a start.
pub data Outcome : Type 0 where
  completed exited write_failed timed_out dropped not_started : Outcome

-- Where `request` stands: before its semaphore; with a token, before it tests `_closed`; before it
-- registers its queue; before it writes its line; in its loop.
pub data Pc : Type 0 where
  idle acquiring admitted checked registered reading : Pc
  finished : Outcome → Pc

-- A line of the worker's input.
pub data Line : Type 0 where
  request_line cancel_line : ℕ → Line

-- `sem` is the free tokens of the semaphore. `inflight` is the keys of `_inflight`, and `queue` the
-- queues of the requests. `reader_done` is whether the reader has seen the end of the output, and
-- `woken` whether `close` has emptied `_inflight`.
pub record WorkerIo : Type 0 where
  pub sem : ℕ
  pub closed : Bool
  pub reader_done : Bool
  pub woken : Bool
  pub inflight : ℕ → Bool
  pub queue : ℕ → List Event
  pub pc : ℕ → Pc
  pub stdin : List Line

-- What the surroundings do at a step of a request: nothing, cancel it by its event, make the write or the
-- wait fail, or close the generator.
pub data Choice : Type 0 where
  goes gives_up raises drops : Choice

abbrev pub init : ℕ → WorkerIo
init concurrency = record {
  sem = max 1 concurrency;
  closed = false;
  reader_done = false;
  woken = false;
  inflight = λ _. false;
  queue = λ _. [];
  pc = λ _. idle;
  stdin = [];
}

-- The `finally` of `request`, before and after the request has its id.
abbrev pub release : ℕ → Outcome → WorkerIo → WorkerIo
release i o w = record w { sem = suc w.sem; pc = update w.pc i (finished o) }

abbrev pub leave : ℕ → Outcome → WorkerIo → WorkerIo
leave i o w = release i o (record w { inflight = update w.inflight i false })

-- `blocked` is where no token is free; a caller that is cancelled gives up only there.
blocked : ℕ → Choice → WorkerIo → WorkerIo
blocked i gives_up w = record w { pc = update w.pc i (finished not_started) }
blocked i _ w = w

acquire : ℕ → Choice → WorkerIo → WorkerIo
unfolding blocked
acquire i ch w =
    if w.sem == 0 then blocked i ch w else record w { sem = w.sem - 1; pc = update w.pc i admitted }

start : ℕ → Choice → WorkerIo → WorkerIo
start i gives_up w = release i (if w.closed then exited else not_started) w
start i _ w = if w.closed then release i exited w else record w { pc = update w.pc i checked }

register : ℕ → WorkerIo → WorkerIo
register i w = record w {
  inflight = update w.inflight i true;
  queue = update w.queue i [];
  pc = update w.pc i registered;
}

write : ℕ → Choice → WorkerIo → WorkerIo
write i raises w = leave i (if w.closed then exited else write_failed) w
write i _ w =
    if w.closed
    then leave i exited w
    else record w { stdin = w.stdin ++ (request_line i ∷ []); pc = update w.pc i reading }

-- The loop over the events of a request. The time limit passes only where there is no event.
take_event : ℕ → Choice → List Event → WorkerIo → WorkerIo
take_event i raises [] w = leave i timed_out w
take_event i _ [] w = w
take_event i ch (worker_exit ∷ es) w = leave i exited w
take_event i ch (progress ∷ es) w = record w { queue = update w.queue i es }
take_event i ch (done ∷ es) w = leave i completed w
take_event i ch (cancelled ∷ es) w = leave i completed w

read : ℕ → Choice → WorkerIo → WorkerIo
unfolding take_event
read i drops w = leave i dropped w
read i ch w = take_event i ch (w.queue i) w

-- `request`, by where it stands.
pub advance : Pc → ℕ → Choice → WorkerIo → WorkerIo
unfolding acquire start register write read
advance idle i ch w = record w { pc = update w.pc i acquiring }
advance acquiring i ch w = acquire i ch w
advance admitted i ch w = start i ch w
advance checked i ch w = register i w
advance registered i ch w = write i ch w
advance reading i ch w = read i ch w
advance (finished o) i ch w = w

-- A line of the worker's output, with its id.
dispatch : ℕ → Event → WorkerIo → WorkerIo
dispatch i e w =
    if w.inflight i then record w { queue = update w.queue i (w.queue i ++ (e ∷ [])) } else w

-- Every request that is registered is told, and forgotten.
abbrev pub wake : WorkerIo → WorkerIo
wake w = record w {
  queue = λ j. if w.inflight j then w.queue j ++ (worker_exit ∷ []) else w.queue j;
  inflight = λ j. false;
}

cancel : ℕ → WorkerIo → WorkerIo
cancel i w = if w.closed then w else record w { stdin = w.stdin ++ (cancel_line i ∷ []) }

-- `closes` and `wakes` are the two parts of `close`.
pub data Action : Type 0 where
  request : ℕ → Choice → Action
  emits : ℕ → Event → Action
  eof closes wakes : Action
  cancels : ℕ → Action

pub act : Action → WorkerIo → WorkerIo
unfolding advance dispatch cancel
act (request i ch) w = advance (w.pc i) i ch w
act (emits i e) w = if w.reader_done then w else dispatch i e w
act eof w = if w.reader_done then w else record (wake w) { reader_done = true }
act closes w = record w { closed = true }
act wakes w = if w.closed then record (wake w) { woken = true } else w
act (cancels i) w = cancel i w

unfoldable pub run : List Action → WorkerIo → WorkerIo
unfolding act
run [] w = w
run (a ∷ as') w = run as' (act a w)
