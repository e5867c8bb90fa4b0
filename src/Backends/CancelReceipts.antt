-- ===== src/Backends/CancelReceipts.antt =====
-- cancel_and_wait of backends/jetson/worker_io.py: the calls of any number of threads, the reader thread
-- and `close`, interleaved between the accesses of shared state. A call has a number, which no other
-- call has; `id_of` gives the id that it is for, which others may be for as well.
pub mod Capacity
pub mod Emitted
pub mod Genuine
mod Tests
use voxedge.Base.{
  is_some, ℕ, zero, suc, ◌+◌, ◌-◌, max, ◌≡◌, Bool, true, false, Option, none, some, List, [], ◌∷◌,
  leb, ◌==◌, if◌then◌else◌,
}
use voxedge.Backends.WorkerIo.Family.{update}

-- What a receipt queue can hold.
pub data Reply : Type 0 where
  cancelled worker_exit : Reply

pub data Outcome : Type 0 where
  received exited duplicate at_capacity timed_out write_failed : Outcome

-- Where a call stands: before its admission; before it writes; before it waits; in its wait.
pub data Pc : Type 0 where
  idle admitted written waiting : Pc
  finished : Outcome → Pc

-- `receipts` is `_cancel_receipts`, with the call that a queue belongs to, and `slot` the queue of each
-- call, which has room for one reply.
pub record Receipts : Type 0 where
  pub capacity : ℕ
  pub closed : Bool
  pub reader_done : Bool
  pub waiters : ℕ
  pub receipts : ℕ → Option ℕ
  pub slot : ℕ → Option Reply
  pub pc : ℕ → Pc

-- What a step of a call meets: time left, none before the lock, none once it has the lock, or an error of
-- the write.
pub data Choice : Type 0 where
  in_time late late_in_lock fails : Choice

abbrev pub init : ℕ → Receipts
init concurrency = record {
  capacity = max 1 concurrency;
  closed = false;
  reader_done = false;
  waiters = 0;
  receipts = λ _. none;
  slot = λ _. none;
  pc = λ _. idle;
}

-- `_offer_receipt`.
abbrev pub offer : Reply → Option Reply → Option Reply
offer r none = some r
offer r (some s) = some s

pub data Action : Type 0 where
  call : ℕ → Choice → Action
  emits : ℕ → Action
  eof closes wakes : Action

abbrev pub refuse : ℕ → Outcome → Receipts → Receipts
refuse k o w = record w { pc = update w.pc k (finished o) }

-- Whether the time that is left is looked at, once the line is written.
is_late : Choice → Bool
is_late late = true
is_late late_in_lock = true
is_late _ = false

-- A terminal for an id reaches the queue that is registered for it.
deliver : Option ℕ → Receipts → Receipts
deliver none w = w
deliver (some k) w = record w { slot = update w.slot k (offer cancelled (w.slot k)) }

is_call : ℕ → Option ℕ → Bool
is_call k none = false
is_call k (some j) = j == k

module _ (id_of : ℕ → ℕ) where
  -- The `finally` of a call, which takes the entry of its id from the table, whose ever it is.
  abbrev pub unregister : ℕ → Outcome → Receipts → Receipts
  unregister k o w = record w {
    receipts = update w.receipts (id_of k) none;
    waiters = w.waiters - 1;
    pc = update w.pc k (finished o);
  }

  admit : ℕ → Receipts → Receipts
  admit k w =
      if w.closed
      then refuse k exited w
      else if is_some (w.receipts (id_of k))
      then refuse k duplicate w
      else if leb w.capacity w.waiters
      then refuse k at_capacity w
      else record w {
        receipts = update w.receipts (id_of k) (some k);
        waiters = suc w.waiters;
        slot = update w.slot k none;
        pc = update w.pc k admitted;
      }

  write_cancel : ℕ → Choice → Receipts → Receipts
  write_cancel k late w = unregister k timed_out w
  write_cancel k late_in_lock w = unregister k (if w.closed then exited else timed_out) w
  write_cancel k fails w = unregister k (if w.closed then exited else write_failed) w
  write_cancel k in_time w =
      if w.closed then unregister k exited w else record w { pc = update w.pc k written }

  take_reply : ℕ → Option Reply → Receipts → Receipts
  take_reply k none w = w
  take_reply k (some worker_exit) w = unregister k exited w
  take_reply k (some cancelled) w = unregister k received w

  pub step : Pc → ℕ → Choice → Receipts → Receipts
  unfolding admit write_cancel is_late take_reply
  step idle k ch w = admit k w
  step admitted k ch w = write_cancel k ch w
  step written k ch w =
      if is_late ch then unregister k timed_out w else record w { pc = update w.pc k waiting }
  step waiting k ch w = if is_late ch then unregister k timed_out w else take_reply k (w.slot k) w
  step (finished o) k ch w = w

  abbrev pub wake_all : Receipts → Receipts
  unfolding is_call
  wake_all w = record w {
    slot = λ k. if is_call k (w.receipts (id_of k)) then offer worker_exit (w.slot k) else w.slot k;
    receipts = λ _. none;
  }

  pub act : Action → Receipts → Receipts
  unfolding step deliver
  act (call k ch) w = step (w.pc k) k ch w
  act (emits i) w = if w.reader_done then w else deliver (w.receipts i) w
  act eof w = if w.reader_done then w else record (wake_all w) { reader_done = true }
  act closes w = record w { closed = true }
  act wakes w = if w.closed then wake_all w else w

  unfoldable pub run : List Action → Receipts → Receipts
  unfolding act
  run [] w = w
  run (a ∷ as') w = run as' (act a w)
