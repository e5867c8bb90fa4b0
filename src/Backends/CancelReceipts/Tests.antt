-- ===== src/Backends/CancelReceipts/Tests.antt =====
-- cancel_and_wait at concrete histories, where every call is for the id 5.
use voxedge.Base.{ℕ, ◌≤◌, ◌≡◌, refl, true, none, max, List, [], ◌∷◌, arith}
use voxedge.Backends.CancelReceipts.{
  exited, duplicate, waiting, finished, in_time, init, Action, call, emits, eof, closes, wakes, run,
  admit, write_cancel, is_late, take_reply, step, deliver, is_call, wake_all, act,
}
use voxedge.Backends.CancelReceipts.Emitted.{emitted, receipt-emitted}
use voxedge.Backends.CancelReceipts.Capacity.{active, run-capacity}

abbrev five : ℕ → ℕ
five k = 5

abbrev answered : List Action
answered =
    emits 5
    ∷ call 0 in_time
    ∷ call 0 in_time
    ∷ call 1 in_time
    ∷ call 0 in_time
    ∷ emits 4
    ∷ emits 5
    ∷ call 0 in_time
    ∷ []

second_refused : (run five answered (init 2)).pc 1 ≡ finished duplicate
unfolding run act step admit write_cancel is_late take_reply deliver
second_refused = refl

-- The reader's end empties the table, so a second call for the id is admitted; the first call's `finally`
-- then takes the second's entry, and `close` does not wake the second.
abbrev entry_taken : List Action
entry_taken =
    call 0 in_time
    ∷ call 0 in_time
    ∷ call 0 in_time
    ∷ eof
    ∷ call 1 in_time
    ∷ call 1 in_time
    ∷ call 1 in_time
    ∷ call 0 in_time
    ∷ closes
    ∷ wakes
    ∷ call 1 in_time
    ∷ []

not_woken :
    ((run five entry_taken (init 2)).pc 0 ≡ finished exited)
    × (((run five entry_taken (init 2)).pc 1 ≡ waiting)
        × ((run five entry_taken (init 2)).slot 1 ≡ none))
unfolding run act step admit write_cancel is_late take_reply deliver wake_all is_call
not_woken = (refl, (refl, refl))

receipt-emitted_example : emitted answered 5 ≡ true
unfolding run act step admit write_cancel is_late take_reply deliver
receipt-emitted_example = receipt-emitted five 2 0 answered refl

run-capacity_example :
    let w = run five answered (init 2) in (w.waiters ≡ active 2 w) × (active 2 w ≤ max 1 2)
run-capacity_example =
    run-capacity five 2 2 answered (
      tt,
      (omega arith, (omega arith, (omega arith, (omega arith, (tt, (tt, (omega arith, tt))))))),
    )
