-- ===== src/Backends/CancelReceipts/Capacity.antt =====
-- The calls that wait at once.
use voxedge.Base.{
  is_some, ℕ, zero, suc, ◌+◌, ◌-◌, max, ◌≤◌, ◌<◌, ◌≡◌, refl, Bool, true, false, Option, none, some,
  List, [], ◌∷◌, arith, All, if_intro, leb,
}
use voxedge.Backends.WorkerIo.Family.{update, one_if, count_below, count_below-update}
use voxedge.Backends.CancelReceipts.{
  Reply, cancelled, worker_exit, Outcome, received, exited, duplicate, at_capacity, timed_out, Pc,
  idle, admitted, written, waiting, finished, Receipts, Choice, in_time, late, late_in_lock, fails,
  init, Action, call, emits, eof, closes, wakes, unregister, admit, write_cancel, is_late,
  take_reply, step, deliver, wake_all, act, run,
}

-- Whether a call is between its admission and its end.
abbrev pub is_active : Pc → Bool
is_active admitted = true
is_active written = true
is_active waiting = true
is_active _ = false

-- Only the first `n` numbers are calls.
abbrev pub Below : ℕ → Action → Type 0
Below n (call k ch) = k < n
Below n _ = Unit

abbrev pub active : ℕ → Receipts → ℕ
active n w = count_below is_active n w.pc

module _ (id_of : ℕ → ℕ) (n total : ℕ) where
  abbrev Counted : Receipts → Type 0
  Counted w = (w.waiters ≡ active n w) × ((w.waiters ≤ w.capacity) × (w.capacity ≡ total))

  moved :
      (w : Receipts) (k waiters : ℕ) (p q : Pc)
      → k < n
      → w.pc k ≡ p
      → waiters + one_if (is_active p) ≡ w.waiters + one_if (is_active q)
      → w.waiters ≡ active n w
      → waiters ≡ count_below is_active n (update w.pc k q)
  moved w k waiters p q l e b t =
      let c : count_below is_active n (update w.pc k q) + one_if (is_active p)
          ≡ active n w + one_if (is_active q) =
        rw e at (count_below-update {A = Pc} is_active n w.pc k q l) in
      omega (arith, b, t, c)

  -- A call that is active is counted.
  some_active :
      (w : Receipts) (k : ℕ) (p : Pc) → k < n → w.pc k ≡ p → is_active p ≡ true → 1 ≤ active n w
  some_active w k p l e a =
      let c : count_below is_active n (update w.pc k idle) + one_if (is_active p)
          ≡ active n w + one_if (is_active idle) =
        rw e at (count_below-update {A = Pc} is_active n w.pc k idle l) in
      let d : count_below is_active n (update w.pc k idle) + 1 ≡ active n w + 0 = rw a at c in
      omega (arith, d)

  unregistered :
      (w : Receipts) (k : ℕ) (p : Pc) (o : Outcome)
      → k < n
      → w.pc k ≡ p
      → is_active p ≡ true
      → Counted w
      → Counted (unregister id_of k o w)
  unregistered w k p o l e a t =
      let s = some_active w k p l e a in
      let b : (w.waiters - 1) + 1 ≡ w.waiters + 0 = omega (arith, s, t.0) in
      (moved w k (w.waiters - 1) p (finished o) l e (rw a b) t.0, (omega (arith, t.1.0), t.1.1))

  gone_on :
      (w : Receipts) (k : ℕ) (p q : Pc)
      → k < n
      → w.pc k ≡ p
      → is_active p ≡ is_active q
      → Counted w
      → Counted (record w { pc = update w.pc k q })
  gone_on w k p q l e a t = (moved w k w.waiters p q l e (rw a refl) t.0, t.1)

  admit-Counted :
      (w : Receipts) (k : ℕ) → k < n → w.pc k ≡ idle → Counted w → Counted (admit id_of k w)
  unfolding admit
  admit-Counted w k l e t =
      if_intro Counted w.closed _ _ (λ _. gone_on w k idle (finished exited) l e refl t)
        (λ _.
          if_intro Counted (is_some (w.receipts (id_of k))) _ _
            (λ _. gone_on w k idle (finished duplicate) l e refl t)
            (λ _.
              if_intro Counted (leb w.capacity w.waiters) _ _
                (λ _. gone_on w k idle (finished at_capacity) l e refl t)
                (λ f. (
                  moved w k (suc w.waiters) idle admitted l e (omega arith) t.0,
                  (ground (arith, f), t.1.1),
                ))))

  write_cancel-Counted :
      (w : Receipts) (k : ℕ) (ch : Choice)
      → k < n
      → w.pc k ≡ admitted
      → Counted w
      → Counted (write_cancel id_of k ch w)
  unfolding write_cancel
  write_cancel-Counted w k late l e t = unregistered w k admitted _ l e refl t
  write_cancel-Counted w k late_in_lock l e t = unregistered w k admitted _ l e refl t
  write_cancel-Counted w k fails l e t = unregistered w k admitted _ l e refl t
  write_cancel-Counted w k in_time l e t =
      if_intro Counted w.closed _ _ (λ _. unregistered w k admitted exited l e refl t)
        (λ _. gone_on w k admitted written l e refl t)

  take_reply-Counted :
      (w : Receipts) (k : ℕ) (s : Option Reply)
      → k < n
      → w.pc k ≡ waiting
      → Counted w
      → Counted (take_reply id_of k s w)
  unfolding take_reply
  take_reply-Counted w k none l e t = t
  take_reply-Counted w k (some worker_exit) l e t = unregistered w k waiting exited l e refl t
  take_reply-Counted w k (some cancelled) l e t = unregistered w k waiting received l e refl t

  step-Counted :
      (w : Receipts) (p : Pc) (k : ℕ) (ch : Choice)
      → k < n
      → w.pc k ≡ p
      → Counted w
      → Counted (step id_of p k ch w)
  unfolding step
  step-Counted w idle k ch l e t = admit-Counted w k l e t
  step-Counted w admitted k ch l e t = write_cancel-Counted w k ch l e t
  step-Counted w written k ch l e t =
      if_intro Counted (is_late ch) _ _ (λ _. unregistered w k written timed_out l e refl t)
        (λ _. gone_on w k written waiting l e refl t)
  step-Counted w waiting k ch l e t =
      if_intro Counted (is_late ch) _ _ (λ _. unregistered w k waiting timed_out l e refl t)
        (λ _. take_reply-Counted w k (w.slot k) l e t)
  step-Counted w (finished o) k ch l e t = t

  deliver-Counted : (r : Option ℕ) (w : Receipts) → Counted w → Counted (deliver r w)
  unfolding deliver
  deliver-Counted none w t = t
  deliver-Counted (some k) w t = t

  act-Counted : (a : Action) (w : Receipts) → Below n a → Counted w → Counted (act id_of a w)
  unfolding act wake_all
  act-Counted (call k ch) w l t = step-Counted w (w.pc k) k ch l refl t
  act-Counted (emits i) w l t =
      if_intro Counted w.reader_done w _ (λ _. t) (λ _. deliver-Counted (w.receipts i) w t)
  act-Counted eof w l t = if_intro Counted w.reader_done w _ (λ _. t) (λ _. t)
  act-Counted closes w l t = t
  act-Counted wakes w l t = if_intro Counted w.closed _ w (λ _. t) (λ _. t)

  run-Counted :
      (as' : List Action) (w : Receipts) → All (Below n) as' → Counted w → Counted (run id_of as' w)
  unfolding run
  run-Counted [] w l t = t
  run-Counted (a ∷ as') w l t = run-Counted as' (act id_of a w) l.1 (act-Counted a w l.0 t)

none_active : (n : ℕ) → count_below is_active n (λ _. idle) ≡ 0
unfolding count_below
none_active zero = refl
none_active (suc n) = omega (arith, none_active n)

-- From a new worker for `c` requests at once, after any actions in any order on calls below `n`: the
-- counter of waiters is the number of calls between admission and end, and at most `max 1 c` are.
pub run-capacity :
    (id_of : ℕ → ℕ) (n c : ℕ) (as' : List Action)
    → All (Below n) as'
    → let w = run id_of as' (init c) in (w.waiters ≡ active n w) × (active n w ≤ max 1 c)
run-capacity id_of n c as' l =
    let t =
      run-Counted id_of n (max 1 c) as' (init c) l
        (omega (arith, none_active n), (omega arith, refl)) in
    (t.0, omega (arith, t.0, t.1.0, t.1.1))
