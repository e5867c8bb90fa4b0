-- ===== src/Backends/WorkerIo/Tokens.antt =====
-- No token of the semaphore is lost or returned twice.
use voxedge.Base.{
  ℕ, zero, suc, ◌+◌, ◌-◌, max, ◌<◌, ◌≡◌, refl, Bool, true, false, List, [], ◌∷◌, arith, All,
  if_intro, ◌==◌,
}
use voxedge.Backends.WorkerIo.Family.{update, one_if, count_below, count_below-update}
use voxedge.Backends.WorkerIo.{
  Event, progress, done, cancelled, worker_exit, Outcome, Pc, idle, acquiring, admitted, checked,
  registered, reading, finished, not_started, dropped, exited, WorkerIo, Choice, goes, gives_up,
  raises, drops, init, leave, blocked, acquire, start, register, write, take_event, read, advance,
  dispatch, cancel, Action, request, emits, eof, closes, wakes, cancels, act, run,
}

-- Whether a request has a token.
abbrev pub holds : Pc → Bool
holds admitted = true
holds checked = true
holds registered = true
holds reading = true
holds _ = false

-- Only the first `n` numbers are ids.
abbrev pub Below : ℕ → Action → Type 0
Below n (request i ch) = i < n
Below n _ = Unit

-- The requests with a token.
abbrev pub in_flight : ℕ → WorkerIo → ℕ
in_flight n w = count_below holds n w.pc

module _ (n total : ℕ) where
  abbrev Tokens : WorkerIo → Type 0
  Tokens w = w.sem + in_flight n w ≡ total

  -- A request that goes from one place to another, with the tokens then.
  moved :
      (w : WorkerIo) (i sem : ℕ) (p q : Pc)
      → i < n
      → w.pc i ≡ p
      → sem + one_if (holds q) ≡ w.sem + one_if (holds p)
      → Tokens w
      → sem + count_below holds n (update w.pc i q) ≡ total
  moved w i sem p q l e b t =
      let c : count_below holds n (update w.pc i q) + one_if (holds p)
          ≡ in_flight n w + one_if (holds q) =
        rw e at (count_below-update {A = Pc} holds n w.pc i q l) in
      omega (arith, b, t, c)

  leave-Tokens :
      (w : WorkerIo) (i : ℕ) (p : Pc) (o : Outcome)
      → i < n
      → w.pc i ≡ p
      → holds p ≡ true
      → Tokens w
      → Tokens (leave i o w)
  leave-Tokens w i p o l e h t = moved w i (suc w.sem) p (finished o) l e (rw h (omega arith)) t

  take_event-Tokens :
      (w : WorkerIo) (i : ℕ) (ch : Choice) (es : List Event)
      → i < n
      → w.pc i ≡ reading
      → Tokens w
      → Tokens (take_event i ch es w)
  unfolding take_event
  take_event-Tokens w i ch (worker_exit ∷ es) l e t = leave-Tokens w i reading _ l e refl t
  take_event-Tokens w i ch (progress ∷ es) l e t = t
  take_event-Tokens w i ch (done ∷ es) l e t = leave-Tokens w i reading _ l e refl t
  take_event-Tokens w i ch (cancelled ∷ es) l e t = leave-Tokens w i reading _ l e refl t
  take_event-Tokens w i raises [] l e t = leave-Tokens w i reading _ l e refl t
  take_event-Tokens w i goes [] l e t = t
  take_event-Tokens w i gives_up [] l e t = t
  take_event-Tokens w i drops [] l e t = t

  written :
      (w : WorkerIo) (i : ℕ) → i < n → w.pc i ≡ registered → Tokens w → Tokens (write i goes w)
  unfolding write
  written w i l e t =
      if_intro Tokens w.closed _ _ (λ _. leave-Tokens w i registered exited l e refl t)
        (λ _. moved w i w.sem registered reading l e refl t)

  started : (w : WorkerIo) (i : ℕ) → i < n → w.pc i ≡ admitted → Tokens w → Tokens (start i goes w)
  unfolding start
  started w i l e t =
      if_intro Tokens w.closed _ _ (λ _. leave-Tokens w i admitted exited l e refl t)
        (λ _. moved w i w.sem admitted checked l e refl t)

  blocked-Tokens :
      (w : WorkerIo) (i : ℕ) (ch : Choice)
      → i < n
      → w.pc i ≡ acquiring
      → Tokens w
      → Tokens (blocked i ch w)
  unfolding blocked
  blocked-Tokens w i gives_up l e t = moved w i w.sem acquiring (finished not_started) l e refl t
  blocked-Tokens w i goes l e t = t
  blocked-Tokens w i raises l e t = t
  blocked-Tokens w i drops l e t = t

  read-Tokens :
      (w : WorkerIo) (i : ℕ) (ch : Choice)
      → i < n
      → w.pc i ≡ reading
      → Tokens w
      → Tokens (read i ch w)
  unfolding read
  read-Tokens w i drops l e t = leave-Tokens w i reading dropped l e refl t
  read-Tokens w i goes l e t = take_event-Tokens w i goes (w.queue i) l e t
  read-Tokens w i gives_up l e t = take_event-Tokens w i gives_up (w.queue i) l e t
  read-Tokens w i raises l e t = take_event-Tokens w i raises (w.queue i) l e t

  write-Tokens :
      (w : WorkerIo) (i : ℕ) (ch : Choice)
      → i < n
      → w.pc i ≡ registered
      → Tokens w
      → Tokens (write i ch w)
  unfolding write
  write-Tokens w i raises l e t = leave-Tokens w i registered _ l e refl t
  write-Tokens w i goes l e t = written w i l e t
  write-Tokens w i gives_up l e t = written w i l e t
  write-Tokens w i drops l e t = written w i l e t

  start-Tokens :
      (w : WorkerIo) (i : ℕ) (ch : Choice)
      → i < n
      → w.pc i ≡ admitted
      → Tokens w
      → Tokens (start i ch w)
  unfolding start
  start-Tokens w i gives_up l e t = leave-Tokens w i admitted _ l e refl t
  start-Tokens w i goes l e t = started w i l e t
  start-Tokens w i raises l e t = started w i l e t
  start-Tokens w i drops l e t = started w i l e t

  acquire-Tokens :
      (w : WorkerIo) (i : ℕ) (ch : Choice)
      → i < n
      → w.pc i ≡ acquiring
      → Tokens w
      → Tokens (acquire i ch w)
  unfolding acquire
  acquire-Tokens w i ch l e t =
      if_intro Tokens (w.sem == 0) _ _ (λ _. blocked-Tokens w i ch l e t)
        (λ f. moved w i (w.sem - 1) acquiring admitted l e (ground (arith, f)) t)

  advance-Tokens :
      (w : WorkerIo) (p : Pc) (i : ℕ) (ch : Choice)
      → i < n
      → w.pc i ≡ p
      → Tokens w
      → Tokens (advance p i ch w)
  unfolding advance register
  advance-Tokens w idle i ch l e t = moved w i w.sem idle acquiring l e refl t
  advance-Tokens w acquiring i ch l e t = acquire-Tokens w i ch l e t
  advance-Tokens w admitted i ch l e t = start-Tokens w i ch l e t
  advance-Tokens w checked i ch l e t = moved w i w.sem checked registered l e refl t
  advance-Tokens w registered i ch l e t = write-Tokens w i ch l e t
  advance-Tokens w reading i ch l e t = read-Tokens w i ch l e t
  advance-Tokens w (finished o) i ch l e t = t

  act-Tokens : (a : Action) (w : WorkerIo) → Below n a → Tokens w → Tokens (act a w)
  unfolding act dispatch cancel
  act-Tokens (request i ch) w l t = advance-Tokens w (w.pc i) i ch l refl t
  act-Tokens (emits i e) w l t =
      if_intro Tokens w.reader_done w _ (λ _. t)
        (λ _. if_intro Tokens (w.inflight i) _ w (λ _. t) (λ _. t))
  act-Tokens eof w l t = if_intro Tokens w.reader_done w _ (λ _. t) (λ _. t)
  act-Tokens closes w l t = t
  act-Tokens wakes w l t = if_intro Tokens w.closed _ w (λ _. t) (λ _. t)
  act-Tokens (cancels i) w l t = if_intro Tokens w.closed w _ (λ _. t) (λ _. t)

  run-Tokens :
      (as' : List Action) (w : WorkerIo) → All (Below n) as' → Tokens w → Tokens (run as' w)
  unfolding run
  run-Tokens [] w l t = t
  run-Tokens (a ∷ as') w l t = run-Tokens as' (act a w) l.1 (act-Tokens a w l.0 t)

none_hold : (n : ℕ) → count_below holds n (λ _. idle) ≡ 0
unfolding count_below
none_hold zero = refl
none_hold (suc n) = omega (arith, none_hold n)

-- From a new worker for `c` requests at once, after any actions in any order on ids below `n`: the free
-- tokens and the requests that hold one are as many as the tokens were. So at most that many requests
-- are between the semaphore and their end, and one that has ended has returned its token once.
pub run-tokens :
    (n c : ℕ) (as' : List Action)
    → All (Below n) as'
    → (run as' (init c)).sem + in_flight n (run as' (init c)) ≡ max 1 c
run-tokens n c as' l = run-Tokens n (max 1 c) as' (init c) l (omega (arith, none_hold n))
