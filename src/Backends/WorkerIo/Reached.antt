-- ===== src/Backends/WorkerIo/Reached.antt =====
-- Every request that waits is reached by the exit: the steps of the requests.
use voxedge.Base.{
  ℕ, ◌≡◌, refl, Bool, true, false, ◌||◌, List, [], ◌∷◌, ◌++◌, arith, any, not, ◌&&◌, if_intro,
  Bool-cases, inl, inr, ◌==◌, if◌then◌else◌,
}
use mathlib.Core.Path.{subst}
use voxedge.Backends.WorkerIo.Family.{update}
use voxedge.Backends.WorkerIo.{
  Event, progress, done, cancelled, worker_exit, Outcome, exited, completed, timed_out,
  write_failed, not_started, dropped, Pc, idle, acquiring, admitted, checked, registered, reading,
  finished, WorkerIo, Choice, goes, gives_up, raises, drops, leave, blocked, acquire, start,
  register, write, take_event, read, advance,
}

abbrev pub is_exit : Event → Bool
is_exit worker_exit = true
is_exit _ = false

-- Whether a request that waits is reached: the reader knows its queue, or the queue tells it to exit.
-- Before its line is written, it is enough that `close` has been there, since it tests `_closed` again.
abbrev pub is_reached : Bool → Bool → List Event → Pc → Bool
is_reached woken inflight es registered = inflight || (woken || any is_exit es)
is_reached woken inflight es reading = (not woken && inflight) || any is_exit es
is_reached woken inflight es _ = true

abbrev pub AreReached : WorkerIo → Type 0
AreReached w = (j : ℕ) → is_reached w.woken (w.inflight j) (w.queue j) (w.pc j) ≡ true

-- `close` empties the table after it has set its flag.
abbrev pub IsOrdered : WorkerIo → Type 0
IsOrdered w = w.woken ≡ true → w.closed ≡ true

pub exit-append :
    (es : List Event) (e : Event) → any is_exit es ≡ true → any is_exit (es ++ (e ∷ [])) ≡ true
exit-append [] e h = absurd (cc h)
exit-append (d ∷ es) e h = ground (arith, h, exit-append es e)

exit-last : (es : List Event) → any is_exit (es ++ (worker_exit ∷ [])) ≡ true
exit-last [] = refl
exit-last (progress ∷ es) = exit-last es
exit-last (done ∷ es) = exit-last es
exit-last (cancelled ∷ es) = exit-last es
exit-last (worker_exit ∷ es) = refl

-- One more event keeps a request reached, and the exit for those that are registered does so too.
pub one_more :
    (woken inflight : Bool) (es : List Event) (e : Event) (p : Pc)
    → is_reached woken inflight es p ≡ true
    → is_reached woken inflight (es ++ (e ∷ [])) p ≡ true
one_more woken inflight es e registered h = ground (arith, h, exit-append es e)
one_more woken inflight es e reading h = ground (arith, h, exit-append es e)
one_more woken inflight es e idle h = refl
one_more woken inflight es e acquiring h = refl
one_more woken inflight es e admitted h = refl
one_more woken inflight es e checked h = refl
one_more woken inflight es e (finished o) h = refl

pub told :
    (woken woken' inflight : Bool) (es : List Event) (p : Pc)
    → (woken ≡ true → woken' ≡ true)
    → is_reached woken inflight es p ≡ true
    → is_reached woken' false (if inflight then es ++ (worker_exit ∷ []) else es) p ≡ true
told woken woken' true es registered k h = ground (arith, exit-last es)
told woken woken' false es registered k h = ground (arith, h, k)
told woken woken' true es reading k h = ground (arith, exit-last es)
told woken woken' false es reading k h = ground (arith, h)
told woken woken' inflight es idle k h = refl
told woken woken' inflight es acquiring k h = refl
told woken woken' inflight es admitted k h = refl
told woken woken' inflight es checked k h = refl
told woken woken' inflight es (finished o) k h = refl

-- Where one request goes on, the others are as they were.
moved :
    (w : WorkerIo) (i : ℕ) (inflight : ℕ → Bool) (queue : ℕ → List Event) (p : Pc)
    → ((j : ℕ) → (i == j) ≡ false → (inflight j ≡ w.inflight j) × (queue j ≡ w.queue j))
    → is_reached w.woken (inflight i) (queue i) p ≡ true
    → AreReached w
    → (j : ℕ) → is_reached w.woken (inflight j) (queue j) (update w.pc i p j) ≡ true
moved w i inflight queue p same here h j = elim (Bool-cases (i == j)) [
  | inl e ↦
      let q : i ≡ j = ground (arith, e) in
      rw e (subst (λ k. is_reached w.woken (inflight k) (queue k) p ≡ true) (q) here)
  | inr f ↦ rw (f, (same j f).0, (same j f).1) (h j)
]

others : (f : ℕ → Bool) (i j : ℕ) (b : Bool) → (i == j) ≡ false → update f i b j ≡ f j
others f i j b e = rw e refl

leave-Reached : (w : WorkerIo) (i : ℕ) (o : Outcome) → AreReached w → AreReached (leave i o w)
leave-Reached w i o h =
    moved w i (update w.inflight i false) w.queue (finished o)
      (λ j e. (others w.inflight i j false e, refl)) refl h

-- A request that goes on with its tables as they are.
stepped :
    (w : WorkerIo) (i : ℕ) (p : Pc)
    → is_reached w.woken (w.inflight i) (w.queue i) p ≡ true
    → AreReached w
    → (j : ℕ) → is_reached w.woken (w.inflight j) (w.queue j) (update w.pc i p j) ≡ true
stepped w i p here h = moved w i w.inflight w.queue p (λ j e. (refl, refl)) here h

consumed :
    (w : WorkerIo) (i : ℕ) (es : List Event)
    → w.queue i ≡ progress ∷ es
    → w.pc i ≡ reading
    → AreReached w
    → AreReached (record w { queue = update w.queue i es })
consumed w i es q p h j = elim (Bool-cases (i == j)) [
  | inl e ↦
      let k : i ≡ j = ground (arith, e) in
      rw e (
        subst (λ k. is_reached w.woken (w.inflight k) es (w.pc k) ≡ true) (k)
          (rw p (rw (q, p) at (h i))))
  | inr f ↦ rw f (h j)
]

take_event-Reached :
    (w : WorkerIo) (i : ℕ) (ch : Choice) (es : List Event)
    → w.queue i ≡ es
    → w.pc i ≡ reading
    → AreReached w
    → AreReached (take_event i ch es w)
unfolding take_event
take_event-Reached w i ch (worker_exit ∷ es) q p h = leave-Reached w i exited h
take_event-Reached w i ch (progress ∷ es) q p h = consumed w i es q p h
take_event-Reached w i ch (done ∷ es) q p h = leave-Reached w i completed h
take_event-Reached w i ch (cancelled ∷ es) q p h = leave-Reached w i completed h
take_event-Reached w i raises [] q p h = leave-Reached w i timed_out h
take_event-Reached w i goes [] q p h = h
take_event-Reached w i gives_up [] q p h = h
take_event-Reached w i drops [] q p h = h

read-Reached :
    (w : WorkerIo) (i : ℕ) (ch : Choice)
    → w.pc i ≡ reading
    → AreReached w
    → AreReached (read i ch w)
unfolding read
read-Reached w i drops p h = leave-Reached w i dropped h
read-Reached w i goes p h = take_event-Reached w i goes (w.queue i) refl p h
read-Reached w i gives_up p h = take_event-Reached w i gives_up (w.queue i) refl p h
read-Reached w i raises p h = take_event-Reached w i raises (w.queue i) refl p h

-- A line is written only where `close` has not emptied the table.
not_woken :
    (woken inflight : Bool) (es : List Event)
    → woken ≡ false
    → is_reached woken inflight es registered ≡ true
    → is_reached woken inflight es reading ≡ true
not_woken false inflight es e h = h
not_woken true inflight es e h = absurd (cc e)

written :
    (w : WorkerIo) (i : ℕ)
    → w.pc i ≡ registered
    → IsOrdered w
    → AreReached w
    → AreReached (write i goes w)
unfolding write
written w i p o h =
    if_intro AreReached w.closed _ _ (λ _. leave-Reached w i exited h)
      (λ e.
        stepped w i reading
          (not_woken w.woken (w.inflight i) (w.queue i) (open_not_woken w.woken e o)
            (rw p at (h i)))
          h)
  where
    open_not_woken :
        (woken : Bool) → w.closed ≡ false → (woken ≡ true → w.closed ≡ true) → woken ≡ false
    open_not_woken false e o = refl
    open_not_woken true e o = absurd (cc (e, o refl))

write-Reached :
    (w : WorkerIo) (i : ℕ) (ch : Choice)
    → w.pc i ≡ registered
    → IsOrdered w
    → AreReached w
    → AreReached (write i ch w)
unfolding write
write-Reached w i raises p o h = leave-Reached w i (if w.closed then exited else write_failed) h
write-Reached w i goes p o h = written w i p o h
write-Reached w i gives_up p o h = written w i p o h
write-Reached w i drops p o h = written w i p o h

started : (w : WorkerIo) (i : ℕ) → AreReached w → AreReached (start i goes w)
unfolding start
started w i h =
    if_intro AreReached w.closed _ _ (λ _. stepped w i (finished exited) refl h)
      (λ _. stepped w i checked refl h)

start-Reached : (w : WorkerIo) (i : ℕ) (ch : Choice) → AreReached w → AreReached (start i ch w)
unfolding start
start-Reached w i gives_up h =
    stepped w i (finished (if w.closed then exited else not_started)) refl h
start-Reached w i goes h = started w i h
start-Reached w i raises h = started w i h
start-Reached w i drops h = started w i h

acquire-Reached : (w : WorkerIo) (i : ℕ) (ch : Choice) → AreReached w → AreReached (acquire i ch w)
unfolding acquire blocked
acquire-Reached w i gives_up h =
    if_intro AreReached (w.sem == 0) _ _ (λ _. stepped w i (finished not_started) refl h)
      (λ _. stepped w i admitted refl h)
acquire-Reached w i goes h =
    if_intro AreReached (w.sem == 0) _ _ (λ _. h) (λ _. stepped w i admitted refl h)
acquire-Reached w i raises h =
    if_intro AreReached (w.sem == 0) _ _ (λ _. h) (λ _. stepped w i admitted refl h)
acquire-Reached w i drops h =
    if_intro AreReached (w.sem == 0) _ _ (λ _. h) (λ _. stepped w i admitted refl h)

pub advance-Reached :
    (w : WorkerIo) (p : Pc) (i : ℕ) (ch : Choice)
    → w.pc i ≡ p
    → IsOrdered w
    → AreReached w
    → AreReached (advance p i ch w)
unfolding advance register
advance-Reached w idle i ch p o h = stepped w i acquiring refl h
advance-Reached w acquiring i ch p o h = acquire-Reached w i ch h
advance-Reached w admitted i ch p o h = start-Reached w i ch h
advance-Reached w checked i ch p o h =
    moved w i (update w.inflight i true) (update w.queue i []) registered
      (λ j e. (others w.inflight i j true e, rw e refl)) (ground (arith)) h
advance-Reached w registered i ch p o h = write-Reached w i ch p o h
advance-Reached w reading i ch p o h = read-Reached w i ch p h
advance-Reached w (finished r) i ch p o h = h
