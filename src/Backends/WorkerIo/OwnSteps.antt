-- ===== src/Backends/WorkerIo/OwnSteps.antt =====
-- What the steps of one request do to it once `_closed` is set.
use voxedge.Base.{
  ℕ, zero, suc, ◌≡◌, refl, Bool, true, false, List, [], ◌∷◌, ◌++◌, length, arith, any, ltb, ◌==◌,
  if◌then◌else◌,
}
use voxedge.Backends.WorkerIo.Family.{update}
use voxedge.Backends.WorkerIo.Reached.{is_exit}
use voxedge.Backends.WorkerIo.{
  Event, progress, done, cancelled, worker_exit, Outcome, exited, completed, dropped, Pc, idle,
  acquiring, admitted, checked, registered, reading, finished, WorkerIo, Choice, goes, gives_up,
  raises, drops, release, leave, start, register, write, take_event, read, advance,
}

-- Whether the exit is among the first events.
unfoldable pub exits_within : ℕ → List Event → Bool
exits_within zero es = false
exits_within (suc n) [] = false
exits_within (suc n) (worker_exit ∷ es) = true
exits_within (suc n) (e ∷ es) = exits_within n es

-- Whether that many steps end a request once `_closed` is set.
unfoldable pub ends_within : ℕ → List Event → Pc → Bool
unfolding exits_within
ends_within n es admitted = ltb 0 n
ends_within n es checked = ltb 1 n
ends_within n es registered = ltb 0 n
ends_within n es reading = exits_within n es
ends_within n es (finished o) = true
ends_within n es idle = false
ends_within n es acquiring = false

exits_within-append :
    (n : ℕ) (es : List Event) (e : Event)
    → exits_within n es ≡ true
    → exits_within n (es ++ (e ∷ [])) ≡ true
unfolding exits_within
exits_within-append zero es e h = absurd (cc h)
exits_within-append (suc n) [] e h = absurd (cc h)
exits_within-append (suc n) (worker_exit ∷ es) e h = refl
exits_within-append (suc n) (progress ∷ es) e h = exits_within-append n es e h
exits_within-append (suc n) (done ∷ es) e h = exits_within-append n es e h
exits_within-append (suc n) (cancelled ∷ es) e h = exits_within-append n es e h

pub ends_within-append :
    (n : ℕ) (es : List Event) (e : Event) (p : Pc)
    → ends_within n es p ≡ true
    → ends_within n (es ++ (e ∷ [])) p ≡ true
unfolding ends_within
ends_within-append n es e idle h = absurd (cc h)
ends_within-append n es e acquiring h = absurd (cc h)
ends_within-append n es e admitted h = h
ends_within-append n es e checked h = h
ends_within-append n es e registered h = h
ends_within-append n es e reading h = exits_within-append n es e h
ends_within-append n es e (finished o) h = refl

pub exits_within-length :
    (es : List Event) → any is_exit es ≡ true → exits_within (length es) es ≡ true
unfolding exits_within
exits_within-length [] h = absurd (cc h)
exits_within-length (worker_exit ∷ es) h = refl
exits_within-length (progress ∷ es) h = exits_within-length es h
exits_within-length (done ∷ es) h = exits_within-length es h
exits_within-length (cancelled ∷ es) h = exits_within-length es h

pub exits_within-more :
    (n : ℕ) (es : List Event) → exits_within n es ≡ true → exits_within (suc n) es ≡ true
unfolding exits_within
exits_within-more zero es h = absurd (cc h)
exits_within-more (suc n) [] h = absurd (cc h)
exits_within-more (suc n) (worker_exit ∷ es) h = refl
exits_within-more (suc n) (progress ∷ es) h = exits_within-more n es h
exits_within-more (suc n) (done ∷ es) h = exits_within-more n es h
exits_within-more (suc n) (cancelled ∷ es) h = exits_within-more n es h

module _ (i : ℕ) where
  -- The worker is closed and the request ends within that many steps of its own.
  unfoldable pub Ending : ℕ → WorkerIo → Type 0
  Ending n w = (w.closed ≡ true) × (ends_within n (w.queue i) (w.pc i) ≡ true)

  self : (i == i) ≡ true
  self = ground arith

  -- Where the request goes.
  own :
      (n : ℕ) (w : WorkerIo) (es : List Event) (p : Pc)
      → ends_within n es p ≡ true
      → ends_within n es (update w.pc i p i) ≡ true
  own n w es p h = rw self h

  over : (n : ℕ) (w : WorkerIo) (o : Outcome) → w.closed ≡ true → Ending n (leave i o w)
  unfolding Ending ends_within
  over n w o c = (c, own n w (w.queue i) (finished o) refl)

  released : (n : ℕ) (w : WorkerIo) (o : Outcome) → w.closed ≡ true → Ending n (release i o w)
  unfolding Ending ends_within
  released n w o c = (c, own n w (w.queue i) (finished o) refl)

  closed_if :
      (n : ℕ) (w w₁ w₂ : WorkerIo)
      → w.closed ≡ true
      → Ending n w₁
      → Ending n (if w.closed then w₁ else w₂)
  closed_if n w w₁ w₂ c h = rw c h

  take_event-Ending :
      (n : ℕ) (w : WorkerIo) (ch : Choice) (es : List Event)
      → w.pc i ≡ reading
      → w.closed ≡ true
      → exits_within (suc n) es ≡ true
      → Ending n (take_event i ch es w)
  unfolding take_event Ending exits_within ends_within
  take_event-Ending n w ch [] p c h = absurd (cc h)
  take_event-Ending n w ch (worker_exit ∷ es) p c h = over n w exited c
  take_event-Ending n w ch (progress ∷ es) p c h = (c, rw (self, p) h)
  take_event-Ending n w ch (done ∷ es) p c h = over n w completed c
  take_event-Ending n w ch (cancelled ∷ es) p c h = over n w completed c

  start-Ending : (n : ℕ) (w : WorkerIo) (ch : Choice) → w.closed ≡ true → Ending n (start i ch w)
  unfolding start
  start-Ending n w gives_up c = released n w _ c
  start-Ending n w goes c = closed_if n w _ _ c (released n w exited c)
  start-Ending n w raises c = closed_if n w _ _ c (released n w exited c)
  start-Ending n w drops c = closed_if n w _ _ c (released n w exited c)

  write-Ending : (n : ℕ) (w : WorkerIo) (ch : Choice) → w.closed ≡ true → Ending n (write i ch w)
  unfolding write
  write-Ending n w raises c = over n w _ c
  write-Ending n w goes c = closed_if n w _ _ c (over n w exited c)
  write-Ending n w gives_up c = closed_if n w _ _ c (over n w exited c)
  write-Ending n w drops c = closed_if n w _ _ c (over n w exited c)

  read-Ending :
      (n : ℕ) (w : WorkerIo) (ch : Choice)
      → w.pc i ≡ reading
      → w.closed ≡ true
      → exits_within (suc n) (w.queue i) ≡ true
      → Ending n (read i ch w)
  unfolding read
  read-Ending n w drops p c h = over n w dropped c
  read-Ending n w goes p c h = take_event-Ending n w goes (w.queue i) p c h
  read-Ending n w gives_up p c h = take_event-Ending n w gives_up (w.queue i) p c h
  read-Ending n w raises p c h = take_event-Ending n w raises (w.queue i) p c h

  -- A step of the request itself.
  pub advance-Ending :
      (n : ℕ) (w : WorkerIo) (p : Pc) (ch : Choice)
      → w.pc i ≡ p
      → w.closed ≡ true
      → ends_within (suc n) (w.queue i) p ≡ true
      → Ending n (advance p i ch w)
  unfolding advance register Ending ends_within
  advance-Ending n w idle ch e c h = absurd (cc h)
  advance-Ending n w acquiring ch e c h = absurd (cc h)
  advance-Ending n w admitted ch e c h = start-Ending n w ch c
  advance-Ending n w checked ch e c h =
      (c, own n w (update w.queue i [] i) registered (ground (arith, h)))
  advance-Ending n w registered ch e c h = write-Ending n w ch c
  advance-Ending n w reading ch e c h = read-Ending n w ch e c h
  advance-Ending n w (finished o) ch e c h = (c, rw e refl)
