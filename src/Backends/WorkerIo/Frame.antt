-- ===== src/Backends/WorkerIo/Frame.antt =====
-- What a step of one request leaves as it was: the flags of the worker, and every other request.
use voxedge.Base.{ℕ, ◌≡◌, refl, Bool, false, List, [], ◌∷◌, if_intro, ◌==◌, if◌then◌else◌}
use voxedge.Backends.WorkerIo.{
  Event, progress, done, cancelled, worker_exit, Pc, idle, acquiring, admitted, checked, registered,
  reading, finished, WorkerIo, Choice, goes, gives_up, raises, drops, blocked, acquire, start,
  register, write, take_event, read, advance,
}

module _ (i j : ℕ) (apart : (i == j) ≡ false) (w : WorkerIo) where
  abbrev pub Keeps : WorkerIo → Type 0
  Keeps w' =
      (w'.closed ≡ w.closed)
      × ((w'.woken ≡ w.woken) × ((w'.pc j ≡ w.pc j) × (w'.queue j ≡ w.queue j)))

  put : (p : Pc) → (if i == j then p else w.pc j) ≡ w.pc j
  put p = rw apart refl

  placed : (es : List Event) → (if i == j then es else w.queue j) ≡ w.queue j
  placed es = rw apart refl

  take_event-Keeps : (ch : Choice) (es : List Event) → Keeps (take_event i ch es w)
  unfolding take_event
  take_event-Keeps ch (worker_exit ∷ es) = (refl, (refl, (put _, refl)))
  take_event-Keeps ch (progress ∷ es) = (refl, (refl, (refl, placed es)))
  take_event-Keeps ch (done ∷ es) = (refl, (refl, (put _, refl)))
  take_event-Keeps ch (cancelled ∷ es) = (refl, (refl, (put _, refl)))
  take_event-Keeps raises [] = (refl, (refl, (put _, refl)))
  take_event-Keeps goes [] = (refl, (refl, (refl, refl)))
  take_event-Keeps gives_up [] = (refl, (refl, (refl, refl)))
  take_event-Keeps drops [] = (refl, (refl, (refl, refl)))

  either : (c : Bool) (w₁ w₂ : WorkerIo) → Keeps w₁ → Keeps w₂ → Keeps (if c then w₁ else w₂)
  either c w₁ w₂ h k = if_intro Keeps c w₁ w₂ (λ _. h) (λ _. k)

  pub advance-Keeps : (p : Pc) (ch : Choice) → Keeps (advance p i ch w)
  unfolding advance acquire blocked start register write read
  advance-Keeps idle ch = (refl, (refl, (put _, refl)))
  advance-Keeps acquiring gives_up =
      either _ _ _ (refl, (refl, (put _, refl))) (refl, (refl, (put _, refl)))
  advance-Keeps acquiring goes =
      either _ _ _ (refl, (refl, (refl, refl))) (refl, (refl, (put _, refl)))
  advance-Keeps acquiring raises =
      either _ _ _ (refl, (refl, (refl, refl))) (refl, (refl, (put _, refl)))
  advance-Keeps acquiring drops =
      either _ _ _ (refl, (refl, (refl, refl))) (refl, (refl, (put _, refl)))
  advance-Keeps admitted gives_up = (refl, (refl, (put _, refl)))
  advance-Keeps admitted goes =
      either _ _ _ (refl, (refl, (put _, refl))) (refl, (refl, (put _, refl)))
  advance-Keeps admitted raises =
      either _ _ _ (refl, (refl, (put _, refl))) (refl, (refl, (put _, refl)))
  advance-Keeps admitted drops =
      either _ _ _ (refl, (refl, (put _, refl))) (refl, (refl, (put _, refl)))
  advance-Keeps checked ch = (refl, (refl, (put _, placed [])))
  advance-Keeps registered raises = (refl, (refl, (put _, refl)))
  advance-Keeps registered goes =
      either _ _ _ (refl, (refl, (put _, refl))) (refl, (refl, (put _, refl)))
  advance-Keeps registered gives_up =
      either _ _ _ (refl, (refl, (put _, refl))) (refl, (refl, (put _, refl)))
  advance-Keeps registered drops =
      either _ _ _ (refl, (refl, (put _, refl))) (refl, (refl, (put _, refl)))
  advance-Keeps reading drops = (refl, (refl, (put _, refl)))
  advance-Keeps reading goes = take_event-Keeps goes (w.queue i)
  advance-Keeps reading gives_up = take_event-Keeps gives_up (w.queue i)
  advance-Keeps reading raises = take_event-Keeps raises (w.queue i)
  advance-Keeps (finished o) ch = (refl, (refl, (refl, refl)))
