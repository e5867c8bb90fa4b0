-- ===== src/Backends/WorkerIo/Wakes.antt =====
-- No request is left waiting after `close`.
use voxedge.Base.{
  ℕ, suc, ◌≡◌, refl, sym, ◌∙◌, true, false, List, [], ◌∷◌, ◌++◌, arith, any, if_intro, ◌==◌,
}
use mathlib.Core.Path.{subst}
use voxedge.Backends.WorkerIo.{
  Event, reading, WorkerIo, init, dispatch, cancel, Action, request, emits, eof, closes, wakes,
  cancels, act, run,
}
use voxedge.Backends.WorkerIo.Frame.{advance-Keeps}
use voxedge.Backends.WorkerIo.Reached.{
  is_exit, is_reached, AreReached, IsOrdered, one_more, told, advance-Reached,
}

emitted : (w : WorkerIo) (i : ℕ) (e : Event) → AreReached w → AreReached (dispatch i e w)
unfolding dispatch
emitted w i e h =
    if_intro AreReached (w.inflight i) _ w
      (λ _ j.
        if_intro (λ es. is_reached w.woken (w.inflight j) es (w.pc j) ≡ true) (i == j) _ _
          (λ q.
            let k : i ≡ j = ground (arith, q) in
            subst (λ k. is_reached w.woken (w.inflight j) (w.queue k ++ (e ∷ [])) (w.pc j) ≡ true)
              (sym k) (one_more w.woken (w.inflight j) (w.queue j) e (w.pc j) (h j)))
          (λ _. h j))
      (λ _. h)

act-Reached : (a : Action) (w : WorkerIo) → IsOrdered w → AreReached w → AreReached (act a w)
unfolding act cancel
act-Reached (request i ch) w o h = advance-Reached w (w.pc i) i ch refl o h
act-Reached (emits i e) w o h =
    if_intro AreReached w.reader_done w _ (λ _. h) (λ _. emitted w i e h)
act-Reached eof w o h =
    if_intro AreReached w.reader_done w _ (λ _. h)
      (λ _ j. told w.woken w.woken (w.inflight j) (w.queue j) (w.pc j) (λ e. e) (h j))
act-Reached closes w o h = h
act-Reached wakes w o h =
    if_intro AreReached w.closed _ w
      (λ _ j. told w.woken true (w.inflight j) (w.queue j) (w.pc j) (λ e. refl) (h j)) (λ _. h)
act-Reached (cancels i) w o h = if_intro AreReached w.closed w _ (λ _. h) (λ _. h)

apart_from_next : (i : ℕ) → (i == suc i) ≡ false
apart_from_next i = ground arith

act-Ordered : (a : Action) (w : WorkerIo) → IsOrdered w → IsOrdered (act a w)
unfolding act dispatch cancel
act-Ordered (request i ch) w o =
    let k = advance-Keeps i (suc i) (apart_from_next i) w (w.pc i) ch in
    λ e. k.0 ∙ o (sym k.1.0 ∙ e)
act-Ordered (emits i e) w o =
    if_intro IsOrdered w.reader_done w _ (λ _. o)
      (λ _. if_intro IsOrdered (w.inflight i) _ w (λ _. o) (λ _. o))
act-Ordered eof w o = if_intro IsOrdered w.reader_done w _ (λ _. o) (λ _. o)
act-Ordered closes w o = λ e. refl
act-Ordered wakes w o = if_intro IsOrdered w.closed _ w (λ c _. c) (λ _. o)
act-Ordered (cancels i) w o = if_intro IsOrdered w.closed w _ (λ _. o) (λ _. o)

run-Reached :
    (as' : List Action) (w : WorkerIo)
    → IsOrdered w
    → AreReached w
    → IsOrdered (run as' w) × AreReached (run as' w)
unfolding run
run-Reached [] w o h = (o, h)
run-Reached (a ∷ as') w o h = run-Reached as' (act a w) (act-Ordered a w o) (act-Reached a w o h)

pub reached :
    (c : ℕ) (as' : List Action) → IsOrdered (run as' (init c)) × AreReached (run as' (init c))
reached c as' = run-Reached as' (init c) (λ e. e) (λ j. refl)

-- After any actions in any order: when `close` has emptied the table, every request that waits for its
-- events has the exit among them.
pub close-wakes :
    (c : ℕ) (as' : List Action) (j : ℕ)
    → (run as' (init c)).woken ≡ true
    → (run as' (init c)).pc j ≡ reading
    → any is_exit ((run as' (init c)).queue j) ≡ true
close-wakes c as' j k p = rw (k, p) at ((reached c as').1 j)
