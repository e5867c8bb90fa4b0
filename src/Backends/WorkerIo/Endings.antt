-- ===== src/Backends/WorkerIo/Endings.antt =====
-- After `close`, a request that has a token ends, however the other steps fall between its own.
use voxedge.Base.{
  ℕ, zero, suc, ◌+◌, ◌-◌, ◌≤◌, ◌≡◌, refl, sym, ◌∙◌, Bool, true, false, List, [], ◌∷◌, ◌++◌, length,
  arith, any, if_intro, Bool-cases, inl, inr, ◌==◌, if◌then◌else◌,
}
use mathlib.Core.Path.{subst}
use voxedge.Backends.WorkerIo.Frame.{advance-Keeps}
use voxedge.Backends.WorkerIo.Tokens.{holds}
use voxedge.Backends.WorkerIo.Wakes.{reached, close-wakes}
use voxedge.Backends.WorkerIo.Reached.{is_exit}
use voxedge.Backends.WorkerIo.{
  Event, worker_exit, Pc, idle, acquiring, admitted, checked, registered, reading, finished,
  WorkerIo, Choice, init, advance, dispatch, cancel, Action, request, emits, eof, closes, wakes,
  cancels, act, run,
}
use voxedge.Backends.WorkerIo.OwnSteps.{
  exits_within, ends_within, ends_within-append, exits_within-length, exits_within-more, Ending,
  advance-Ending,
}

abbrev pub is_finished : Pc → Bool
is_finished (finished o) = true
is_finished _ = false

-- The steps of a request in a history.
abbrev pub steps_of : ℕ → List Action → ℕ
steps_of i [] = 0
steps_of i (request j ch ∷ as') = if j == i then suc (steps_of i as') else steps_of i as'
steps_of i (a ∷ as') = steps_of i as'

module _ (i : ℕ) where
  -- A step of another request.
  beside :
      (n : ℕ) (w : WorkerIo) (j : ℕ) (p : Pc) (ch : Choice)
      → (j == i) ≡ false
      → Ending i n w
      → Ending i n (advance p j ch w)
  unfolding Ending
  beside n w j p ch a h =
      let k = advance-Keeps j i a w p ch in (k.0 ∙ h.0, rw (k.1.1.0, k.1.1.1) h.1)

  told-Ending :
      (n : ℕ) (inflight : Bool) (es : List Event) (p : Pc)
      → ends_within n es p ≡ true
      → ends_within n (if inflight then es ++ (worker_exit ∷ []) else es) p ≡ true
  told-Ending n true es p h = ends_within-append n es worker_exit p h
  told-Ending n false es p h = h

  dispatch-Ending :
      (n : ℕ) (w : WorkerIo) (j : ℕ) (e : Event) → Ending i n w → Ending i n (dispatch j e w)
  unfolding dispatch Ending
  dispatch-Ending n w j e h =
      if_intro (Ending i n) (w.inflight j) _ w
        (λ _. (
          h.0,
          if_intro (λ es. ends_within n es (w.pc i) ≡ true) (j == i) _ _
              (λ q.
                let k : j ≡ i = ground (arith, q) in
                subst (λ k. ends_within n (w.queue k ++ (e ∷ [])) (w.pc i) ≡ true) (sym k)
                  (ends_within-append n (w.queue i) e (w.pc i) h.1))
              (λ _. h.1),
        ))
        (λ _. h)

  -- Any step but one of the request.
  act-Ending :
      (n : ℕ) (a : Action) (w : WorkerIo)
      → steps_of i (a ∷ []) ≡ 0
      → Ending i n w
      → Ending i n (act a w)
  unfolding act cancel Ending
  act-Ending n (request j ch) w z h = elim (Bool-cases (j == i)) [
    | inl e ↦ absurd (ground (arith, z, e))
    | inr a ↦ beside n w j (w.pc j) ch a h
  ]
  act-Ending n (emits j e) w z h =
      if_intro (Ending i n) w.reader_done w _ (λ _. h) (λ _. dispatch-Ending n w j e h)
  act-Ending n eof w z h =
      if_intro (Ending i n) w.reader_done w _ (λ _. h)
        (λ _. (h.0, told-Ending n (w.inflight i) (w.queue i) (w.pc i) h.1))
  act-Ending n closes w z h = (refl, h.1)
  act-Ending n wakes w z h =
      if_intro (Ending i n) w.closed _ w
        (λ _. (h.0, told-Ending n (w.inflight i) (w.queue i) (w.pc i) h.1)) (λ _. h)
  act-Ending n (cancels j) w z h = if_intro (Ending i n) w.closed w _ (λ _. h) (λ _. h)

  more :
      (n : ℕ) (es : List Event) (p : Pc)
      → ends_within n es p ≡ true
      → ends_within (suc n) es p ≡ true
  unfolding ends_within
  more n es idle h = absurd (cc h)
  more n es acquiring h = absurd (cc h)
  more n es admitted h = ground (arith, h)
  more n es checked h = ground (arith, h)
  more n es registered h = ground (arith, h)
  more n es reading h = exits_within-more n es h
  more n es (finished o) h = refl

  longer : (d n : ℕ) (w : WorkerIo) → Ending i n w → Ending i (d + n) w
  unfolding Ending
  longer zero n w h = (h.0, ground (arith, h.1))
  longer (suc d) n w h =
      let k = more (d + n) (w.queue i) (w.pc i) (longer d n w h).1 in
      (h.0, subst (λ m. ends_within m (w.queue i) (w.pc i) ≡ true) (omega arith) k)

  at_end : (es : List Event) (p : Pc) → ends_within 0 es p ≡ true → is_finished p ≡ true
  unfolding ends_within exits_within
  at_end es (finished o) h = refl
  at_end es idle h = absurd (cc h)
  at_end es acquiring h = absurd (cc h)
  at_end es admitted h = absurd (cc h)
  at_end es checked h = absurd (cc h)
  at_end es registered h = absurd (cc h)
  at_end es reading h = absurd (cc h)

  run-Ending :
      (as' : List Action) (w : WorkerIo)
      → Ending i (steps_of i as') w
      → is_finished ((run as' w).pc i) ≡ true
  unfolding run act Ending
  run-Ending [] w h = at_end (w.queue i) (w.pc i) h.1
  run-Ending (request j ch ∷ as') w h = elim (Bool-cases (j == i)) [
    | inl e ↦
        let k : j ≡ i = ground (arith, e) in
        run-Ending as' (act (request j ch) w) (
          subst (λ k. Ending i (steps_of i as') (advance (w.pc k) k ch w)) (sym k)
            (advance-Ending i (steps_of i as') w (w.pc i) ch refl h.0 (rw e at h.1)))
    | inr a ↦
        run-Ending as' (act (request j ch) w)
          (beside (steps_of i as') w j (w.pc j) ch a (h.0, rw a at h.1))
  ]
  run-Ending (emits j e ∷ as') w h =
      run-Ending as' (act (emits j e) w) (act-Ending (steps_of i as') (emits j e) w refl h)
  run-Ending (eof ∷ as') w h = run-Ending as' (act eof w) (act-Ending (steps_of i as') eof w refl h)
  run-Ending (closes ∷ as') w h =
      run-Ending as' (act closes w) (act-Ending (steps_of i as') closes w refl h)
  run-Ending (wakes ∷ as') w h =
      run-Ending as' (act wakes w) (act-Ending (steps_of i as') wakes w refl h)
  run-Ending (cancels j ∷ as') w h =
      run-Ending as' (act (cancels j) w) (act-Ending (steps_of i as') (cancels j) w refl h)

  -- Where `close` has been, a request with a token has at most these steps before it.
  closing :
      (w : WorkerIo)
      → w.closed ≡ true
      → holds (w.pc i) ≡ true
      → (w.pc i ≡ reading → any is_exit (w.queue i) ≡ true)
      → Ending i (2 + length (w.queue i)) w
  unfolding Ending ends_within
  closing w c h r = (c, at (w.pc i) (w.queue i) h r)
    where
      at :
          (p : Pc) (es : List Event)
          → holds p ≡ true
          → (p ≡ reading → any is_exit es ≡ true)
          → ends_within (2 + length es) es p ≡ true
      at idle es h r = absurd (cc h)
      at acquiring es h r = absurd (cc h)
      at (finished o) es h r = refl
      at admitted es h r = ground arith
      at checked es h r = ground arith
      at registered es h r = ground arith
      at reading es h r =
          let a = exits_within-more (length es) es (exits_within-length es (r refl)) in
          subst (λ m. exits_within m es ≡ true) {x = suc (suc (length es))} (omega arith)
            (exits_within-more (suc (length es)) es a)

-- From a new worker, after any actions in any order up to where `close` has emptied the table: a request
-- that has a token then has ended after any further actions, in any order and with any choices, among
-- which as many steps are its own as its queue has events, and two more. So it waits neither for the
-- worker nor for a time limit.
pub close-ends :
    (c : ℕ) (as' bs : List Action) (i : ℕ)
    → (run as' (init c)).woken ≡ true
    → holds ((run as' (init c)).pc i) ≡ true
    → 2 + length ((run as' (init c)).queue i) ≤ steps_of i bs
    → is_finished ((run bs (run as' (init c))).pc i) ≡ true
close-ends c as' bs i k h l = run-Ending i bs w (subst (λ n. Ending i n w) (omega (arith, l)) long)
  where
    w : WorkerIo
    w = run as' (init c)

    least : ℕ
    least = 2 + length (w.queue i)

    long : Ending i ((steps_of i bs - least) + least) w
    long =
        longer i (steps_of i bs - least) least w
          (closing i w ((reached c as').0 k) h (close-wakes c as' i k))
