-- ===== src/Backends/CancelReceipts/Emitted.antt =====
-- A receipt that a call returns was emitted by the worker.
use voxedge.Base.{
  ℕ, ◌≡◌, refl, sym, Bool, true, false, ◌||◌, Option, none, some, List, [], ◌∷◌, arith, if_intro,
  ◌==◌,
}
use mathlib.Core.Path.{subst}
use voxedge.Backends.WorkerIo.Family.{update}
use voxedge.Backends.CancelReceipts.{
  Reply, cancelled, worker_exit, received, Pc, finished, Receipts, init, offer, Action, call, emits,
  eof, closes, wakes, deliver, is_call, wake_all, act, run,
}
use voxedge.Backends.CancelReceipts.Genuine.{
  is_fed, Genuine, Fed, AreMatched, refilled, step-Genuine,
}

-- The ids whose cancelled terminal has been emitted.
abbrev pub emitted : List Action → ℕ → Bool
emitted [] i = false
emitted (emits j ∷ as') i = (j == i) || emitted as' i
emitted (a ∷ as') i = emitted as' i

module _ (id_of : ℕ → ℕ) where
  grown :
      (past past' : ℕ → Bool) (w : Receipts)
      → ((i : ℕ) → past i ≡ true → past' i ≡ true)
      → Genuine id_of past w
      → Genuine id_of past' w
  unfolding Genuine Fed
  grown past past' w h g = (g.0, λ k f. h (id_of k) (g.1 k f))

  deliver-Genuine :
      (past : ℕ → Bool) (i : ℕ) (r : Option ℕ) (w : Receipts)
      → w.receipts i ≡ r
      → past i ≡ true
      → Genuine id_of past w
      → Genuine id_of past (deliver r w)
  unfolding deliver Genuine AreMatched
  deliver-Genuine past i none w e h g = g
  deliver-Genuine past i (some k) w e h g = (
    g.0,
    refilled id_of past w.slot w.pc k (offer cancelled (w.slot k))
        (λ _. subst (λ i. past i ≡ true) (sym (g.0 i k e)) h) g.1,
  )

  exit_feeds :
      (s : Option Reply) (p : Pc) → is_fed (offer worker_exit s) p ≡ true → is_fed s p ≡ true
  exit_feeds none p f = f
  exit_feeds (some r) p f = f

  wake_all-Genuine :
      (past : ℕ → Bool) (w : Receipts)
      → Genuine id_of past w
      → Genuine id_of past (wake_all id_of w)
  unfolding Genuine Fed AreMatched is_call
  wake_all-Genuine past w g = (
    λ i k e. absurd (cc e),
    λ k.
        if_intro (λ s. is_fed s (w.pc k) ≡ true → past (id_of k) ≡ true)
          (is_call k (w.receipts (id_of k))) _ _ (λ _ f. g.1 k (exit_feeds (w.slot k) (w.pc k) f))
          (λ _. g.1 k),
  )

  -- What has been emitted after one more action.
  abbrev past_with : Action → (ℕ → Bool) → ℕ → Bool
  past_with (emits i) past = update past i true
  past_with a past = past

  act-Genuine :
      (past : ℕ → Bool) (a : Action) (w : Receipts)
      → Genuine id_of past w
      → Genuine id_of (past_with a past) (act id_of a w)
  unfolding act wake_all Genuine
  act-Genuine past (call k ch) w g = step-Genuine id_of past (w.pc k) k ch w g
  act-Genuine past (emits i) w g =
      let g' = grown past (update past i true) w (λ j h. ground (arith, h)) g in
      if_intro (Genuine id_of (update past i true)) w.reader_done _ _ (λ _. g')
        (λ _. deliver-Genuine (update past i true) i (w.receipts i) w refl (ground arith) g')
  act-Genuine past eof w g =
      if_intro (Genuine id_of past) w.reader_done w _ (λ _. g) (λ _. wake_all-Genuine past w g)
  act-Genuine past closes w g = g
  act-Genuine past wakes w g =
      if_intro (Genuine id_of past) w.closed _ w (λ _. wake_all-Genuine past w g) (λ _. g)

  run-Genuine :
      (past : ℕ → Bool) (as' : List Action) (w : Receipts)
      → Genuine id_of past w
      → Genuine id_of (λ i. past i || emitted as' i) (run id_of as' w)
  unfolding run
  run-Genuine past [] w g = grown past _ w (λ i h. ground (arith, h)) g
  run-Genuine past (call k ch ∷ as') w g =
      run-Genuine past as' (act id_of (call k ch) w) (act-Genuine past (call k ch) w g)
  run-Genuine past (emits j ∷ as') w g =
      grown (λ i. update past j true i || emitted as' i) _ (run id_of as' (act id_of (emits j) w))
        (λ i h. ground (arith, h))
        (run-Genuine (update past j true) as' (act id_of (emits j) w)
          (act-Genuine past (emits j) w g))
  run-Genuine past (eof ∷ as') w g =
      run-Genuine past as' (act id_of eof w) (act-Genuine past eof w g)
  run-Genuine past (closes ∷ as') w g =
      run-Genuine past as' (act id_of closes w) (act-Genuine past closes w g)
  run-Genuine past (wakes ∷ as') w g =
      run-Genuine past as' (act id_of wakes w) (act-Genuine past wakes w g)

-- From a new worker, after any actions in any order: the id of a call that has returned a receipt is one
-- whose cancelled terminal the worker emitted in them. A receipt is never made up, nor another id's.
pub receipt-emitted :
    (id_of : ℕ → ℕ) (c k : ℕ) (as' : List Action)
    → (run id_of as' (init c)).pc k ≡ finished received
    → emitted as' (id_of k) ≡ true
unfolding Genuine Fed AreMatched
receipt-emitted id_of c k as' e =
    (run-Genuine id_of (λ _. false) as' (init c)
        ((λ i j q. absurd (cc q)), (λ j f. absurd (cc f)))).1
      k (rw e (ground arith))
