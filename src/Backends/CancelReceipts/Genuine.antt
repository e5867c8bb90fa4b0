-- ===== src/Backends/CancelReceipts/Genuine.antt =====
-- A call gets a receipt from its queue only: the steps of the calls.
use voxedge.Base.{
  is_some, ℕ, ◌≡◌, refl, ap, sym, ◌∙◌, Bool, true, false, ◌||◌, Option, none, some, arith, if_intro,
  Bool-cases, inl, inr, leb, ◌==◌,
}
use mathlib.Core.Path.{subst}
use voxedge.Backends.WorkerIo.Family.{update}
use voxedge.Backends.CancelReceipts.{
  Reply, cancelled, worker_exit, Outcome, received, exited, duplicate, at_capacity, timed_out,
  write_failed, Pc, idle, admitted, written, waiting, finished, Receipts, Choice, in_time, late,
  late_in_lock, fails, unregister, admit, write_cancel, is_late, take_reply, step,
}

abbrev pub is_receipt : Option Reply → Bool
is_receipt (some cancelled) = true
is_receipt (some worker_exit) = false
is_receipt none = false

abbrev pub is_received : Pc → Bool
is_received (finished received) = true
is_received _ = false

-- Whether a call has a receipt, in its queue or returned.
abbrev pub is_fed : Option Reply → Pc → Bool
is_fed s p = is_receipt s || is_received p

-- Going on to a place that is not the return of a receipt.
no_more :
    (s : Option Reply) (p q : Pc) → is_received p ≡ false → is_fed s p ≡ true → is_fed s q ≡ true
no_more s p q e f = ground (arith, e, f)

module _ (id_of : ℕ → ℕ) where
  -- The table has only calls for their own ids.
  unfoldable pub AreMatched : (ℕ → Option ℕ) → Type 0
  AreMatched t = (i k : ℕ) → t i ≡ some k → id_of k ≡ i

  unfoldable pub Fed : (ℕ → Bool) → (ℕ → Option Reply) → (ℕ → Pc) → Type 0
  Fed past slot pc = (k : ℕ) → is_fed (slot k) (pc k) ≡ true → past (id_of k) ≡ true

  unfoldable pub Genuine : (ℕ → Bool) → Receipts → Type 0
  Genuine past w = AreMatched w.receipts × Fed past w.slot w.pc

  some-inj : (j k : ℕ) → some j ≡ some k → j ≡ k
  some-inj j k e = cc e

  placed-Matched :
      (t : ℕ → Option ℕ) (k : ℕ) → AreMatched t → AreMatched (update t (id_of k) (some k))
  unfolding AreMatched
  placed-Matched t k h i j = elim (Bool-cases (id_of k == i)) [
    | inl e ↦ λ f. ap id_of (sym (some-inj k j (rw e at f))) ∙ ground (arith, e)
    | inr n ↦ λ f. h i j (rw n at f)
  ]

  freed-Matched : (t : ℕ → Option ℕ) (i : ℕ) → AreMatched t → AreMatched (update t i none)
  unfolding AreMatched
  freed-Matched t i h j k = elim (Bool-cases (i == j)) [
    | inl e ↦ λ f. absurd (cc (rw e at f))
    | inr n ↦ λ f. h j k (rw n at f)
  ]

  -- A call that goes on has no receipt that it did not have.
  moved :
      (past : ℕ → Bool) (slot : ℕ → Option Reply) (pc : ℕ → Pc) (k : ℕ) (p : Pc)
      → (is_fed (slot k) p ≡ true → is_fed (slot k) (pc k) ≡ true)
      → Fed past slot pc
      → Fed past slot (update pc k p)
  unfolding Fed
  moved past slot pc k p g h j = elim (Bool-cases (k == j)) [
    | inl e ↦
        let q : k ≡ j = ground (arith, e) in
        λ f.
          subst (λ k. past (id_of k) ≡ true) q
            (h k (g (subst (λ j. is_fed (slot j) p ≡ true) (sym q) (rw e at f))))
    | inr n ↦ λ f. h j (rw n at f)
  ]

  pub refilled :
      (past : ℕ → Bool) (slot : ℕ → Option Reply) (pc : ℕ → Pc) (k : ℕ) (s : Option Reply)
      → (is_fed s (pc k) ≡ true → past (id_of k) ≡ true)
      → Fed past slot pc
      → Fed past (update slot k s) pc
  unfolding Fed
  refilled past slot pc k s g h j = elim (Bool-cases (k == j)) [
    | inl e ↦
        let q : k ≡ j = ground (arith, e) in
        λ f.
          subst (λ k. past (id_of k) ≡ true) q
            (g (subst (λ j. is_fed s (pc j) ≡ true) (sym q) (rw e at f)))
    | inr n ↦ λ f. h j (rw n at f)
  ]

  unregistered :
      (past : ℕ → Bool) (k : ℕ) (o : Outcome) (w : Receipts)
      → is_received (finished o) ≡ false
      → Genuine past w
      → Genuine past (unregister id_of k o w)
  unfolding Genuine
  unregistered past k o w e g = (
    freed-Matched w.receipts (id_of k) g.0,
    moved past w.slot w.pc k (finished o) (no_more (w.slot k) (finished o) (w.pc k) e) g.1,
  )

  gone_on :
      (past : ℕ → Bool) (k : ℕ) (p : Pc) (w : Receipts)
      → is_received p ≡ false
      → Genuine past w
      → Genuine past (record w { pc = update w.pc k p })
  unfolding Genuine
  gone_on past k p w e g = (g.0, moved past w.slot w.pc k p (no_more (w.slot k) p (w.pc k) e) g.1)

  admit-Genuine :
      (past : ℕ → Bool) (k : ℕ) (w : Receipts) → Genuine past w → Genuine past (admit id_of k w)
  unfolding admit Genuine Fed
  admit-Genuine past k w g =
      if_intro G w.closed _ _ (λ _. gone_on past k (finished exited) w refl g)
        (λ _.
          if_intro G (is_some (w.receipts (id_of k))) _ _
            (λ _. gone_on past k (finished duplicate) w refl g)
            (λ _.
              if_intro G (leb w.capacity w.waiters) _ _
                (λ _. gone_on past k (finished at_capacity) w refl g)
                (λ _. (
                  placed-Matched w.receipts k g.0,
                  moved past (update w.slot k none) w.pc k admitted
                      (no_more _ admitted (w.pc k) refl)
                      (refilled past w.slot w.pc k none (λ f. g.1 k (ground (arith, f))) g.1),
                ))))
    where
      G : Receipts → Type 0
      G w' = Genuine past w'

  write_cancel-Genuine :
      (past : ℕ → Bool) (k : ℕ) (ch : Choice) (w : Receipts)
      → Genuine past w
      → Genuine past (write_cancel id_of k ch w)
  unfolding write_cancel
  write_cancel-Genuine past k late w g = unregistered past k timed_out w refl g
  write_cancel-Genuine past k late_in_lock w g =
      unregistered past k _ w
        (if_intro (λ o. is_received (finished o) ≡ false) w.closed exited timed_out (λ _. refl)
          (λ _. refl))
        g
  write_cancel-Genuine past k fails w g =
      unregistered past k _ w
        (if_intro (λ o. is_received (finished o) ≡ false) w.closed exited write_failed (λ _. refl)
          (λ _. refl))
        g
  write_cancel-Genuine past k in_time w g =
      if_intro (Genuine past) w.closed _ _ (λ _. unregistered past k exited w refl g)
        (λ _. gone_on past k written w refl g)

  take_reply-Genuine :
      (past : ℕ → Bool) (k : ℕ) (s : Option Reply) (w : Receipts)
      → w.slot k ≡ s
      → Genuine past w
      → Genuine past (take_reply id_of k s w)
  unfolding take_reply Genuine
  take_reply-Genuine past k none w e g = g
  take_reply-Genuine past k (some worker_exit) w e g = unregistered past k exited w refl g
  take_reply-Genuine past k (some cancelled) w e g = (
    freed-Matched w.receipts (id_of k) g.0,
    moved past w.slot w.pc k (finished received) (λ _. rw e refl) g.1,
  )

  pub step-Genuine :
      (past : ℕ → Bool) (p : Pc) (k : ℕ) (ch : Choice) (w : Receipts)
      → Genuine past w
      → Genuine past (step id_of p k ch w)
  unfolding step
  step-Genuine past idle k ch w g = admit-Genuine past k w g
  step-Genuine past admitted k ch w g = write_cancel-Genuine past k ch w g
  step-Genuine past written k ch w g =
      if_intro (Genuine past) (is_late ch) _ _ (λ _. unregistered past k timed_out w refl g)
        (λ _. gone_on past k waiting w refl g)
  step-Genuine past waiting k ch w g =
      if_intro (Genuine past) (is_late ch) _ _ (λ _. unregistered past k timed_out w refl g)
        (λ _. take_reply-Genuine past k (w.slot k) w refl g)
  step-Genuine past (finished o) k ch w g = g
