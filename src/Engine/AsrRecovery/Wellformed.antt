-- ===== src/Engine/AsrRecovery/Wellformed.antt =====
-- What holds of the manager between two operations, and that recovery and cancellation keep it.
use voxedge.Base.{
  is_some, ℕ, zero, suc, ◌≡◌, refl, ◌∙◌, sym, Bool, true, false, ◌&&◌, Option, none, some, arith,
  if_intro, ◌⊎◌, inl, inr,
}
use mathlib.Core.Bool.{false≢true}
use voxedge.Engine.AsrWorker.{
  Exn, Outcome, returned, raised, CancelOutcome, acked, retired, timed_out, failed, Backend,
}
use voxedge.Engine.AsrRecovery.{
  Interruption, completes, at_lock, in_wait, in_restart, needs_restart, cancel_waited, SessionState,
  idle, active, finalizing, cancelling, Manager, rebuild_attempts, attempt, rebuild_loop,
  maybe_restart_worker, last_attempt, do_rebuild_locked, handle_error_locked, cancel_done,
  cancel_stream, inner_cancel, is_idle, safe_close_stream,
}

-- In which state a stream is held. A manager rests in `cancelling` only if a cancel may have been
-- interrupted.
abbrev pub Holds : {S : Type 0} → (may_be_cut : Bool) → SessionState → Option S → Type 0
Holds c idle none = Unit
Holds c active (some s) = Unit
Holds c finalizing (some s) = Unit
Holds c cancelling none = c ≡ true
Holds c _ _ = ⊥

pub Holds-idle :
    {S : Type 0} (c : Bool) {st : SessionState} {o : Option S} → st ≡ idle → o ≡ none → Holds c st o
Holds-idle c p q = rw (p, q) tt

pub Holds-idle_stream : {S : Type 0} (c : Bool) (o : Option S) → Holds c idle o → o ≡ none
Holds-idle_stream c none h = refl
Holds-idle_stream c (some s) h = absurd h

pub not-Holds-active :
    {S : Type 0} (c : Bool) {st : SessionState} {o : Option S}
    → st ≡ active
    → o ≡ none
    → ¬ (Holds c st o)
not-Holds-active c p q h = let bad : ⊥ = rw (p, q) at h in bad

-- Between two operations the manager is idle without a stream, or active or finalizing with one, or, if
-- a cancel may have been interrupted, cancelling without one; and no recovery is under way.
pub record IsWellformed {S W : Type 0} (may_be_cut : Bool) (m : Manager S W) : Type 0 where
  pub holds : Holds may_be_cut m.state m.stream
  pub settled : m.recovery_in_progress ≡ false

-- Whether an interruption can leave the manager cancelling.
abbrev pub is_cut : Interruption → Bool
is_cut in_wait = true
is_cut in_restart = true
is_cut completes = false
is_cut at_lock = false

module _ {S W X : Type 0} (b : Backend S W X) (c : Bool) where
  -- A restart leaves all but the worker and its epoch.
  restart-fields :
      (m : Manager S W)
      → ((maybe_restart_worker b m).state ≡ m.state)
        × ((maybe_restart_worker b m).stream ≡ m.stream)
        × ((maybe_restart_worker b m).generation ≡ m.generation)
        × ((maybe_restart_worker b m).recovery_in_progress ≡ m.recovery_in_progress)
  unfolding maybe_restart_worker
  restart-fields m = ground arith

  -- A round keeps the generation, and holds a stream if it succeeded.
  abbrev Round : Manager S W → Manager S W × Bool → Type 0
  Round m r =
      (r.0.generation ≡ m.generation)
      × (r.0.recovery_in_progress ≡ m.recovery_in_progress)
      × (r.1 ≡ true → Holds c r.0.state r.0.stream)

  attempt-Round : (o : Outcome S × W) (m : Manager S W) → Round m (attempt b o m)
  unfolding attempt
  attempt-Round (returned s, w) m = (refl, refl, λ _. tt)
  attempt-Round (raised e, w) m = (refl, refl, λ h. cc)

  rebuild_loop-Round : (n : ℕ) (m : Manager S W) → Round m (rebuild_loop b n m)
  unfolding rebuild_loop
  rebuild_loop-Round zero m = (refl, refl, λ h. cc)
  rebuild_loop-Round (suc n) m =
      let r = attempt b (b.create_stream m.world) m in
      let done = attempt-Round (b.create_stream m.world) m in
      let rest = rebuild_loop-Round n r.0 in
      if_intro (Round m) r.1 r (rebuild_loop b n r.0) (λ _. done)
        (λ _. (rest.0 ∙ done.0, rest.1 ∙ done.1, rest.2))

  last_attempt-Round : (o : Outcome S × W) (m : Manager S W) → Round m (last_attempt b o m, true)
  unfolding last_attempt
  last_attempt-Round (returned s, w) m = (refl, refl, λ _. tt)
  last_attempt-Round (raised e, w) m = (refl, refl, λ _. tt)

  do_rebuild-Round : (m : Manager S W) → Round m (do_rebuild_locked b m, true)
  unfolding do_rebuild_locked
  do_rebuild-Round m =
      let r = rebuild_loop b rebuild_attempts m in
      let done = rebuild_loop-Round rebuild_attempts m in
      let fresh = maybe_restart_worker b r.0 in
      let same = restart-fields r.0 in
      let last = last_attempt-Round (b.create_stream fresh.world) fresh in
      if_intro (λ m'. Round m (m', true)) r.1 r.0
        (last_attempt b (b.create_stream fresh.world) fresh) (λ e. (done.0, done.1, λ _. done.2 e))
        (λ _. (last.0 ∙ same.2 ∙ done.0, last.1 ∙ same.3 ∙ done.1, last.2))

  -- Recovery ends with a stream in use or idle without one, and in the same generation.
  pub handle_error-IsWellformed :
      (e : Exn) (m : Manager S W)
      → m.recovery_in_progress ≡ false
      → IsWellformed c (handle_error_locked b e m)
        × ((handle_error_locked b e m).generation ≡ m.generation)
  unfolding handle_error_locked
  handle_error-IsWellformed e m h =
      if_intro {A = Manager S W} (λ m'. IsWellformed c m' × (m'.generation ≡ m.generation))
        m.recovery_in_progress _ _ (λ r. absurd (false≢true (sym h ∙ r)))
        (λ _.
          let done = do_rebuild-Round _ in (record { holds = done.2 refl; settled = refl }, done.0))

  -- What the end of a cancel call leaves.
  abbrev Same : Manager S W → Manager S W → Type 0
  Same m m' =
      (m'.stream ≡ m.stream)
      × (m'.generation ≡ m.generation)
      × (m'.recovery_in_progress ≡ m.recovery_in_progress)

  cancel_done-Same : (o : CancelOutcome) (s : S) (m : Manager S W) → Same m (cancel_done b o s m)
  unfolding cancel_done
  cancel_done-Same acked s m = (refl, refl, refl)
  cancel_done-Same retired s m = (refl, refl, refl)
  cancel_done-Same timed_out s m = ground (arith, restart-fields m)
  cancel_done-Same (failed e) s m = ground (arith, restart-fields m)

  -- A cancelled manager is idle; one whose cancel was interrupted may be as it was.
  abbrev Cancelled : Interruption → Manager S W → Manager S W → Type 0
  Cancelled i m m' = Same m m' × ((m'.state ≡ idle) ⊎ ((m'.state ≡ m.state) × (is_cut i ≡ true)))

  done-Cancelled :
      (i : Interruption) (o : CancelOutcome) (s : S) (m : Manager S W)
      → Cancelled i m (record (cancel_done b o s m) { state = idle })
  done-Cancelled i o s m = (cancel_done-Same o s m, inl refl)

  cancel_waited-Cancelled :
      (i : Interruption) (o : CancelOutcome) (s : S) (m : Manager S W)
      → Cancelled i m (cancel_waited b i o s m)
  unfolding cancel_waited
  cancel_waited-Cancelled in_wait o s m = ((refl, refl, refl), inr (refl, refl))
  cancel_waited-Cancelled in_restart o s m =
      if_intro (Cancelled in_restart m) (needs_restart b o && is_some b.restart_worker) _ _
        (λ _. let same = restart-fields m in ((same.1, same.2, same.3), inr (same.0, refl)))
        (λ _. done-Cancelled in_restart o s m)
  cancel_waited-Cancelled at_lock o s m = done-Cancelled at_lock o s m
  cancel_waited-Cancelled completes o s m = done-Cancelled completes o s m

  cancel_stream-Cancelled :
      (i : Interruption) (o : Option S) (m : Manager S W) → Cancelled i m (cancel_stream b i o m)
  unfolding cancel_stream
  cancel_stream-Cancelled i none m = ((refl, refl, refl), inl refl)
  cancel_stream-Cancelled i (some s) m =
      let r = b.cancel s m.world in cancel_waited-Cancelled i r.0 s (record m { world = r.1 })

  -- A manager that was cancelling without a stream.
  rests :
      (i : Interruption) (m m' : Manager S W)
      → m.state ≡ cancelling
      → m.stream ≡ none
      → (is_cut i ≡ true → c ≡ true)
      → Cancelled i m m'
      → Holds c m'.state m'.stream
  rests i m m' p q k (same, inl e) = Holds-idle c e (same.0 ∙ q)
  rests i m m' p q k (same, inr (e, f)) = rw (e ∙ p, same.0 ∙ q) (k f)

  -- Cancelling keeps the generation and leaves an idle manager idle.
  pub inner_cancel-IsWellformed :
      (i : Interruption) (m : Manager S W)
      → (is_cut i ≡ true → c ≡ true)
      → IsWellformed c m
      → IsWellformed c (inner_cancel b i m)
        × (m.state ≡ idle → (inner_cancel b i m).state ≡ idle)
        × ((inner_cancel b i m).generation ≡ m.generation)
  unfolding inner_cancel
  inner_cancel-IsWellformed i m k h =
      if_intro {A = Manager S W}
        (λ m'.
          IsWellformed c m' × (m.state ≡ idle → m'.state ≡ idle) × (m'.generation ≡ m.generation))
        (is_idle m.state) _ _ (λ e. (h, (λ p. p), refl))
        (λ e.
          let m' = record m { state = cancelling; stream = none } in
          let d = cancel_stream-Cancelled i m.stream m' in
          (
            record {
              holds = rests i m' (cancel_stream b i m.stream m') refl refl k d;
              settled = d.0.2 ∙ h.settled;
            },
            (λ p. absurd (ground (arith, e, p))),
            d.0.1,
          ))

module _ {S W X : Type 0} (b : Backend S W X) where
  pub inner_cancel-idle :
      (i : Interruption) (m : Manager S W) → m.state ≡ idle → (inner_cancel b i m).state ≡ idle
  unfolding inner_cancel
  inner_cancel-idle i m p = ground arith

  -- Recovery takes the first stream that the backend gives, in the same generation.
  pub handle_error_revives :
      (e : Exn) (m : Manager S W) (s : S)
      → m.stream ≡ none
      → m.recovery_in_progress ≡ false
      → (b.create_stream m.world).0 ≡ returned s
      → ((handle_error_locked b e m).state ≡ active)
        × ((handle_error_locked b e m).stream ≡ some s)
        × ((handle_error_locked b e m).generation ≡ m.generation)
  unfolding handle_error_locked do_rebuild_locked rebuild_loop safe_close_stream
  handle_error_revives e m s q r h = ground arith

  -- A cancel that is interrupted in the restart leaves the manager cancelling, without a stream.
  left_cancelling :
      (m : Manager S W) (s : S) (fn : W → Outcome Unit × W)
      → m.state ≡ active
      → m.stream ≡ some s
      → (b.cancel s m.world).0 ≡ timed_out
      → b.restart_worker ≡ some fn
      → ((inner_cancel b in_restart m).state ≡ cancelling)
        × ((inner_cancel b in_restart m).stream ≡ none)
  unfolding inner_cancel cancel_stream cancel_waited needs_restart maybe_restart_worker
  left_cancelling m s fn p q o r = rw (p, q, o, r) (refl, refl)
