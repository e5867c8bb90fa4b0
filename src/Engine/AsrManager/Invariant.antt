-- ===== src/Engine/AsrManager/Invariant.antt =====
-- Every method but `on_speech_start` keeps the manager well formed and stays in the generation.
use Prim.Native.String.{String}
use voxedge.Base.{
  ℕ, ◌+◌, ◌≡◌, refl, ◌∙◌, Bool, not, ◌==◌, true, false, Option, none, some, arith, if_intro,
  if◌then◌else◌,
}
use voxedge.Engine.AsrWorker.{Exn, Outcome, returned, raised, Backend}
use voxedge.Engine.AsrRecovery.{
  Interruption, completes, at_lock, in_wait, in_restart, inner_cancel, Manager, idle, active,
  finalizing, is_active, handle_error_locked, safe_close_stream,
}
use voxedge.Engine.AsrRecovery.Wellformed.{
  is_cut, IsWellformed, Holds-idle, not-Holds-active, handle_error-IsWellformed,
  inner_cancel-IsWellformed,
}
use voxedge.Engine.AsrManager.{
  Final, cancel_locked, cancel, accept_audio, accepted_audio, push_audio, finalize_with_status,
  finalize_stream, finalized, discard, or_empty, prepare_finalize_for_generation, prepare_stream,
  prepared, hook, get_partial_for_generation, partial_stream, mark_error,
}

abbrev pub final_of : {S W : Type 0} → Option String → Option String → Manager S W → Final
final_of t l m = record {
  generation = m.generation;
  text = or_empty t;
  accepted = true;
  language = l;
}

module _ {S W X : Type 0} (b : Backend S W X) (cut : Bool) where
  -- A method other than `on_speech_start` stays in the generation.
  abbrev pub Keeps : Manager S W → Manager S W → Type 0
  Keeps m m' = IsWellformed cut m' × (m'.generation ≡ m.generation)

  -- The manager and the result of a finalize that commits.
  abbrev committed : ℕ → W → Manager S W → Manager S W
  committed n w m = record m {
    abort_epoch = m.abort_epoch + n;
    world = safe_close_stream b m.stream w;
    stream = none;
    state = idle;
  }

  failed-Keeps :
      (e : Exn) (m m' : Manager S W)
      → m'.recovery_in_progress ≡ false
      → m'.generation ≡ m.generation
      → Keeps m (handle_error_locked b e m')
  failed-Keeps e m m' r g = let h = handle_error-IsWellformed b cut e m' r in (h.0, h.1 ∙ g)

  accepted_audio-Keeps :
      (o : Outcome Unit × W) (m : Manager S W) → IsWellformed cut m → Keeps m (accepted_audio b o m)
  unfolding accepted_audio
  accepted_audio-Keeps (returned u, w) m h = (record { holds = h.holds; settled = h.settled }, refl)
  accepted_audio-Keeps (raised e, w) m h = failed-Keeps e m _ h.settled refl

  push_audio-Keeps :
      (x : X) (o : Option S) (m : Manager S W)
      → m.stream ≡ o
      → m.state ≡ active
      → IsWellformed cut m
      → Keeps m (push_audio b x o m)
  unfolding push_audio
  push_audio-Keeps x none m p q h = absurd (not-Holds-active cut q p h.holds)
  push_audio-Keeps x (some s) m p q h = accepted_audio-Keeps _ m h

  pub accept_audio-Keeps :
      (x : X) (m : Manager S W) → IsWellformed cut m → Keeps m (accept_audio b x m)
  unfolding accept_audio
  accept_audio-Keeps x m h =
      if_intro (Keeps m) (is_active m.state) _ _
        (λ e. push_audio-Keeps x m.stream m refl (ground arith) h) (λ e. (h, refl))

  -- A finalize whose worker call returned commits unless a call preempted it.
  finalized-returned :
      (n : ℕ) (t l : Option String) (w : W) (m : Manager S W)
      → m.state ≡ finalizing
      → finalized b n m (returned (t, l), w) ≡ (
          if n == 0
          then (committed n w m, final_of t l m)
          else (record m { abort_epoch = m.abort_epoch + n; world = w }, discard m.generation))
  unfolding finalized
  finalized-returned n t l w m f = ground arith

  finalized-Keeps :
      (n : ℕ) (o : Outcome (Option String × Option String) × W) (m : Manager S W)
      → IsWellformed cut m
      → m.state ≡ finalizing
      → Keeps m (finalized b n m o).0
  finalized-Keeps n (raised e, w) m h f = unfold finalized in failed-Keeps e m _ h.settled refl
  finalized-Keeps n (returned (t, l), w) m h f = rw (finalized-returned n t l w m f) (
      if_intro {A = Manager S W × Final} (λ r. Keeps m r.0) (n == 0) _ _
        (λ e. (record { holds = tt; settled = h.settled }, refl))
        (λ e. (record { holds = h.holds; settled = h.settled }, refl)))

  finalize_stream-Keeps :
      (n : ℕ) (o : Option S) (m : Manager S W)
      → m.stream ≡ o
      → IsWellformed cut m
      → Keeps m (finalize_stream b n o (record m { state = finalizing })).0
  unfolding finalize_stream
  finalize_stream-Keeps n none m p h =
      (record { holds = Holds-idle cut refl p; settled = h.settled }, refl)
  finalize_stream-Keeps n (some s) m p h =
      finalized-Keeps n _ (record m { state = finalizing })
        (record { holds = rw p tt; settled = h.settled }) refl

  partial_stream-Keeps :
      (o : Option S) (m : Manager S W) → IsWellformed cut m → Keeps m (partial_stream b o m).0
  unfolding partial_stream
  partial_stream-Keeps none m h = (h, refl)
  partial_stream-Keeps (some s) m h = (record { holds = h.holds; settled = h.settled }, refl)

  pub finalize-Keeps :
      (n : ℕ) (m : Manager S W) → IsWellformed cut m → Keeps m (finalize_with_status b n m).0
  unfolding finalize_with_status
  finalize-Keeps n m h =
      if_intro {A = Manager S W × Final} (λ r. Keeps m r.0) (is_active m.state) _ _
        (λ e. finalize_stream-Keeps n m.stream m refl h) (λ e. (h, refl))

  prepared-Keeps :
      (o : Outcome Unit × W) (m : Manager S W) → IsWellformed cut m → Keeps m (prepared b m o).0
  unfolding prepared
  prepared-Keeps (returned u, w) m h = (record { holds = h.holds; settled = h.settled }, refl)
  prepared-Keeps (raised e, w) m h = failed-Keeps e m _ h.settled refl

  prepare_stream-Keeps :
      (o : Option S) (m : Manager S W) → IsWellformed cut m → Keeps m (prepare_stream b o m).0
  unfolding prepare_stream
  prepare_stream-Keeps none m h = (h, refl)
  prepare_stream-Keeps (some s) m h = elim b.prepare_finalize as (λ p. Keeps m (hook b s m p).0) [
    | none ↦ (h, refl)
    | some prepare ↦ prepared-Keeps (prepare s m.world) m h
  ]

  pub prepare-Keeps :
      (g : Option ℕ) (m : Manager S W)
      → IsWellformed cut m
      → Keeps m (prepare_finalize_for_generation b g m).0
  unfolding prepare_finalize_for_generation
  prepare-Keeps none m h =
      if_intro {A = Manager S W × (ℕ × Bool)} (λ r. Keeps m r.0) (is_active m.state) _ _
        (λ e. prepare_stream-Keeps m.stream m h) (λ e. (h, refl))
  prepare-Keeps (some g) m h =
      if_intro {A = Manager S W × (ℕ × Bool)} (λ r. Keeps m r.0) (not (g == m.generation)) _ _
        (λ e. (h, refl))
        (λ e.
          if_intro {A = Manager S W × (ℕ × Bool)} (λ r. Keeps m r.0) (is_active m.state) _ _
            (λ e. prepare_stream-Keeps m.stream m h) (λ e. (h, refl)))

  pub partial-Keeps :
      (m : Manager S W) → IsWellformed cut m → Keeps m (get_partial_for_generation b m).0
  unfolding get_partial_for_generation
  partial-Keeps m h =
      if_intro {A = Manager S W × (ℕ × String × Bool)} (λ r. Keeps m r.0) (is_active m.state) _ _
        (λ e. partial_stream-Keeps m.stream m h) (λ e. (h, refl))

  pub cancel-Keeps :
      (i : Interruption) (m : Manager S W)
      → (is_cut i ≡ true → cut ≡ true)
      → IsWellformed cut m
      → Keeps m (cancel b i m)
  unfolding cancel cancel_locked
  cancel-Keeps i m k h = locked i k
    where
      m₁ : Manager S W
      m₁ = record m { abort_epoch = m.abort_epoch + 1 }

      inner : (i : Interruption) → (is_cut i ≡ true → cut ≡ true) → Keeps m (inner_cancel b i m₁)
      inner i k =
          let d =
            inner_cancel-IsWellformed b cut i m₁ k
              (record { holds = h.holds; settled = h.settled }) in
          (d.0, d.2)

      locked : (i : Interruption) → (is_cut i ≡ true → cut ≡ true) → Keeps m (cancel_locked b i m₁)
      locked at_lock k = (record { holds = h.holds; settled = h.settled }, refl)
      locked completes k = inner completes k
      locked in_wait k = inner in_wait k
      locked in_restart k = inner in_restart k

  pub mark_error-Keeps :
      (e : Exn) (m : Manager S W) → IsWellformed cut m → Keeps m (mark_error b e m)
  unfolding mark_error
  mark_error-Keeps e m h = failed-Keeps e m _ h.settled refl
