-- ===== src/Engine/AsrManager/Uniqueness.antt =====
-- At most one accepted result for an utterance.
use voxedge.Base.{
  ℕ, true, some, ◌≤◌, ◌<◌, ◌≡◌, refl, ap, ◌∙◌, List, [], ◌∷◌, ◌++◌, arith, if_intro, if◌then◌else◌,
  inl, ◌⊎◌,
}
use voxedge.Engine.AsrWorker.{Exn, returned, Backend}
use voxedge.Engine.AsrRecovery.{Manager, init, idle, active}
use voxedge.Engine.AsrRecovery.Wellformed.{IsWellformed, Holds-idle_stream, handle_error_revives}
use voxedge.Engine.AsrManager.{Final, finalize_with_status, mark_error}
use voxedge.Engine.AsrManager.Generations.{finalize_accepted}
use voxedge.Engine.AsrManager.Invariant.{
  accept_audio-Keeps, finalize-Keeps, prepare-Keeps, partial-Keeps, cancel-Keeps,
}
use voxedge.Engine.AsrManager.Idle.{
  accept_audio-idle, finalize-idle, prepare-idle, partial-idle, cancel-idle,
}
use voxedge.Engine.AsrManager.Start.{start-generation}
use voxedge.Engine.AsrManager.Run.{
  Call, speech_start, poll, abort, audio, eos, eou, fault, step, step-IsWellformed,
}

-- No call of `mark_error`.
abbrev pub HasNoFault : {X : Type 0} → List (Call X) → Type 0
HasNoFault [] = Unit
HasNoFault (fault e ∷ cs) = ⊥
HasNoFault (_ ∷ cs) = HasNoFault cs

-- The generations rise, from above `g`.
abbrev pub Rises : ℕ → List Final → Type 0
Rises g [] = Unit
Rises g (f ∷ fs) = (g < f.generation) × Rises f.generation fs

module _ {S W X : Type 0} (b : Backend S W X) where
  -- What a call returns of the text of an utterance: an accepted result, if it is a finalize.
  accepted_of : Call X → Manager S W → List Final
  accepted_of (eos n) m =
      let r = finalize_with_status b n m in if r.1.accepted then r.1 ∷ [] else []
  accepted_of _ m = []

  -- The results that a sequence of calls accepts.
  pub finals : List (Call X) → Manager S W → List Final
  finals [] m = []
  finals (c ∷ cs) m = accepted_of c m ++ finals cs (step b c m)

  -- Every generation up to `g` is spent: none is current on a manager that is not idle.
  abbrev Spent : ℕ → Manager S W → Type 0
  Spent g m = (g ≤ m.generation) × ((m.state ≡ idle) ⊎ (g < m.generation))

  -- A call that opens no utterance.
  abbrev Quiet : Manager S W → Manager S W → Type 0
  Quiet m m' = (m'.generation ≡ m.generation) × (m.state ≡ idle → m'.state ≡ idle)

  Quiet-Spent : (g : ℕ) (m m' : Manager S W) → Quiet m m' → Spent g m → Spent g m'
  Quiet-Spent g m m' q h = grind arith

  start-Spent :
      (g : ℕ) (m : Manager S W) → IsWellformed true m → Spent g m → Spent g (step b speech_start m)
  unfolding step
  start-Spent g m w h = let e = start-generation b true m w in ground (arith, e)

  -- What the rest of the calls can accept, given what holds before them.
  module _ (cs : List (Call X))
      (later : (g : ℕ) (m : Manager S W)
        → IsWellformed true m
        → Spent g m
        → Rises g (finals cs m)) where
    after-Quiet :
        (c : Call X) (g : ℕ) (m : Manager S W)
        → Quiet m (step b c m)
        → accepted_of c m ≡ []
        → IsWellformed true m
        → Spent g m
        → Rises g (finals (c ∷ cs) m)
    unfolding finals
    after-Quiet c g m q e w h = rw e (
        later g (step b c m) (step-IsWellformed b true c m (λ e. refl) w)
          (Quiet-Spent g m (step b c m) q h))

    after_start :
        (g : ℕ) (m : Manager S W)
        → IsWellformed true m
        → Spent g m
        → Rises g (finals (speech_start ∷ cs) m)
    unfolding finals accepted_of
    after_start g m w h =
        later g (step b speech_start m) (step-IsWellformed b true speech_start m (λ e. refl) w)
          (start-Spent g m w h)

    after_eos :
        (n g : ℕ) (m : Manager S W)
        → IsWellformed true m
        → Spent g m
        → Rises g (finals (eos n ∷ cs) m)
    unfolding finals accepted_of step
    after_eos n g m w h =
        let r = finalize_with_status b n m in
        let k = finalize-Keeps b true n m w in
        let quiet : Quiet m r.0 = (k.1, λ p. ap (λ t. t.0.state) (finalize-idle b n m p) ∙ p) in
        if_intro (λ l. Rises g (l ++ finals cs r.0)) r.1.accepted (r.1 ∷ []) []
          (λ e.
            let a = finalize_accepted b n m e in
            (ground (arith, a), later r.1.generation r.0 k.0 (omega (arith, a.2, a.5), inl a.3)))
          (λ e. later g r.0 k.0 (Quiet-Spent g m r.0 quiet h))

  ends : (g : ℕ) (m : Manager S W) → Rises g (finals [] m)
  unfolding finals
  ends g m = tt

  finals-Rises :
      (cs : List (Call X)) (g : ℕ) (m : Manager S W)
      → HasNoFault cs
      → IsWellformed true m
      → Spent g m
      → Rises g (finals cs m)
  unfolding step accepted_of
  finals-Rises [] g m n w h = ends g m
  finals-Rises (speech_start ∷ cs) g m n w h = after_start cs (λ g m. finals-Rises cs g m n) g m w h
  finals-Rises (poll ∷ cs) g m n w h =
      after-Quiet cs (λ g m. finals-Rises cs g m n) poll g m
        ((partial-Keeps b true m w).1, λ p. ap (λ t. t.0.state) (partial-idle b m p) ∙ p) refl w h
  finals-Rises (abort i ∷ cs) g m n w h =
      after-Quiet cs (λ g m. finals-Rises cs g m n) (abort i) g m
        ((cancel-Keeps b true i m (λ e. refl) w).1, cancel-idle b i m) refl w h
  finals-Rises (audio x ∷ cs) g m n w h =
      after-Quiet cs (λ g m. finals-Rises cs g m n) (audio x) g m
        (
          (accept_audio-Keeps b true x m w).1,
          λ p. ap (λ t. t.state) (accept_audio-idle b x m p) ∙ p,
        )
        refl w h
  finals-Rises (eou o ∷ cs) g m n w h =
      after-Quiet cs (λ g m. finals-Rises cs g m n) (eou o) g m
        ((prepare-Keeps b true o m w).1, λ p. ap (λ t. t.0.state) (prepare-idle b o m p) ∙ p) refl w
        h
  finals-Rises (eos k ∷ cs) g m n w h = after_eos cs (λ g m. finals-Rises cs g m n) k g m w h
  finals-Rises (fault e ∷ cs) g m n w h = absurd n

  -- From a new manager, the results that any sequence of calls accepts, `mark_error` left out, are of
  -- rising generations: at most one for an utterance, and none of an earlier one after a later one.
  pub one_final_per_generation :
      (cs : List (Call X)) (w : W) → HasNoFault cs → Rises 0 (finals cs (init w))
  unfolding init
  one_final_per_generation cs w n =
      finals-Rises cs 0 (init w) n (record { holds = tt; settled = refl }) (omega arith, inl refl)

  -- `mark_error` makes an idle manager active, in the same generation, if the backend gives a stream.
  pub mark_error_revives :
      (e : Exn) (m : Manager S W) (s : S)
      → IsWellformed true m
      → m.state ≡ idle
      → (b.create_stream m.world).0 ≡ returned s
      → ((mark_error b e m).state ≡ active)
        × ((mark_error b e m).stream ≡ some s)
        × ((mark_error b e m).generation ≡ m.generation)
  unfolding mark_error
  mark_error_revives e m s w p h =
      handle_error_revives b e (record m { last_error = some e }) s
        (Holds-idle_stream true m.stream (rw p at w.holds)) w.settled h
