-- ===== src/Engine/AsrManager/Start.antt =====
-- What `on_speech_start` leaves.
use voxedge.Base.{Bool, ◌+◌, ◌≡◌, refl, ap, ◌∙◌, false, Option, none, some, if_intro, ◌||◌}
use voxedge.Engine.AsrWorker.{Exn, Outcome, returned, raised, Backend}
use voxedge.Engine.AsrRecovery.{
  Manager, completes, idle, active, is_active, is_finalizing, inner_cancel,
}
use voxedge.Engine.AsrRecovery.Wellformed.{
  IsWellformed, Holds-idle, handle_error-IsWellformed, inner_cancel-IsWellformed,
}
use voxedge.Engine.AsrManager.{
  SpeechStart, opened, unavailable, on_speech_start, speech_created, speech_rebuilt,
}

module _ {S W X : Type 0} (b : Backend S W X) (cut : Bool) where
  -- A new utterance opens in the next generation.
  abbrev pub Started : Manager S W → Manager S W × SpeechStart → Type 0
  Started m (m', opened g) =
      (m'.state ≡ active) × (g ≡ m.generation + 1) × (m'.generation ≡ m.generation + 1)
  Started m (m', unavailable e) = (m'.state ≡ idle) × (m'.generation ≡ m.generation + 1)

  speech_rebuilt-Started :
      (e : Exn) (o : Option S) (m m' : Manager S W)
      → m'.stream ≡ o
      → m'.recovery_in_progress ≡ false
      → m'.generation ≡ m.generation + 1
      → IsWellformed cut (speech_rebuilt b e o m').0 × Started m (speech_rebuilt b e o m')
  unfolding speech_rebuilt
  speech_rebuilt-Started e none m m' p r g =
      (record { holds = Holds-idle cut refl p; settled = r }, (refl, g))
  speech_rebuilt-Started e (some s) m m' p r g =
      (record { holds = rw p tt; settled = r }, (refl, g, g))

  speech_created-Started :
      (o : Outcome S × W) (m m' : Manager S W)
      → m'.recovery_in_progress ≡ false
      → m'.generation ≡ m.generation + 1
      → IsWellformed cut (speech_created b o m').0 × Started m (speech_created b o m')
  unfolding speech_created
  speech_created-Started (returned s, w) m m' r g =
      (record { holds = tt; settled = r }, (refl, g, g))
  speech_created-Started (raised e, w) m m' r g =
      let f = handle_error-IsWellformed b cut e (record m' { world = w }) r in
      speech_rebuilt-Started e _ m _ refl (f.0).settled (f.1 ∙ g)

  pub on_speech_start-IsWellformed :
      (m : Manager S W)
      → IsWellformed cut m
      → IsWellformed cut (on_speech_start b m).0 × Started m (on_speech_start b m)
  unfolding on_speech_start
  on_speech_start-IsWellformed m h =
      let m₁ = record m { abort_epoch = m.abort_epoch + 1 } in
      let ended =
        if_intro {A = Manager S W}
          (λ m'. (m'.recovery_in_progress ≡ false) × (m'.generation ≡ m.generation))
          (is_active m.state || is_finalizing m.state) (inner_cancel b completes m₁) m₁
          (λ e.
            let c =
              inner_cancel-IsWellformed b cut completes m₁ (λ e. absurd (cc e))
                (record { holds = h.holds; settled = h.settled }) in
            ((c.0).settled, c.2))
          (λ e. (h.settled, refl)) in
      speech_created-Started _ m _ ended.0 (ap (λ g. g + 1) ended.1)

  Started-generation :
      (m : Manager S W) (r : Manager S W × SpeechStart)
      → Started m r
      → r.0.generation ≡ m.generation + 1
  Started-generation m (m', opened g) h = h.2
  Started-generation m (m', unavailable e) h = h.1

  pub start-generation :
      (m : Manager S W) → IsWellformed cut m → (on_speech_start b m).0.generation ≡ m.generation + 1
  start-generation m h =
      Started-generation m (on_speech_start b m) (on_speech_start-IsWellformed m h).1
