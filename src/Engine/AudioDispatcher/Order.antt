-- ===== src/Engine/AudioDispatcher/Order.antt =====
-- What the manager is fed.
use voxedge.Base.{
  ℕ, ◌≡◌, refl, ap, sym, ◌∙◌, Bool, true, false, not, ◌&&◌, ◌||◌, inl, inr, List, [], ◌∷◌, ◌++◌,
  arith, is_empty, ltb, if_intro, append_assoc, append-nil,
}
use mathlib.Core.Path.{subst}
use mathlib.Core.List.Sublistᴰ
use mathlib.Core.List.{Sublistᴰ}
use voxedge.Engine.SessionState.{SessionState, vad, stamp_endpoint}
use voxedge.Engine.AudioDispatcher.{
  VadEvent, quiet, speech_start, speech_end, Started, opened, unavailable, failed, Event, vad_start,
  vad_end, Host, Dispatcher, Next, goes_on, stops, Opening, open_turned, refused, raises,
  concatenate, yielded, send, accept, turn_opened, open_turn, latch, feed, replay, after_start,
  after_lazy_open, on_vad, on_frame, run,
}
use voxedge.Engine.AudioDispatcher.Sound.{
  IsSound, IsIdle, Inv, more-Inv, push-Inv, state-Inv, nothing_kept, replayed,
}

abbrev pub arrived : {S : Type 0} → List (List S × VadEvent) → List S
arrived [] = []
arrived (f ∷ fs) = f.0 ++ arrived fs

abbrev pub fresh : {S : Type 0} → SessionState → Dispatcher S
fresh s = record { state = s; preroll = []; preroll_samples = 0; fed = []; events = []; awaits = 0 }

module _ {S : Type 0} (h : Host)
    (never_opens : (n : ℕ) (s : SessionState)
      → s.asr_active ≡ false
      → (h.others n s).asr_active ≡ false) where
  yielded-IsIdle : (d : Dispatcher S) → IsIdle h d → IsIdle h (yielded h d)
  yielded-IsIdle d (inl e) = inl (never_opens d.awaits d.state e)
  yielded-IsIdle d (inr e) = inr e

  yielded-Inv : (r : List S) (d : Dispatcher S) → Inv h r d → Inv h r (yielded h d)
  yielded-Inv r d v = (
    record { ring = v.0.ring; in_order = v.0.in_order; with_vad = v.0.with_vad },
    yielded-IsIdle d v.1,
  )

  accept-Inv :
      (r s : List S) (d : Dispatcher S)
      → IsSound h r d
      → d.preroll ≡ []
      → Inv h (r ++ s) (accept h s d)
  accept-Inv r s d v e = (
    record {
      ring = v.ring;
      in_order = rw e (rw (append-nil (d.fed ++ s)) (Sublistᴰ.append fed (Sublistᴰ.refl s)));
      with_vad = v.with_vad;
    },
    inr e,
  )
    where
      fed : Sublistᴰ d.fed r
      fed =
          subst (λ l. Sublistᴰ l r) (ap (λ p. d.fed ++ concatenate p) e ∙ append-nil d.fed)
            v.in_order

  send-Inv : (r : List S) (e : Event) (d : Dispatcher S) → Inv h r d → Inv h r (send h e d)
  send-Inv r e d v =
      yielded-Inv r (record d { events = e ∷ d.events })
        (record { ring = v.0.ring; in_order = v.0.in_order; with_vad = v.0.with_vad }, v.1)

  latch-Inv : (r : List S) (ended : Bool) (d : Dispatcher S) → Inv h r d → Inv h r (latch h ended d)
  unfolding latch
  latch-Inv r ended d v =
      let stamped : Dispatcher S = record d { state = stamp_endpoint vad d.state } in
      let v' =
        if_intro {A = Dispatcher S} (Inv h r) h.multi stamped
          (record stamped { state = record stamped.state { asr_session_closed = true } })
          (λ _. state-Inv h r d _ refl v) (λ _. state-Inv h r d _ refl v) in
      if_intro {A = Dispatcher S} (Inv h r) ended _ _ (λ _. send-Inv r vad_end _ v') (λ _. v)

  feed-Inv :
      (r s : List S) (ended : Bool) (d : Dispatcher S)
      → Inv h r d
      → Inv h (r ++ s) (feed h s ended d)
  unfolding feed
  feed-Inv r s ended d v = latch-Inv (r ++ s) ended _ (
      if_intro {A = Dispatcher S} (Inv h (r ++ s)) d.state.asr_active _ _
        (λ on. accept-Inv r s d v.0 (nothing_kept h d on v.1))
        (λ off.
          if_intro {A = Dispatcher S} (Inv h (r ++ s)) (h.has_vad && ltb 0 h.preroll_cap) _ _
            (λ k. push-Inv h r s d (ground (arith, k)) off v.0) (λ _. more-Inv h r s d v)))

  replay-Inv : (r : List S) (d : Dispatcher S) → IsSound h r d → Inv h r (replay h d)
  unfolding replay
  replay-Inv r d v =
      if_intro {A = Dispatcher S} (λ x. Inv h r (record x { preroll = []; preroll_samples = 0 }))
        (not (is_empty d.preroll) && d.state.asr_active) _ _
        (λ _. replayed h r (accept h (concatenate d.preroll) d) v.in_order)
        (λ _. replayed h r d (
          Sublistᴰ.trans
            (subst (λ l. Sublistᴰ l (d.fed ++ concatenate d.preroll)) (append-nil d.fed)
              (Sublistᴰ.append (Sublistᴰ.refl d.fed)
                (Sublistᴰ.nil-sublist (concatenate d.preroll))))
            v.in_order))

  -- A turn that was opened is sound, and one that was refused may go on.
  abbrev Opens : List S → Opening S → Type 0
  Opens r (open_turned d) = IsSound h r d
  Opens r (refused d) = Inv h r d
  Opens r (raises d) = Inv h r d

  turn_opened-Opens :
      (r : List S) (a : Started) (d : Dispatcher S) → Inv h r d → Opens r (turn_opened h a d)
  unfolding turn_opened
  turn_opened-Opens r (opened gen) d v = record {
    ring = v.0.ring;
    in_order = v.0.in_order;
    with_vad = v.0.with_vad;
  }
  turn_opened-Opens r (unavailable saturated) d v =
      send-Inv r _ _
        (record { ring = v.0.ring; in_order = v.0.in_order; with_vad = v.0.with_vad }, inl refl)
  turn_opened-Opens r (failed true) d v =
      (record { ring = v.0.ring; in_order = v.0.in_order; with_vad = v.0.with_vad }, inl refl)
  turn_opened-Opens r (failed false) d v = v

  abbrev After : List S → Next S → Type 0
  After r (goes_on d) = Inv h r d
  After r (stops d) = Inv h r d

  after_start-After :
      (r s : List S) (o : Opening S) → Opens r o → After (r ++ s) (after_start h s o)
  unfolding after_start
  after_start-After r s (open_turned d) v = feed-Inv r s false _ (replay-Inv r d v)
  after_start-After r s (refused d) v = more-Inv h r s d v
  after_start-After r s (raises d) v = more-Inv h r s _ (state-Inv h r d _ refl v)

  lazily-IsIdle : (r : List S) (d : Dispatcher S) → h.has_vad ≡ false → IsSound h r d → Inv h r d
  lazily-IsIdle r d k v =
      (v, elim v.with_vad [ inl e ↦ absurd (ground (arith, e, k)) | inr e ↦ inr e ])

  after_lazy_open-After :
      (r s : List S) (o : Opening S)
      → h.has_vad ≡ false
      → Opens r o
      → After (r ++ s) (after_lazy_open h s o)
  unfolding after_lazy_open
  after_lazy_open-After r s (open_turned d) k v = feed-Inv r s false d (lazily-IsIdle r d k v)
  after_lazy_open-After r s (refused d) k v = more-Inv h r s d v
  after_lazy_open-After r s (raises d) k v = more-Inv h r s _ (state-Inv h r d _ refl v)

  open_turn-Opens : (r : List S) (d : Dispatcher S) → Inv h r d → Opens r (open_turn h d)
  unfolding open_turn
  open_turn-Opens r d v = turn_opened-Opens r _ _ (yielded-Inv r d v)

  on_vad-After :
      (r s : List S) (e : VadEvent) (d : Dispatcher S) → Inv h r d → After (r ++ s) (on_vad h s e d)
  unfolding on_vad
  on_vad-After r s quiet d v = feed-Inv r s false d v
  on_vad-After r s speech_end d v = feed-Inv r s true d v
  on_vad-After r s speech_start d v =
      after_start-After r s _
        (open_turn-Opens r _ (yielded-Inv r _ (state-Inv h r _ _ refl (send-Inv r vad_start d v))))

  on_frame-After :
      (r s : List S) (e : VadEvent) (d : Dispatcher S)
      → Inv h r d
      → After (r ++ s) (on_frame h (s, e) d)
  unfolding on_frame
  on_frame-After r s e d v =
      if_intro (After (r ++ s)) d.state.client_closed _ _ (λ _. more-Inv h r s d v)
        (λ _.
          if_intro (After (r ++ s)) (not h.asr_enabled || d.state.asr_session_closed) _ _
            (λ _. more-Inv h r s d v)
            (λ _.
              if_intro (After (r ++ s)) h.has_vad _ _ (λ _. on_vad-After r s e d v)
                (λ k.
                  if_intro (After (r ++ s)) d.state.asr_active _ _ (λ _. feed-Inv r s false d v)
                    (λ _. after_lazy_open-After r s _ k (open_turn-Opens r d v)))))

  next-Inv :
      (r s : List S) (fs : List (List S × VadEvent)) (x : Next S)
      → ((r' : List S) (d : Dispatcher S) → Inv h r' d → Inv h (r' ++ arrived fs) (run h fs d))
      → After (r ++ s) x
      → Inv h (r ++ (s ++ arrived fs)) (elim x [ goes_on d' ↦ run h fs d' | stops d' ↦ d' ])
  next-Inv r s fs (goes_on d) k v =
      subst (λ l. Inv h l (run h fs d)) (append_assoc r s (arrived fs)) (k (r ++ s) d v)
  next-Inv r s fs (stops d) k v =
      subst (λ l. Inv h l d) (append_assoc r s (arrived fs)) (more-Inv h (r ++ s) (arrived fs) d v)

  run-Inv :
      (fs : List (List S × VadEvent)) (r : List S) (d : Dispatcher S)
      → Inv h r d
      → Inv h (r ++ arrived fs) (run h fs d)
  unfolding run
  run-Inv [] r d v = subst (λ l. Inv h l d) (sym (append-nil r)) v
  run-Inv (f ∷ fs) r d v =
      next-Inv r f.0 fs (on_frame h f (yielded h d)) (run-Inv fs)
        (on_frame-After r f.0 f.1 (yielded h d) (yielded-Inv r d v))

  -- Whatever frames arrive and whatever else other tasks do, where none of them opens a turn: the samples
  -- that were fed, and after them those that are kept for the next turn, are in the order in which they
  -- arrived and none is twice among them; those that are kept are counted right and are within the cap,
  -- unless they are one frame; and without a VAD none are kept.
  pub run-IsSound :
      (fs : List (List S × VadEvent)) (s : SessionState)
      → IsSound h (arrived fs) (run h fs (fresh s))
  run-IsSound fs s =
      (run-Inv fs [] (fresh s) (
        record { ring = (refl, inl (omega arith)); in_order = Sublistᴰ.slnil; with_vad = inr refl },
        inr refl,
      )).0
