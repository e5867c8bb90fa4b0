-- ===== src/Engine/AudioDispatcher/Sound.antt =====
-- Samples that are fed or kept, in order.
use voxedge.Base.{
  ◌+◌, ◌≡◌, refl, ap, sym, ◌∙◌, true, false, ◌⊎◌, inl, inr, List, [], ◌∷◌, ◌++◌, arith, length,
  length-append, append_assoc, append-nil,
}
use mathlib.Core.Path.{subst}
use mathlib.Core.List.Sublistᴰ
use mathlib.Core.List.{Sublistᴰ}
use voxedge.Engine.SessionState.{SessionState}
use voxedge.Engine.AudioDispatcher.{Host, Dispatcher, concatenate, trim, push}
use voxedge.Engine.AudioDispatcher.Ring.{IsRing, trim-IsRing, concatenate-append, trim-sublist}

module _ {S : Type 0} (h : Host) where
  -- Of the samples `r` that arrived, those that were fed and those that are kept, in this order, are a
  -- sublist; without a VAD none are kept.
  pub record IsSound (r : List S) (d : Dispatcher S) : Type 0 where
    pub ring : IsRing h.preroll_cap (d.preroll, d.preroll_samples)
    pub in_order : Sublistᴰ (d.fed ++ concatenate d.preroll) r
    pub with_vad : (h.has_vad ≡ true) ⊎ (d.preroll ≡ [])

  -- Within a turn nothing is kept.
  abbrev pub IsIdle : Dispatcher S → Type 0
  IsIdle d = (d.state.asr_active ≡ false) ⊎ (d.preroll ≡ [])

  abbrev pub Inv : List S → Dispatcher S → Type 0
  Inv r d = IsSound r d × IsIdle d

  -- More samples arrive.
  pub more : (s : List S) {x r : List S} → Sublistᴰ x r → Sublistᴰ x (r ++ s)
  more s {x} {r} p =
      subst (λ l. Sublistᴰ l (r ++ s)) (append-nil x) (Sublistᴰ.append p (Sublistᴰ.nil-sublist s))

  pub more-Inv : (r s : List S) (d : Dispatcher S) → Inv r d → Inv (r ++ s) d
  more-Inv r s d v =
      (record { ring = v.0.ring; in_order = more s v.0.in_order; with_vad = v.0.with_vad }, v.1)

  pub push-Inv :
      (r s : List S) (d : Dispatcher S)
      → h.has_vad ≡ true
      → d.state.asr_active ≡ false
      → IsSound r d
      → Inv (r ++ s) (push h s d)
  unfolding push
  push-Inv r s d k off v =
      let kept = trim h.preroll_cap (d.preroll_samples + length s) (d.preroll ++ (s ∷ [])) in
      let joined : concatenate (d.preroll ++ (s ∷ [])) ≡ concatenate d.preroll ++ s =
        concatenate-append d.preroll s ∙ ap (λ l. concatenate d.preroll ++ l) (append-nil s) in
      (
        record {
          ring =
              trim-IsRing h.preroll_cap _ (d.preroll ++ (s ∷ [])) (
                omega (arith, v.ring.0, length-append (concatenate d.preroll) s, ap length joined));
          in_order =
              Sublistᴰ.trans
                (Sublistᴰ.append (Sublistᴰ.refl d.fed) (
                  trim-sublist h.preroll_cap (d.preroll_samples + length s)
                    (d.preroll ++ (s ∷ []))))
                (rw joined (
                  rw (sym (append_assoc d.fed (concatenate d.preroll) s))
                    (Sublistᴰ.append v.in_order (Sublistᴰ.refl s))));
          with_vad = inl k;
        },
        inl off,
      )

  pub state-Inv :
      (r : List S) (d : Dispatcher S) (s : SessionState)
      → s.asr_active ≡ d.state.asr_active
      → Inv r d
      → Inv r (record d { state = s })
  state-Inv r d s e (v, inl off) =
      (record { ring = v.ring; in_order = v.in_order; with_vad = v.with_vad }, inl (e ∙ off))
  state-Inv r d s e (v, inr p) =
      (record { ring = v.ring; in_order = v.in_order; with_vad = v.with_vad }, inr p)

  pub nothing_kept : (d : Dispatcher S) → d.state.asr_active ≡ true → IsIdle d → d.preroll ≡ []
  nothing_kept d on (inl off) = absurd (ground (arith, on, off))
  nothing_kept d on (inr e) = e

  -- The frames before speech are fed or dropped.
  pub replayed :
      (r : List S) (d : Dispatcher S)
      → Sublistᴰ d.fed r
      → Inv r (record d { preroll = []; preroll_samples = 0 })
  replayed r d p = (
    record {
      ring = (refl, inl (omega arith));
      in_order = rw (append-nil d.fed) p;
      with_vad = inr refl;
    },
    inr refl,
  )
