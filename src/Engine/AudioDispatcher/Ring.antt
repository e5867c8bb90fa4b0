-- ===== src/Engine/AudioDispatcher/Ring.antt =====
-- The frames that are kept before speech.
use voxedge.Base.{
  ℕ, ◌-◌, ◌≤◌, ◌≡◌, refl, ap, sym, ◌∙◌, ◌⊎◌, inl, inr, List, [], ◌∷◌, ◌++◌, arith, length,
  length-append, ltb, ltb→le, if_intro, append_assoc,
}
use mathlib.Core.List.Sublistᴰ
use mathlib.Core.List.{Sublistᴰ}
use voxedge.Engine.AudioDispatcher.{concatenate, trim}

module _ {S : Type 0} where
  -- The count is that of the samples, and is within the cap unless one frame is left.
  abbrev pub IsRing : ℕ → List (List S) × ℕ → Type 0
  IsRing limit r = (r.1 ≡ length (concatenate r.0)) × ((r.1 ≤ limit) ⊎ (length r.0 ≤ 1))

  pub trim-IsRing :
      (limit count : ℕ) (fs : List (List S))
      → count ≡ length (concatenate fs)
      → IsRing limit (trim limit count fs)
  unfolding trim
  trim-IsRing limit count [] e = (e, inr (omega arith))
  trim-IsRing limit count (f ∷ []) e = (e, inr (omega arith))
  trim-IsRing limit count (f ∷ (g ∷ fs)) e =
      if_intro {A = List (List S) × ℕ} (IsRing limit) (ltb limit count) _ _
        (λ _.
          trim-IsRing limit (count - length f) (g ∷ fs)
            (omega (arith, e, length-append f (concatenate (g ∷ fs)))))
        (λ k. (e, inl (ltb→le limit count k)))

  pub concatenate-append :
      (fs : List (List S)) (f : List S) → concatenate (fs ++ (f ∷ [])) ≡ concatenate fs ++ (f ++ [])
  concatenate-append [] f = refl
  concatenate-append (g ∷ fs) f =
      ap (λ l. g ++ l) (concatenate-append fs f) ∙ sym (append_assoc g (concatenate fs) (f ++ []))

  pub trim-sublist :
      (limit count : ℕ) (fs : List (List S))
      → Sublistᴰ (concatenate (trim limit count fs).0) (concatenate fs)
  unfolding trim
  trim-sublist limit count [] = Sublistᴰ.refl []
  trim-sublist limit count (f ∷ []) = Sublistᴰ.refl (f ++ [])
  trim-sublist limit count (f ∷ (g ∷ fs)) =
      if_intro {A = List (List S) × ℕ}
        (λ r. Sublistᴰ (concatenate r.0) (concatenate (f ∷ (g ∷ fs)))) (ltb limit count) _ _
        (λ _.
          Sublistᴰ.append (Sublistᴰ.nil-sublist f) (trim-sublist limit (count - length f) (g ∷ fs)))
        (λ _. Sublistᴰ.refl (concatenate (f ∷ (g ∷ fs))))
