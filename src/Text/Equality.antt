-- ===== src/Text/Equality.antt =====
-- `==` on texts.
use voxedge.Base.{ℕ, ◌≡◌, refl, Bool, true, false, ◌&&◌, List, [], ◌∷◌, arith, ◌==◌}

unfoldable pub same_text : List ℕ → List ℕ → Bool
same_text [] [] = true
same_text (c ∷ t) (d ∷ u) = c == d && same_text t u
same_text _ _ = false

pub same_text→≡ : (t u : List ℕ) → same_text t u ≡ true → t ≡ u
unfolding same_text
same_text→≡ [] [] e = refl
same_text→≡ (c ∷ t) (d ∷ u) e = ground (arith, e, same_text→≡ t u)
same_text→≡ [] (d ∷ u) e = absurd (ground (arith, e))
same_text→≡ (c ∷ t) [] e = absurd (ground (arith, e))

pub same_text_refl : (t : List ℕ) → same_text t t ≡ true
unfolding same_text
same_text_refl [] = refl
same_text_refl (c ∷ t) = ground (arith, same_text_refl t)
