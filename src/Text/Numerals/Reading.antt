-- ===== src/Text/Numerals/Reading.antt =====
-- What a listener makes of one more digit, with its weight.
use voxedge.Base.{
  ℕ, zero, suc, ◌+◌, ◌*◌, ◌^◌, ◌<◌, ◌≡◌, refl, ap, ◌∙◌, [], ◌∷◌, ◌++◌, arith, ◌==◌, Bool, true,
  false, if◌then◌else◌,
}
use voxedge.Text.Strip.{Text}
use voxedge.Text.Numerals.{
  cn_digits, cn_units, cn_groups, value_of, minus, silence, reading, char_at, text_at, glyph, Heard,
  hear, hear_glyph, heard,
}

pub hear-append : (h : Heard) (s t : Text) → hear h (s ++ t) ≡ hear (hear h s) t
unfolding hear
hear-append h [] t = refl
hear-append h (c ∷ s) t = hear-append (hear_glyph h (glyph c)) s t

pub hear-nil : (h : Heard) → hear h [] ≡ h
unfolding hear
hear-nil h = refl

-- A digit replaces the last one.
pub hear-digit :
    (neg : Bool) (t g l d : ℕ)
    → d < 10
    → hear (heard neg t g l) (char_at cn_digits d) ≡ heard neg t g d
unfolding hear
hear-digit neg t g l zero e = refl
hear-digit neg t g l (suc zero) e = refl
hear-digit neg t g l (suc (suc zero)) e = refl
hear-digit neg t g l (suc (suc (suc zero))) e = refl
hear-digit neg t g l (suc (suc (suc (suc zero)))) e = refl
hear-digit neg t g l (suc (suc (suc (suc (suc zero))))) e = refl
hear-digit neg t g l (suc (suc (suc (suc (suc (suc zero)))))) e = refl
hear-digit neg t g l (suc (suc (suc (suc (suc (suc (suc zero))))))) e = refl
hear-digit neg t g l (suc (suc (suc (suc (suc (suc (suc (suc zero)))))))) e = refl
hear-digit neg t g l (suc (suc (suc (suc (suc (suc (suc (suc (suc zero))))))))) e = refl
hear-digit neg t g l (suc (suc (suc (suc (suc (suc (suc (suc (suc (suc n)))))))))) e =
    absurd (omega arith)

not_zero : (n : ℕ) → (suc n == 0) ≡ false
not_zero n = ground arith

-- A weight multiplies the digit before it.
hear-unit :
    (neg : Bool) (t g d p : ℕ)
    → 0 < d
    → 0 < p
    → p < 4
    → hear (heard neg t g d) (text_at cn_units p) ≡ heard neg t (g + d * 10 ^ p) 0
unfolding hear
hear-unit neg t g zero p hd hp l = absurd (omega arith)
hear-unit neg t g (suc d) zero hd hp l = absurd (omega arith)
hear-unit neg t g (suc d) (suc zero) hd hp l = rw (not_zero d) refl
hear-unit neg t g (suc d) (suc (suc zero)) hd hp l = rw (not_zero d) refl
hear-unit neg t g (suc d) (suc (suc (suc zero))) hd hp l = rw (not_zero d) refl
hear-unit neg t g (suc d) (suc (suc (suc (suc p)))) hd hp l = absurd (omega arith)

pub hear-weighted :
    (neg : Bool) (t g l d p : ℕ)
    → 0 < d
    → d < 10
    → 0 < p
    → p < 4
    → hear (heard neg t g l) (char_at cn_digits d ++ text_at cn_units p)
      ≡ heard neg t (g + d * 10 ^ p) 0
hear-weighted neg t g l d p hd ld hp lp =
    hear-append (heard neg t g l) (char_at cn_digits d) (text_at cn_units p)
    ∙ ap (λ h. hear h (text_at cn_units p)) (hear-digit neg t g l d ld)
    ∙ hear-unit neg t g d p hd hp lp

-- Readings of a text that is one of two.
pub hear_if :
    (h k : Heard) (b : Bool) (s t : Text)
    → hear h s ≡ k
    → hear h t ≡ k
    → hear h (if b then s else t) ≡ k
hear_if h k true s t e f = e
hear_if h k false s t e f = f

-- A weight of groups multiplies what was heard since the last one.
pub hear-big :
    (neg : Bool) (t g l i : ℕ)
    → 0 < i
    → i < 4
    → hear (heard neg t g l) (text_at cn_groups i) ≡ heard neg (t + (g + l) * 10000 ^ i) 0 0
unfolding hear
hear-big neg t g l zero hi li = absurd (omega arith)
hear-big neg t g l (suc zero) hi li = refl
hear-big neg t g l (suc (suc zero)) hi li = refl
hear-big neg t g l (suc (suc (suc zero))) hi li = refl
hear-big neg t g l (suc (suc (suc (suc i)))) hi li = absurd (omega arith)

pub reading_lem : (neg : Bool) (t g l : ℕ) → reading (heard neg t g l) ≡ (neg, t + g + l)
unfolding value_of
reading_lem neg t g l = refl

pub hear-minus : (t : Text) → hear silence (minus ∷ t) ≡ hear (heard true 0 0 0) t
unfolding hear
hear-minus t = refl
