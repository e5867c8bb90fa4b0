-- ===== src/Engine/SpokenNumbers/Groups.antt =====
-- What a listener makes of a group of four digits.
use voxedge.Base.{
  ℕ, ◌+◌, ◌*◌, ◌/◌, ◌%◌, ◌^◌, ◌<◌, ◌≡◌, ap, ◌∙◌, inl, inr, Bool, true, false, [], ◌++◌, append-nil,
  arith, ◌==◌, if◌then◌else◌, Bool-cases,
}
use voxedge.Text.Strip.{Text}
use voxedge.Text.Numerals.{cn_digits, cn_units, char_at, text_at, heard, hear}
use voxedge.Text.Numerals.Reading.{hear-nil, hear-append, hear-digit, hear-weighted}
use voxedge.Engine.SpokenNumbers.{Spoken, speak_digit, under_ten_thousand, zero_text}

-- A zero before a digit is not heard.
hear-zero_if :
    (neg : Bool) (t g : ℕ) (b : Bool)
    → hear (heard neg t g 0) (if b then zero_text else []) ≡ heard neg t g 0
hear-zero_if neg t g true = hear-digit neg t g 0 0 (omega arith)
hear-zero_if neg t g false = hear-nil (heard neg t g 0)

nothing_said : (neg : Bool) (t g d w : ℕ) → d ≡ 0 → heard neg t g 0 ≡ heard neg t (g + d * w) 0
nothing_said neg t g d w e = rw e (ap (λ x. heard neg t x 0) (omega arith))

module _ (neg : Bool) (t value : ℕ) where
  -- What was spoken is heard as a group.
  abbrev Says : Spoken → ℕ → Type 0
  Says s g = hear (heard neg t 0 0) s.out ≡ heard neg t g 0

  -- What is spoken before a digit, and then the digit.
  digit-heard :
      (s : Spoken) (g : ℕ) (more : Text)
      → Says s g
      → hear (heard neg t 0 0) ((s.out ++ (if s.pending_zero then zero_text else [])) ++ more)
        ≡ hear (heard neg t g 0) more
  digit-heard s g more e =
      hear-append (heard neg t 0 0) (s.out ++ (if s.pending_zero then zero_text else [])) more
      ∙ ap (λ h. hear h more)
          (hear-append (heard neg t 0 0) s.out (if s.pending_zero then zero_text else [])
            ∙ ap (λ h. hear h (if s.pending_zero then zero_text else [])) e
            ∙ hear-zero_if neg t g s.pending_zero)

  speak_digit-Says :
      (p : ℕ) (s : Spoken) (g : ℕ)
      → 0 < p
      → p < 4
      → Says s g
      → Says (speak_digit value p s) (g + value / 10 ^ p % 10 * 10 ^ p)
  unfolding speak_digit
  speak_digit-Says p s g hp lp e =
      let d : ℕ = value / 10 ^ p % 10 in
      elim (Bool-cases (d == 0)) [
        | inl z ↦ rw z (e ∙ nothing_said neg t g d (10 ^ p) (ground arith))
        | inr n ↦
            rw (n, not_zero p hp)
              (digit-heard s g (char_at cn_digits d ++ text_at cn_units p) e
                ∙ hear-weighted neg t g 0 d p (ground arith) (omega arith) hp lp)
      ]
    where
      not_zero : (p : ℕ) → 0 < p → (p == 0) ≡ false
      not_zero p h = ground arith

  last-Says :
      (s : Spoken) (g : ℕ)
      → Says s g
      → hear (heard neg t 0 0) (speak_digit value 0 s).out ≡ heard neg t g (value % 10)
  unfolding speak_digit
  last-Says s g e =
      let d : ℕ = value / 10 ^ 0 % 10 in
      elim (Bool-cases (d == 0)) [
        | inl z ↦ rw z (e ∙ ap (λ x. heard neg t g x) (ground arith))
        | inr n ↦ rw n (
            digit-heard s g (char_at cn_digits d ++ []) e
            ∙ ap (λ l. hear (heard neg t g 0) l) (append-nil (char_at cn_digits d))
            ∙ hear-digit neg t g 0 d (omega arith)
            ∙ ap (λ x. heard neg t g x) (omega arith))
      ]

  -- A group of four digits is heard as its number, the last digit apart.
  pub hear-under_ten_thousand :
      hear (heard neg t 0 0) (under_ten_thousand value)
      ≡ heard neg t
          (value / 1000 % 10 * 1000 + value / 100 % 10 * 100 + value / 10 % 10 * 10)
          (value % 10)
  unfolding under_ten_thousand
  hear-under_ten_thousand =
      let s3 : Spoken = record { out = []; pending_zero = false } in
      let s2 = speak_digit value 3 s3 in
      let s1 = speak_digit value 2 s2 in
      let g3 = 0 + value / 10 ^ 3 % 10 * 10 ^ 3 in
      let g2 = g3 + value / 10 ^ 2 % 10 * 10 ^ 2 in
      let e3 = speak_digit-Says 3 s3 0 (omega arith) (omega arith) (hear-nil (heard neg t 0 0)) in
      let e2 = speak_digit-Says 2 s2 g3 (omega arith) (omega arith) e3 in
      let e1 = speak_digit-Says 1 s1 g2 (omega arith) (omega arith) e2 in
      last-Says (speak_digit value 1 s1) (g2 + value / 10 ^ 1 % 10 * 10 ^ 1) e1
      ∙ ap (λ g. heard neg t g (value % 10)) (omega arith)
