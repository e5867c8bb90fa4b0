-- ===== src/Engine/SpokenNumbers/RoundTrip.antt =====
-- The numeral that is spoken for a number is heard as the number.
use voxedge.Base.{
  ℕ, zero, suc, ◌+◌, ◌-◌, ◌*◌, ◌/◌, ◌%◌, ◌^◌, ◌≤◌, ◌<◌, ◌≡◌, refl, ap, ◌∙◌, inl, inr, Bool, true,
  false, ◌&&◌, Option, none, some, [], ◌++◌, append-nil, append_assoc, arith, ◌==◌, ltb, leb,
  if◌then◌else◌, Bool-cases, ℤ, pos, negsuc, is_negative, magnitude,
}
use mathlib.Core.Path.{subst}
use voxedge.Text.Strip.{Text}
use voxedge.Text.Numerals.{cn_groups, text_at, Heard, heard, hear, reading, value_of, read_numeral}
use voxedge.Text.Numerals.Reading.{
  hear-nil, hear-append, hear-minus, hear-digit, hear-big, reading_lem,
}
use voxedge.Engine.SpokenNumbers.{
  zero_text, under_ten_thousand, speak_group, joined, nat_to_chinese, int_to_chinese,
}
use voxedge.Engine.SpokenNumbers.Groups.{hear-under_ten_thousand}

-- A group and its weight.
hear_chunk :
    (neg : Bool) (t c i : ℕ)
    → c < 10000
    → 0 < i
    → i < 4
    → hear (heard neg t 0 0) (under_ten_thousand c ++ text_at cn_groups i)
      ≡ heard neg (t + c * 10000 ^ i) 0 0
hear_chunk neg t c i lc hi li =
    hear-append (heard neg t 0 0) (under_ten_thousand c) (text_at cn_groups i)
    ∙ ap (λ h. hear h (text_at cn_groups i)) (hear-under_ten_thousand neg t c)
    ∙ hear-big neg t (c / 1000 % 10 * 1000 + c / 100 % 10 * 100 + c / 10 % 10 * 10) (c % 10) i hi li
    ∙ ap (λ n. heard neg (t + n * 10000 ^ i) 0 0) (omega arith)

-- The last group has no weight.
last_chunk :
    (neg : Bool) (t c : ℕ)
    → c < 10000
    → reading (hear (heard neg t 0 0) (under_ten_thousand c ++ text_at cn_groups 0)) ≡ (neg, t + c)
last_chunk neg t c lc =
    let front = c / 1000 % 10 * 1000 + c / 100 % 10 * 100 + c / 10 % 10 * 10 in
    ap (λ l. reading (hear (heard neg t 0 0) l)) (append-nil (under_ten_thousand c))
    ∙ ap reading (hear-under_ten_thousand neg t c)
    ∙ reading_lem neg t front (c % 10)
    ∙ ap (λ n. (neg, n)) (omega arith)

-- A zero before a group is not heard.
hear-zero :
    (neg : Bool) (t : ℕ) (b : Bool) (s g : Text)
    → hear (heard neg t 0 0) ((if b then zero_text ++ s else s) ++ g)
      ≡ hear (heard neg t 0 0) (s ++ g)
hear-zero neg t false s g = refl
hear-zero neg t true s g =
    ap (λ l. hear (heard neg t 0 0) l) (append_assoc zero_text s g)
    ∙ hear-append (heard neg t 0 0) zero_text (s ++ g)
    ∙ ap (λ h. hear h (s ++ g)) (hear-digit neg t 0 0 0 (omega arith))

-- What a group adds to the parts before it.
module _ {ℓ} {A : Type ℓ} (f : Heard → A) (neg : Bool) (t value i : ℕ) (a : A) where
  chunk : ℕ
  chunk = value / 10000 ^ i % 10000

  speak_group-Says :
      (parts : Option Text)
      → hear (heard neg 0 0 0) (joined parts) ≡ heard neg t 0 0
      → (chunk ≡ 0 → f (heard neg t 0 0) ≡ a)
      → f (hear (heard neg t 0 0) (under_ten_thousand chunk ++ text_at cn_groups i)) ≡ a
      → f (hear (heard neg 0 0 0) (joined (speak_group value i parts))) ≡ a
  unfolding speak_group chunk joined
  speak_group-Says none e z k = elim (Bool-cases (chunk == 0)) [
    | inl q ↦ rw q (ap f e ∙ z (ground arith))
    | inr n ↦ rw n (
        ap f (
          hear-append (heard neg 0 0 0) [] (under_ten_thousand chunk ++ text_at cn_groups i)
          ∙ ap (λ h. hear h (under_ten_thousand chunk ++ text_at cn_groups i)) e)
        ∙ k)
  ]
  speak_group-Says (some parts) e z k = elim (Bool-cases (chunk == 0)) [
    | inl q ↦ rw q (ap f e ∙ z (ground arith))
    | inr n ↦
        let spoken = under_ten_thousand chunk in
        let group = text_at cn_groups i in
        rw n (
          ap f (
            hear-append (heard neg 0 0 0) parts
              ((if ltb chunk 1000 then zero_text ++ spoken else spoken) ++ group)
            ∙ ap (λ h. hear h ((if ltb chunk 1000 then zero_text ++ spoken else spoken) ++ group)) e
            ∙ hear-zero neg t (ltb chunk 1000) spoken group)
          ∙ k)
  ]

group-Says :
    (neg : Bool) (t value i : ℕ) (parts : Option Text)
    → 0 < i
    → i < 4
    → hear (heard neg 0 0 0) (joined parts) ≡ heard neg t 0 0
    → hear (heard neg 0 0 0) (joined (speak_group value i parts))
      ≡ heard neg (t + value / 10000 ^ i % 10000 * 10000 ^ i) 0 0
unfolding chunk
group-Says neg t value i parts hi li e =
    let c = value / 10000 ^ i % 10000 in
    speak_group-Says (λ h. h) neg t value i (heard neg (t + c * 10000 ^ i) 0 0) parts e
      (λ z. rw z (ap (λ n. heard neg n 0 0) (omega arith)))
      (hear_chunk neg t c i (omega arith) hi li)

-- The four groups of the loop, heard in turn.
hear-groups :
    (neg : Bool) (v : ℕ)
    → reading (
        hear
          (heard neg 0 0 0)
          (joined (speak_group v 0 (speak_group v 1 (speak_group v 2 (speak_group v 3 none))))))
      ≡ (neg, v % 10 ^ 16)
unfolding chunk joined
hear-groups neg v =
    let p3 = speak_group v 3 none in
    let p2 = speak_group v 2 p3 in
    let p1 = speak_group v 1 p2 in
    let t3 = 0 + v / 10000 ^ 3 % 10000 * 10000 ^ 3 in
    let t2 = t3 + v / 10000 ^ 2 % 10000 * 10000 ^ 2 in
    let t1 = t2 + v / 10000 ^ 1 % 10000 * 10000 ^ 1 in
    let c = v / 10000 ^ 0 % 10000 in
    let e3 = group-Says neg 0 v 3 none (omega arith) (omega arith) (hear-nil (heard neg 0 0 0)) in
    let e2 = group-Says neg t3 v 2 p3 (omega arith) (omega arith) e3 in
    let e1 = group-Says neg t2 v 1 p2 (omega arith) (omega arith) e2 in
    speak_group-Says reading neg t1 v 0 (neg, t1 + c) p1 e1
      (λ z. reading_lem neg t1 0 0 ∙ ap (λ n. (neg, n)) (omega arith))
      (last_chunk neg t1 c (omega arith))
    ∙ ap (λ n. (neg, n)) sum_of_groups
  where
    sum_of_groups :
        0
          + v / 10000 ^ 3 % 10000 * 10000 ^ 3
          + v / 10000 ^ 2 % 10000 * 10000 ^ 2
          + v / 10000 ^ 1 % 10000 * 10000 ^ 1
          + v / 10000 ^ 0 % 10000
        ≡ v % 10 ^ 16
    sum_of_groups = omega arith

-- The numbers whose first 一 is dropped.
hear-teens :
    (neg : Bool) (k : ℕ)
    → k < 10
    → reading (hear (heard neg 0 0 0) (nat_to_chinese (10 + k))) ≡ (neg, 10 + k)
unfolding hear value_of nat_to_chinese
hear-teens neg zero h = refl
hear-teens neg (suc zero) h = refl
hear-teens neg (suc (suc zero)) h = refl
hear-teens neg (suc (suc (suc zero))) h = refl
hear-teens neg (suc (suc (suc (suc zero)))) h = refl
hear-teens neg (suc (suc (suc (suc (suc zero))))) h = refl
hear-teens neg (suc (suc (suc (suc (suc (suc zero)))))) h = refl
hear-teens neg (suc (suc (suc (suc (suc (suc (suc zero))))))) h = refl
hear-teens neg (suc (suc (suc (suc (suc (suc (suc (suc zero)))))))) h = refl
hear-teens neg (suc (suc (suc (suc (suc (suc (suc (suc (suc zero))))))))) h = refl
hear-teens neg (suc (suc (suc (suc (suc (suc (suc (suc (suc (suc k)))))))))) h =
    absurd (omega arith)

hear_teen :
    (neg : Bool) (v : ℕ)
    → 10 ≤ v
    → v < 20
    → reading (hear (heard neg 0 0 0) (nat_to_chinese v)) ≡ (neg, v % 10 ^ 16)
hear_teen neg v low high =
    let e : 10 + (v - 10) ≡ v = omega arith in
    subst (λ x. reading (hear (heard neg 0 0 0) (nat_to_chinese x)) ≡ (neg, x)) (e)
      (hear-teens neg (v - 10) (omega arith))
    ∙ ap (λ n. (neg, n)) (omega arith)

hear-nat_to_chinese :
    (neg : Bool) (v : ℕ) → reading (hear (heard neg 0 0 0) (nat_to_chinese v)) ≡ (neg, v % 10 ^ 16)
unfolding nat_to_chinese
hear-nat_to_chinese neg v = elim (Bool-cases (v == 0)) [
  | inl z ↦ rw z (
      ap reading (hear-digit neg 0 0 0 0 (omega arith))
      ∙ reading_lem neg 0 0 0
      ∙ ap (λ n. (neg, n)) (ground arith))
  | inr n ↦ elim (Bool-cases (leb 10 v && ltb v 20)) [
    | inl teen ↦ hear_teen neg v (ground arith) (ground arith)
    | inr other ↦ rw (n, other) (hear-groups neg v)
  ]
]

-- The numeral of an integer is heard with its sign, and with its number up to 10 ^ 16, of which and
-- above only the last 16 digits are heard.
pub read_numeral-int_to_chinese :
    (z : ℤ) → read_numeral (int_to_chinese z) ≡ (is_negative z, magnitude z % 10 ^ 16)
unfolding int_to_chinese
read_numeral-int_to_chinese (pos v) = hear-nat_to_chinese false v
read_numeral-int_to_chinese (negsuc v) =
    ap reading (hear-minus (nat_to_chinese (suc v))) ∙ hear-nat_to_chinese true (suc v)
