-- ===== src/Text/Collapse/Indices.antt =====
-- What the searches find lies within the units: there is a unit after the first copy, and the copies
-- that go end later.
use native.Mathlib.Nat.{suc-mul}
use voxedge.Base.{
  drop_all, ℕ, zero, suc, ◌+◌, ◌*◌, min, ◌≤◌, ◌<◌, ◌≡◌, ap, sym, ◌∙◌, ◌⊎◌, inl, inr, true, false,
  Option, none, some, List, [], ◌∷◌, ◌++◌, Bool-cases, ltb→le, arith, length, length-append,
  length-take, length-drop, take_all, append-nil, take, drop, ltb, leb, if_intro, if◌then◌else◌,
}
use voxedge.Text.Strip.{Text}
use voxedge.Text.Period.{same_units, repeats_needed, find_period, long_unit_words}
use voxedge.Text.Period.Copies.{repeated}
use voxedge.Text.Period.Found.{find_period-Explains}
use voxedge.Text.Tail.{find_tail_period}
use voxedge.Text.Tail.Found.{find_tail_period-EndsWith}
use voxedge.Text.Interior.{Run}
use voxedge.Text.Interior.Found.{IsRun}

-- The bar for single units is not less than 3, where there is one.
abbrev pub AtLeastThree : Option ℕ → Type 0
AtLeastThree none = Unit
AtLeastThree (some n) = 3 ≤ n

needed-le :
    (u : List Text) (k : ℕ) (single : Option ℕ)
    → 3 ≤ k
    → AtLeastThree single
    → 3 ≤ repeats_needed u k single
unfolding repeats_needed
needed-le u k none p q = ground arith
needed-le u k (some zero) p q = absurd (omega arith)
needed-le u k (some (suc n)) p q =
    if_intro (λ b. 3 ≤ b) _ (suc n) (if leb long_unit_words (length u) then min k 3 else k) (λ _. q)
      (λ _. ground arith)

-- Two copies are twice as long as one.
length-repeated : (r : ℕ) (u : List Text) → 2 ≤ r → 2 * length u ≤ length (repeated r u)
length-repeated zero u p = absurd (omega arith)
length-repeated (suc zero) u p = absurd (omega arith)
length-repeated (suc (suc r)) u p =
    omega (arith, length-append (repeated (suc r) u) u, length-append (repeated r u) u)

twice-le : (r l : ℕ) → 2 ≤ r → 2 * l ≤ r * l
twice-le zero l p = absurd (omega arith)
twice-le (suc zero) l p = absurd (omega arith)
twice-le (suc (suc r)) l p = omega (arith, suc-mul (suc r) l, suc-mul r l)

counted :
    (c r l b : ℕ) {P Q : Type 0}
    → 3 ≤ b
    → ((c ≡ r * l) × (b ≤ r)) ⊎ ((c ≡ suc r * l) × (b ≤ suc r) × P × Q)
    → (2 ≤ r) × (2 * l ≤ c)
counted c r l b p (inl h) =
    (omega (arith, h.1), omega (arith, h.0, twice-le r l (omega (arith, h.1))))
counted c r l b p (inr h) =
    (omega (arith, h.1), omega (arith, h.0, twice-le (suc r) l (omega (arith, h.1))))

-- A whole segment: the first copy is not all of it, and what is cut ends later.
module _ (seq : List Text) where
  not_found :
      (n : ℕ) (o : Option (List Text × ℕ)) (p : List Text × ℕ)
      → ltb n 4 ≡ true
      → (if ltb n 4 then none else o) ≡ some p
      → ⊥
  not_found n o p few e = ground (arith, few, e)

  found-four :
      (k : ℕ) (single : Option ℕ) (p : List Text × ℕ)
      → find_period seq k single ≡ some p
      → 4 ≤ length seq
  unfolding find_period
  found-four k single p e = elim (Bool-cases (ltb (length seq) 4)) [
    | inl few ↦ absurd (not_found (length seq) _ p few e)
    | inr enough ↦ ground (arith, enough)
  ]

  -- Of two copies or more in a sequence the first ends within it.
  first_copy-lt :
      (l r m : ℕ)
      → 2 ≤ r
      → 1 ≤ length seq
      → take (r * l + m) seq ≡ repeated r (take l seq) ++ take m (take l seq)
      → l < length seq
  first_copy-lt l r m p q e = elim (Bool-cases (ltb l (length seq))) [
    | inl less ↦ ground (arith, less)
    | inr more ↦ absurd (
        omega (
          arith,
          ap length e,
          length-take (r * l + m) seq,
          length-take l seq,
          length-append (repeated r (take l seq)) (take m (take l seq)),
          length-repeated r (take l seq) p,
          ltb→le l (length seq) more,
        ))
  ]

  pub find_period_lt :
      (k : ℕ) (single : Option ℕ) (u : List Text) (c : ℕ)
      → 3 ≤ k
      → AtLeastThree single
      → find_period seq k single ≡ some (u, c)
      → (1 ≤ length u) × (length u < length seq) × (length u < c)
  find_period_lt k single u c p q e =
      let (l, r, m, one, is_u, copies, most, counts) = find_period-Explains seq k single u c e in
      let (two, far) =
        counted c r l (repeats_needed u k single) (needed-le u k single p q) counts in
      let less =
        first_copy-lt l r m two (omega (arith, found-four k single (u, c) e))
          (copies ∙ ap (λ v. repeated r v ++ take m v) is_u) in
      let len : length u ≡ l = ap length is_u ∙ length-take l seq ∙ omega (arith, less) in
      (omega (arith, len, one), omega (arith, less, len), omega (arith, far, len, one))

-- The copies at the end, and the copies within: the kept one is not the last of the units.
module _ (seq : List Text) where
  pub find_tail_period_lt :
      (u : List Text) (start : ℕ)
      → find_tail_period seq ≡ some (u, start)
      → (1 ≤ length u) × (start + length u < length seq)
  find_tail_period_lt u start e =
      let (covered, is_start, ends) = find_tail_period-EndsWith seq u start e in
      let (r, m, short, long, copies, within, half, enough) = ends in
      let many : 3 ≤ r =
        omega (arith, enough, needed-le u 6 (some 12) (omega arith) (omega arith)) in
      (
        omega (arith, short),
        omega (arith, is_start, short, long, within, twice-le r (length u) (omega (arith, many))),
      )

  nonempty :
      (s : List Text) (l r : ℕ)
      → same_units (take l (drop (r * l) s)) (take l s) ≡ false
      → 1 ≤ length s
  unfolding same_units
  nonempty [] l r e =
      let f : same_units (take l []) (take l []) ≡ false =
        rw (drop_all {A = Text} (r * l) [] (omega arith)) at e in
      let g : same_units [] [] ≡ false = rw (take_all {A = Text} l [] (omega arith)) at f in
      absurd (cc g)
  nonempty (t ∷ s) l r e = omega arith

  pub IsRun-lt :
      (k : ℕ) (single : Option ℕ) (b : Run)
      → 3 ≤ k
      → AtLeastThree single
      → IsRun seq k single b
      → (b.start + b.unit_len < length seq)
        × (b.start + b.unit_len < b.start + b.unit_len * b.repeats)
  IsRun-lt k single b p q (one, (begins, stops), enough) =
      let rest = drop b.start seq in
      let many : 3 ≤ b.repeats =
        omega (arith, enough, needed-le (take b.unit_len rest) k single p q) in
      let full : 1 ≤ length rest = nonempty rest b.unit_len b.repeats stops in
      let less = first_copy-lt rest b.unit_len b.repeats 0 (omega (arith, many)) full (
        ap (λ n. take n rest) (omega arith)
        ∙ begins
        ∙ sym (append-nil (repeated b.repeats (take b.unit_len rest)))) in
      (
        omega (arith, less, length-drop b.start seq),
        omega (arith, one, many, twice-le b.repeats b.unit_len (omega (arith, many))),
      )
