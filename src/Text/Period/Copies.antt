-- ===== src/Text/Period/Copies.antt =====
-- Counting the copies of a unit at the start of a sequence.
use native.Mathlib.Nat.{suc-mul}
use voxedge.Base.{
  ℕ, zero, suc, ◌+◌, ◌*◌, ◌≤◌, ◌≡◌, refl, ap, ◌∙◌, true, false, List, [], ◌∷◌, ◌++◌, arith, length,
  take, take-plus, drop_all, drop, if_intro,
}
use voxedge.Text.Strip.{Text}
use voxedge.Text.Equality.{same_text→≡}
use voxedge.Text.Period.{same_units, copies_from}

-- `r` copies of a list
abbrev pub repeated : ℕ → List Text → List Text
repeated zero unit = []
repeated (suc r) unit = repeated r unit ++ unit

pub same_units→≡ : (ts us : List Text) → same_units ts us ≡ true → ts ≡ us
unfolding same_units
same_units→≡ [] [] e = refl
same_units→≡ (t ∷ ts) (u ∷ us) e = ground (arith, e, same_text→≡ t u, same_units→≡ ts us)
same_units→≡ [] (u ∷ us) e = absurd (ground (arith, e))
same_units→≡ (t ∷ ts) [] e = absurd (ground (arith, e))

nothing_left :
    (l : ℕ) (us : List Text) → 1 ≤ l → 1 ≤ length us → same_units (take l []) (take l us) ≡ false
unfolding same_units
nothing_left zero us p q = absurd (omega (arith, p))
nothing_left (suc l) [] p q = absurd (omega (arith, q))
nothing_left (suc l) (u ∷ us) p q = refl

-- The count is at least the number of copies that are known.
pub copies_from-positive : (s : List Text) (l fuel r : ℕ) → 1 ≤ r → 1 ≤ copies_from s l fuel r
unfolding copies_from
copies_from-positive s l zero r h = h
copies_from-positive s l (suc fuel) r h =
    if_intro (λ k. 1 ≤ k) (same_units (take l (drop (r * l) s)) (take l s))
      (copies_from s l fuel (suc r)) r (λ _. copies_from-positive s l fuel (suc r) (omega arith))
      (λ _. h)

module _ (seq : List Text) (l : ℕ) where
  -- The sequence begins with `r` copies of its first `l` units.
  abbrev pub Begins : ℕ → Type 0
  Begins r = take (r * l) seq ≡ repeated r (take l seq)

  Begins-suc :
      (r : ℕ)
      → Begins r
      → same_units (take l (drop (r * l) seq)) (take l seq) ≡ true
      → Begins (suc r)
  Begins-suc r b e =
      ap (λ n. take n seq) (suc-mul r l)
      ∙ take-plus (r * l) l seq
      ∙ ap (λ w. w ++ take l (drop (r * l) seq)) b
      ∙ ap (λ w. repeated r (take l seq) ++ w)
          (same_units→≡ (take l (drop (r * l) seq)) (take l seq) e)

  -- What the count tells: so many copies, and no further one.
  abbrev pub Counts : ℕ → Type 0
  Counts r = Begins r × (same_units (take l (drop (r * l) seq)) (take l seq) ≡ false)

  stops :
      (r : ℕ)
      → 1 ≤ l
      → 1 ≤ length seq
      → length seq ≤ r * l
      → same_units (take l (drop (r * l) seq)) (take l seq) ≡ false
  stops r p q h = rw (drop_all (r * l) seq h) (nothing_left l seq p q)

  pub copies_from-Counts :
      (fuel r : ℕ)
      → 1 ≤ l
      → 1 ≤ length seq
      → length seq ≤ fuel + r * l
      → Begins r
      → Counts (copies_from seq l fuel r)
  unfolding copies_from
  copies_from-Counts zero r p q h b = (b, stops r p q (omega (arith, h)))
  copies_from-Counts (suc fuel) r p q h b =
      let again = same_units (take l (drop (r * l) seq)) (take l seq) in
      if_intro Counts again (copies_from seq l fuel (suc r)) r
        (λ e.
          copies_from-Counts fuel (suc r) p q (omega (arith, h, p, suc-mul r l)) (Begins-suc r b e))
        (λ e. (b, e))
