-- ===== src/Text/Period/Found.antt =====
-- What `_find_period` finds.
use native.Mathlib.Nat.{one-mul}
use voxedge.Base.{
  take-plus, ℕ, zero, suc, ◌+◌, ◌-◌, ◌*◌, ◌/◌, min, max, ◌≤◌, ◌≡◌, refl, ap, ◌∙◌, sym, Bool, true,
  false, ◌&&◌, Option, none, some, List, ◌++◌, append-nil, arith, length, take, drop, take_all,
  length-drop, if_intro, if◌then◌else◌, ltb, leb, ltb→lt, ltb→le, leb→le, ◌⊎◌, inl, inr,
}
use voxedge.Text.Strip.{Text}
use voxedge.Text.Period.{
  same_units, repeats_needed, copies_from, judge, first_some, search_from, find_period,
  long_unit_words, max_period_unit_len, min_repeats_long_unit, single_or,
}
use voxedge.Text.Period.Copies.{repeated, same_units→≡, Counts, copies_from-Counts}

module _ (seq : List Text) (min_repeats : ℕ) (single : Option ℕ) where
  -- The unit `u`, the first `l` texts, explains at least 4/5 of the sequence: `r` copies of it, and
  -- the first `m` texts of one more. `c` counts the copies, which are enough; where the one that is cut
  -- off ends the sequence, it counts too, if the unit is long.
  abbrev pub Explains : List Text → ℕ → Type 0
  Explains u c =
      (l : ℕ) × (r : ℕ) × (m : ℕ) × (1 ≤ l)
      × (u ≡ take l seq)
      × (take (r * l + m) seq ≡ repeated r u ++ take m u)
      × (4 * length seq ≤ 5 * (r * l + m))
      × (((c ≡ r * l) × (repeats_needed u min_repeats single ≤ r))
          ⊎ ((c ≡ suc r * l)
              × (repeats_needed u min_repeats single ≤ suc r)
              × (long_unit_words ≤ l)
              × (r * l + m ≡ length seq)))

  abbrev pub Finds : Option (List Text × ℕ) → Type 0
  Finds none = Unit
  Finds (some (u, c)) = Explains u c

  -- The rest after whole copies that begins one more.
  cut_off :
      (l r : ℕ)
      → Counts seq l r
      → r * l ≤ length seq
      → same_units (take (length seq - r * l) (take l seq)) (drop (r * l) seq) ≡ true
      → take (r * l + (length seq - r * l)) seq
        ≡ repeated r (take l seq) ++ take (length seq - r * l) (take l seq)
  cut_off l r h p e =
      let m = length seq - r * l in
      let d = drop (r * l) seq in
      take-plus (r * l) m seq
      ∙ ap (λ w. w ++ take m d) h.0
      ∙ ap (λ w. repeated r (take l seq) ++ w)
          (take_all m d (omega (arith, length-drop (r * l) seq))
            ∙ sym (same_units→≡ (take m (take l seq)) d e))

  no_cut_off :
      (l r : ℕ)
      → Counts seq l r
      → take (r * l + 0) seq ≡ repeated r (take l seq) ++ take 0 (take l seq)
  no_cut_off l r h =
      ap (λ n. take n seq) (omega arith) ∙ h.0 ∙ sym (append-nil (repeated r (take l seq)))

  -- By the test for a copy that is cut off, and that for a long unit.
  parts-Explains :
      (truncated long : Bool) (l r : ℕ)
      → (truncated ≡ true
          → (r * l ≤ length seq)
            × (same_units (take (length seq - r * l) (take l seq)) (drop (r * l) seq) ≡ true))
      → (long ≡ true → long_unit_words ≤ l)
      → 1 ≤ l
      → Counts seq l r
      → repeats_needed (take l seq) min_repeats single ≤ (if truncated && long then suc r else r)
      → 4 * length seq ≤ 5 * (if truncated then length seq else r * l)
      → Explains (take l seq) ((if truncated && long then suc r else r) * l)
  parts-Explains true true l r t g p h e f =
      let k : r * l + (length seq - r * l) ≡ length seq = omega (arith, (t refl).0) in
      (
        l,
        r,
        length seq - r * l,
        p,
        refl,
        cut_off l r h (t refl).0 (t refl).1,
        omega (arith, f, k),
        inr (refl, e, g refl, k),
      )
  parts-Explains true false l r t g p h e f =
      let k : r * l + (length seq - r * l) ≡ length seq = omega (arith, (t refl).0) in
      (
        l,
        r,
        length seq - r * l,
        p,
        refl,
        cut_off l r h (t refl).0 (t refl).1,
        omega (arith, f, k),
        inl (refl, e),
      )
  parts-Explains false long l r t g p h e f =
      (l, r, 0, p, refl, no_cut_off l r h, omega (arith, f), inl (refl, e))

  pub one-repeated : (l : ℕ) → take (1 * l) seq ≡ repeated 1 (take l seq)
  one-repeated l = ap (λ n. take n seq) (one-mul l)

  judge-Finds : (l r : ℕ) → 1 ≤ l → Counts seq l r → Finds (judge seq min_repeats single l r)
  unfolding judge
  judge-Finds l r p h =
      let n = length seq in
      let unit = take l seq in
      let covered = r * l in
      let short = ltb covered n in
      let fits = same_units (take (n - covered) unit) (drop covered seq) in
      let truncated = short && fits in
      let long = leb long_unit_words l in
      let counted = if truncated && long then suc r else r in
      let need = repeats_needed unit min_repeats single in
      let few = ltb counted need in
      let small = ltb (5 * (if truncated then n else covered)) (4 * n) in
      if_intro Finds few none (if small then none else some (unit, counted * l)) (λ _. tt)
        (λ e.
          if_intro Finds small none (some (unit, counted * l)) (λ _. tt)
            (λ f.
              parts-Explains truncated long l r
                (λ t. (ground (arith, t, ltb→lt covered n), ground (arith, t)))
                (leb→le long_unit_words l) p h (ltb→le counted need e)
                (ltb→le (5 * (if truncated then n else covered)) (4 * n) f)))

  first_some-Finds :
      (o o' : Option (List Text × ℕ))
      → Finds o
      → Finds o'
      → Finds (first_some seq min_repeats single o o')
  unfolding first_some
  first_some-Finds none o' h k = k
  first_some-Finds (some p) o' h k = h

  search_from-Finds :
      (k l : ℕ) → 1 ≤ l → 1 ≤ length seq → Finds (search_from seq min_repeats single k l)
  unfolding search_from
  search_from-Finds zero l p q = tt
  search_from-Finds (suc k) l p q =
      let r = copies_from seq l (length seq) 1 in
      first_some-Finds (judge seq min_repeats single l r)
        (search_from seq min_repeats single k (suc l))
        (judge-Finds l r p
          (copies_from-Counts seq l (length seq) 1 p q (omega arith) (one-repeated l)))
        (search_from-Finds k (suc l) (omega arith) q)

  find_period-Finds : Finds (find_period seq min_repeats single)
  unfolding find_period
  find_period-Finds =
      let n = length seq in
      let d =
        max 1 (min min_repeats (min (single_or min_repeats single) (min_repeats_long_unit - 1))) in
      let k = min (n / d) max_period_unit_len in
      if_intro Finds (ltb n 4) none (search_from seq min_repeats single k 1) (λ _. tt)
        (λ e. search_from-Finds k 1 (omega arith) (omega (arith, ltb→le n 4 e)))

  -- A unit `u` that is found, with the number `c`, is the first `l` texts of the sequence, for an `l`
  -- that is not 0. For an `r` and an `m`, the sequence begins with `r` copies of `u` and the first `m`
  -- texts of `u`, and these are at least 4/5 of it. Either `c` is the length of the `r` copies, and
  -- `r` is enough by `repeats_needed`; or `c` is that of `r + 1`, which is enough, the unit is long,
  -- and the `r` copies and `m` texts are the whole sequence.
  pub find_period-Explains :
      (u : List Text) (c : ℕ) → find_period seq min_repeats single ≡ some (u, c) → Explains u c
  find_period-Explains u c e = rw e at find_period-Finds
