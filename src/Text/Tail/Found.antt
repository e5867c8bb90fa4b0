-- ===== src/Text/Tail/Found.antt =====
-- What `_find_tail_period` finds.
use native.Mathlib.Nat.{suc-mul, suc-add, zero-add, one-mul}
use voxedge.Base.{
  drop_all, ℕ, zero, suc, ◌+◌, ◌-◌, ◌*◌, ◌/◌, min, ◌≤◌, ◌<◌, ◌≡◌, refl, ap, ◌∙◌, sym, Bool, true,
  false, not, ◌&&◌, ◌||◌, ◌==◌, Option, none, some, List, [], ◌∷◌, ◌++◌, append_assoc, append-nil,
  arith, length, take, drop, take-append-drop, length-drop, length-take, if_intro, if◌then◌else◌,
  ltb, ltb→le,
}
use voxedge.Text.Strip.{Text}
use voxedge.Text.Period.{same_units, repeats_needed, min_repeats_long_unit, max_period_unit_len}
use voxedge.Text.Period.Copies.{repeated, same_units→≡}
use voxedge.Text.Tail.{
  unit_at, copies_before, candidate, better, phases_from, or_next, tails_from, find_tail_period,
  min_tail_repeats, min_tail_repeats_single_char, max_tail_scan_units,
}

drop-plus : (a c : ℕ) (ts : List Text) → drop c (drop a ts) ≡ drop (a + c) ts
drop-plus zero c ts = ap (λ n. drop n ts) (sym (zero-add c))
drop-plus (suc a) c [] = drop_all c [] (omega arith) ∙ sym (drop_all (suc a + c) [] (omega arith))
drop-plus (suc a) c (t ∷ ts) = drop-plus a c ts ∙ ap (λ n. drop n (t ∷ ts)) (sym (suc-add a c))

repeated-front : (r : ℕ) (u : List Text) → u ++ repeated r u ≡ repeated (suc r) u
repeated-front zero u = append-nil u
repeated-front (suc r) u =
    sym (append_assoc u (repeated r u) u) ∙ ap (λ w. w ++ u) (repeated-front r u)

module _ (seq : List Text) where
  -- Before `end` stand `r` copies of the unit there.
  abbrev Copies : ℕ → ℕ → ℕ → Type 0
  Copies l end r =
      (r * l ≤ end) × (drop (end - r * l) seq ≡ repeated r (unit_at seq l end) ++ drop end seq)

  slice-rest : (a l : ℕ) → drop a seq ≡ take l (drop a seq) ++ drop (a + l) seq
  slice-rest a l =
      sym (take-append-drop l (drop a seq)) ∙ ap (λ w. take l (drop a seq) ++ w) (drop-plus a l seq)

  Copies-suc :
      (l end r : ℕ)
      → Copies l end r
      → suc r * l ≤ end
      → same_units (take l (drop (end - suc r * l) seq)) (unit_at seq l end) ≡ true
      → Copies l end (suc r)
  Copies-suc l end r h p e =
      let u = unit_at seq l end in
      let a = end - suc r * l in
      let k : a + l ≡ end - r * l = omega (arith, suc-mul r l) in
      (
        p,
        slice-rest a l
            ∙ ap (λ w. w ++ drop (a + l) seq) (same_units→≡ (take l (drop a seq)) u e)
            ∙ ap (λ n. u ++ drop n seq) k
            ∙ ap (λ w. u ++ w) h.1
            ∙ sym (append_assoc u (repeated r u) (drop end seq))
            ∙ ap (λ w. w ++ drop end seq) (repeated-front r u),
      )

  copies_before-Copies :
      (l end fuel r : ℕ) → Copies l end r → Copies l end (copies_before seq l end fuel r)
  unfolding copies_before
  copies_before-Copies l end zero r h = h
  copies_before-Copies l end (suc fuel) r h =
      let more = copies_before seq l end fuel (suc r) in
      let same = same_units (take l (drop (end - suc r * l) seq)) (unit_at seq l end) in
      if_intro (Copies l end) (ltb end (suc r * l)) r (if same then more else r) (λ _. h)
        (λ p.
          if_intro (Copies l end) same more r
            (λ e.
              copies_before-Copies l end fuel (suc r)
                (Copies-suc l end r h (ltb→le end (suc r * l) p) e))
            (λ _. h))

  one-Copies : (l end : ℕ) → l ≤ end → Copies l end 1
  one-Copies l end p =
      rw (one-mul l)
        (p, slice-rest (end - l) l ∙ ap (λ n. unit_at seq l end ++ drop n seq) (omega (arith, p)))

  abbrev need : List Text → ℕ
  need u = repeats_needed u min_tail_repeats (some min_tail_repeats_single_char)

  -- The last `covered` texts are `r` copies of `u` and the first `m` texts of one more, which are less
  -- than a copy; they are at least half of the sequence, and the copies are enough.
  abbrev pub EndsWith : ℕ → List Text → Type 0
  EndsWith covered u =
      (r : ℕ) × (m : ℕ) × (m < length u)
      × (covered ≡ r * length u + m)
      × (drop (length seq - covered) seq ≡ repeated r u ++ take m u)
      × (covered ≤ length seq)
      × (length seq ≤ 2 * covered)
      × (need u ≤ r)

  abbrev Tails : Option (ℕ × List Text) → Type 0
  Tails none = Unit
  Tails (some (covered, u)) = EndsWith covered u

  unit_at-length : (l end : ℕ) → l ≤ end → end ≤ length seq → length (unit_at seq l end) ≡ l
  unit_at-length l end p q =
      omega (arith, length-take l (drop (end - l) seq), length-drop (end - l) seq)

  -- The texts after the copies.
  cut_off :
      (l phase : ℕ) (zero_phase same : Bool)
      → (not zero_phase && not same) ≡ false
      → (zero_phase ≡ true → phase ≡ 0)
      → (same ≡ true
          → drop (length seq - phase) seq ≡ take phase (unit_at seq l (length seq - phase)))
      → drop (length seq - phase) seq ≡ take phase (unit_at seq l (length seq - phase))
  cut_off l phase true same e z f = rw (z refl) (drop_all (length seq - 0) seq (omega arith))
  cut_off l phase false true e z f = f refl
  cut_off l phase false false e z f = absurd (ground (arith, e))

  candidate-Tails :
      (l phase r : ℕ)
      → phase < l
      → 2 * l ≤ length seq
      → Copies l (length seq - phase) r
      → Tails (candidate seq l phase r)
  unfolding candidate
  candidate-Tails l phase r p q h =
      let n = length seq in
      let end = n - phase in
      let u = unit_at seq l end in
      let covered = r * l + phase in
      let same = same_units (drop end seq) (take phase u) in
      let skip = not (phase == 0) && not same in
      let few = ltb r (need u) in
      let small = ltb (2 * covered) n in
      let found : Option (ℕ × List Text) = some (covered, u) in
      let k : length u ≡ l = unit_at-length l end (omega (arith, p, q)) (omega arith) in
      if_intro Tails skip none (if few then none else if small then none else found) (λ _. tt)
        (λ e.
          if_intro Tails few none (if small then none else found) (λ _. tt)
            (λ f.
              if_intro Tails small none found (λ _. tt)
                (λ g. (
                  r,
                  phase,
                  omega (arith, k, p),
                  ap (λ w. r * w + phase) (sym k),
                  ap (λ w. drop w seq) (omega arith)
                      ∙ h.1
                      ∙ ap (λ w. repeated r u ++ w)
                          (cut_off l phase (phase == 0) same e (λ z. ground (arith, z))
                            (λ z. same_units→≡ (drop end seq) (take phase u) z)),
                  omega (arith, h.0, p, q),
                  ltb→le (2 * covered) n g,
                  ltb→le r (need u) f,
                ))))

  better-Tails : (o c : Option (ℕ × List Text)) → Tails o → Tails c → Tails (better seq o c)
  unfolding better
  better-Tails o none h k = h
  better-Tails none (some c) h k = k
  better-Tails (some b) (some c) h k =
      if_intro Tails (ltb b.0 c.0) (some c) (some b) (λ _. k) (λ _. h)

  phases_from-Tails :
      (l k phase : ℕ) (best : Option (ℕ × List Text))
      → 1 ≤ l
      → phase + k ≤ l
      → 2 * l ≤ length seq
      → Tails best
      → Tails (phases_from seq l k phase best)
  unfolding phases_from
  phases_from-Tails l zero phase best o p q h = h
  phases_from-Tails l (suc k) phase best o p q h =
      let end = length seq - phase in
      let r = copies_before seq l end (length seq) 1 in
      let c = candidate seq l phase r in
      phases_from-Tails l k (suc phase) (better seq best c) o (omega (arith, p)) q (
        better-Tails best c h (
          candidate-Tails l phase r (omega (arith, p)) q
            (copies_before-Copies l end (length seq) 1 (one-Copies l end (omega (arith, p, q))))))

  abbrev Finds : Option (List Text × ℕ) → Type 0
  Finds none = Unit
  Finds (some (u, start)) = (covered : ℕ) × (start ≡ length seq - covered) × EndsWith covered u

  or_next-Finds :
      (o : Option (ℕ × List Text)) (o' : Option (List Text × ℕ))
      → Tails o
      → Finds o'
      → Finds (or_next seq o o')
  unfolding or_next
  or_next-Finds none o' h k = k
  or_next-Finds (some (covered, u)) o' h k = (covered, refl, h)

  tails_from-Finds : (k l : ℕ) → 1 ≤ l → 3 * (l + k) ≤ length seq + 3 → Finds (tails_from seq k l)
  unfolding tails_from
  tails_from-Finds zero l p q = tt
  tails_from-Finds (suc k) l p q =
      or_next-Finds (phases_from seq l l 0 none) (tails_from seq k (suc l))
        (phases_from-Tails l l 0 none p (omega arith) (omega (arith, p, q)) tt)
        (tails_from-Finds k (suc l) (omega arith) (omega (arith, q)))

  find_tail_period-Finds : Finds (find_tail_period seq)
  unfolding find_tail_period
  find_tail_period-Finds =
      let n = length seq in
      let k = min (n / min min_tail_repeats min_repeats_long_unit) max_period_unit_len in
      if_intro Finds (ltb n 4 || ltb max_tail_scan_units n) none (tails_from seq k 1) (λ _. tt)
        (λ _. tails_from-Finds k 1 (omega arith) (omega arith))

  -- Where a unit `u` is found, with the start of its copies, the texts from that start, which are at
  -- least half of the sequence, are `r` copies of `u` and the first `m` texts of one more, for an `r`
  -- that is enough by `repeats_needed` and an `m` less than the length of `u`.
  pub find_tail_period-EndsWith :
      (u : List Text) (start : ℕ)
      → find_tail_period seq ≡ some (u, start)
      → (covered : ℕ) × (start ≡ length seq - covered) × EndsWith covered u
  find_tail_period-EndsWith u start e = rw e at find_tail_period-Finds
