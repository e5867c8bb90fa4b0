-- ===== src/Text/Collapse/Stretch.antt =====
-- What `collapse_repetition` cuts out is one stretch of the segment.
use voxedge.Base.{
  ltb→lt, Option-cases, take-plus, drop_all, ℕ, suc, ◌+◌, ◌-◌, ◌*◌, ◌≤◌, ◌<◌, ◌≡◌, refl, ap, sym,
  ◌∙◌, Bool, true, false, ◌||◌, Option, none, some, List, [], ◌∷◌, ◌++◌, map, arith, length, take,
  drop, append-nil, is_empty, any, Bool-cases, inl, inr, if◌then◌else◌, if_intro, ltb,
}
use voxedge.Text.Strip.{Text, strip, rstrip, visible, visible-append, rstrip-visible}
use voxedge.Text.Period.{same_units}
use voxedge.Text.Interior.{Run}
use voxedge.Text.Collapse.{
  is_separator, Segment, units_of, offset_at, joined, segment_of, rest_of, with_rest,
  collapse_whole, kept_copy, collapse_tail, or_length, collapse_run,
}
use voxedge.Text.Collapse.Units.{Within, start_of-some, start_of-none, start_of_lt, start_of_bounds}

or_right : (a b : Bool) → b ≡ true → a || b ≡ true
or_right true b e = refl
or_right false b e = e

space : (b : Bool) → if◌then◌else◌ {A = Text} (b || true) [] (32 ∷ []) ≡ []
space true = refl
space false = refl

pub length-map : (us : List (Text × ℕ)) → length (map (λ u. u.0) us) ≡ length us
length-map [] = refl
length-map (u ∷ us) = ap (λ n. suc n) (length-map us)

module _ (blank : ℕ → Bool) where
  -- What is neither blank nor a separator.
  abbrev pub letters : Text → Text
  letters t = visible (λ c. blank c || is_separator c) t

  blank_within : (c : ℕ) → blank c ≡ true → blank c || is_separator c ≡ true
  blank_within c e = rw e refl

  separator_within : (c : ℕ) → is_separator c ≡ true → blank c || is_separator c ≡ true
  separator_within c e = or_right (blank c) (is_separator c) e

  -- A stretch of a segment's text goes, from a unit that is not the first to a later one or the end.
  -- Separators and blanks aside, the rest stays.
  abbrev pub Cuts : Segment → Text → Type 0
  Cuts g t =
      (i : ℕ) × (j : ℕ) × (o : ℕ) × (1 ≤ i)
      × (i < j)
      × (offset_at g i ≡ some o)
      × (o < or_length blank g (offset_at g j))
      × (letters t
          ≡ letters (take o g.stripped)
            ++ letters (drop (or_length blank g (offset_at g j)) g.stripped))

  -- An answer that is not an error: the text itself, or a segment that was cut.
  abbrev pub Collapses : Text → Option (Text × Bool) → Type 0
  Collapses text none = ⊥
  Collapses text (some (t, false)) = t ≡ text
  Collapses text (some (t, true)) = Cuts (segment_of blank (strip blank text)) t

  rstripped : (t : Text) → letters (rstrip blank t) ≡ letters t
  rstripped = rstrip-visible blank (λ c. blank c || is_separator c) blank_within

  trimmed : (t : Text) → letters (rstrip is_separator t) ≡ letters t
  trimmed = rstrip-visible is_separator (λ c. blank c || is_separator c) separator_within

  abbrev pub Lettered : Segment → Type 0
  Lettered g = letters g.joiner ≡ []

  letters-joined :
      (g : Segment) (s t : Text)
      → letters g.joiner ≡ []
      → letters (joined g s t) ≡ letters s ++ letters t
  unfolding joined
  letters-joined g s t e =
      let q : ℕ → Bool = λ c. blank c || is_separator c in
      visible-append q (s ++ g.joiner) t
      ∙ ap (λ l. l ++ letters t)
          (visible-append q s g.joiner ∙ ap (λ l. letters s ++ l) e ∙ append-nil (letters s))

  -- Nothing is a letter in a text joined with it.
  pub segment_of-Lettered : (t : Text) → Lettered (segment_of blank t)
  unfolding segment_of is_separator
  segment_of-Lettered t = if_intro Lettered (any blank t) _ _ (λ _. space (blank 32)) (λ _. refl)

  -- A segment whose units are in order, with nothing between the parts that are joined.
  module _ (text : Text) (g : Segment) (w : Within 0 (length g.stripped) g.units)
      (spaced : letters g.joiner ≡ []) where
    abbrev pub Cut : Option (Text × Bool) → Type 0
    Cut none = ⊥
    Cut (some (t, false)) = t ≡ text
    Cut (some (t, true)) = Cuts g t

    abbrev n : ℕ
    n = length g.units

    stretch : (i j o : ℕ) → i < j → offset_at g i ≡ some o → o < or_length blank g (offset_at g j)
    unfolding or_length
    stretch i j o p e = elim (Option-cases (offset_at g j)) [
      | inl f ↦ rw f (start_of_bounds 0 (length g.stripped) g.units i o w e).1
      | inr (o', f) ↦ rw f (start_of_lt 0 (length g.stripped) g.units i j o o' p w e f)
    ]

    -- Nothing stands after the last unit.
    nothing_after : letters (drop (or_length blank g (offset_at g n)) g.stripped) ≡ []
    unfolding or_length
    nothing_after =
        rw (start_of-none g.units n (omega arith))
          (ap letters (drop_all (length g.stripped) g.stripped (omega arith)))

    letters-head : (t : Text) → letters (rstrip is_separator (rstrip blank t)) ≡ letters t
    letters-head t = trimmed (rstrip blank t) ∙ rstripped t

    no_letters : (t : Text) → is_empty t ≡ true → letters t ≡ []
    no_letters [] e = refl
    no_letters (c ∷ t) e = absurd (cc e)

    -- The first copy and what is left after the others.
    with_rest-Cut :
        (i j o : ℕ) (rest : Text)
        → 1 ≤ i
        → i < j
        → offset_at g i ≡ some o
        → letters rest ≡ letters (drop (or_length blank g (offset_at g j)) g.stripped)
        → Cut (with_rest blank g (rstrip blank (take o g.stripped)) (some rest))
    unfolding with_rest
    with_rest-Cut i j o rest p q e f =
        let head = rstrip blank (take o g.stripped) in
        elim (Bool-cases (is_empty rest)) [
          | inl z ↦ rw z (
            i,
            j,
            o,
            p,
            q,
            e,
            stretch i j o q e,
            letters-head (take o g.stripped)
                ∙ sym (append-nil (letters (take o g.stripped)))
                ∙ ap (λ l. letters (take o g.stripped) ++ l) (sym (no_letters rest z) ∙ f),
          )
          | inr m ↦ rw m (
            i,
            j,
            o,
            p,
            q,
            e,
            stretch i j o q e,
            letters-joined g head rest spaced
                ∙ ap (λ l. l ++ letters rest) (rstripped (take o g.stripped))
                ∙ ap (λ l. letters (take o g.stripped) ++ l) f,
          )
        ]

    pub whole-Cut :
        (u : List Text) (c : ℕ)
        → 1 ≤ length u
        → length u < n
        → length u < c
        → Cut (collapse_whole blank g u c)
    unfolding collapse_whole rest_of or_length
    whole-Cut u c p q r =
        let (o, e) = start_of-some g.units (length u) q in
        let tail = drop c (units_of g) in
        let all_cut = with_rest-Cut (length u) n o [] p q e (sym nothing_after) in
        rw e (elim (Bool-cases (ltb c n)) [
          | inl before ↦ elim (Bool-cases (same_units tail (take (length tail) u))) [
            | inl same ↦ rw (before, same) all_cut
            | inr differ ↦
                let (o', f) = start_of-some g.units c (ltb→lt c n before) in
                rw (before, differ, f)
                  (with_rest-Cut (length u) c o (drop o' g.stripped) p r e (rw f refl))
          ]
          | inr after ↦ rw after all_cut
        ])

    -- The text before the copies and the first of them.
    kept-letters :
        (from to : ℕ)
        → from ≤ to
        → letters (
            joined g
              (rstrip blank (take from g.stripped))
              (rstrip is_separator (rstrip blank (take (to - from) (drop from g.stripped)))))
          ≡ letters (take to g.stripped)
    kept-letters from to p =
        let q : ℕ → Bool = λ c. blank c || is_separator c in
        let kept = take (to - from) (drop from g.stripped) in
        letters-joined g (rstrip blank (take from g.stripped))
          (rstrip is_separator (rstrip blank kept)) spaced
        ∙ ap (λ l. l ++ letters (rstrip is_separator (rstrip blank kept)))
            (rstripped (take from g.stripped))
        ∙ ap (λ l. letters (take from g.stripped) ++ l) (letters-head kept)
        ∙ sym (visible-append q (take from g.stripped) kept)
        ∙ ap letters (sym (take-plus from (to - from) g.stripped))
        ∙ ap (λ m. letters (take m g.stripped)) (omega arith)

    pub tail-Cut :
        (u : List Text) (start : ℕ)
        → 1 ≤ length u
        → start + length u < n
        → Cut (collapse_tail blank g u start)
    unfolding collapse_tail kept_copy
    tail-Cut u start p q =
        let i = start + length u in
        let (from, e) = start_of-some g.units start (omega arith) in
        let (o, f) = start_of-some g.units i q in
        let order = start_of_lt 0 (length g.stripped) g.units start i from o (omega arith) w e f in
        rw (e, f)
          (
            i,
            n,
            o,
            omega arith,
            q,
            f,
            stretch i n o q f,
            kept-letters from o (omega (arith, order))
                ∙ sym (append-nil (letters (take o g.stripped)))
                ∙ ap (λ l. letters (take o g.stripped) ++ l) (sym nothing_after),
          )

    pub run-Cut :
        (r : Run)
        → 1 ≤ r.unit_len
        → r.start + r.unit_len < n
        → r.start + r.unit_len < r.start + r.unit_len * r.repeats
        → Cut (collapse_run blank g r)
    unfolding collapse_run
    run-Cut r one p q =
        let i = r.start + r.unit_len in
        let j = r.start + r.unit_len * r.repeats in
        let (o, e) = start_of-some g.units i p in
        rw e (
          i,
          j,
          o,
          omega (arith, one),
          q,
          e,
          stretch i j o q e,
          letters-joined g (rstrip blank (take o g.stripped))
                (drop (or_length blank g (offset_at g j)) g.stripped) spaced
              ∙ ap (λ l. l ++ letters (drop (or_length blank g (offset_at g j)) g.stripped))
                  (rstripped (take o g.stripped)),
        )
