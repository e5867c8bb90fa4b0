-- ===== src/Text/Collapse/Units.antt =====
-- Where the units of a segment stand in its text.
use voxedge.Base.{
  ℕ, zero, suc, ◌+◌, ◌≤◌, ◌<◌, ◌≡◌, refl, Bool, true, false, none, some, List, [], ◌∷◌, arith,
  length, any, is_empty, if_intro,
}
use voxedge.Text.Strip.{Text, strip}
use voxedge.Text.Collapse.{
  Segment, is_separator, extended, kept_words, characters, begins_word, words, segment_of, start_of,
  start_of,
}

-- The units start at rising indices from `i` on and before `e`.
abbrev pub Within : ℕ → ℕ → List (Text × ℕ) → Type 0
Within i e [] = Unit
Within i e ((w, j) ∷ us) = (i ≤ j) × (j < e) × Within (suc j) e us

Within-earlier : (i k e : ℕ) (us : List (Text × ℕ)) → i ≤ k → Within k e us → Within i e us
Within-earlier i k e [] p h = tt
Within-earlier i k e ((w, j) ∷ us) p h = (omega (arith, h.0), h.1, h.2)

extended-Within :
    (c i e : ℕ) (joins : Bool) (us : List (Text × ℕ))
    → i < e
    → Within (suc i) e us
    → Within i e (extended c i joins us)
unfolding extended
extended-Within c i e true [] p h = (omega arith, p, tt)
extended-Within c i e true ((w, j) ∷ us) p h =
    (omega arith, p, Within-earlier (suc i) (suc j) e us (omega (arith, h.0)) h.2)
extended-Within c i e false us p h = (omega arith, p, h)

characters-Within : (i e : ℕ) (t : Text) → i + length t ≤ e → Within i e (characters i t)
unfolding characters
characters-Within i e [] p = tt
characters-Within i e (c ∷ t) p =
    let h = characters-Within (suc i) e t (omega arith) in
    if_intro (Within i e) (is_separator c) (characters (suc i) t)
      ((c ∷ [], i) ∷ characters (suc i) t)
      (λ _. Within-earlier i (suc i) e (characters (suc i) t) (omega arith) h)
      (λ _. (omega arith, omega arith, h))

kept_words-Within : (i e : ℕ) (us : List (Text × ℕ)) → Within i e us → Within i e (kept_words us)
unfolding kept_words
kept_words-Within i e [] h = tt
kept_words-Within i e ((w, j) ∷ us) h =
    let k = kept_words-Within (suc j) e us h.2 in
    if_intro (Within i e) (is_empty (strip is_separator w)) (kept_words us)
      ((strip is_separator w, j) ∷ kept_words us)
      (λ _. Within-earlier i (suc j) e (kept_words us) (omega (arith, h.0)) k) (λ _. (h.0, h.1, k))

module _ (blank : ℕ → Bool) where
  words-Within : (i e : ℕ) (t : Text) → i + length t ≤ e → Within i e (words blank i t)
  unfolding words
  words-Within i e [] p = tt
  words-Within i e (c ∷ t) p =
      let h = words-Within (suc i) e t (omega arith) in
      if_intro (Within i e) (blank c) (words blank (suc i) t)
        (extended c i (begins_word blank t) (words blank (suc i) t))
        (λ _. Within-earlier i (suc i) e (words blank (suc i) t) (omega arith) h)
        (λ _. extended-Within c i e (begins_word blank t) (words blank (suc i) t) (omega arith) h)

  abbrev AreWithin : Segment → Type 0
  AreWithin g = Within 0 (length g.stripped) g.units

  pub segment_of-Within : (t : Text) → AreWithin (segment_of blank t)
  unfolding segment_of
  segment_of-Within t =
      if_intro AreWithin (any blank t) _ _
        (λ _.
          kept_words-Within 0 (length t) (words blank 0 t)
            (words-Within 0 (length t) t (omega arith)))
        (λ _. characters-Within 0 (length t) t (omega arith))

-- Every unit has a start.
pub start_of-some :
    (us : List (Text × ℕ)) (i : ℕ) → i < length us → (o : ℕ) × (start_of us i ≡ some o)
start_of-some [] i p = absurd (omega arith)
start_of-some ((w, j) ∷ us) zero p = (j, refl)
start_of-some (u ∷ us) (suc i) p = start_of-some us i (omega arith)

pub start_of-none : (us : List (Text × ℕ)) (i : ℕ) → length us ≤ i → start_of us i ≡ none
start_of-none [] i p = refl
start_of-none (u ∷ us) zero p = absurd (omega arith)
start_of-none (u ∷ us) (suc i) p = start_of-none us i (omega arith)

pub start_of_bounds :
    (k e : ℕ) (us : List (Text × ℕ)) (i o : ℕ)
    → Within k e us
    → start_of us i ≡ some o
    → (k ≤ o) × (o < e)
start_of_bounds k e [] i o h q = cc
start_of_bounds k e ((w, j) ∷ us) zero o h q = (ground (arith, q, h.0), ground (arith, q, h.1))
start_of_bounds k e ((w, j) ∷ us) (suc i) o h q =
    let b = start_of_bounds (suc j) e us i o h.2 q in (omega (arith, b.0, h.0), b.1)

-- A later unit starts later.
pub start_of_lt :
    (k e : ℕ) (us : List (Text × ℕ)) (i j o o' : ℕ)
    → i < j
    → Within k e us
    → start_of us i ≡ some o
    → start_of us j ≡ some o'
    → o < o'
start_of_lt k e [] i j o o' p h q r = cc
start_of_lt k e (u ∷ us) i zero o o' p h q r = absurd (omega arith)
start_of_lt k e ((w, a) ∷ us) zero (suc j) o o' p h q r =
    let b = start_of_bounds (suc a) e us j o' h.2 r in ground (arith, q, b.0)
start_of_lt k e ((w, a) ∷ us) (suc i) (suc j) o o' p h q r =
    start_of_lt (suc a) e us i j o o' (omega arith) h.2 q r
