-- ===== src/Text/Join/Letters.antt =====
-- Joining keeps the letters.
use voxedge.Base.{
  ℕ, ◌≡◌, refl, ap, sym, ◌∙◌, Bool, true, false, ◌||◌, Bool-cases, inl, inr, Option, List, [], ◌∷◌,
  ◌++◌, arith, is_empty, if_intro, append-nil, if◌then◌else◌,
}
use voxedge.Text.Strip.{rstrip-visible, strip-visible, Text, strip, rstrip, visible, visible-append}
use voxedge.Text.Join.{is_trail, is_cjk, join, parts_of, trimmed, join_segments}

module _ (blank : ℕ → Bool) where
  -- A letter is neither blank nor trailing punctuation.
  abbrev pub letters : Text → Text
  letters t = visible (λ c. blank c || is_trail c) t

  abbrev pub letters_of : List Text → Text
  letters_of [] = []
  letters_of (t ∷ ts) = letters t ++ letters_of ts

  blank_within : (c : ℕ) → blank c ≡ true → blank c || is_trail c ≡ true
  blank_within c e = rw e refl

  trail_within : (c : ℕ) → is_trail c ≡ true → blank c || is_trail c ≡ true
  trail_within c e = ground (arith, e)

  strip-letters : (t : Text) → letters (strip blank t) ≡ letters t
  strip-letters t = strip-visible blank (λ c. blank c || is_trail c) blank_within t

  empty-letters : (t : Text) → is_empty t ≡ true → letters t ≡ []
  empty-letters [] e = refl
  empty-letters (c ∷ t) e = absurd (ground (arith, e))

  nothing : (t : Text) → is_empty t || is_empty (strip blank t) ≡ true → letters t ≡ []
  nothing t e = elim (Bool-cases (is_empty t)) [
    | inl k ↦ empty-letters t k
    | inr k ↦ sym (strip-letters t) ∙ empty-letters (strip blank t) (ground (arith, e, k))
  ]

  parts_of-letters : (ts : List Text) → letters_of (parts_of blank ts) ≡ letters_of ts
  unfolding parts_of
  parts_of-letters [] = refl
  parts_of-letters (t ∷ ts) =
      if_intro {A = List Text} (λ ps. letters_of ps ≡ letters t ++ letters_of ts)
        (is_empty t || is_empty (strip blank t)) _ _ (λ e. rw (nothing t e) (parts_of-letters ts))
        (λ _. rw (strip-letters t, parts_of-letters ts) refl)

  trimmed-letters : (ps : List Text) → letters_of (trimmed blank ps) ≡ letters_of ps
  unfolding trimmed
  trimmed-letters [] = refl
  trimmed-letters (p ∷ []) = refl
  trimmed-letters (p ∷ (q ∷ ps)) =
      let e =
        rstrip-visible blank (λ c. blank c || is_trail c) blank_within (rstrip is_trail p)
        ∙ rstrip-visible is_trail (λ c. blank c || is_trail c) trail_within p in
      ap (λ l. l ++ letters_of (trimmed blank (q ∷ ps))) e
      ∙ ap (λ l. letters p ++ l) (trimmed-letters (q ∷ ps))

  join-letters :
      (sep : Text) (ps : List Text) → letters sep ≡ [] → letters (join sep ps) ≡ letters_of ps
  unfolding join
  join-letters sep [] e = refl
  join-letters sep (p ∷ []) e = sym (append-nil (letters p))
  join-letters sep (p ∷ (q ∷ ps)) e =
      visible-append (λ c. blank c || is_trail c) p (sep ++ join sep (q ∷ ps))
      ∙ ap (λ l. letters p ++ l)
          (visible-append (λ c. blank c || is_trail c) sep (join sep (q ∷ ps))
            ∙ (ap (λ l. l ++ letters (join sep (q ∷ ps))) e ∙ join-letters sep (q ∷ ps) e))

  separator-letters : (b : Bool) → blank 32 ≡ true → letters (if b then [] else 32 ∷ []) ≡ []
  separator-letters true e = refl
  separator-letters false e = rw e refl

  letters_of-empty : (ps : List Text) → is_empty ps ≡ true → letters_of ps ≡ []
  letters_of-empty [] e = refl
  letters_of-empty (p ∷ ps) e = absurd (ground (arith, e))

  -- Where a space is blank, the letters of the joined text are those of the texts, in order: only blanks
  -- and trailing punctuation are added or dropped.
  pub join_segments-letters :
      (texts : List Text) (language : Option Text)
      → blank 32 ≡ true
      → letters (join_segments blank texts language) ≡ letters_of texts
  unfolding join_segments
  join_segments-letters texts language s =
      let sep = if is_cjk language then [] else 32 ∷ [] in
      if_intro {A = Text} (λ t. letters t ≡ letters_of texts) (is_empty (parts_of blank texts)) _ _
        (λ e. sym (letters_of-empty (parts_of blank texts) e) ∙ parts_of-letters texts)
        (λ _.
          strip-letters (join sep (trimmed blank (parts_of blank texts)))
          ∙ (join-letters sep (trimmed blank (parts_of blank texts))
                (separator-letters (is_cjk language) s)
              ∙ (trimmed-letters (parts_of blank texts) ∙ parts_of-letters texts)))
