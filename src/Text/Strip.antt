-- ===== src/Text/Strip.antt =====
-- `str.lstrip`, `str.rstrip` and `str.strip`, for any class of characters that are stripped.
use voxedge.Base.{
  ℕ, suc, ◌≤◌, ◌≡◌, refl, ap, ◌∙◌, Bool, true, false, ◌&&◌, List, [], ◌∷◌, ◌++◌, arith, length,
  is_empty, if◌then◌else◌, if_intro, Bool-cases, inl, inr,
}

abbrev pub Text : Type 0
Text = List ℕ

module _ (blank : ℕ → Bool) where
  unfoldable pub lstrip : Text → Text
  lstrip [] = []
  lstrip (c ∷ cs) = let rest = lstrip cs in if blank c then rest else c ∷ cs

  unfoldable pub rstrip : Text → Text
  rstrip [] = []
  rstrip (c ∷ cs) = let rest = rstrip cs in if is_empty rest && blank c then [] else c ∷ rest

  abbrev pub strip : Text → Text
  strip t = rstrip (lstrip t)

  -- A text without its blanks.
  abbrev pub visible : Text → Text
  visible [] = []
  visible (c ∷ cs) = let rest = visible cs in if blank c then rest else c ∷ rest

  -- A text that does not begin with a blank.
  abbrev pub IsFlush : Text → Type 0
  IsFlush [] = Unit
  IsFlush (c ∷ cs) = blank c ≡ false

  pub visible-append : (s t : Text) → visible (s ++ t) ≡ visible s ++ visible t
  visible-append [] t = refl
  visible-append (c ∷ s) t = elim (Bool-cases (blank c)) [
    | inl k ↦ rw k (visible-append s t)
    | inr k ↦ rw k (ap (λ r. c ∷ r) (visible-append s t))
  ]

-- Where what is stripped is no letter, the letters stay.
module _ (p q : ℕ → Bool) (within : (c : ℕ) → p c ≡ true → q c ≡ true) where
  pub lstrip-visible : (t : Text) → visible q (lstrip p t) ≡ visible q t
  unfolding lstrip
  lstrip-visible [] = refl
  lstrip-visible (c ∷ t) = elim (Bool-cases (p c)) [
    | inl k ↦ rw (k, within c k) (lstrip-visible t)
    | inr k ↦ rw k refl
  ]

  rstripped :
      (c : ℕ) (t r : Text)
      → visible q r ≡ visible q t
      → visible q (if is_empty r && p c then [] else c ∷ r) ≡ visible q (c ∷ t)
  rstripped c t [] e = elim (Bool-cases (p c)) [
    | inl k ↦ rw (k, within c k) e
    | inr k ↦ rw k (ap (λ v. if q c then v else c ∷ v) e)
  ]
  rstripped c t (d ∷ r) e = ap (λ v. if q c then v else c ∷ v) e

  pub rstrip-visible : (t : Text) → visible q (rstrip p t) ≡ visible q t
  unfolding rstrip
  rstrip-visible [] = refl
  rstrip-visible (c ∷ t) = rstripped c t (rstrip p t) (rstrip-visible t)

  pub strip-visible : (t : Text) → visible q (strip p t) ≡ visible q t
  strip-visible t = rstrip-visible (lstrip p t) ∙ lstrip-visible t

module _ (blank : ℕ → Bool) where
  pub visible-lstrip : (t : Text) → visible blank (lstrip blank t) ≡ visible blank t
  visible-lstrip = lstrip-visible blank blank (λ c e. e)

  pub visible-rstrip : (t : Text) → visible blank (rstrip blank t) ≡ visible blank t
  visible-rstrip = rstrip-visible blank blank (λ c e. e)

  pub visible-strip : (t : Text) → visible blank (strip blank t) ≡ visible blank t
  visible-strip = strip-visible blank blank (λ c e. e)

  pub lstrip-IsFlush : (t : Text) → IsFlush blank (lstrip blank t)
  unfolding lstrip
  lstrip-IsFlush [] = tt
  lstrip-IsFlush (c ∷ t) =
      if_intro (IsFlush blank) (blank c) (lstrip blank t) (c ∷ t) (λ _. lstrip-IsFlush t) (λ e. e)

  pub lstrip-length : (t : Text) → length (lstrip blank t) ≤ length t
  unfolding lstrip
  lstrip-length [] = omega arith
  lstrip-length (c ∷ t) =
      if_intro (λ r. length r ≤ suc (length t)) (blank c) (lstrip blank t) (c ∷ t)
        (λ _. omega (arith, lstrip-length t)) (λ _. omega arith)

  pub lstrip-flush : (t : Text) → IsFlush blank t → lstrip blank t ≡ t
  unfolding lstrip
  lstrip-flush [] h = refl
  lstrip-flush (c ∷ t) h = rw h refl

  -- A text that begins with no blank has something left of it.
  pub strip-flush : (c : ℕ) (t : Text) → blank c ≡ false → is_empty (strip blank (c ∷ t)) ≡ false
  unfolding lstrip rstrip
  strip-flush c t h = ground (arith, h)
