-- ===== src/Backends/WorkerIo/Family.antt =====
-- Tables by number: a change at one number, and the count of the first `n` that pass a test.
use voxedge.Base.{
  ℕ, zero, suc, ◌+◌, ◌≤◌, ◌<◌, ◌≡◌, refl, Bool, true, false, arith, ◌==◌, if◌then◌else◌,
}

abbrev pub update {ℓ} : {A : Type ℓ} → (ℕ → A) → ℕ → A → ℕ → A
update f i a j = if i == j then a else f j

abbrev pub one_if : Bool → ℕ
one_if true = 1
one_if false = 0

module _ {ℓ} {A : Type ℓ} (p : A → Bool) where
  unfoldable pub count_below : ℕ → (ℕ → A) → ℕ
  count_below zero f = 0
  count_below (suc n) f = one_if (p (f n)) + count_below n f

  untouched :
      (n : ℕ) (f : ℕ → A) (i : ℕ) (a : A) → n ≤ i → count_below n (update f i a) ≡ count_below n f
  unfolding count_below
  untouched zero f i a h = refl
  untouched (suc n) f i a h = ground (arith, untouched n f i a)

  pub count_below-update :
      (n : ℕ) (f : ℕ → A) (i : ℕ) (a : A)
      → i < n
      → count_below n (update f i a) + one_if (p (f i)) ≡ count_below n f + one_if (p a)
  unfolding count_below
  count_below-update zero f i a h = absurd (omega arith)
  count_below-update (suc n) f i a h = ground (arith, count_below-update n f i a, untouched n f i a)
