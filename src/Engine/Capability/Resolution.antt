-- ===== src/Engine/Capability/Resolution.antt =====
-- The mode and the ceiling that `resolve` finds.
use Prim.Native.String.{String}
use mathlib.Core.Bool.{false≢true}
use text.Mathlib.Text.{◌==◌ as str_eq}
use text.Mathlib.TextEquality.{eq_iff}
use voxedge.Base.{
  ℕ, ◌≤◌, ◌≡◌, ◌≢◌, ◌↔◌, sym, refl, ◌∙◌, ◌⊎◌, inl, inr, Bool, true, false, ◌&&◌, Option, none, some,
  arith,
}
use voxedge.Engine.Capability.{
  exclusive, concurrent, serialized, Declared, parallel_ok, aggregate_ceiling, lesser, requested_or,
  mode_for, resolve, capability_of,
}

ne_of_eq : (a b : String) → str_eq a b ≡ false → a ≢ b
ne_of_eq a b h e = false≢true (sym h ∙ (eq_iff a b).1 e)

exclusive≢concurrent : exclusive ≢ concurrent
exclusive≢concurrent = ne_of_eq exclusive concurrent refl

serialized≢concurrent : serialized ≢ concurrent
serialized≢concurrent = ne_of_eq serialized concurrent refl

mode_for-concurrent :
    (r : String) (p : Bool) → (mode_for r p ≡ concurrent) ↔ ((r ≡ concurrent) × (p ≡ true))
unfolding mode_for
mode_for-concurrent r p = (
  λ e. ground (
    arith,
    eq_iff r exclusive,
    eq_iff r concurrent,
    eq_iff r serialized,
    exclusive≢concurrent,
    serialized≢concurrent,
  ),
  λ h. ground (arith, eq_iff r exclusive, eq_iff r concurrent, exclusive≢concurrent),
)

&&-eq-true : (a b : Bool) → ((a && b) ≡ true) ↔ ((a ≡ true) × (b ≡ true))
&&-eq-true a b = ground arith

-- Concurrent execution is resolved exactly when it is asked for, or nothing is, and both backends can
-- run in parallel.
pub resolve-concurrent :
    (lower : String → String) (asr tts : Option Declared) (requested : Option String)
    → ((resolve lower asr tts requested).coordinator_mode ≡ concurrent) ↔ (
        (requested_or requested ≡ concurrent)
        × (parallel_ok (capability_of lower asr) ≡ true)
        × (parallel_ok (capability_of lower tts) ≡ true))
unfolding resolve
resolve-concurrent lower asr tts requested =
    let a = parallel_ok (capability_of lower asr) in
    let b = parallel_ok (capability_of lower tts) in
    let m = mode_for-concurrent (requested_or requested) (a && b) in
    (
      λ e. let (r, ab) = m.0 e in let (p, q) = (&&-eq-true a b).0 ab in (r, p, q),
      λ h. m.1 (h.0, (&&-eq-true a b).1 (h.1, h.2)),
    )

-- The order of caps, where none is above all.
abbrev pub AtMost : Option ℕ → Option ℕ → Type 0
AtMost o none = Unit
AtMost none (some m) = ⊥
AtMost (some n) (some m) = n ≤ m

lesser_bound :
    (a t : Option ℕ)
    → AtMost (lesser a t) a × AtMost (lesser a t) t × ((lesser a t ≡ a) ⊎ (lesser a t ≡ t))
unfolding lesser
lesser_bound none none = (tt, tt, inl refl)
lesser_bound none (some n) = (tt, omega arith, inr refl)
lesser_bound (some m) none = (omega arith, tt, inl refl)
lesser_bound (some m) (some n) = (omega arith, omega arith, ground arith)

-- The resolved ceiling is the lesser of the caps of the two backends, where none is above all caps: it
-- is at most each, and it is one of them.
pub resolve_ceiling :
    (lower : String → String) (asr tts : Option Declared) (requested : Option String)
    → let ceiling = (resolve lower asr tts requested).ceiling in
      let a = (capability_of lower asr).max_concurrent in
      let t = (capability_of lower tts).max_concurrent in
      AtMost ceiling a × AtMost ceiling t × ((ceiling ≡ a) ⊎ (ceiling ≡ t))
unfolding resolve aggregate_ceiling
resolve_ceiling lower asr tts requested =
    lesser_bound (capability_of lower asr).max_concurrent (capability_of lower tts).max_concurrent

mode_for_serial :
    (r : String)
    → (r ≡ concurrent) ⊎ ((r ≡ serialized) ⊎ (r ≡ exclusive))
    → (mode_for r false ≡ serialized) ⊎ (mode_for r false ≡ exclusive)
unfolding mode_for
mode_for_serial r (inl e) = inl (rw e refl)
mode_for_serial r (inr (inl e)) = inl (rw e refl)
mode_for_serial r (inr (inr e)) = inr (rw e refl)

-- Of the three modes, one that needs a lock is resolved where a backend cannot run in parallel.
pub resolve_serial :
    (lower : String → String) (asr tts : Option Declared) (requested : Option String)
    → (requested_or requested ≡ concurrent)
      ⊎ ((requested_or requested ≡ serialized) ⊎ (requested_or requested ≡ exclusive))
    → (parallel_ok (capability_of lower asr) && parallel_ok (capability_of lower tts)) ≡ false
    → let m = (resolve lower asr tts requested).coordinator_mode in
      (m ≡ serialized) ⊎ (m ≡ exclusive)
unfolding resolve
resolve_serial lower asr tts requested m p = rw p (mode_for_serial (requested_or requested) m)
