-- ===== src/Engine/Coordinator/Exclusion.antt =====
-- With a lock, at most one task is in a slot.
use Prim.Native.String.{String}
use mathlib.Core.Option
use text.Mathlib.Text.{◌==◌ as str_eq}
use text.Mathlib.TextEquality.{eq_iff}
use voxedge.Base.{
  ◌≤◌, ◌≡◌, ◌≢◌, refl, ap, ◌∙◌, sym, Bool, true, false, ◌&&◌, ◌||◌, Option, none, some, List, [],
  ◌∷◌, ◌++◌, arith, length, ◌⊎◌, inl, inr, Bool-cases, if◌then◌else◌,
}
use voxedge.Engine.Capability.{
  concurrent, serialized, exclusive, Declared, requested_or, parallel_ok, capability_of,
}
use voxedge.Engine.Capability.Resolution.{resolve_serial}
use voxedge.Engine.Coordinator.{
  Slot, switched, Coordinator, make, from_backends, enter, leave, System, Step, enters, leaves,
  Reach, here, next, start,
}

-- The lock is held while one task is in a slot.
abbrev pub Holding : Option Bool → List Slot → Type 0
Holding none hs = Unit
Holding (some false) [] = Unit
Holding (some true) (h ∷ []) = Unit
Holding _ _ = ⊥

pub record IsExclusive (s : System) : Type 0 where
  pub held : Holding s.coordinator.lock s.holders
  pub guarded :
      (b : Bool) → s.coordinator.lock ≡ some b → str_eq s.coordinator.mode concurrent ≡ false

lock_cases : (o : Option Bool) → (o ≡ some false) ⊎ ((o ≡ some true) ⊎ (o ≡ none))
lock_cases none = inr (inr refl)
lock_cases (some true) = inr (inl refl)
lock_cases (some false) = inl refl

-- Entering changes nothing, or takes the free lock.
pub enter_cases :
    (slot : Slot) (c c' : Coordinator) (gone : List Slot)
    → enter slot c ≡ some (c', gone)
    → ((c' ≡ c) × (gone ≡ []) × ((str_eq c.mode concurrent ≡ true) ⊎ (c.lock ≡ none)))
      ⊎ ((c.lock ≡ some false)
          × (c' ≡ record c { lock = some true; active_slot = some slot })
          × (gone ≡ (if str_eq c.mode exclusive then switched slot c.active_slot c else [])))
unfolding enter
enter_cases slot c c' gone e = elim (Bool-cases (str_eq c.mode concurrent)) [
  | inl k ↦ inl (ground (arith, k))
  | inr k ↦ elim (lock_cases c.lock) [
    | inl f ↦ inr (ground (arith, k, f))
    | inr (inl f) ↦ absurd (ground (arith, k, f))
    | inr (inr f) ↦ inl (ground (arith, k, f))
  ]
]

Holding-free : (hs : List Slot) → Holding (some false) hs → hs ≡ []
Holding-free [] h = refl
Holding-free (x ∷ hs) h = absurd h

Holding-held : (hs : List Slot) → hs ≡ [] → (slot : Slot) → Holding (some true) (slot ∷ hs)
Holding-held [] e slot = tt
Holding-held (x ∷ hs) e slot = absurd (ground (arith, e))

Holding-none : (o : Option Bool) → o ≡ none → (hs : List Slot) → Holding o hs
Holding-none none e hs = tt
Holding-none (some b) e hs = absurd (ground (arith, e))

Holding-one :
    (o : Option Bool) (before after : List Slot) (slot : Slot)
    → Holding o (before ++ (slot ∷ after))
    → Holding (Option.map (λ _. false) o) (before ++ after)
Holding-one none before after slot h = tt
Holding-one (some true) [] [] slot h = tt
Holding-one (some true) (b ∷ []) after slot h = absurd h
Holding-one (some true) (b ∷ (c ∷ bs)) after slot h = absurd h
Holding-one (some true) [] (a ∷ as') slot h = absurd h
Holding-one (some false) [] after slot h = absurd h
Holding-one (some false) (b ∷ bs) after slot h = absurd h

-- A coordinator that has nothing to lock is in every state.
unlocked : (s : System) → s.coordinator.lock ≡ none → IsExclusive s
unlocked s e = record {
  held = Holding-none s.coordinator.lock e s.holders;
  guarded = λ b f. absurd (ground (arith, e, f));
}

no_lock :
    {s : System}
    → IsExclusive s
    → str_eq s.coordinator.mode concurrent ≡ true
    → s.coordinator.lock ≡ none
no_lock {s} x k = elim (lock_cases s.coordinator.lock) [
  | inl f ↦ absurd (ground (arith, x.guarded false f, k))
  | inr (inl f) ↦ absurd (ground (arith, x.guarded true f, k))
  | inr (inr f) ↦ f
]

mapped_some :
    (o : Option Bool) (b : Bool) → Option.map (λ _. false) o ≡ some b → (c : Bool) × (o ≡ some c)
mapped_some none b e = absurd (ground (arith, e))
mapped_some (some c) b e = (c, refl)

Step-IsExclusive : {s u : System} → Step s u → IsExclusive s → IsExclusive u
unfolding leave
Step-IsExclusive {s} {u} (enters slot c gone e p) x =
    elim (enter_cases slot s.coordinator c gone e) [
      | inl (same, _, inl k) ↦
          unlocked u (ap (λ w. w.coordinator.lock) p ∙ ap (λ w. w.lock) same ∙ no_lock x k)
      | inl (same, _, inr k) ↦
          unlocked u (ap (λ w. w.coordinator.lock) p ∙ ap (λ w. w.lock) same ∙ k)
      | inr (free, taken, _) ↦
          rw (p, taken)
            record {
              held = Holding-held s.holders (Holding-free s.holders (rw (sym free) x.held)) slot;
              guarded = λ _ _. x.guarded false free;
            }
    ]
Step-IsExclusive {s} {u} (leaves slot before after e p) x =
    elim (Bool-cases (str_eq s.coordinator.mode concurrent)) [
      | inl k ↦ unlocked u (ground (arith, p, k, no_lock x k))
      | inr k ↦
          rw (p, k)
            record {
              held = Holding-one s.coordinator.lock before after slot (rw (sym e) x.held);
              guarded = λ b f. k;
            }
    ]

Reach-IsExclusive : {s u : System} → Reach s u → IsExclusive s → IsExclusive u
Reach-IsExclusive here x = x
Reach-IsExclusive (next r step) x = Step-IsExclusive step (Reach-IsExclusive r x)

Holding-length : (o : Option Bool) (hs : List Slot) → o ≢ none → Holding o hs → length hs ≤ 1
Holding-length none hs e h = absurd (e refl)
Holding-length (some b) [] e h = omega arith
Holding-length (some b) (x ∷ []) e h = ground arith
Holding-length (some true) (x ∷ (y ∷ hs)) e h = absurd h
Holding-length (some false) (x ∷ (y ∷ hs)) e h = absurd h

unmapped_none : (o : Option Bool) → Option.map (λ _. false) o ≡ none → o ≡ none
unmapped_none none e = refl
unmapped_none (some b) e = absurd (ground (arith, e))

left_none : (c : Coordinator) → (leave c).lock ≡ none → Option.map (λ _. false) c.lock ≡ none
unfolding leave
left_none c e = elim (Bool-cases (str_eq c.mode concurrent)) [
  | inl k ↦ ap (Option.map (λ _. false)) {y = none} (ground (arith, k, e))
  | inr k ↦ ground (arith, k, e)
]

pub keeps_lock : {s u : System} → Step s u → s.coordinator.lock ≢ none → u.coordinator.lock ≢ none
unfolding leave
keeps_lock {s} {u} (enters slot c gone e p) n = elim (enter_cases slot s.coordinator c gone e) [
  | inl (same, _, _) ↦ λ f. n (ground (arith, p, same, f))
  | inr (_, taken, _) ↦ λ f. ground (arith, p, taken, f)
]
keeps_lock {s} {u} (leaves slot before after e p) n = λ f. n (
    unmapped_none s.coordinator.lock
      (left_none s.coordinator (ap (λ w. w.coordinator.lock) (sym p) ∙ f)))

Reach-lock : {s u : System} → Reach s u → s.coordinator.lock ≢ none → u.coordinator.lock ≢ none
Reach-lock here n = n
Reach-lock (next r step) n = keeps_lock step (Reach-lock r n)

pub new_lock : (m : String) → (m ≡ serialized) ⊎ (m ≡ exclusive) → (make m).lock ≡ some false
unfolding make
new_lock m (inl e) = rw e refl
new_lock m (inr e) = rw e refl

concurrent_lock : (m : String) → str_eq m concurrent ≡ true → (make m).lock ≡ none
unfolding make
concurrent_lock m e = rw ((eq_iff m concurrent).0 e) refl

new_lock_free : (m : String) → Holding (make m).lock []
unfolding make
new_lock_free m = elim (Bool-cases (str_eq m serialized || str_eq m exclusive)) [
  | inl k ↦ rw k tt
  | inr k ↦ rw k tt
]

start-IsExclusive : (c : Coordinator) → c.lock ≡ (make c.mode).lock → IsExclusive (start c)
start-IsExclusive c e = record {
  held = rw e (new_lock_free c.mode);
  guarded = λ b f. elim (Bool-cases (str_eq c.mode concurrent)) [
    | inl k ↦ absurd (ground (arith, e, f, concurrent_lock c.mode k))
    | inr k ↦ k
  ];
}

-- In serialized or exclusive mode, a coordinator that has the lock it was made with, and that no task
-- has used before, lets at most one task be in a slot at a time, whatever the order in which the
-- tasks enter and leave.
pub mutual_exclusion :
    (c : Coordinator)
    → c.lock ≡ (make c.mode).lock
    → (c.mode ≡ serialized) ⊎ (c.mode ≡ exclusive)
    → (s : System) → Reach (start c) s
    → length s.holders ≤ 1
mutual_exclusion c e m s r =
    Holding-length s.coordinator.lock s.holders
      (Reach-lock r (λ f. ground (arith, f, e, new_lock c.mode m)))
      (Reach-IsExclusive r (start-IsExclusive c e)).held

-- Where one of the two backends cannot run in parallel, and one of the three modes is asked for, or
-- none, at most one task at a time is in a slot of the coordinator that is built from them.
pub serial_backends :
    (lower : String → String) (a t : Option (Declared × Bool)) (requested : Option String)
    → (requested_or requested ≡ concurrent)
      ⊎ ((requested_or requested ≡ serialized) ⊎ (requested_or requested ≡ exclusive))
    → (parallel_ok (capability_of lower (Option.map (λ d. d.0) a))
        && parallel_ok (capability_of lower (Option.map (λ d. d.0) t)))
      ≡ false
    → (s : System) → Reach (start (from_backends lower a t requested)) s
    → length s.holders ≤ 1
unfolding from_backends
serial_backends lower a t requested m p s r =
    mutual_exclusion (from_backends lower a t requested) refl
      (resolve_serial lower (Option.map (λ d. d.0) a) (Option.map (λ d. d.0) t) requested m p) s r
