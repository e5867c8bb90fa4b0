-- ===== src/Engine/Coordinator/Residency.antt =====
-- In exclusive mode, a switch of the active slot unloads the backend of the other.
use mathlib.Core.Option
use mathlib.Core.Bool.{false≢true}
use text.Mathlib.Text.{◌==◌ as str_eq}
use voxedge.Base.{
  ◌≡◌, ◌≢◌, refl, ap, ◌∙◌, sym, Bool, true, false, ◌&&◌, ◌||◌, Option, none, some, List, [], ◌∷◌,
  ◌++◌, map, arith, inl, inr, if◌then◌else◌,
}
use voxedge.Engine.Capability.{concurrent, exclusive}
use voxedge.Engine.Coordinator.{
  Slot, asr, tts, same, switched, unload, getter, backend, Event, used, unloaded, Coordinator, make,
  enter, leave, System, Step, enters, leaves, Reach, here, next, start,
}
use voxedge.Engine.Coordinator.Exclusion.{enter_cases, new_lock}

-- The backend of a slot was used, and has not been unloaded since.
unfoldable pub resident : Slot → List Event → Bool
resident t [] = false
resident t (used s ∷ es) = same s t || resident t es
resident t (unloaded s ∷ es) = if same s t then false else resident t es

-- A resident backend is that of the active slot, and both can be unloaded.
record IsResident (s : System) : Type 0 where
  active : (t : Slot) → resident t s.events ≡ true → s.coordinator.active_slot ≡ some t
  mode_set : s.coordinator.mode ≡ exclusive
  asr_backend : s.coordinator.asr_getter ≡ backend true
  tts_backend : s.coordinator.tts_getter ≡ backend true
  locked : s.coordinator.lock ≢ none

-- After a switch only the new slot's backend is resident.
after_switch :
    (slot : Slot) (o : Option Slot) (c : Coordinator) (es : List Event) (t : Slot)
    → c.asr_getter ≡ backend true
    → c.tts_getter ≡ backend true
    → ((t : Slot) → resident t es ≡ true → o ≡ some t)
    → resident t (used slot ∷ (map unloaded (switched slot o c) ++ es)) ≡ true
    → slot ≡ t
unfolding resident switched unload getter
after_switch asr none c es asr a b h r = refl
after_switch tts none c es tts a b h r = refl
after_switch asr none c es tts a b h r = absurd (ground (arith, h tts r))
after_switch tts none c es asr a b h r = absurd (ground (arith, h asr r))
after_switch asr (some o) c es asr a b h r = refl
after_switch tts (some o) c es tts a b h r = refl
after_switch asr (some asr) c es tts a b h r = absurd (ground (arith, h tts r))
after_switch tts (some tts) c es asr a b h r = absurd (ground (arith, h asr r))
after_switch asr (some tts) c es tts a b h r = absurd (ground (arith, r, b))
after_switch tts (some asr) c es asr a b h r = absurd (ground (arith, r, a))

-- A task that enters in exclusive mode has switched the active slot.
entered :
    (c : Coordinator)
    → c.mode ≡ exclusive
    → c.lock ≢ none
    → (slot : Slot) (c' : Coordinator) (gone : List Slot) → enter slot c ≡ some (c', gone)
    → (c' ≡ record c { lock = some true; active_slot = some slot })
      × (gone ≡ switched slot c.active_slot c)
entered c m n slot c' gone e = elim (enter_cases slot c c' gone e) [
  | inl (_, _, inl k) ↦ absurd (false≢true (ap (λ w. str_eq w concurrent) (sym m) ∙ k))
  | inl (_, _, inr k) ↦ absurd (n k)
  | inr (free, taken, g) ↦
      (taken, g ∙ ap (λ w. if str_eq w exclusive then switched slot c.active_slot c else []) m)
]

-- Leaving touches the lock alone.
left :
    (c : Coordinator)
    → c.mode ≡ exclusive
    → leave c ≡ record c { lock = Option.map (λ _. false) c.lock }
unfolding leave
left c m = rw m refl

unmapped : (o : Option Bool) → o ≢ none → Option.map (λ _. false) o ≢ none
unmapped none n = absurd (n refl)
unmapped (some b) n = λ f. ground (arith, f)

Step-IsResident : {s u : System} → Step s u → IsResident s → IsResident u
Step-IsResident {s} {u} (enters slot c gone e p) x =
    let h : (c ≡ record s.coordinator { lock = some true; active_slot = some slot })
        × (gone ≡ switched slot s.coordinator.active_slot s.coordinator) =
      entered s.coordinator x.mode_set x.locked slot c gone e in
    rw (p, h.0, h.1)
      record {
        active = λ t r. ap some (
            after_switch slot s.coordinator.active_slot s.coordinator s.events t x.asr_backend
              x.tts_backend x.active r);
        mode_set = x.mode_set;
        asr_backend = x.asr_backend;
        tts_backend = x.tts_backend;
        locked = λ f. ground (arith, f);
      }
Step-IsResident {s} {u} (leaves slot before after e p) x =
    rw (p, left s.coordinator x.mode_set)
      record {
        active = x.active;
        mode_set = x.mode_set;
        asr_backend = x.asr_backend;
        tts_backend = x.tts_backend;
        locked = unmapped s.coordinator.lock x.locked;
      }

Reach-IsResident : {s u : System} → Reach s u → IsResident s → IsResident u
Reach-IsResident here x = x
Reach-IsResident (next r step) x = Step-IsResident step (Reach-IsResident r x)

one_active :
    (o : Option Slot) (a b : Bool)
    → (a ≡ true → o ≡ some asr)
    → (b ≡ true → o ≡ some tts)
    → (a && b) ≡ false
one_active o a b f g = ground arith

-- In exclusive mode, where both backends have `unload`, never both have been used since their last
-- `unload`, whatever the order in which the tasks enter and leave.
pub one_resident :
    (s : System)
    → Reach
        (start (record (make exclusive) { asr_getter = backend true; tts_getter = backend true }))
        s
    → (resident asr s.events && resident tts s.events) ≡ false
unfolding resident make
one_resident s r =
    let x : IsResident s = Reach-IsResident r record {
      active = λ t q. absurd (false≢true q);
      mode_set = refl;
      asr_backend = refl;
      tts_backend = refl;
      locked = λ f. ground (arith, f, new_lock exclusive (inr refl));
    } in
    one_active s.coordinator.active_slot (resident asr s.events) (resident tts s.events)
      (x.active asr) (x.active tts)
