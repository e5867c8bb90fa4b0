-- ===== src/Engine/Coordinator.antt =====
-- engine/coordinator.py: the coordinator gives a slot, ASR or TTS, for the time of a backend call.
-- Tasks enter and leave `acquire` in any order; a task that waits for the lock has not entered.
pub mod Exclusion
pub mod Residency
mod Tests
use Prim.Native.String.{String}
use text.Mathlib.Text.{◌==◌ as str_eq}
use mathlib.Core.Option
use voxedge.Base.{
  ℕ, Bool, true, false, not, ◌&&◌, ◌||◌, Option, none, some, List, [], ◌∷◌, ◌++◌, map, ◌≡◌,
  if◌then◌else◌,
}
use voxedge.Engine.Capability.{concurrent, serialized, exclusive, Declared, resolve}

pub data Slot : Type 0 where
  asr tts : Slot

abbrev pub same : Slot → Slot → Bool
same asr asr = true
same tts tts = true
same _ _ = false

-- What `_backend_getters` has for a slot: nothing, a getter that returns None, or a backend, which
-- may have `unload`.
pub data Getter : Type 0 where
  unregistered no_backend : Getter
  backend : Bool → Getter

-- `lock` is `none` where there is no lock, and else whether it is held.
pub record Coordinator : Type 0 where
  pub mode : String
  pub lock : Option Bool
  pub active_slot : Option Slot
  pub asr_getter : Getter
  pub tts_getter : Getter

-- `__init__`
unfoldable pub make : String → Coordinator
make mode = record {
  mode = mode;
  lock = if str_eq mode serialized || str_eq mode exclusive then some false else none;
  active_slot = none;
  asr_getter = unregistered;
  tts_getter = unregistered;
}

unfoldable pub register_backend : Slot → Getter → Coordinator → Coordinator
register_backend asr g c = record c { asr_getter = g }
register_backend tts g c = record c { tts_getter = g }

getter_of : Option (Declared × Bool) → Getter
getter_of none = unregistered
getter_of (some d) = backend d.1

-- `from_backends`; a backend is what it declares, and whether it has `unload`.
unfoldable pub from_backends :
    (String → String)
    → Option (Declared × Bool)
    → Option (Declared × Bool)
    → Option String
    → Coordinator
unfolding make getter_of
from_backends lower a t requested =
    let declared_a = Option.map (λ d. d.0) a in
    let declared_t = Option.map (λ d. d.0) t in
    let c = make (resolve lower declared_a declared_t requested).coordinator_mode in
    record c { asr_getter = getter_of a; tts_getter = getter_of t }

getter : Slot → Coordinator → Getter
getter asr c = c.asr_getter
getter tts c = c.tts_getter

-- The calls of `unload` on the backend of a slot.
unload : Slot → Getter → List Slot
unload s (backend true) = s ∷ []
unload s _ = []

-- What a switch to `slot` unloads: the backend of the slot that was active before, if it is another.
pub switched : Slot → Option Slot → Coordinator → List Slot
unfolding getter unload
switched slot none c = []
switched slot (some other) c = if same other slot then [] else unload other (getter other c)

-- `acquire`, up to its `yield`: the coordinator after it and the backends unloaded; `none` where the
-- task has to wait.
unfoldable pub enter : Slot → Coordinator → Option (Coordinator × List Slot)
unfolding switched
enter slot c = if str_eq c.mode concurrent then some (c, []) else elim c.lock [
  | none ↦ some (c, [])
  | some true ↦ none
  | some false ↦ some (
    record c { lock = some true; active_slot = some slot },
    if str_eq c.mode exclusive then switched slot c.active_slot c else [],
  )
]

-- `acquire`, after its `yield`.
unfoldable pub leave : Coordinator → Coordinator
leave c = if str_eq c.mode concurrent then c else record c { lock = Option.map (λ _. false) c.lock }

-- A backend is used by the task in its slot, or unloaded.
pub data Event : Type 0 where
  used unloaded : Slot → Event

-- The tasks in a slot, and what has happened, the last first.
pub record System : Type 0 where
  pub coordinator : Coordinator
  pub holders : List Slot
  pub events : List Event

-- The tasks' steps.
pub data Step (s u : System) : Type 0 where
  enters :
      (slot : Slot) (c : Coordinator) (gone : List Slot)
      → enter slot s.coordinator ≡ some (c, gone)
      → u ≡ record {
        coordinator = c;
        holders = slot ∷ s.holders;
        events = used slot ∷ (map unloaded gone ++ s.events);
      }
      → Step s u
  leaves :
      (slot : Slot) (before after : List Slot)
      → s.holders ≡ before ++ (slot ∷ after)
      → u ≡ record s { coordinator = leave s.coordinator; holders = before ++ after }
      → Step s u

pub data Reach (s : System) : System → Type 0 where
  here : Reach s s
  next : {t u : System} → Reach s t → Step t u → Reach s u

-- A coordinator that no task has used.
abbrev pub start : Coordinator → System
start c = record { coordinator = c; holders = []; events = [] }
