-- ===== src/Engine/Capability.antt =====
-- engine/concurrency_capability.py and engine/capability_resolver.py: what a backend can run in
-- parallel, and the coordinator's mode that follows. A number of slots is a natural number.
pub mod Resolution
mod Tests
use Prim.Native.String.{String}
use text.Mathlib.Text.{◌==◌ as str_eq}
use voxedge.Base.{
  ℕ, min, Bool, true, false, not, ◌&&◌, ◌||◌, Option, none, some, ltb, if◌then◌else◌,
}

pub data ScalingMode : Type 0 where
  single_runtime_multiplex multi_runtime_per_slot per_call_isolated external_managed : ScalingMode

pub record ConcurrencyCapability : Type 0 where
  pub supports_parallel : Bool
  pub max_concurrent : Option ℕ
  pub is_stateful : Bool
  pub requires_exclusive_device : Bool
  pub scaling_mode : ScalingMode
  pub vram_mb_per_slot : Option ℕ

-- `ConcurrencyCapability.default()`
abbrev pub default : ConcurrencyCapability
default = record {
  supports_parallel = false;
  max_concurrent = some 1;
  is_stateful = true;
  requires_exclusive_device = true;
  scaling_mode = single_runtime_multiplex;
  vram_mb_per_slot = none;
}

-- A value under a key of the dict form: absent, None, a number, or one that `int` refuses.
pub data Entry : Type 0 where
  absent null invalid : Entry
  number : ℕ → Entry

-- What a backend's `concurrency_capability()` does: it may be missing or raise; it returns a
-- descriptor, a mapping (its `max_concurrency`, `max_concurrent` and `mode`), or anything else.
pub data Declared : Type 0 where
  missing raises other : Declared
  typed : ConcurrencyCapability → Declared
  mapping : Entry → Entry → Option String → Declared

-- `raw.get("max_concurrency", raw.get("max_concurrent", 1))`, as an `int`.
max_of : Entry → Entry → Option ℕ
max_of (number n) e = some n
max_of null e = none
max_of invalid e = some 1
max_of absent (number n) = some n
max_of absent null = none
max_of absent invalid = some 1
max_of absent absent = some 1

above_one : Option ℕ → Bool
above_one none = false
above_one (some n) = ltb 1 n

is_concurrent : (String → String) → Option String → Bool
is_concurrent lower none = false
is_concurrent lower (some m) = str_eq (lower m) "concurrent"

-- `lower` is the `lower` of Python's strings.
module _ (lower : String → String) where
  normalize_capability : Declared → ConcurrencyCapability
  unfolding max_of above_one is_concurrent
  normalize_capability (typed c) = c
  normalize_capability (mapping e f mode) = record default {
    supports_parallel = is_concurrent lower mode || above_one (max_of e f);
    max_concurrent = max_of e f;
  }
  normalize_capability _ = default

  -- `none` is the missing backend.
  unfoldable pub capability_of : Option Declared → ConcurrencyCapability
  unfolding normalize_capability
  capability_of none = default
  capability_of (some d) = normalize_capability d

pub lesser : Option ℕ → Option ℕ → Option ℕ
lesser none o = o
lesser (some m) none = some m
lesser (some m) (some n) = some (min m n)

-- The smaller cap, where `none` is no cap. (The diagnostic label beside it is left out.)
unfoldable pub aggregate_ceiling : ConcurrencyCapability → ConcurrencyCapability → Option ℕ
unfolding lesser
aggregate_ceiling asr tts = lesser asr.max_concurrent tts.max_concurrent

no_cap_or_above_one : Option ℕ → Bool
no_cap_or_above_one none = true
no_cap_or_above_one (some n) = ltb 1 n

unfoldable pub parallel_ok : ConcurrencyCapability → Bool
unfolding no_cap_or_above_one
parallel_ok c = if not c.supports_parallel then false else no_cap_or_above_one c.max_concurrent

-- The execution modes, as the source's strings.
abbrev pub concurrent : String
concurrent = "concurrent"

abbrev pub serialized : String
serialized = "serialized"

abbrev pub exclusive : String
exclusive = "exclusive"

pub record ResolvedCapability : Type 0 where
  pub ceiling : Option ℕ
  pub coordinator_mode : String
  pub asr_cap : ConcurrencyCapability
  pub tts_cap : ConcurrencyCapability

-- `requested_mode or concurrent`
unfoldable pub requested_or : Option String → String
requested_or none = concurrent
requested_or (some m) = if str_eq m "" then concurrent else m

unfoldable pub mode_for : String → Bool → String
mode_for requested parallel =
    if str_eq requested exclusive
    then exclusive
    else if str_eq requested concurrent && not parallel
    then serialized
    else if str_eq requested concurrent
    then concurrent
    else if str_eq requested serialized
    then serialized
    else requested

unfoldable pub resolve :
    (String → String) → Option Declared → Option Declared → Option String → ResolvedCapability
unfolding capability_of aggregate_ceiling parallel_ok requested_or mode_for
resolve lower asr tts requested =
    let asr_cap = capability_of lower asr in
    let tts_cap = capability_of lower tts in
    record {
      ceiling = aggregate_ceiling asr_cap tts_cap;
      coordinator_mode =
          mode_for (requested_or requested) (parallel_ok asr_cap && parallel_ok tts_cap);
      asr_cap = asr_cap;
      tts_cap = tts_cap;
    }
