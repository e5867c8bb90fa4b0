-- ===== src/Engine/Coordinator/Tests.antt =====
-- The coordinator on concrete backends.
use voxedge.Base.{◌≤◌, ◌≡◌, refl, Bool, true, false, ◌&&◌, some, [], ◌∷◌, length, inl, inr}
use voxedge.Engine.Capability.{
  exclusive, serialized, concurrent, Declared, mapping, number, absent, resolve, capability_of,
  parallel_ok, mode_for, requested_or,
}
use voxedge.Engine.Coordinator.{
  asr, tts, make, backend, enter, leave, from_backends, Coordinator, System, Reach, here, next,
  enters, leaves, start, used, unloaded,
}
use voxedge.Engine.Coordinator.Exclusion.{mutual_exclusion, serial_backends}
use voxedge.Engine.Coordinator.Residency.{resident, one_resident}

abbrev both : Coordinator
both = record (make exclusive) { asr_getter = backend true; tts_getter = backend true }

-- ASR works and is done, then TTS works: ASR is unloaded.
abbrev swapped : System
swapped = record {
  coordinator = record both { lock = some true; active_slot = some tts };
  holders = tts ∷ [];
  events = used tts ∷ (unloaded asr ∷ (used asr ∷ []));
}

swapped-Reach : Reach (start both) swapped
unfolding enter leave make
swapped-Reach =
    let a =
      next here
        (enters asr (record both { lock = some true; active_slot = some asr }) [] refl refl) in
    let b = next a (leaves asr [] [] refl refl) in
    next b
      (enters tts (record both { lock = some true; active_slot = some tts }) (asr ∷ []) refl refl)

one_resident_example : (resident asr swapped.events && resident tts swapped.events) ≡ false
one_resident_example = one_resident swapped swapped-Reach

mutual_exclusion_example : length swapped.holders ≤ 1
unfolding make
mutual_exclusion_example = mutual_exclusion both refl (inr refl) swapped swapped-Reach

-- An ASR backend of four slots, and a TTS backend that declares one.
abbrev asr_backend : Declared × Bool
asr_backend = (mapping (number 4) absent (some concurrent), true)

abbrev tts_backend : Declared × Bool
tts_backend = (mapping (number 1) absent (some serialized), true)

abbrev built : Coordinator
built = record (make serialized) { asr_getter = backend true; tts_getter = backend true }

abbrev busy : System
busy = record {
  coordinator = record built { lock = some true; active_slot = some tts };
  holders = tts ∷ [];
  events = used tts ∷ [];
}

built_lem : from_backends (λ s. s) (some asr_backend) (some tts_backend) (some concurrent) ≡ built
unfolding from_backends make resolve capability_of parallel_ok mode_for requested_or
built_lem = refl

busy-Reach :
    Reach
      (start (from_backends (λ s. s) (some asr_backend) (some tts_backend) (some concurrent)))
      busy
unfolding enter make
busy-Reach = rw built_lem (next here (enters tts busy.coordinator [] refl refl))

serial_backends_example : length busy.holders ≤ 1
unfolding requested_or capability_of parallel_ok
serial_backends_example =
    serial_backends (λ s. s) (some asr_backend) (some tts_backend) (some concurrent) (inl refl) refl
      busy busy-Reach
