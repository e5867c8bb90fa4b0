-- ===== src/Engine/TtsBuffer/Tests.antt =====
-- A buffer for Chinese on short texts.
use mathlib.Core.List.{flatten}
use voxedge.Base.{ℕ, ◌≡◌, refl, Bool, ◌||◌, ◌==◌, none, some, List, [], ◌∷◌}
use voxedge.Text.Strip.{Text, visible, lstrip, rstrip}
use voxedge.Engine.TtsBuffer.{
  Buffer, make, add, emit_ready, next_chunk, take_chunk, first_break_index,
}
use voxedge.Engine.TtsBuffer.Conservation.{IsFull, speak, speak_conserves}
use voxedge.Engine.TtsBuffer.Waiting.{Waits, add-Waits, make-IsSized}

abbrev blank : ℕ → Bool
blank c = (c == 32) || (c == 10)

abbrev same : Text → Text
same t = t

abbrev zh : Text
zh = 122 ∷ 104 ∷ []

-- 好的。
abbrev fine : Text
fine = 0x597D ∷ 0x7684 ∷ 0x3002 ∷ []

abbrev fresh : Buffer
fresh = make blank same (some zh) none none none

speak_conserves_example :
    (parts : List Text) × (speak blank same (fine ∷ (32 ∷ fine) ∷ (0x597D ∷ []) ∷ []) fresh
      ≡ some parts)
    × (visible blank (flatten parts)
        ≡ visible blank (flatten (fine ∷ (32 ∷ fine) ∷ (0x597D ∷ []) ∷ [])))
    × IsFull parts
speak_conserves_example =
    speak_conserves blank same (some zh) none none none (fine ∷ (32 ∷ fine) ∷ (0x597D ∷ []) ∷ [])

add-Waits_example :
    (parts : List Text) × (b' : Buffer) × (add blank same fine fresh ≡ some (parts, b'))
    × Waits blank same b'
add-Waits_example =
    add-Waits blank same fine fresh refl (make-IsSized blank same (some zh) none none none)

-- A sentence is a chunk as soon as it is complete, but not behind a hard break that stands alone.
abbrev alone : Text
alone = 0xFF01 ∷ fine

run_fine : add blank same fine fresh ≡ some (fine ∷ [], fresh)
unfolding add emit_ready next_chunk take_chunk first_break_index make lstrip rstrip
run_fine = refl

run_alone : add blank same alone fresh ≡ some ([], record fresh { buf = alone })
unfolding add emit_ready next_chunk take_chunk first_break_index make lstrip rstrip
run_alone = refl
