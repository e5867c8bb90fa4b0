-- ===== src/Engine/TtsSequencer/Tests.antt =====
-- A channel over the low-latency buffer: one sentence is spoken and the session ends.
use voxedge.Base.{
  ℕ, ◌≡◌, refl, Bool, true, false, ◌||◌, ◌==◌, Option, none, some, List, [], ◌∷◌, ◌++◌,
}
use mathlib.Core.List.{Sublistᴰ}
use voxedge.Text.Strip.{Text, lstrip, rstrip}
use voxedge.Engine.TtsBuffer
use voxedge.Engine.TtsBuffer.{Buffer, make, emit_ready, next_chunk, take_chunk, first_break_index}
use voxedge.Engine.TtsSequencer.{
  Splitter, header, sound, tts_started, sentence_done, tts_done, chunk, end_of, Action, text, flush,
  put_all, goes_on, Channel, run, start,
}
use voxedge.Engine.TtsSequencer.Transcript.{Mode, heard}
use voxedge.Engine.TtsSequencer.Safe.{run-heard}
use voxedge.Engine.TtsSequencer.Order.{spoken, line}
use voxedge.Engine.TtsSequencer.BargeIn.{quiet-spoken, barge_in, taken_of, barge_in-spoken}

abbrev blank : ℕ → Bool
blank c = (c == 32) || (c == 10)

abbrev same : Text → Text
same t = t

abbrev or_same : Buffer → Option (List Text × Buffer) → List Text × Buffer
or_same b none = ([], b)
or_same b (some r) = r

abbrev low_latency : Splitter Buffer
low_latency = record {
  fresh = make blank same none none none none;
  add = λ t b. or_same b (TtsBuffer.add blank same t b);
  flush = λ b. or_same b (TtsBuffer.flush blank same b);
}

-- 好的。
abbrev fine : Text
fine = 0x597D ∷ 0x7684 ∷ 0x3002 ∷ []

abbrev actions : List Action
actions =
    text fine
    ∷ flush
    ∷ goes_on chunk
    ∷ goes_on chunk
    ∷ goes_on chunk
    ∷ goes_on chunk
    ∷ goes_on chunk
    ∷ goes_on chunk
    ∷ goes_on chunk
    ∷ goes_on end_of
    ∷ goes_on chunk
    ∷ goes_on chunk
    ∷ []

abbrev first : Channel Buffer
first = start low_latency same false true

abbrev last : Channel Buffer
last = run low_latency same false actions first

what_is_heard :
    last.outs ≡ tts_done none ∷ sentence_done fine ∷ sound ∷ tts_started fine ∷ header ∷ []
unfolding run TtsBuffer.add TtsBuffer.flush emit_ready next_chunk take_chunk first_break_index make
    lstrip rstrip put_all
what_is_heard = refl

run-heard_example : (m : Mode) × (heard last.outs ≡ some m)
run-heard_example = run-heard low_latency same false true actions

quiet-spoken_example : line last ≡ last.queued
quiet-spoken_example = quiet-spoken low_latency same false true actions (
  refl,
  (refl, (refl, (refl, (refl, (refl, (refl, (refl, (refl, (refl, (refl, (refl, tt))))))))))),
)

-- The loop has taken the sentence from the queue.
abbrev between_two : Channel Buffer
between_two =
    run low_latency same false (text fine ∷ flush ∷ goes_on chunk ∷ goes_on chunk ∷ []) first

barge_in-spoken_example :
    (new : List Text) × ((run low_latency same false actions
        (barge_in low_latency same false between_two)).queued
      ≡ between_two.queued ++ new)
    × Sublistᴰ
        (line (run low_latency same false actions (barge_in low_latency same false between_two)))
        ((spoken between_two.outs ++ taken_of between_two.pc) ++ new)
barge_in-spoken_example = barge_in-spoken low_latency same false between_two actions
