-- ===== src/Engine/TtsSequencer/Transcript.antt =====
-- What a client may hear: a specification of the channel's outputs, as a machine that reads them.
use voxedge.Base.{true, false, Option, none, some, List, [], ◌∷◌, if◌then◌else◌}
use voxedge.Text.Strip.{Text}
use voxedge.Text.Equality.{same_text}
use voxedge.Engine.TtsSequencer.{
  Out, header, sound, failed, saturated, tts_started, sentence_done, tts_done,
}

-- Before the sample rate; between sentences; within one; after the end.
pub data Mode : Type 0 where
  unheard between over : Mode
  within : Text → Mode

-- `none` where the output is out of place.
unfoldable pub follows : Mode → Out → Option Mode
follows over o = none
follows m failed = some m
follows m (saturated n) = some m
follows m (tts_done none) = some over
follows m (tts_done (some true)) = some over
follows m (tts_done (some false)) = some m
follows unheard header = some between
follows between header = some between
follows (within s) header = none
follows unheard (tts_started t) = none
follows m (tts_started t) = some (within t)
follows (within s) sound = some (within s)
follows m sound = none
follows (within s) (sentence_done t) = if same_text s t then some between else none
follows m (sentence_done t) = none

next_mode : Option Mode → Out → Option Mode
unfolding follows
next_mode none o = none
next_mode (some m) o = follows m o

-- The outputs have the last one first.
unfoldable pub heard : List Out → Option Mode
unfolding next_mode
heard [] = some unheard
heard (o ∷ os) = next_mode (heard os) o
