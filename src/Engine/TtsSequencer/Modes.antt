-- ===== src/Engine/TtsSequencer/Modes.antt =====
-- What may be heard at each place of the loop.
use voxedge.Base.{◌≡◌, refl, Bool, true, false, none, some, List, ◌∷◌, if◌then◌else◌}
use voxedge.Text.Strip.{Text}
use voxedge.Text.Equality.{same_text_refl}
use voxedge.Engine.TtsSequencer.{
  Out, header, failed, tts_started, sentence_done, tts_done, Pc, at_head, waiting, late, ended,
  taken, opening, header_sent, acquiring, sounding, reported, closing, in_drain,
}
use voxedge.Engine.TtsSequencer.Transcript.{Mode, unheard, between, over, within, follows, heard}

-- Between two sentences: a sentence was announced only after the sample rate.
abbrev pub Open : Bool → Mode → Type 0
Open b over = ⊥
Open b unheard = b ≡ false
Open b between = Unit
Open b (within s) = b ≡ true

-- Where the loop stands, whether it has sent the sample rate, and what was heard.
abbrev pub Fits : Pc → Bool → Mode → Type 0
Fits ended b m = Unit
Fits at_head b m = Open b m
Fits waiting b m = Open b m
Fits late b m = Open b m
Fits (taken s) b m = Open b m
Fits (opening s) b m = Open b m
Fits (header_sent s) b m = m ≡ between
Fits (acquiring s) b m = (b ≡ true) × (m ≡ within s)
Fits (sounding s) b m = (b ≡ true) × (m ≡ within s)
Fits (reported s) b m = (b ≡ true) × (m ≡ within s)
Fits (closing s) b m = (b ≡ true) × (m ≡ between)

-- A cancelled task leaves what was heard open.
pub Fits-Open : (p : Pc) (b : Bool) (m : Mode) → in_drain p ≡ true → Fits p b m → Open b m
Fits-Open (opening s) b m d h = h
Fits-Open (header_sent s) b m d h = rw h tt
Fits-Open (acquiring s) b m d h = rw h.1 h.0
Fits-Open (sounding s) b m d h = rw h.1 h.0
Fits-Open (reported s) b m d h = rw h.1 h.0
Fits-Open (closing s) b m d h = rw h.1 tt
Fits-Open at_head b m d h = h
Fits-Open waiting b m d h = h
Fits-Open late b m d h = h
Fits-Open (taken s) b m d h = h
Fits-Open ended b m d h = absurd (cc d)

-- One more output.
pub heard-send :
    (o : Out) (os : List Out) (m m' : Mode)
    → heard os ≡ some m
    → follows m o ≡ some m'
    → heard (o ∷ os) ≡ some m'
unfolding heard
heard-send o os m m' e f = rw e f

pub follows-failed : (b : Bool) (m : Mode) → Open b m → follows m failed ≡ some m
unfolding follows
follows-failed b unheard h = refl
follows-failed b between h = refl
follows-failed b (within s) h = refl
follows-failed b over h = absurd h

pub follows-turn_done :
    (b : Bool) (m : Mode) → Open b m → follows m (tts_done (some false)) ≡ some m
unfolding follows
follows-turn_done b unheard h = refl
follows-turn_done b between h = refl
follows-turn_done b (within s) h = refl
follows-turn_done b over h = absurd h

pub follows-end :
    (b multi : Bool) (m : Mode)
    → Open b m
    → follows m (tts_done (if multi then some true else none)) ≡ some over
unfolding follows
follows-end b true unheard h = refl
follows-end b true between h = refl
follows-end b true (within s) h = refl
follows-end b true over h = absurd h
follows-end b false unheard h = refl
follows-end b false between h = refl
follows-end b false (within s) h = refl
follows-end b false over h = absurd h

pub follows-header : (m : Mode) → Open false m → follows m header ≡ some between
unfolding follows
follows-header unheard h = refl
follows-header between h = refl
follows-header (within s) h = absurd (cc h)
follows-header over h = absurd h

pub follows-started :
    (m : Mode) (t : Text) → Open true m → follows m (tts_started t) ≡ some (within t)
unfolding follows
follows-started unheard t h = absurd (cc h)
follows-started between t h = refl
follows-started (within s) t h = refl
follows-started over t h = absurd h

pub follows-done : (t : Text) → follows (within t) (sentence_done t) ≡ some between
unfolding follows
follows-done t = rw (same_text_refl t) refl
