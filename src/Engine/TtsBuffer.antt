-- ===== src/Engine/TtsBuffer.antt =====
-- engine/tts_buffer.py: the buffer that cuts a stream of text into chunks for speech synthesis.
-- `blank` is Python's `str.isspace` of one character and `lower` its `str.lower`. A given knob is a
-- natural number: a negative one is clamped to 2, as 0 is. A generator is drained by its caller.
pub mod Chunks
pub mod Conservation
pub mod Waiting
mod Tests
use voxedge.Base.{
  ℕ, zero, suc, ◌-◌, min, max, Bool, true, false, ◌||◌, ◌&&◌, Option, none, some, List, [], ◌∷◌,
  ◌++◌, length, get_elem?, take, drop, any, is_empty, leb, ltb, ◌==◌, if◌then◌else◌,
}
use voxedge.Text.Equality.{same_text}
use voxedge.Text.Strip.{Text, strip, lstrip}

-- `_CJK_LANGS`: zh, chinese, ja, japanese, ko, korean
abbrev cjk_langs : List Text
cjk_langs =
    (122 ∷ 104 ∷ [])
    ∷ (99 ∷ 104 ∷ 105 ∷ 110 ∷ 101 ∷ 115 ∷ 101 ∷ [])
    ∷ (106 ∷ 97 ∷ [])
    ∷ (106 ∷ 97 ∷ 112 ∷ 97 ∷ 110 ∷ 101 ∷ 115 ∷ 101 ∷ [])
    ∷ (107 ∷ 111 ∷ [])
    ∷ (107 ∷ 111 ∷ 114 ∷ 101 ∷ 97 ∷ 110 ∷ [])
    ∷ []

contains_cjk : Text → Bool
contains_cjk t =
    any
      (λ c.
        (leb 0x4E00 c && leb c 0x9FFF)
        || (leb 0x3040 c && leb c 0x30FF)
        || (leb 0xAC00 c && leb c 0xD7AF))
      t

-- 。！？!?；; and the newline
abbrev pub hard_breaks : Text
hard_breaks = 0x3002 ∷ 0xFF01 ∷ 0xFF1F ∷ 33 ∷ 63 ∷ 0xFF1B ∷ 59 ∷ 10 ∷ []

-- ，,、：:
abbrev cjk_soft_breaks : Text
cjk_soft_breaks = 0xFF0C ∷ 44 ∷ 0x3001 ∷ 0xFF1A ∷ 58 ∷ []

-- ,;:
abbrev latin_soft_breaks : Text
latin_soft_breaks = 44 ∷ 59 ∷ 58 ∷ []

-- `DEFAULT_MIN_SENTENCE_CHARS`
abbrev pub min_sentence_chars : ℕ
min_sentence_chars = 2

pub record Buffer : Type 0 where
  pub language : Option Text
  pub min_chars : ℕ
  pub target_chars : ℕ
  pub max_chars : ℕ
  pub buf : Text

shifted : Option ℕ → Option ℕ
shifted none = none
shifted (some i) = some (suc i)

-- `text.find(ch)`
find : ℕ → Text → Option ℕ
unfolding shifted
find ch [] = none
find ch (c ∷ t) = let rest = find ch t in if c == ch then some 0 else shifted rest

here_or : Bool → Option ℕ → Option ℕ
here_or b (some i) = some (suc i)
here_or true none = some 0
here_or false none = none

-- `text.rfind(ch)`
rfind : ℕ → Text → Option ℕ
unfolding here_or
rfind ch [] = none
rfind ch (c ∷ t) = here_or (c == ch) (rfind ch t)

earlier : Option ℕ → Option ℕ → Option ℕ
earlier none o = o
earlier (some i) none = some i
earlier (some i) (some j) = some (min i j)

later : Option ℕ → Option ℕ → Option ℕ
later none o = o
later (some i) none = some i
later (some i) (some j) = some (max i j)

-- `none` is -1.
unfoldable pub first_break_index : Text → Text → Option ℕ
unfolding find earlier
first_break_index text [] = none
first_break_index text (ch ∷ chars) = earlier (find ch text) (first_break_index text chars)

last_break_index : Text → Text → ℕ → Option ℕ
unfolding rfind later
last_break_index text [] limit = none
last_break_index text (ch ∷ chars) limit =
    later (rfind ch (take limit text)) (last_break_index text chars limit)

or_default : Option ℕ → ℕ → ℕ
or_default none d = d
or_default (some n) d = n

pub or_none : Text → Option Text
or_none [] = none
or_none (c ∷ t) = some (c ∷ t)

blank_at : (ℕ → Bool) → Option ℕ → Bool
blank_at blank none = false
blank_at blank (some c) = blank c

language_or : Option Text → Text
language_or none = []
language_or (some l) = l

module _ (blank : ℕ → Bool) (lower : Text → Text) where
  -- `__post_init__`
  unfoldable pub make : Option Text → Option ℕ → Option ℕ → Option ℕ → Buffer
  unfolding or_default language_or same_text
  make language min_chars target_chars max_chars =
      let cjk = any (same_text (lower (strip blank (language_or language)))) cjk_langs in
      let least = max 2 (or_default min_chars (if cjk then 15 else 24)) in
      let target = max least (or_default target_chars (if cjk then 24 else 48)) in
      record {
        language = language;
        min_chars = least;
        target_chars = target;
        max_chars = max target (or_default max_chars (if cjk then 40 else 80));
        buf = [];
      }

  -- `_take`
  unfoldable pub take_chunk : ℕ → Buffer → Option Text × Buffer
  unfolding or_none
  take_chunk end b =
      (or_none (strip blank (take end b.buf)), record b { buf = lstrip blank (drop end b.buf) })

  -- The loop of `_choose_length_cut`, down from index `k - 1`.
  space_cut : ℕ → ℕ → Text → Option ℕ
  unfolding blank_at
  space_cut least zero window = none
  space_cut least (suc k) window =
      let rest = space_cut least k window in
      if leb least (suc k)
      then (if blank_at blank (get_elem? window k) then some (suc k) else rest)
      else none

  soft_cut : ℕ → ℕ → Option ℕ → ℕ
  soft_cut least limit none = limit
  soft_cut least limit (some i) = if leb (least - 1) i then suc i else limit

  choose_length_cut : Bool → Buffer → ℕ
  unfolding soft_cut last_break_index space_cut or_default
  choose_length_cut is_cjk b =
      let limit = min (length b.buf) b.max_chars in
      if is_cjk
      then soft_cut b.min_chars limit (last_break_index b.buf cjk_soft_breaks limit)
      else or_default (space_cut b.min_chars (length (take limit b.buf)) (take limit b.buf))
          (min (length b.buf) b.target_chars)

  -- The last part of `_next_chunk`: a text that is long enough is cut.
  length_chunk : Bool → Buffer → Option Text × Buffer
  unfolding choose_length_cut take_chunk
  length_chunk is_cjk b =
      let threshold = if is_cjk then b.max_chars else b.target_chars in
      let end = choose_length_cut is_cjk b in
      if ltb (length (strip blank b.buf)) threshold
      then (none, b)
      else if leb end 0
      then (none, b)
      else take_chunk end b

  soft_chunk : Bool → Option ℕ → Buffer → Option Text × Buffer
  unfolding length_chunk take_chunk
  soft_chunk is_cjk none b = length_chunk is_cjk b
  soft_chunk is_cjk (some i) b =
      if leb b.min_chars (length (strip blank (take (suc i) b.buf)))
      then take_chunk (suc i) b
      else if leb b.target_chars (length (strip blank b.buf))
      then take_chunk (length b.buf) b
      else length_chunk is_cjk b

  softly : Buffer → Option Text × Buffer
  unfolding soft_chunk last_break_index contains_cjk language_or same_text
  softly b =
      let is_cjk =
        contains_cjk b.buf || any (same_text (lower (language_or b.language))) cjk_langs in
      soft_chunk is_cjk
        (last_break_index b.buf (if is_cjk then cjk_soft_breaks else latin_soft_breaks)
          (length b.buf))
        b

  pub hard_chunk : Option ℕ → Buffer → Option Text × Buffer
  unfolding softly take_chunk
  hard_chunk none b = softly b
  hard_chunk (some i) b =
      if leb min_sentence_chars (length (strip blank (take (suc i) b.buf)))
      then take_chunk (suc i) b
      else softly b

  -- `_next_chunk`, on the buffer without leading blanks
  stripped_chunk : Bool → Buffer → Option Text × Buffer
  unfolding hard_chunk or_none
  stripped_chunk final b =
      if is_empty b.buf
      then (none, b)
      else if final
      then (or_none (strip blank b.buf), record b { buf = [] })
      else hard_chunk (first_break_index b.buf hard_breaks) b

  unfoldable pub next_chunk : Bool → Buffer → Option Text × Buffer
  unfolding stripped_chunk
  next_chunk final b = stripped_chunk final (record b { buf = lstrip blank b.buf })

  collect : Option Text → Buffer → Option (List Text × Buffer) → Option (List Text × Buffer)
  collect none b rest = some ([], b)
  collect (some part) b none = none
  collect (some part) b (some (parts, b')) = some (part ∷ parts, b')

  -- `_emit_ready`; `none` if the fuel runs out.
  unfoldable pub emit_ready : ℕ → Bool → Buffer → Option (List Text × Buffer)
  unfolding collect
  emit_ready zero final b = none
  emit_ready (suc fuel) final b =
      let r = next_chunk final b in let rest = emit_ready fuel final r.1 in collect r.0 r.1 rest

  unfoldable pub add : Text → Buffer → Option (List Text × Buffer)
  add chunk b =
      let b' = record b { buf = b.buf ++ chunk } in
      let r = emit_ready (suc (length b'.buf)) false b' in
      if is_empty chunk then some ([], b) else r

  unfoldable pub flush : Buffer → Option (List Text × Buffer)
  flush b = emit_ready (suc (length b.buf)) true b
