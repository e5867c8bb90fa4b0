-- ===== src/Text/Collapse.antt =====
-- text/degenerate.py: `collapse_repetition`, which cuts copies out of one segment, by the searches of
-- Text/Period, Text/Tail and Text/Interior. `blank` is Python's `str.isspace` of one character, which is
-- also what `\s` of its regular expressions matches. `none` is an index out of range.
pub mod Units
pub mod Indices
pub mod Stretch
pub mod Total
mod Tests
use voxedge.Base.{
  ℕ, zero, suc, ◌+◌, ◌-◌, ◌*◌, Bool, true, false, not, ◌&&◌, Option, none, some, List, [], ◌∷◌,
  ◌++◌, map, length, get_elem?, take, drop, any, is_empty, ltb, ◌==◌, if◌then◌else◌,
}
use voxedge.Text.Strip.{Text, strip, rstrip}
use voxedge.Text.Degenerate.{separators, min_repeats_multi_char}
use voxedge.Text.Period.{same_units, find_period}
use voxedge.Text.Tail.{find_tail_period}
use voxedge.Text.Interior.{Run, find_interior_run}

abbrev min_repeats_single_char : ℕ
min_repeats_single_char = 8

abbrev min_repeats_spaced : ℕ
min_repeats_spaced = 6

abbrev min_interior_repeats : ℕ
min_interior_repeats = 6

abbrev min_interior_repeats_single : ℕ
min_interior_repeats_single = 20

pub is_separator : ℕ → Bool
is_separator c = any (λ d. c == d) separators

-- `units` and `offsets`, and what is chosen with them.
pub record Segment : Type 0 where
  pub stripped : Text
  pub units : List (Text × ℕ)
  pub min_repeats : ℕ
  pub single : Option ℕ
  pub joiner : Text

-- A unit without its start.
abbrev pub unit_of : Text × ℕ → Text
unit_of u = u.0

-- `offsets[i]`
abbrev pub start_of : List (Text × ℕ) → ℕ → Option ℕ
start_of us i = elim (get_elem? us i) [ none ↦ none | some u ↦ some u.1 ]

abbrev pub offset_at : Segment → ℕ → Option ℕ
offset_at g i = start_of g.units i

abbrev pub units_of : Segment → List Text
units_of g = map unit_of g.units

-- The matches of `\S+`, with their starts: `joins` is whether the next character is in the same match.
extended : ℕ → ℕ → Bool → List (Text × ℕ) → List (Text × ℕ)
extended c i true ((w, j) ∷ ws) = (c ∷ w, i) ∷ ws
extended c i joins ws = (c ∷ [], i) ∷ ws

keep_word : Text × ℕ → List (Text × ℕ) → List (Text × ℕ)
keep_word u rest =
    let word = strip is_separator u.0 in if is_empty word then rest else (word, u.1) ∷ rest

pub kept_words : List (Text × ℕ) → List (Text × ℕ)
unfolding keep_word
kept_words [] = []
kept_words (u ∷ us) = keep_word u (kept_words us)

-- The loop over characters, from an index on.
pub characters : ℕ → Text → List (Text × ℕ)
characters i [] = []
characters i (c ∷ cs) =
    let rest = characters (suc i) cs in if is_separator c then rest else (c ∷ [], i) ∷ rest

pub joined : Segment → Text → Text → Text
joined g head rest = (head ++ g.joiner) ++ rest

module _ (blank : ℕ → Bool) where
  begins_word : Text → Bool
  begins_word [] = false
  begins_word (c ∷ cs) = not (blank c)

  pub words : ℕ → Text → List (Text × ℕ)
  unfolding extended begins_word
  words i [] = []
  words i (c ∷ cs) =
      let rest = words (suc i) cs in if blank c then rest else extended c i (begins_word cs) rest

  unfoldable pub segment_of : Text → Segment
  unfolding words characters kept_words
  segment_of stripped =
      if any blank stripped
      then record {
        stripped = stripped;
        units = kept_words (words 0 stripped);
        min_repeats = min_repeats_spaced;
        single = none;
        joiner = 32 ∷ [];
      }
      else record {
        stripped = stripped;
        units = characters 0 stripped;
        min_repeats = min_repeats_multi_char;
        single = some min_repeats_single_char;
        joiner = [];
      }

  module _ (g : Segment) where
    -- `stripped[o:]` from the start of a unit
    from_unit : Option ℕ → Option Text
    from_unit none = none
    from_unit (some o) = some (drop o g.stripped)

    -- `rest`, which is empty where nothing is left or one more copy is begun
    pub rest_of : List Text → ℕ → Option Text
    unfolding from_unit
    rest_of unit covered =
        let tail = drop covered (units_of g) in
        if ltb covered (length g.units)
        then if same_units tail (take (length tail) unit)
          then some []
          else from_unit (offset_at g covered)
        else some []

    with_rest : Text → Option Text → Option (Text × Bool)
    unfolding joined
    with_rest head none = none
    with_rest head (some rest) =
        some
          (if is_empty rest then (rstrip is_separator head, true) else (joined g head rest, true))

    head_to : Option ℕ → Option Text → Option (Text × Bool)
    unfolding with_rest
    head_to none rest = none
    head_to (some o) rest = with_rest (rstrip blank (take o g.stripped)) rest

    -- The copies make up the segment.
    pub collapse_whole : List Text → ℕ → Option (Text × Bool)
    unfolding head_to rest_of
    collapse_whole unit covered = head_to (offset_at g (length unit)) (rest_of unit covered)

    -- The copy that is kept, up to the next unit.
    kept_copy : ℕ → Option ℕ → Text
    kept_copy from none = drop from g.stripped
    kept_copy from (some to) = take (to - from) (drop from g.stripped)

    tail_from : ℕ → Option ℕ → Option (Text × Bool)
    unfolding kept_copy joined
    tail_from end none = none
    tail_from end (some from) =
        let prefix = rstrip blank (take from g.stripped) in
        let kept = rstrip is_separator (rstrip blank (kept_copy from (offset_at g end))) in
        some (joined g prefix kept, true)

    -- The copies end the segment.
    pub collapse_tail : List Text → ℕ → Option (Text × Bool)
    unfolding tail_from
    collapse_tail unit start = tail_from (start + length unit) (offset_at g start)

    pub or_length : Option ℕ → ℕ
    or_length none = length g.stripped
    or_length (some o) = o

    keep_to : ℕ → Option ℕ → Option (Text × Bool)
    unfolding joined
    keep_to resume_from none = none
    keep_to resume_from (some o) =
        some (joined g (rstrip blank (take o g.stripped)) (drop resume_from g.stripped), true)

    -- The copies stand within the segment.
    pub collapse_run : Run → Option (Text × Bool)
    unfolding keep_to or_length
    collapse_run r =
        keep_to (or_length (offset_at g (r.start + r.unit_len * r.repeats)))
          (offset_at g (r.start + r.unit_len))

    pub collapse_interior : Text → Option (Option Run) → Option (Text × Bool)
    unfolding collapse_run
    collapse_interior text none = none
    collapse_interior text (some none) = some (text, false)
    collapse_interior text (some (some r)) = collapse_run r

    -- A tail that is the whole segment is left to the next search.
    pub or_interior : Text → Option (List Text × ℕ) → Option (Text × Bool)
    unfolding collapse_tail collapse_interior
    or_interior text tail =
        let inner = collapse_interior text (
          find_interior_run (units_of g) min_interior_repeats (some min_interior_repeats_single)) in
        elim tail [
          | none ↦ inner
          | some (unit, start) ↦ if ltb 0 start then collapse_tail unit start else inner
        ]

    pub or_tail : Text → Option (List Text × ℕ) → Option (Text × Bool)
    unfolding collapse_whole or_interior
    or_tail text none = or_interior text (find_tail_period (units_of g))
    or_tail text (some (unit, covered)) = collapse_whole unit covered

  unfoldable pub collapse_repetition : Text → Option (Text × Bool)
  unfolding segment_of or_tail
  collapse_repetition text =
      let g = segment_of (strip blank text) in
      if is_empty (strip blank text)
      then some (text, false)
      else or_tail g text (find_period (units_of g) g.min_repeats g.single)
