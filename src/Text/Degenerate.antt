-- ===== src/Text/Degenerate.antt =====
-- text/degenerate.py: a sentence that successive segments repeat is kept once. `blank` is Python's
-- `str.isspace` of one character. The functions on one segment are not modelled.
pub mod Runs
pub mod Heads
mod Tests
use voxedge.Base.{
  ℕ, suc, ◌+◌, ◌-◌, Bool, true, false, not, ◌||◌, ◌&&◌, Option, none, some, List, [], ◌∷◌, ◌++◌,
  length, get_elem?, take, any, is_empty, leb, ltb, ◌==◌, if◌then◌else◌,
}
use voxedge.Text.Strip.{Text, strip, rstrip}
use voxedge.Text.Equality.{same_text}

-- ，,。.、！!？?；;：: and the space, the tab and the newline
abbrev pub separators : Text
separators =
    0xFF0C ∷ 44 ∷ 0x3002 ∷ 46 ∷ 0x3001 ∷ 0xFF01 ∷ 33 ∷ 0xFF1F ∷ 63 ∷ 0xFF1B ∷ 59 ∷ 0xFF1A ∷ 58 ∷ 32
    ∷ 9 ∷ 10 ∷ []

abbrev pub min_repeats_multi_char : ℕ
min_repeats_multi_char = 3

abbrev min_segment_key_len : ℕ
min_segment_key_len = 8

abbrev min_segment_run_short : ℕ
min_segment_run_short = 6

-- The variables of the loop.
pub record Kept : Type 0 where
  pub kept : List Text
  pub dropped : ℕ
  pub run_start : ℕ

-- `kept[-1]`, after `last` so far
last_of : Option Text → List Text → Option Text
last_of last [] = last
last_of last (t ∷ ts) = last_of (some t) ts

module _ (blank : ℕ → Bool) where
  unfoldable pub key : Text → Text
  key s = rstrip (λ c. any (λ d. c == d) separators) (strip blank s)

  unfoldable pub enough : ℕ → Text → Bool
  enough run_len text =
      if ltb run_len min_repeats_multi_char
      then false
      else leb min_segment_run_short run_len || leb min_segment_key_len (length (key text))

  -- The test of the loop, after `last`.
  unfoldable pub continues : Text → Option Text → Bool
  continues text none = false
  continues text (some last) = same_text (key text) (key last) && not (is_empty (key text))

  trimmed : Option Text → Kept → Kept
  trimmed none k = k
  trimmed (some first) k =
      let run_len = length k.kept - k.run_start in
      if enough run_len first
      then record k { kept = take (suc k.run_start) k.kept; dropped = k.dropped + (run_len - 1) }
      else k

  -- A run that has ended is trimmed to its first text, if it was long enough.
  trim : Kept → Kept
  unfolding trimmed
  trim k = trimmed (get_elem? k.kept k.run_start) k

  segment_step : Text → Kept → Kept
  unfolding trim last_of continues
  segment_step text k =
      let k' = trim k in
      if continues text (last_of none k.kept)
      then record k { kept = k.kept ++ (text ∷ []) }
      else record k' { kept = k'.kept ++ (text ∷ []); run_start = length k'.kept }

  segment_loop : List Text → Kept → Kept
  unfolding segment_step
  segment_loop [] k = k
  segment_loop (t ∷ ts) k = segment_loop ts (segment_step t k)

  unfoldable pub collapse_segment_repeats : List Text → List Text × ℕ
  unfolding segment_loop trim
  collapse_segment_repeats texts =
      let k = trim (segment_loop texts (record { kept = []; dropped = 0; run_start = 0 })) in
      (k.kept, k.dropped)
