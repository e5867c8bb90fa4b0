-- ===== src/Engine/SentenceBuffer.antt =====
-- engine/conversation.py: `_SentenceBuffer`, which cuts a text at the ends of its sentences. Its caller
-- takes all that its generators give.
pub mod Ends
pub mod Conservation
mod Tests
use voxedge.Base.{
  ℕ, zero, suc, ◌+◌, Bool, true, ◌||◌, ◌&&◌, Option, none, some, List, [], ◌∷◌, ◌++◌, any, is_empty,
  length, take, drop, leb, ◌==◌, if◌then◌else◌,
}
use voxedge.Text.Strip.{Text, strip}

pub record SentenceBuffer : Type 0 where
  pub buf : Text
  pub min_chars : ℕ
  pub max_buffer : ℕ

-- "。！？；", and a line feed
abbrev pub is_hard : ℕ → Bool
is_hard c = any (λ d. c == d) (12290 ∷ 65281 ∷ 65311 ∷ 65307 ∷ 10 ∷ [])

-- "!?."
abbrev pub is_soft : ℕ → Bool
is_soft c = any (λ d. c == d) (33 ∷ 63 ∷ 46 ∷ [])

-- The end of a run of hard breaks, from the index `i` on.
unfoldable pub run_end : ℕ → Text → ℕ
run_end i [] = i
run_end i (c ∷ t) = let rest = run_end (suc i) t in if is_hard c then rest else i

module _ (blank : ℕ → Bool) where
  -- `(?=\s|$)`
  abbrev pub at_gap : Text → Bool
  at_gap [] = true
  at_gap (c ∷ t) = blank c

  -- The end of the first match of `_SENTENCE_END_RE` in `t`, which begins at the index `i`.
  unfoldable pub next_end : ℕ → Text → Option ℕ
  next_end i [] = none
  next_end i (c ∷ t) =
      let rest = next_end (suc i) t in
      if is_hard c
      then some (run_end (suc i) t)
      else if is_soft c && at_gap t
      then some (suc i)
      else rest

  abbrev pub or_none : Text → Option Text
  or_none [] = none
  or_none (c ∷ t) = some (c ∷ t)

  -- Without a further match.
  unfoldable pub overflow : SentenceBuffer → Option Text × Text
  overflow b =
      if leb b.max_buffer (length b.buf) then (or_none (strip blank b.buf), []) else (none, b.buf)

  -- The loop of `_extract`, from `pos` on: what it returns, and the buffer then. The fuel counts matches.
  unfoldable pub extract_from : ℕ → ℕ → SentenceBuffer → Option (Option Text × Text)
  extract_from zero pos b = none
  extract_from (suc fuel) pos b = elim (next_end pos (drop pos b.buf)) [
    | none ↦ some (overflow b)
    | some end ↦
        let rest = extract_from fuel end b in
        if leb b.min_chars (length (strip blank (take end b.buf)))
        then some (some (strip blank (take end b.buf)), drop end b.buf)
        else rest
  ]

  unfoldable pub extract : SentenceBuffer → Option (Option Text × Text)
  extract b = extract_from (suc (length b.buf)) 0 b

  -- The loop of `add`: the sentences, and the buffer then.
  unfoldable pub collect : ℕ → SentenceBuffer → Option (List Text × SentenceBuffer)
  collect zero b = none
  collect (suc fuel) b = elim (extract b) [
    | none ↦ none
    | some (none, rest) ↦ some ([], record b { buf = rest })
    | some (some s, rest) ↦ elim (collect fuel (record b { buf = rest })) [
      | none ↦ none
      | some (ss, b') ↦ some (s ∷ ss, b')
    ]
  ]

  unfoldable pub add : Text → SentenceBuffer → Option (List Text × SentenceBuffer)
  add chunk b =
      if is_empty chunk
      then some ([], b)
      else collect (suc (length (b.buf ++ chunk))) (record b { buf = b.buf ++ chunk })

  unfoldable pub flush : SentenceBuffer → Option Text × SentenceBuffer
  flush b = (or_none (strip blank b.buf), record b { buf = [] })
