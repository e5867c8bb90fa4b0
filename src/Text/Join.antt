-- ===== src/Text/Join.antt =====
-- text/join.py: `join_segments`.
pub mod Letters
mod Tests
use voxedge.Base.{
  ℕ, Bool, ◌||◌, Option, none, some, List, [], ◌∷◌, ◌++◌, any, is_empty, length, take, ◌==◌,
  if◌then◌else◌,
}
use voxedge.Text.Strip.{Text, strip, rstrip}
use voxedge.Text.Equality.{same_text}

-- "。，、！？；,.!?;"
abbrev trail_punct : Text
trail_punct = 12290 ∷ 65292 ∷ 12289 ∷ 65281 ∷ 65311 ∷ 65307 ∷ 44 ∷ 46 ∷ 33 ∷ 63 ∷ 59 ∷ []

-- "Chinese", "Japanese", "Korean", "Cantonese", "zh", "ja", "ko"
abbrev cjk_langs : List Text
cjk_langs =
    (67 ∷ 104 ∷ 105 ∷ 110 ∷ 101 ∷ 115 ∷ 101 ∷ [])
    ∷ (74 ∷ 97 ∷ 112 ∷ 97 ∷ 110 ∷ 101 ∷ 115 ∷ 101 ∷ [])
    ∷ (75 ∷ 111 ∷ 114 ∷ 101 ∷ 97 ∷ 110 ∷ [])
    ∷ (67 ∷ 97 ∷ 110 ∷ 116 ∷ 111 ∷ 110 ∷ 101 ∷ 115 ∷ 101 ∷ [])
    ∷ (122 ∷ 104 ∷ [])
    ∷ (106 ∷ 97 ∷ [])
    ∷ (107 ∷ 111 ∷ [])
    ∷ []

-- "zh", "ja", "ko"
abbrev cjk_prefixes : List Text
cjk_prefixes = (122 ∷ 104 ∷ []) ∷ (106 ∷ 97 ∷ []) ∷ (107 ∷ 111 ∷ []) ∷ []

abbrev pub is_trail : ℕ → Bool
is_trail c = any (λ d. c == d) trail_punct

starts_with : Text → Text → Bool
starts_with t prefix = same_text (take (length prefix) t) prefix

abbrev language_or : Option Text → Text
language_or none = []
language_or (some l) = l

unfoldable pub is_cjk : Option Text → Bool
unfolding starts_with
is_cjk language =
    any (same_text (language_or language)) cjk_langs
    || any (starts_with (language_or language)) cjk_prefixes

-- `sep.join(parts)`
unfoldable pub join : Text → List Text → Text
join sep [] = []
join sep (p ∷ []) = p
join sep (p ∷ (q ∷ ps)) = p ++ (sep ++ join sep (q ∷ ps))

module _ (blank : ℕ → Bool) where
  -- The texts, stripped, without those that are blank.
  unfoldable pub parts_of : List Text → List Text
  parts_of [] = []
  parts_of (t ∷ ts) =
      let rest = parts_of ts in
      if is_empty t || is_empty (strip blank t) then rest else strip blank t ∷ rest

  -- All but the last without their trailing punctuation.
  unfoldable pub trimmed : List Text → List Text
  trimmed [] = []
  trimmed (p ∷ []) = p ∷ []
  trimmed (p ∷ (q ∷ ps)) = rstrip blank (rstrip is_trail p) ∷ trimmed (q ∷ ps)

  unfoldable pub join_segments : List Text → Option Text → Text
  join_segments texts language =
      let parts = parts_of texts in
      if is_empty parts
      then []
      else strip blank (join (if is_cjk language then [] else 32 ∷ []) (trimmed parts))
