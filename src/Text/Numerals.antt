-- ===== src/Text/Numerals.antt =====
-- Chinese numerals as texts, and how a listener reads them: what the numerals that the code writes
-- (Engine/SpokenNumbers and Text/Cardinal) are compared with. The code's tables of characters are here.
pub mod Reading
use voxedge.Base.{
  ℕ, zero, suc, ◌+◌, ◌*◌, ◌^◌, Bool, true, false, Option, none, some, List, [], ◌∷◌, ◌++◌,
  get_elem?, ◌==◌, if◌then◌else◌,
}
use voxedge.Text.Strip.{Text}

-- 零一二三四五六七八九
abbrev pub cn_digits : Text
cn_digits =
    0x96F6 ∷ 0x4E00 ∷ 0x4E8C ∷ 0x4E09 ∷ 0x56DB ∷ 0x4E94 ∷ 0x516D ∷ 0x4E03 ∷ 0x516B ∷ 0x4E5D ∷ []

-- nothing, 十, 百, 千
abbrev pub cn_units : List Text
cn_units = [] ∷ (0x5341 ∷ []) ∷ (0x767E ∷ []) ∷ (0x5343 ∷ []) ∷ []

-- nothing, 万, 亿, 兆
abbrev pub cn_groups : List Text
cn_groups = [] ∷ (0x4E07 ∷ []) ∷ (0x4EBF ∷ []) ∷ (0x5146 ∷ []) ∷ []

abbrev pub minus : ℕ
minus = 0x8D1F

-- `_CN_DIGITS[d]` and `_CN_UNITS[p]`, within the tables.
abbrev pub char_at : Text → ℕ → Text
char_at t i = elim (get_elem? t i) [ none ↦ [] | some c ↦ c ∷ [] ]

abbrev pub text_at : List Text → ℕ → Text
text_at ts i = elim (get_elem? ts i) [ none ↦ [] | some t ↦ t ]

-- What a character says: a digit, the weight of the digit before it, or the weight of all before it
-- since the last such one.
pub data Glyph : Type 0 where
  digit unit big : ℕ → Glyph
  minus_sign other : Glyph

index_of : ℕ → Text → ℕ → Option ℕ
index_of i [] c = none
index_of i (d ∷ ds) c = if d == c then some i else index_of (suc i) ds c

weight_of : ℕ → Glyph
weight_of c =
    if c == 0x5341
    then unit 10
    else if c == 0x767E
    then unit 100
    else if c == 0x5343
    then unit 1000
    else if c == 0x4E07
    then big 10000
    else if c == 0x4EBF
    then big (10 ^ 8)
    else if c == 0x5146
    then big (10 ^ 12)
    else if c == minus
    then minus_sign
    else other

digit_or : Glyph → Option ℕ → Glyph
digit_or g none = g
digit_or g (some d) = digit d

pub glyph : ℕ → Glyph
unfolding index_of weight_of digit_or
glyph c = digit_or (weight_of c) (index_of 0 cn_digits c)

-- What has been read: whether a minus was, the groups that are complete, the present group, and its
-- last digit.
pub record Heard : Type 0 where
  pub negative : Bool
  pub total : ℕ
  pub group : ℕ
  pub last : ℕ

abbrev pub heard : Bool → ℕ → ℕ → ℕ → Heard
heard negative total group last = record {
  negative = negative;
  total = total;
  group = group;
  last = last;
}

abbrev pub silence : Heard
silence = heard false 0 0 0

-- A weight with no digit before it, as of the first of 十八, counts once.
pub hear_glyph : Heard → Glyph → Heard
hear_glyph h (digit d) = record h { last = d }
hear_glyph h (unit u) = record h {
  group = h.group + (if h.last == 0 then 1 else h.last) * u;
  last = 0;
}
hear_glyph h minus_sign = record h { negative = true }
hear_glyph h (big b) = record h { total = h.total + (h.group + h.last) * b; group = 0; last = 0 }
hear_glyph h other = h

unfoldable pub hear : Heard → Text → Heard
unfolding hear_glyph glyph
hear h [] = h
hear h (c ∷ cs) = hear (hear_glyph h (glyph c)) cs

unfoldable pub value_of : Heard → ℕ
value_of h = h.total + h.group + h.last

-- Whether the numeral is negative, and its number.
abbrev pub reading : Heard → Bool × ℕ
reading h = (h.negative, value_of h)

abbrev pub read_numeral : Text → Bool × ℕ
read_numeral t = reading (hear silence t)
