-- ===== src/Engine/SpokenNumbers.antt =====
-- engine/tts_sequencer.py: how numbers are spoken, `_under_ten_thousand`, `_int_to_chinese` and
-- `_spoken_digit_run`. Digits are ASCII.
pub mod Groups
pub mod RoundTrip
mod Tests
use voxedge.Base.{
  ℕ, zero, suc, ◌+◌, ◌-◌, ◌*◌, ◌/◌, ◌%◌, ◌^◌, Bool, true, false, not, ◌&&◌, ◌||◌, Option, none,
  some, List, [], ◌∷◌, ◌++◌, drop, is_empty, ltb, leb, ◌==◌, if◌then◌else◌, ℤ, pos, negsuc,
}
use voxedge.Text.Strip.{Text}
use voxedge.Text.Numerals.{cn_digits, cn_units, cn_groups, minus, char_at, text_at}

abbrev pub zero_text : Text
zero_text = char_at cn_digits 0

-- The loop's `out` and `pending_zero`.
pub record Spoken : Type 0 where
  pub out : Text
  pub pending_zero : Bool

-- The body of the loop over positions.
unfoldable pub speak_digit : ℕ → ℕ → Spoken → Spoken
speak_digit value position s =
    let digit = value / 10 ^ position % 10 in
    if digit == 0
    then record s { pending_zero = not (is_empty s.out) || s.pending_zero }
    else record {
      out =
          (s.out ++ (if s.pending_zero then zero_text else []))
          ++ (char_at cn_digits digit ++ (if position == 0 then [] else text_at cn_units position));
      pending_zero = false;
    }

unfoldable pub under_ten_thousand : ℕ → Text
unfolding speak_digit
under_ten_thousand value =
    (speak_digit value 0 (
      speak_digit value 1 (
        speak_digit value 2 (speak_digit value 3 (record { out = []; pending_zero = false }))))).out

-- The body of the loop over groups: `none` is an empty `parts`, which are joined otherwise.
unfoldable pub speak_group : ℕ → ℕ → Option Text → Option Text
speak_group value index parts =
    let chunk = value / 10000 ^ index % 10000 in
    let spoken = under_ten_thousand chunk in
    let group = text_at cn_groups index in
    if chunk == 0 then parts else elim parts [
      | none ↦ some (spoken ++ group)
      | some before ↦
          some (before ++ ((if ltb chunk 1000 then zero_text ++ spoken else spoken) ++ group))
    ]

pub joined : Option Text → Text
joined none = []
joined (some parts) = parts

-- `_int_to_chinese` where the value is not negative
unfoldable pub nat_to_chinese : ℕ → Text
unfolding speak_group joined under_ten_thousand
nat_to_chinese value =
    let out = joined (
      speak_group value 0 (speak_group value 1 (speak_group value 2 (speak_group value 3 none)))) in
    if value == 0 then zero_text else if leb 10 value && ltb value 20 then drop 1 out else out

unfoldable pub int_to_chinese : ℤ → Text
unfolding nat_to_chinese
int_to_chinese (pos n) = nat_to_chinese n
int_to_chinese (negsuc n) = minus ∷ nat_to_chinese (suc n)

-- `_CN_DIGITS[int(c)]`, where `c` is a digit
spoken_digit : ℕ → Text
spoken_digit c = if leb 48 c && leb c 57 then char_at cn_digits (c - 48) else []

unfoldable pub spoken_digit_run : Text → Text
unfolding spoken_digit
spoken_digit_run [] = []
spoken_digit_run (c ∷ cs) = spoken_digit c ++ spoken_digit_run cs
