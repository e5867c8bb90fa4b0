-- ===== src/Engine/SpokenNumbers/Tests.antt =====
-- The source's own examples, and a number of 17 digits.
use voxedge.Base.{◌+◌, ◌^◌, ◌%◌, true, ◌≡◌, refl, [], ◌∷◌, negsuc}
use voxedge.Text.Numerals.{read_numeral}
use voxedge.Engine.SpokenNumbers.RoundTrip.{read_numeral-int_to_chinese}
use voxedge.Engine.SpokenNumbers.{nat_to_chinese, int_to_chinese}

-- 一千零五
thousand_and_five : nat_to_chinese 1005 ≡ 0x4E00 ∷ 0x5343 ∷ 0x96F6 ∷ 0x4E94 ∷ []
unfolding nat_to_chinese
thousand_and_five = refl

-- 十八
eighteen : nat_to_chinese 18 ≡ 0x5341 ∷ 0x516B ∷ []
unfolding nat_to_chinese
eighteen = refl

-- 一万零一
myriad_and_one : nat_to_chinese 10001 ≡ 0x4E00 ∷ 0x4E07 ∷ 0x96F6 ∷ 0x4E00 ∷ []
unfolding nat_to_chinese
myriad_and_one = refl

-- Of 10 ^ 16 + 5 only 五 is said.
seventeen_digits : nat_to_chinese (10 ^ 16 + 5) ≡ 0x4E94 ∷ []
unfolding nat_to_chinese
seventeen_digits = refl

-- -12305
read_numeral-int_to_chinese_example :
    read_numeral (int_to_chinese (negsuc 12304)) ≡ (true, 12305 % 10 ^ 16)
read_numeral-int_to_chinese_example = read_numeral-int_to_chinese (negsuc 12304)
