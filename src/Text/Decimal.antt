-- ===== src/Text/Decimal.antt =====
-- The decimal digits of a natural number, as Python's `str(n)`.
use voxedge.Base.{ℕ, zero, suc, ◌+◌, ◌/◌, ◌%◌, [], ◌∷◌, ◌++◌, ltb, if◌then◌else◌}
use voxedge.Text.Strip.{Text}

-- With fuel: a number has fewer digits than its successor counts.
pub digits_from : ℕ → ℕ → Text
digits_from zero n = []
digits_from (suc fuel) n =
    let front = digits_from fuel (n / 10) in
    if ltb n 10 then (48 + n) ∷ [] else front ++ ((48 + n % 10) ∷ [])

unfoldable pub decimal : ℕ → Text
unfolding digits_from
decimal n = digits_from (suc n) n
