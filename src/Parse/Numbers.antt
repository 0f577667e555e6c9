-- ===== src/Parse/Numbers.antt =====
-- The numbers that options take.
use phpspy.Prelude.{◌-◌, ◌^◌, ◌≡◌, false, some, arith}
use phpspy.Prelude.Text.{Text}
use phpspy.Prelude.Int.{ℤ, pos, ltb_ℤ}
use phpspy.Parse.{strtol_with_min, atoi_with_min}

-- A number that is accepted is not below the minimum, and fits a C `int`.
atoi_with_min-bounds :
    (str : Text) (min n : ℤ)
    → atoi_with_min str min ≡ some n
    → (ltb_ℤ n min ≡ false) × (ltb_ℤ (pos (2 ^ 31 - 1)) n ≡ false)
unfolding atoi_with_min strtol_with_min
atoi_with_min-bounds str min n e = ground arith
