-- ===== src/Interval/Checked.antt =====
-- engine/Interval.cpp: checked 64-bit arithmetic.
use code_skeptic.Prelude.{Bool, ◌&&◌, ◌||◌, not, Option, none, some, if◌then◌else◌}
use code_skeptic.Prelude.Int.{ℤ, pos, ◌+ℤ◌, ◌-ℤ◌, ◌*ℤ◌, leb_ℤ, ltb_ℤ, eqb_ℤ, quot_ℤ}
use code_skeptic.Interval.{int64_max, int64_min}

-- `__builtin_*_overflow` computes the mathematical result and tells whether it is representable.
abbrev pub fits_int64 : ℤ → Bool
fits_int64 v = leb_ℤ int64_min v && leb_ℤ v int64_max

unfoldable pub checked : ℤ → Option ℤ
checked v = if fits_int64 v then some v else none

unfoldable pub checked_add64 : ℤ → ℤ → Option ℤ
unfolding checked
checked_add64 a b = checked (a +ℤ b)

unfoldable pub checked_sub64 : ℤ → ℤ → Option ℤ
unfolding checked
checked_sub64 a b = checked (a -ℤ b)

unfoldable pub checked_mul64 : ℤ → ℤ → Option ℤ
unfolding checked
checked_mul64 a b = checked (a *ℤ b)

-- The pre-checks under compilers that have no overflow builtin.
unfoldable pub checked_add64_portable : ℤ → ℤ → Option ℤ
checked_add64_portable a b =
    if (ltb_ℤ (pos 0) b && ltb_ℤ (int64_max -ℤ b) a)
      || (ltb_ℤ b (pos 0) && ltb_ℤ a (int64_min -ℤ b))
    then none
    else some (a +ℤ b)

unfoldable pub checked_sub64_portable : ℤ → ℤ → Option ℤ
checked_sub64_portable a b =
    if (ltb_ℤ b (pos 0) && ltb_ℤ (int64_max +ℤ b) a)
      || (ltb_ℤ (pos 0) b && ltb_ℤ a (int64_min +ℤ b))
    then none
    else some (a -ℤ b)

unfoldable pub mul_overflows : ℤ → ℤ → Bool
mul_overflows a b =
    if ltb_ℤ (pos 0) a
    then (if ltb_ℤ (pos 0) b then ltb_ℤ (quot_ℤ int64_max b) a else ltb_ℤ b (quot_ℤ int64_min a))
    else if ltb_ℤ (pos 0) b
    then ltb_ℤ a (quot_ℤ int64_min b)
    else ltb_ℤ b (quot_ℤ int64_max a)

unfoldable pub checked_mul64_portable : ℤ → ℤ → Option ℤ
unfolding mul_overflows
checked_mul64_portable a b =
    if not (eqb_ℤ a (pos 0)) && not (eqb_ℤ b (pos 0)) && mul_overflows a b
    then none
    else some (a *ℤ b)
