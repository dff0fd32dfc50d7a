-- ===== src/Interval/Portable.antt =====
-- engine/Interval.cpp: the two builds of the checked arithmetic agree.
use native.Mathlib.Nat.{div-lt_iff_lt-mul}
use code_skeptic.Prelude.{zero, suc, ◌/◌, ◌≡◌, false, not, arith}
use code_skeptic.Prelude.Int.{ℤ, pos, negsuc, ◌*ℤ◌, quot_ℤ, +ℤ_parts, -ℤ_parts, *ℤ_parts, eqb_ℤ}
use code_skeptic.Interval.{int64_max, int64_min}
use code_skeptic.Interval.Checked.{
  checked, fits_int64, checked_add64, checked_sub64, checked_mul64, checked_add64_portable,
  checked_sub64_portable, checked_mul64_portable, mul_overflows,
}
use code_skeptic.Interval.Guards.{IsInt64}

module _ (a b : ℤ) (ha : IsInt64 a) (hb : IsInt64 b) where
  add_portable : checked_add64_portable a b ≡ checked_add64 a b
  unfolding checked_add64_portable checked_add64 checked
  add_portable = ground (arith, +ℤ_parts a b, -ℤ_parts int64_max b, -ℤ_parts int64_min b)

  sub_portable : checked_sub64_portable a b ≡ checked_sub64 a b
  unfolding checked_sub64_portable checked_sub64 checked
  sub_portable = ground (arith, -ℤ_parts a b, +ℤ_parts int64_max b, +ℤ_parts int64_min b)

-- The division pre-check is the overflow of the product, sign by sign.
mul_overflows-eq :
    (a b : ℤ)
    → eqb_ℤ a (pos 0) ≡ false
    → eqb_ℤ b (pos 0) ≡ false
    → mul_overflows a b ≡ not (fits_int64 (a *ℤ b))
unfolding mul_overflows quot_ℤ
mul_overflows-eq (pos zero) b h k = cc
mul_overflows-eq a (pos zero) h k = cc
mul_overflows-eq (pos (suc m)) (pos (suc n)) h k = ground (
  arith,
  *ℤ_parts (pos (suc m)) (pos (suc n)),
  div-lt_iff_lt-mul {k = suc n} {x = 9223372036854775807} {y = suc m} (omega arith),
)
mul_overflows-eq (pos (suc m)) (negsuc n) h k = ground (
  arith,
  *ℤ_parts (pos (suc m)) (negsuc n),
  -ℤ_parts (pos 0) (pos (9223372036854775808 / (suc m))),
  div-lt_iff_lt-mul {k = suc m} {x = 9223372036854775808} {y = suc n} (omega arith),
)
mul_overflows-eq (negsuc m) (pos (suc n)) h k = ground (
  arith,
  *ℤ_parts (negsuc m) (pos (suc n)),
  -ℤ_parts (pos 0) (pos (9223372036854775808 / (suc n))),
  div-lt_iff_lt-mul {k = suc n} {x = 9223372036854775808} {y = suc m} (omega arith),
)
mul_overflows-eq (negsuc m) (negsuc n) h k = ground (
  arith,
  *ℤ_parts (negsuc m) (negsuc n),
  -ℤ_parts (pos 0) (pos (9223372036854775807 / (suc m))),
  div-lt_iff_lt-mul {k = suc m} {x = 9223372036854775807} {y = suc n} (omega arith),
)

mul_portable : (a b : ℤ) → checked_mul64_portable a b ≡ checked_mul64 a b
unfolding checked_mul64_portable checked_mul64 checked
mul_portable a b = ground (arith, mul_overflows-eq a b, *ℤ_parts a b)

-- On 64-bit operands the pre-checked additions, subtractions and products that are built without
-- the overflow builtins accept, refuse and return the same as the builtins.
pub checked_portable :
    (a b : ℤ)
    → IsInt64 a
    → IsInt64 b
    → (checked_add64_portable a b ≡ checked_add64 a b)
      × (checked_sub64_portable a b ≡ checked_sub64 a b)
      × (checked_mul64_portable a b ≡ checked_mul64 a b)
checked_portable a b ha hb = (add_portable a b ha hb, sub_portable a b ha hb, mul_portable a b)
