-- ===== src/Examples/Intervals.antt =====
-- engine/Interval.cpp: intervals at concrete bounds.
use code_skeptic.Prelude.{ℕ, suc, ◌≡◌, refl, ◌<◌, true, ◌&&◌, ◌||◌, arith}
use code_skeptic.Prelude.Int.{pos, negsuc, ltb_ℤ, leb_ℤ, eqb_ℤ, ◌+ℤ◌, ◌-ℤ◌, ◌*ℤ◌}
use code_skeptic.Interval.{
  Interval, range, top, bottom, constant, at_least, contains, join, meet, widen, eqb, int64_max,
}
use code_skeptic.Interval.Checked.{
  checked_add64, checked_sub64, checked_mul64, checked_add64_portable, checked_sub64_portable,
  checked_mul64_portable,
}
use code_skeptic.Interval.Arith.{
  add, sub, mul, negate, constrain_lt, constrain_le, constrain_gt, constrain_ge, constrain_eq,
  constrain_ne, fits_signed_bits,
}
use code_skeptic.Interval.Lattice.{contains-meet, contains-widen}
use code_skeptic.Interval.Sound.{contains-add, contains-mul, contains-negate}
use code_skeptic.Interval.Guards.{constrain_exact}
use code_skeptic.Interval.Widening.{widen_seq, widen_seq_rests}
use code_skeptic.Interval.Portable.{checked_portable}
use code_skeptic.Condition.{IntType}
use code_skeptic.Condition.Meaning.{convert}
use code_skeptic.IntervalEval.{int_type_range, or_top}
use code_skeptic.IntervalEval.Values.{contains-int_type_range}

abbrev small : Interval
unfolding range
small = range (pos 2) (pos 9)

abbrev mixed : Interval
unfolding range
mixed = range (negsuc 3) (pos 5)

abbrev int8 : IntType
int8 = record { signed = true; width = 8 }

in_small : contains small (pos 7) ≡ true
unfolding contains range
in_small = refl

in_mixed : contains mixed (negsuc 1) ≡ true
unfolding contains range
in_mixed = refl

-- An overflowing bound makes a sum unbounded on both sides.
add_overflow : add (range (pos 0) int64_max) (constant (pos 1)) ≡ top
unfolding add range constant code_skeptic.Interval.Arith.with_bound checked_add64
    code_skeptic.Interval.Checked.checked ◌+ℤ◌
add_overflow = refl

contains-add_example : contains (add small mixed) (pos 7 +ℤ negsuc 1) ≡ true
contains-add_example = contains-add small mixed (pos 7) (negsuc 1) in_small in_mixed

contains-mul_example : contains (mul small mixed) (pos 7 *ℤ negsuc 1) ≡ true
contains-mul_example = contains-mul small mixed (pos 7) (negsuc 1) in_small in_mixed

contains-negate_example : contains (negate mixed) (pos 0 -ℤ negsuc 1) ≡ true
contains-negate_example = contains-negate mixed (negsuc 1) in_mixed

contains-meet_example :
    contains (meet small mixed) (pos 4) ≡ (contains small (pos 4) && contains mixed (pos 4))
contains-meet_example = contains-meet small mixed (pos 4)

in_either : (contains small (pos 7) || contains mixed (pos 7)) ≡ true
unfolding contains range
in_either = refl

contains-widen_example : contains (widen mixed small) (pos 7) ≡ true
contains-widen_example = contains-widen mixed small (pos 7) in_small

constrain_exact_example :
    (contains (constrain_lt small (pos 5)) (pos 7)
      ≡ (contains small (pos 7) && ltb_ℤ (pos 7) (pos 5)))
    × (contains (constrain_le small (pos 5)) (pos 7)
        ≡ (contains small (pos 7) && leb_ℤ (pos 7) (pos 5)))
    × (contains (constrain_gt small (pos 5)) (pos 7)
        ≡ (contains small (pos 7) && ltb_ℤ (pos 5) (pos 7)))
    × (contains (constrain_ge small (pos 5)) (pos 7)
        ≡ (contains small (pos 7) && leb_ℤ (pos 5) (pos 7)))
    × (contains (constrain_eq small (pos 5)) (pos 7)
        ≡ (contains small (pos 7) && eqb_ℤ (pos 7) (pos 5)))
constrain_exact_example = constrain_exact small (pos 5) (pos 7) (omega arith, omega arith)

fits : fits_signed_bits small 8 ≡ true
unfolding fits_signed_bits range ◌-ℤ◌
fits = refl

widen_seq_rests_example :
    (k : ℕ) × (k < 4)
    × (eqb
          (widen_seq small (λ i. range (pos 0) (pos i)) k)
          (widen_seq small (λ i. range (pos 0) (pos i)) (suc k))
        ≡ true)
widen_seq_rests_example = widen_seq_rests small (λ i. range (pos 0) (pos i))

checked_portable_example :
    (checked_add64_portable int64_max (pos 1) ≡ checked_add64 int64_max (pos 1))
    × (checked_sub64_portable int64_max (pos 1) ≡ checked_sub64 int64_max (pos 1))
    × (checked_mul64_portable int64_max (pos 1) ≡ checked_mul64 int64_max (pos 1))
checked_portable_example =
    checked_portable int64_max (pos 1) (omega arith, omega arith) (omega arith, omega arith)

contains-int_type_range_example :
    contains (or_top (int_type_range int8)) (convert int8 (pos 300)) ≡ true
contains-int_type_range_example = contains-int_type_range int8 (pos 300)
