-- ===== src/Interval/Arith.antt =====
-- engine/Interval.cpp: interval arithmetic and guard refinement.
use code_skeptic.Prelude.{
  ℕ, ◌-◌, ◌^◌, Bool, true, false, ◌&&◌, ◌||◌, not, Option, none, some, if◌then◌else◌, ltb, ◌==◌,
}
use code_skeptic.Prelude.Int.{ℤ, pos, ◌+ℤ◌, ◌-ℤ◌, leb_ℤ, eqb_ℤ, min_ℤ, max_ℤ}
use code_skeptic.Interval.{
  Interval, int64_max, int64_min, top, bottom, range, constant, at_least, at_most, is_singleton,
  meet,
}
use code_skeptic.Interval.Checked.{checked_add64, checked_sub64, checked_mul64}

-- One bound of a result: infinite, or the checked value, whose overflow makes the result `top`.
unfoldable pub with_bound : Bool → Option ℤ → (Bool → ℤ → Interval) → Interval
with_bound true c k = k true (pos 0)
with_bound false none k = top
with_bound false (some v) k = k false v

abbrev pub interval_of : Bool → Bool → ℤ → ℤ → Interval
interval_of lo_inf hi_inf lo hi = record {
  empty = false;
  lo_inf = lo_inf;
  hi_inf = hi_inf;
  lo = lo;
  hi = hi;
}

unfoldable pub negate : Interval → Interval
unfolding with_bound
negate a =
    if a.empty
    then a
    else with_bound a.hi_inf (checked_sub64 (pos 0) a.hi) λ lo_inf lo.
      with_bound a.lo_inf (checked_sub64 (pos 0) a.lo) λ hi_inf hi. interval_of lo_inf hi_inf lo hi

unfoldable pub add : Interval → Interval → Interval
unfolding with_bound
add a b =
    if a.empty || b.empty
    then bottom
    else with_bound (a.lo_inf || b.lo_inf) (checked_add64 a.lo b.lo) λ lo_inf lo.
      with_bound (a.hi_inf || b.hi_inf) (checked_add64 a.hi b.hi)
        λ hi_inf hi. interval_of lo_inf hi_inf lo hi

unfoldable pub sub : Interval → Interval → Interval
sub a b = add a (negate b)

-- The smallest range around the four endpoint products, if none of them overflowed.
unfoldable pub hull : Option ℤ → Option ℤ → Option ℤ → Option ℤ → Interval
hull (some p) (some q) (some r) (some s) =
    range (min_ℤ (min_ℤ (min_ℤ p q) r) s) (max_ℤ (max_ℤ (max_ℤ p q) r) s)
hull _ _ _ _ = top

unfoldable pub is_zero_singleton : Interval → Bool
is_zero_singleton a = elim (is_singleton a) [ none ↦ false | some c ↦ eqb_ℤ c (pos 0) ]

unfoldable pub mul : Interval → Interval → Interval
mul a b =
    if a.empty || b.empty
    then bottom
    else if is_zero_singleton a
    then constant (pos 0)
    else if is_zero_singleton b
    then constant (pos 0)
    else if a.lo_inf || a.hi_inf || b.lo_inf || b.hi_inf
    then top
    else hull (checked_mul64 a.lo b.lo) (checked_mul64 a.lo b.hi) (checked_mul64 a.hi b.lo)
        (checked_mul64 a.hi b.hi)

unfoldable pub constrain_le : Interval → ℤ → Interval
constrain_le a c = meet a (at_most c)

unfoldable pub constrain_lt : Interval → ℤ → Interval
constrain_lt a c = if eqb_ℤ c int64_min then bottom else meet a (at_most (c -ℤ pos 1))

unfoldable pub constrain_ge : Interval → ℤ → Interval
constrain_ge a c = meet a (at_least c)

unfoldable pub constrain_gt : Interval → ℤ → Interval
constrain_gt a c = if eqb_ℤ c int64_max then bottom else meet a (at_least (c +ℤ pos 1))

unfoldable pub constrain_eq : Interval → ℤ → Interval
constrain_eq a c = meet a (constant c)

-- Only a matching endpoint can be trimmed.
unfoldable pub constrain_ne : Interval → ℤ → Interval
constrain_ne a c =
    if a.empty
    then a
    else if not a.lo_inf && eqb_ℤ a.lo c
    then (if not a.hi_inf && eqb_ℤ a.lo a.hi
        then bottom
        else meet a (at_least (if eqb_ℤ c int64_max then c else c +ℤ pos 1)))
    else if not a.hi_inf && eqb_ℤ a.hi c
    then meet a (at_most (if eqb_ℤ c int64_min then c else c -ℤ pos 1))
    else a

abbrev pub signed_max : ℕ → ℤ
signed_max bits = if bits == 64 then int64_max else pos (2 ^ (bits - 1)) -ℤ pos 1

abbrev pub signed_min : ℕ → ℤ
signed_min bits = if bits == 64 then int64_min else pos 0 -ℤ pos (2 ^ (bits - 1))

unfoldable pub fits_signed_bits : Interval → ℕ → Bool
fits_signed_bits a bits =
    if a.empty
    then true
    else if a.lo_inf || a.hi_inf
    then false
    else if bits == 0 || ltb 64 bits
    then false
    else leb_ℤ (signed_min bits) a.lo && leb_ℤ a.hi (signed_max bits)
