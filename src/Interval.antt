-- ===== src/Interval.antt =====
-- engine/Interval.h and engine/Interval.cpp: the interval lattice over 64-bit integers.
pub mod Checked
pub mod Lattice
pub mod Arith
pub mod Portable
pub mod Widening
pub mod Guards
pub mod Sound
use code_skeptic.Prelude.{
  Bool, true, false, ◌&&◌, ◌||◌, not, Option, none, some, if◌then◌else◌, bool_eq,
}
use code_skeptic.Prelude.Int.{ℤ, pos, negsuc, ltb_ℤ, eqb_ℤ, min_ℤ, max_ℤ}

abbrev pub int64_max : ℤ
int64_max = pos 9223372036854775807

abbrev pub int64_min : ℤ
int64_min = negsuc 9223372036854775807

pub record Interval : Type 0 where
  pub empty : Bool
  pub lo_inf : Bool
  pub hi_inf : Bool
  pub lo : ℤ
  pub hi : ℤ

abbrev pub top : Interval
top = record { empty = false; lo_inf = true; hi_inf = true; lo = pos 0; hi = pos 0 }

abbrev pub bottom : Interval
bottom = record { empty = true; lo_inf = true; hi_inf = true; lo = pos 0; hi = pos 0 }

unfoldable pub range : ℤ → ℤ → Interval
range lo hi =
    if ltb_ℤ hi lo
    then bottom
    else record { empty = false; lo_inf = false; hi_inf = false; lo = lo; hi = hi }

unfoldable pub constant : ℤ → Interval
unfolding range
constant c = range c c

unfoldable pub at_least : ℤ → Interval
at_least lo = record { empty = false; lo_inf = false; hi_inf = true; lo = lo; hi = pos 0 }

unfoldable pub at_most : ℤ → Interval
at_most hi = record { empty = false; lo_inf = true; hi_inf = false; lo = pos 0; hi = hi }

unfoldable pub is_top : Interval → Bool
is_top a = not a.empty && a.lo_inf && a.hi_inf

unfoldable pub contains : Interval → ℤ → Bool
contains a v =
    if a.empty
    then false
    else if not a.lo_inf && ltb_ℤ v a.lo
    then false
    else if not a.hi_inf && ltb_ℤ a.hi v
    then false
    else true

unfoldable pub is_known_non_zero : Interval → Bool
unfolding contains
is_known_non_zero a = not a.empty && not (contains a (pos 0))

-- The out parameter is the value of `some`.
unfoldable pub is_singleton : Interval → Option ℤ
is_singleton a =
    if a.empty || a.lo_inf || a.hi_inf || not (eqb_ℤ a.lo a.hi) then none else some a.lo

unfoldable pub eqb : Interval → Interval → Bool
eqb a o =
    if a.empty || o.empty
    then bool_eq a.empty o.empty
    else if not (bool_eq a.lo_inf o.lo_inf) || not (bool_eq a.hi_inf o.hi_inf)
    then false
    else if not a.lo_inf && not (eqb_ℤ a.lo o.lo)
    then false
    else if not a.hi_inf && not (eqb_ℤ a.hi o.hi)
    then false
    else true

unfoldable pub join : Interval → Interval → Interval
join a b = if a.empty then b else if b.empty then a else record {
  empty = false;
  lo_inf = a.lo_inf || b.lo_inf;
  hi_inf = a.hi_inf || b.hi_inf;
  lo = if a.lo_inf || b.lo_inf then pos 0 else min_ℤ a.lo b.lo;
  hi = if a.hi_inf || b.hi_inf then pos 0 else max_ℤ a.hi b.hi;
}

-- The bounds of `meet`, before the test for an empty result.
unfoldable pub meet_bounds : Interval → Interval → Interval
meet_bounds a b = record {
  empty = false;
  lo_inf = a.lo_inf && b.lo_inf;
  hi_inf = a.hi_inf && b.hi_inf;
  lo =
      if a.lo_inf && b.lo_inf
      then pos 0
      else if a.lo_inf
      then b.lo
      else if b.lo_inf
      then a.lo
      else max_ℤ a.lo b.lo;
  hi =
      if a.hi_inf && b.hi_inf
      then pos 0
      else if a.hi_inf
      then b.hi
      else if b.hi_inf
      then a.hi
      else min_ℤ a.hi b.hi;
}

-- The test at the end of `meet`: crossed bounds are the empty interval.
unfoldable pub or_bottom : Interval → Interval
or_bottom r = if not r.lo_inf && not r.hi_inf && ltb_ℤ r.hi r.lo then bottom else r

unfoldable pub meet : Interval → Interval → Interval
meet a b = if a.empty || b.empty then bottom else or_bottom (meet_bounds a b)

unfoldable pub widen : Interval → Interval → Interval
widen prev next =
    let lo_lost = next.lo_inf || (not prev.lo_inf && ltb_ℤ next.lo prev.lo) in
    let hi_lost = next.hi_inf || (not prev.hi_inf && ltb_ℤ prev.hi next.hi) in
    if prev.empty then next else if next.empty then next else record {
      empty = false;
      lo_inf = lo_lost;
      hi_inf = hi_lost;
      lo = if lo_lost then pos 0 else next.lo;
      hi = if hi_lost then pos 0 else next.hi;
    }
