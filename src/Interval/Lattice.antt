-- ===== src/Interval/Lattice.antt =====
-- engine/Interval.cpp: join, meet and widen against the sets of integers that intervals stand for.
use code_skeptic.Prelude.{◌≡◌, refl, true, false, ◌&&◌, ◌||◌, arith}
use code_skeptic.Prelude.Int.{ℤ, ◌≤ℤ◌}
use code_skeptic.Interval.{Interval, contains, join, meet, meet_bounds, or_bottom, widen}

-- Every integer of `a` is in `b`.
abbrev pub Within : Interval → Interval → Type 0
Within a b = (v : ℤ) → contains a v ≡ true → contains b v ≡ true

pub contains-join_left :
    (a b : Interval) (v : ℤ) → contains a v ≡ true → contains (join a b) v ≡ true
unfolding contains join
contains-join_left a b v h = ground arith

pub contains-join_right :
    (a b : Interval) (v : ℤ) → contains b v ≡ true → contains (join a b) v ≡ true
unfolding contains join
contains-join_right a b v h = ground arith

pub contains-meet_left :
    (a b : Interval) (v : ℤ) → contains (meet a b) v ≡ true → contains a v ≡ true
unfolding contains meet meet_bounds or_bottom
contains-meet_left a b v h = ground arith

pub contains-meet_right :
    (a b : Interval) (v : ℤ) → contains (meet a b) v ≡ true → contains b v ≡ true
unfolding contains meet meet_bounds or_bottom
contains-meet_right a b v h = ground arith

pub contains-live : (a : Interval) (v : ℤ) → contains a v ≡ true → a.empty ≡ false
unfolding contains
contains-live a v h = ground arith

pub contains-lo : (a : Interval) (v : ℤ) → contains a v ≡ true → a.lo_inf ≡ false → a.lo ≤ℤ v
unfolding contains
contains-lo a v h k = ground arith

pub contains-hi : (a : Interval) (v : ℤ) → contains a v ≡ true → a.hi_inf ≡ false → v ≤ℤ a.hi
unfolding contains
contains-hi a v h k = ground arith

pub contains-intro :
    (a : Interval) (v : ℤ)
    → a.empty ≡ false
    → (a.lo_inf ≡ false → a.lo ≤ℤ v)
    → (a.hi_inf ≡ false → v ≤ℤ a.hi)
    → contains a v ≡ true
unfolding contains
contains-intro a v e l h = ground arith

meet_bounds-lo :
    (a b : Interval) (v : ℤ)
    → contains a v ≡ true
    → contains b v ≡ true
    → (meet_bounds a b).lo_inf ≡ false
    → (meet_bounds a b).lo ≤ℤ v
unfolding meet_bounds
meet_bounds-lo a b v h k = ground (arith, contains-lo a v h, contains-lo b v k)

meet_bounds-hi :
    (a b : Interval) (v : ℤ)
    → contains a v ≡ true
    → contains b v ≡ true
    → (meet_bounds a b).hi_inf ≡ false
    → v ≤ℤ (meet_bounds a b).hi
unfolding meet_bounds
meet_bounds-hi a b v h k = ground (arith, contains-hi a v h, contains-hi b v k)

contains-meet_bounds :
    (a b : Interval) (v : ℤ)
    → contains a v ≡ true
    → contains b v ≡ true
    → contains (meet_bounds a b) v ≡ true
contains-meet_bounds a b v h k =
    contains-intro (meet_bounds a b) v (unfold meet_bounds in refl) (meet_bounds-lo a b v h k)
      (meet_bounds-hi a b v h k)

contains-or_bottom : (r : Interval) (v : ℤ) → contains r v ≡ true → contains (or_bottom r) v ≡ true
unfolding contains or_bottom
contains-or_bottom r v h = ground arith

pub contains-meet_both :
    (a b : Interval) (v : ℤ)
    → contains a v ≡ true
    → contains b v ≡ true
    → contains (meet a b) v ≡ true
unfolding meet
contains-meet_both a b v h k = ground (
  arith,
  contains-live a v h,
  contains-live b v k,
  contains-or_bottom (meet_bounds a b) v (contains-meet_bounds a b v h k),
)

-- `meet` is exactly the intersection.
pub contains-meet :
    (a b : Interval) (v : ℤ) → contains (meet a b) v ≡ (contains a v && contains b v)
contains-meet a b v =
    ground (arith, contains-meet_left a b v, contains-meet_right a b v, contains-meet_both a b v)

-- `join` contains both its arguments.
pub contains-join :
    (a b : Interval) (v : ℤ) → (contains a v || contains b v) ≡ true → contains (join a b) v ≡ true
contains-join a b v h = ground (arith, contains-join_left a b v, contains-join_right a b v)

pub contains-widen : (p n : Interval) (v : ℤ) → contains n v ≡ true → contains (widen p n) v ≡ true
unfolding contains widen
contains-widen p n v h = ground arith
