-- ===== src/Interval/Sound.antt =====
-- engine/Interval.cpp: the result of each arithmetic operation contains every exact result.
use code_skeptic.Prelude.{
  ◌≡◌, refl, ◌∙◌, ◌⊎◌, inl, inr, Bool, true, false, ◌||◌, arith, Option, none, some,
}
use code_skeptic.Prelude.Int.{
  ℤ, pos, negsuc, ◌≤ℤ◌, ◌+ℤ◌, ◌-ℤ◌, ◌*ℤ◌, +ℤ_parts, -ℤ_parts, *ℤ_parts, *ℤ_mono_pos, *ℤ_mono_neg,
  *ℤ_comm, int_laws, min_ℤ, max_ℤ, eq_of_parts,
}
use code_skeptic.Interval.{Interval, top, range, constant, contains, is_singleton}
use code_skeptic.Interval.Checked.{checked, checked_add64, checked_sub64, checked_mul64}
use code_skeptic.Interval.Arith.{
  with_bound, interval_of, negate, add, sub, hull, is_zero_singleton, mul,
}
use code_skeptic.Interval.Lattice.{contains-live, contains-lo, contains-hi}

-- A bound that is infinite, or a value that the bound allows.
checked-some : (a v : ℤ) → checked a ≡ some v → v ≡ a
unfolding checked
checked-some a v h = ground arith

pub contains-top : (v : ℤ) → contains top v ≡ true
unfolding contains
contains-top v = refl

-- Bounds that allow `x`, each where it is finite and did not overflow, give an interval around `x`.
contains-with_bound :
    (li : Bool) (l : Option ℤ) (hi : Bool) (h : Option ℤ) (x : ℤ)
    → ((v : ℤ) → li ≡ false → l ≡ some v → v ≤ℤ x)
    → ((v : ℤ) → hi ≡ false → h ≡ some v → x ≤ℤ v)
    → contains
        (with_bound li l λ lo_inf lo. with_bound hi h λ hi_inf up. interval_of lo_inf hi_inf lo up)
        x
      ≡ true
unfolding with_bound contains
contains-with_bound true l true h x p q = refl
contains-with_bound true l false none x p q = refl
contains-with_bound true l false (some v) x p q = ground (arith, q v refl refl)
contains-with_bound false none hi h x p q = refl
contains-with_bound false (some u) true h x p q = ground (arith, p u refl refl)
contains-with_bound false (some u) false none x p q = refl
contains-with_bound false (some u) false (some v) x p q =
    ground (arith, p u refl refl, q v refl refl)

module _ (a b : Interval) (v w : ℤ) (h : contains a v ≡ true) (k : contains b w ≡ true) where
  add-lo : (u : ℤ) → (a.lo_inf || b.lo_inf) ≡ false → checked_add64 a.lo b.lo ≡ some u → u ≤ℤ v +ℤ w
  unfolding checked_add64 checked
  add-lo u e c =
      ground (arith, +ℤ_parts v w, +ℤ_parts a.lo b.lo, contains-lo a v h, contains-lo b w k)

  add-hi : (u : ℤ) → (a.hi_inf || b.hi_inf) ≡ false → checked_add64 a.hi b.hi ≡ some u → v +ℤ w ≤ℤ u
  unfolding checked_add64 checked
  add-hi u e c =
      ground (arith, +ℤ_parts v w, +ℤ_parts a.hi b.hi, contains-hi a v h, contains-hi b w k)

  -- The sum of two members is in the sum of the intervals, also where a bound overflows.
  pub contains-add : contains (add a b) (v +ℤ w) ≡ true
  unfolding add
  contains-add =
      rw (contains-live a v h, contains-live b w k)
        (contains-with_bound (a.lo_inf || b.lo_inf) _ (a.hi_inf || b.hi_inf) _ (v +ℤ w) add-lo
          add-hi)

pub contains-negate :
    (a : Interval) (v : ℤ) → contains a v ≡ true → contains (negate a) (pos 0 -ℤ v) ≡ true
unfolding negate checked_sub64 checked contains
contains-negate a v h =
    ground (arith, -ℤ_parts (pos 0) v, -ℤ_parts (pos 0) a.lo, -ℤ_parts (pos 0) a.hi)

-- The difference of two members is in the difference of the intervals, also where a bound overflows.
pub contains-sub :
    (a b : Interval) (v w : ℤ)
    → contains a v ≡ true
    → contains b w ≡ true
    → contains (sub a b) (v -ℤ w) ≡ true
unfolding sub
contains-sub a b v w h k =
    let e : v +ℤ (pos 0 -ℤ w) ≡ v -ℤ w = omega int_laws in
    rw e at (contains-add a (negate b) v (pos 0 -ℤ w) h (contains-negate b w k))

-- Between two numbers times `y` lies each number between them times `y`.
between :
    (l x u y : ℤ)
    → l ≤ℤ x
    → x ≤ℤ u
    → ((l *ℤ y ≤ℤ x *ℤ y) × (x *ℤ y ≤ℤ u *ℤ y)) ⊎ ((u *ℤ y ≤ℤ x *ℤ y) × (x *ℤ y ≤ℤ l *ℤ y))
between l x u (pos c) h k = inl (*ℤ_mono_pos l x c h, *ℤ_mono_pos x u c k)
between l x u (negsuc c) h k = inr (*ℤ_mono_neg x u c k, *ℤ_mono_neg l x c h)

between_left :
    (y l x u : ℤ)
    → l ≤ℤ x
    → x ≤ℤ u
    → ((y *ℤ l ≤ℤ y *ℤ x) × (y *ℤ x ≤ℤ y *ℤ u)) ⊎ ((y *ℤ u ≤ℤ y *ℤ x) × (y *ℤ x ≤ℤ y *ℤ l))
between_left y l x u h k = simp (*ℤ_comm y l, *ℤ_comm y x, *ℤ_comm y u) (between l x u y h k)

pub contains-range : (lo hi v : ℤ) → lo ≤ℤ v → v ≤ℤ hi → contains (range lo hi) v ≡ true
unfolding contains range
contains-range lo hi v h k = ground arith

checked-cases : (a : ℤ) → (checked a ≡ none) ⊎ (checked a ≡ some a)
unfolding checked
checked-cases a = ground arith

min4 : ℤ → ℤ → ℤ → ℤ → ℤ
min4 p q r s = min_ℤ (min_ℤ (min_ℤ p q) r) s

max4 : ℤ → ℤ → ℤ → ℤ → ℤ
max4 p q r s = max_ℤ (max_ℤ (max_ℤ p q) r) s

min4-le :
    (p q r s : ℤ)
    → (min4 p q r s ≤ℤ p) × (min4 p q r s ≤ℤ q) × (min4 p q r s ≤ℤ r) × (min4 p q r s ≤ℤ s)
unfolding min4
min4-le p q r s = ground arith

le-max4 :
    (p q r s : ℤ)
    → (p ≤ℤ max4 p q r s) × (q ≤ℤ max4 p q r s) × (r ≤ℤ max4 p q r s) × (s ≤ℤ max4 p q r s)
unfolding max4
le-max4 p q r s = ground arith

contains-hull :
    (p q r s z : ℤ)
    → min4 p q r s ≤ℤ z
    → z ≤ℤ max4 p q r s
    → contains (hull (checked p) (checked q) (checked r) (checked s)) z ≡ true
unfolding hull min4 max4
contains-hull p q r s z h k = ground (
  arith,
  checked-cases p,
  checked-cases q,
  checked-cases r,
  checked-cases s,
  contains-top z,
  contains-range (min4 p q r s) (max4 p q r s) z h k,
)

-- The product of two numbers in two boxes lies between the corner products.
module _ (l x u m y n : ℤ) (lx : l ≤ℤ x) (xu : x ≤ℤ u) (my : m ≤ℤ y) (yn : y ≤ℤ n) where
  corner_lo : min4 (l *ℤ m) (l *ℤ n) (u *ℤ m) (u *ℤ n) ≤ℤ x *ℤ y
  corner_lo = omega (
    arith,
    min4-le (l *ℤ m) (l *ℤ n) (u *ℤ m) (u *ℤ n),
    between l x u y lx xu,
    between_left l m y n my yn,
    between_left u m y n my yn,
  )

  corner_hi : x *ℤ y ≤ℤ max4 (l *ℤ m) (l *ℤ n) (u *ℤ m) (u *ℤ n)
  corner_hi = omega (
    arith,
    le-max4 (l *ℤ m) (l *ℤ n) (u *ℤ m) (u *ℤ n),
    between l x u y lx xu,
    between_left l m y n my yn,
    between_left u m y n my yn,
  )

  corners :
      contains
        (hull (checked_mul64 l m) (checked_mul64 l n) (checked_mul64 u m) (checked_mul64 u n))
        (x *ℤ y)
      ≡ true
  unfolding checked_mul64
  corners = contains-hull (l *ℤ m) (l *ℤ n) (u *ℤ m) (u *ℤ n) (x *ℤ y) corner_lo corner_hi

-- The only member of a zero singleton is zero.
is_zero_singleton-eq :
    (a : Interval) (v : ℤ) → contains a v ≡ true → is_zero_singleton a ≡ true → v ≡ pos 0
unfolding is_zero_singleton is_singleton contains
is_zero_singleton-eq a v h e = ground arith

zero_mul : (v w : ℤ) → v ≡ pos 0 → v *ℤ w ≡ pos 0
zero_mul v w e = rw e (eq_of_parts (pos 0 *ℤ w) (pos 0) (omega (arith, *ℤ_parts (pos 0) w)))

mul_zero : (v w : ℤ) → w ≡ pos 0 → v *ℤ w ≡ pos 0
mul_zero v w e = *ℤ_comm v w ∙ zero_mul w v e

contains-zero : contains (constant (pos 0)) (pos 0) ≡ true
unfolding constant range contains
contains-zero = refl

-- The product of two members is in the product of the intervals, also where a product of bounds
-- overflows.
pub contains-mul :
    (a b : Interval) (v w : ℤ)
    → contains a v ≡ true
    → contains b w ≡ true
    → contains (mul a b) (v *ℤ w) ≡ true
unfolding mul
contains-mul a b v w h k = ground (
  arith,
  contains-live a v h,
  contains-live b w k,
  contains-lo a v h,
  contains-hi a v h,
  contains-lo b w k,
  contains-hi b w k,
  is_zero_singleton-eq a v h,
  is_zero_singleton-eq b w k,
  zero_mul v w,
  mul_zero v w,
  contains-zero,
  contains-top (v *ℤ w),
  corners a.lo v a.hi b.lo w b.hi,
)
