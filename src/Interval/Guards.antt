-- ===== src/Interval/Guards.antt =====
-- engine/Interval.cpp: guard refinement against the comparisons it stands for.
use code_skeptic.Prelude.{
  ◌≡◌, ◌≢◌, refl, suc, ◌<◌, ◌-◌, ◌^◌, true, false, ◌&&◌, arith, ℕ, if◌then◌else◌, inl, inr,
  Bool-cases, ◌==◌,
}
use code_skeptic.Prelude.Int.{
  ℤ, pos, ltb_ℤ, leb_ℤ, eqb_ℤ, ◌≤ℤ◌, ◌+ℤ◌, ◌-ℤ◌, +ℤ_parts, -ℤ_parts, eq_of_parts,
}
use code_skeptic.Interval.{
  Interval, bottom, int64_max, int64_min, contains, constant, range, at_least, at_most,
}
use code_skeptic.Interval.Arith.{
  constrain_le, constrain_lt, constrain_ge, constrain_gt, constrain_eq, constrain_ne,
  fits_signed_bits, signed_min, signed_max,
}
use code_skeptic.Interval.Lattice.{
  contains-meet, contains-meet_left, contains-live, contains-meet_both, contains-lo, contains-hi,
}

abbrev pub IsInt64 : ℤ → Type 0
IsInt64 v = (int64_min ≤ℤ v) × (v ≤ℤ int64_max)

contains-at_most : (c v : ℤ) → contains (at_most c) v ≡ leb_ℤ v c
unfolding contains at_most
contains-at_most c v = ground arith

pub contains-at_least : (c v : ℤ) → contains (at_least c) v ≡ leb_ℤ c v
unfolding contains at_least
contains-at_least c v = ground arith

pub contains-constant : (c v : ℤ) → contains (constant c) v ≡ eqb_ℤ v c
unfolding contains constant range
contains-constant c v = ground arith

contains-bottom : (v : ℤ) → contains bottom v ≡ false
unfolding contains
contains-bottom v = refl

module _ (a : Interval) (c v : ℤ) where
  contains-constrain_le : contains (constrain_le a c) v ≡ (contains a v && leb_ℤ v c)
  unfolding constrain_le
  contains-constrain_le = rw (contains-meet, contains-at_most)

  contains-constrain_ge : contains (constrain_ge a c) v ≡ (contains a v && leb_ℤ c v)
  unfolding constrain_ge
  contains-constrain_ge = rw (contains-meet, contains-at_least)

  contains-constrain_eq : contains (constrain_eq a c) v ≡ (contains a v && eqb_ℤ v c)
  unfolding constrain_eq
  contains-constrain_eq = rw (contains-meet, contains-constant)

  contains-constrain_lt : IsInt64 v → contains (constrain_lt a c) v ≡ (contains a v && ltb_ℤ v c)
  unfolding constrain_lt
  contains-constrain_lt h = ground (
    arith,
    contains-meet a (at_most (c -ℤ pos 1)) v,
    contains-at_most (c -ℤ pos 1) v,
    contains-bottom v,
    -ℤ_parts c (pos 1),
  )

  contains-constrain_gt : IsInt64 v → contains (constrain_gt a c) v ≡ (contains a v && ltb_ℤ c v)
  unfolding constrain_gt
  contains-constrain_gt h = ground (
    arith,
    contains-meet a (at_least (c +ℤ pos 1)) v,
    contains-at_least (c +ℤ pos 1) v,
    contains-bottom v,
    +ℤ_parts c (pos 1),
  )

-- For a 64-bit value, each of the five refinements holds exactly the members of the interval
-- that satisfy its comparison.
pub constrain_exact :
    (a : Interval) (c v : ℤ)
    → IsInt64 v
    → (contains (constrain_lt a c) v ≡ (contains a v && ltb_ℤ v c))
      × (contains (constrain_le a c) v ≡ (contains a v && leb_ℤ v c))
      × (contains (constrain_gt a c) v ≡ (contains a v && ltb_ℤ c v))
      × (contains (constrain_ge a c) v ≡ (contains a v && leb_ℤ c v))
      × (contains (constrain_eq a c) v ≡ (contains a v && eqb_ℤ v c))
constrain_exact a c v h = (
  contains-constrain_lt a c v h,
  contains-constrain_le a c v,
  contains-constrain_gt a c v h,
  contains-constrain_ge a c v,
  contains-constrain_eq a c v,
)

constrain_ne_keeps :
    (a : Interval) (c v : ℤ) → contains a v ≡ true → v ≢ c → contains (constrain_ne a c) v ≡ true
unfolding constrain_ne
constrain_ne_keeps a c v h ne = ground (
  arith,
  contains-live a v h,
  contains-lo a v h,
  contains-hi a v h,
  contains-at_least (if eqb_ℤ c int64_max then c else c +ℤ pos 1) v,
  contains-at_most (if eqb_ℤ c int64_min then c else c -ℤ pos 1) v,
  contains-meet_both a (at_least (if eqb_ℤ c int64_max then c else c +ℤ pos 1)) v h,
  contains-meet_both a (at_most (if eqb_ℤ c int64_min then c else c -ℤ pos 1)) v h,
  +ℤ_parts c (pos 1),
  -ℤ_parts c (pos 1),
  eq_of_parts v c,
)

constrain_ne_adds_nothing :
    (a : Interval) (c v : ℤ) → contains (constrain_ne a c) v ≡ true → contains a v ≡ true
unfolding constrain_ne
constrain_ne_adds_nothing a c v h = ground (
  arith,
  contains-bottom v,
  contains-meet_left a (at_least (if eqb_ℤ c int64_max then c else c +ℤ pos 1)) v,
  contains-meet_left a (at_most (if eqb_ℤ c int64_min then c else c -ℤ pos 1)) v,
)

-- Refinement by `x != c` keeps every member but possibly `c`, and adds none.
pub constrain_ne_sound :
    (a : Interval) (c v : ℤ)
    → (contains a v ≡ true → v ≢ c → contains (constrain_ne a c) v ≡ true)
      × (contains (constrain_ne a c) v ≡ true → contains a v ≡ true)
constrain_ne_sound a c v = (constrain_ne_keeps a c v, constrain_ne_adds_nothing a c v)

-- A singleton that is refined by `x != c` for its own value becomes empty.
pub constrain_ne_singleton : (c v : ℤ) → contains (constrain_ne (constant c) c) v ≡ false
unfolding constrain_ne constant range contains
constrain_ne_singleton c v = ground arith

-- The two's-complement range of `suc n` bits.
abbrev pub InSigned : ℕ → ℤ → Type 0
InSigned n v = (pos 0 -ℤ pos (2 ^ n) ≤ℤ v) × (v +ℤ pos 1 ≤ℤ pos (2 ^ n))

signed_max_lem : (n : ℕ) → n < 64 → signed_max (suc n) +ℤ pos 1 ≡ pos (2 ^ n)
signed_max_lem n h = elim (Bool-cases (suc n == 64)) [
  | inl e ↦ let k : n ≡ 63 = ground arith in rw k (unfold ◌+ℤ◌ in refl)
  | inr e ↦
      let k : suc n - 1 ≡ n = omega arith in
      rw (e, k)
        (omega (
          arith,
          eq_of_parts (pos (2 ^ n) -ℤ pos 1 +ℤ pos 1) (pos (2 ^ n)),
          +ℤ_parts (pos (2 ^ n) -ℤ pos 1) (pos 1),
          -ℤ_parts (pos (2 ^ n)) (pos 1),
        ))
]

signed_min_lem : (n : ℕ) → n < 64 → signed_min (suc n) ≡ pos 0 -ℤ pos (2 ^ n)
signed_min_lem n h = elim (Bool-cases (suc n == 64)) [
  | inl e ↦ let k : n ≡ 63 = ground arith in rw k (unfold ◌-ℤ◌ in refl)
  | inr e ↦ let k : suc n - 1 ≡ n = omega arith in rw (e, k)
]

-- `fits_signed_bits` with `suc n` bits, at most 64, answers true only if every member is in range.
pub fits_signed_bits_sound :
    (a : Interval) (n : ℕ) (v : ℤ)
    → n < 64
    → fits_signed_bits a (suc n) ≡ true
    → contains a v ≡ true
    → InSigned n v
unfolding fits_signed_bits
fits_signed_bits_sound a n v h f k = ground (
  arith,
  contains-live a v k,
  contains-lo a v k,
  contains-hi a v k,
  signed_max_lem n h,
  signed_min_lem n h,
  +ℤ_parts (signed_max (suc n)) (pos 1),
  +ℤ_parts v (pos 1),
)
