-- ===== src/IntervalAnalysis/Fields.antt =====
-- engine/IntervalEval.cpp: the bound of a field width covers what the field can hold.
use code_skeptic.Prelude.{
  ℕ, zero, suc, ◌+◌, ◌-◌, ◌*◌, ◌/◌, ◌^◌, ◌≤◌, ◌<◌, ◌≡◌, refl, sym, ap, ◌∙◌, true, false, Option,
  none, some, List, [], ◌∷◌, ◌==◌, All, length, arith, ltb, inl, inr, Bool-cases, Option-cases,
}
use native.Mathlib.Nat.{
  pow-suc, pow-zero, mul_assoc, mul_comm, mul-one, mul-le-mul_right, pow-le-pow_right,
}
use code_skeptic.Prelude.Int.{ℤ, pos, ◌-ℤ◌, ◌≤ℤ◌, -ℤ_parts}
use code_skeptic.Interval.{Interval, contains, at_least, range}
use code_skeptic.Interval.Guards.{contains-at_least}
use code_skeptic.Interval.Lattice.{contains-meet_both}
use code_skeptic.Interval.Sound.{contains-range}
use code_skeptic.IntervalEval.Scanf.{
  ScanfConv, pow_capped_from, pow_capped, signed_bound, unsigned_bound, scanf_width_bound,
  seed_within, is_numeric_scanf_conv,
}
use code_skeptic.IntervalAnalysis.Execution.{
  numeral, ReadsUnsigned, ReadsSigned, Delivers, unlimited, characters_read, decimal, any_base,
  unsigned_decimal, octal, hex,
}

pow_capped_from_lem : (base r n p : ℕ) → pow_capped_from base r n ≡ some p → p ≡ r * base ^ n
unfolding pow_capped_from
pow_capped_from_lem base r zero p h =
    let e : r ≡ p = cc in sym e ∙ sym (rw (pow-zero base) (mul-one r))
pow_capped_from_lem base r (suc n) p h = elim (Bool-cases (ltb (9223372036854775807 / base) r)) [
  | inl y ↦ cc (rw y at h)
  | inr m ↦
      let ih = pow_capped_from_lem base (r * base) n p (rw m at h) in
      rw (pow-suc base n)
        (ih ∙ mul_assoc r base (base ^ n) ∙ ap (λ k. r * k) (mul_comm base (base ^ n)))
]

-- A power that is not refused is the power.
pow_capped_lem : (base n p : ℕ) → pow_capped base n ≡ some p → p ≡ base ^ n
unfolding pow_capped
pow_capped_lem base n p h = omega (arith, pow_capped_from_lem base 1 n p h)

numeral_below :
    (base acc : ℕ) (ds : List ℕ)
    → All (λ d. d < base) ds
    → numeral base acc ds < suc acc * base ^ length ds
numeral_below base acc [] h = rw (pow-zero base) (omega arith)
numeral_below base acc (d ∷ ds) h =
    let ih = numeral_below base (acc * base + d) ds h.1 in
    let small : suc (acc * base + d) ≤ suc acc * base = grind arith in
    let t = mul-le-mul_right (base ^ length ds) small in
    let e : suc acc * base * base ^ length ds ≡ suc acc * base ^ suc (length ds) =
      rw (pow-suc base (length ds)) (
        mul_assoc (suc acc) base (base ^ length ds)
        ∙ ap (λ k. suc acc * k) (mul_comm base (base ^ length ds))) in
    omega arith

reads_below :
    (base w p : ℕ) (ds : List ℕ)
    → 1 ≤ base
    → All (λ d. d < base) ds
    → length ds ≤ w
    → pow_capped base w ≡ some p
    → numeral base 0 ds < p
reads_below base w p ds b h l q =
    let e = pow_capped_lem base w p q in
    let m : base ^ length ds ≤ base ^ w = pow-le-pow_right b l in
    omega (arith, numeral_below base 0 ds h)

unsigned_sound :
    (base w : ℕ) (v : ℤ) (a : Interval)
    → 1 ≤ base
    → ReadsUnsigned base w v
    → unsigned_bound (pow_capped base w) ≡ some a
    → contains a v ≡ true
unsigned_sound base w v a b (ds, h, l, e) q = elim (Option-cases (pow_capped base w)) [
  | inl n ↦ cc (rw n at q)
  | inr z ↦
      let (p, r) = z in
      let below = reads_below base w p ds b h l r in
      let same : range (pos 0) (pos p -ℤ pos 1) ≡ a = let y = rw r at q in cc in
      rw (sym same, e)
        (contains-range (pos 0) (pos p -ℤ pos 1) (pos (numeral base 0 ds)) (omega arith)
          (omega (arith, -ℤ_parts (pos p) (pos 1))))
]

signed_pair :
    (om on : Option ℕ) (a : Interval)
    → signed_bound om on ≡ some a
    → (m : ℕ) × (n : ℕ) × (om ≡ some m)
      × (on ≡ some n)
      × (range (pos 0 -ℤ (pos m -ℤ pos 1)) (pos n -ℤ pos 1) ≡ a)
signed_pair (some m) (some n) a q = (m, n, refl, refl, cc)
signed_pair none on a q = cc
signed_pair (some m) none a q = cc

signed_sound :
    (base w : ℕ) (v : ℤ) (a : Interval)
    → 1 ≤ base
    → ReadsSigned base w v
    → signed_bound (pow_capped base (w - 1)) (pow_capped base w) ≡ some a
    → contains a v ≡ true
signed_sound base w v a b (inl (ds, h, l, e)) q =
    let (m, n, pm, pn, same) = signed_pair (pow_capped base (w - 1)) (pow_capped base w) a q in
    let below = reads_below base w n ds b h l pn in
    let some_m = reads_below base (w - 1) m [] b tt (omega arith) pm in
    rw (sym same, e)
      (contains-range (pos 0 -ℤ (pos m -ℤ pos 1)) (pos n -ℤ pos 1) (pos (numeral base 0 ds))
        (omega (arith, -ℤ_parts (pos m) (pos 1), -ℤ_parts (pos 0) (pos m -ℤ pos 1)))
        (omega (arith, -ℤ_parts (pos n) (pos 1))))
signed_sound base w v a b (inr (ds, h, l, e)) q =
    let (m, n, pm, pn, same) = signed_pair (pow_capped base (w - 1)) (pow_capped base w) a q in
    let below = reads_below base (w - 1) m ds b h (omega arith) pm in
    let some_n = reads_below base w n [] b tt (omega arith) pn in
    rw (sym same, e)
      (contains-range (pos 0 -ℤ (pos m -ℤ pos 1)) (pos n -ℤ pos 1)
        (pos 0 -ℤ pos (numeral base 0 ds))
        (omega (
          arith,
          -ℤ_parts (pos m) (pos 1),
          -ℤ_parts (pos 0) (pos m -ℤ pos 1),
          -ℤ_parts (pos 0) (pos (numeral base 0 ds)),
        ))
        (omega (arith, -ℤ_parts (pos n) (pos 1), -ℤ_parts (pos 0) (pos (numeral base 0 ds)))))

limited_sound :
    (c : ScanfConv) (v : ℤ) (a : Interval)
    → (c.width == 0) ≡ false
    → Delivers c v
    → scanf_width_bound c ≡ some a
    → contains a v ≡ true
unfolding scanf_width_bound
limited_sound c v a n (unlimited w k m) q = absurd (ground arith)
limited_sound c v a n (characters_read e h) q = cc (rw (n, e, scanf_width_bound) at q)
limited_sound c v a n (decimal e r) q =
    signed_sound 10 c.width v a (omega arith) r (rw (n, e, scanf_width_bound) at q)
limited_sound c v a n (any_base e r) q =
    signed_sound 16 c.width v a (omega arith) r (rw (n, e, scanf_width_bound) at q)
limited_sound c v a n (unsigned_decimal e r) q =
    unsigned_sound 10 c.width v a (omega arith) r (rw (n, e, scanf_width_bound) at q)
limited_sound c v a n (octal e r) q =
    unsigned_sound 8 c.width v a (omega arith) r (rw (n, e, scanf_width_bound) at q)
limited_sound c v a n (hex (inl e) r) q =
    unsigned_sound 16 c.width v a (omega arith) r (rw (n, e, scanf_width_bound) at q)
limited_sound c v a n (hex (inr e) r) q =
    unsigned_sound 16 c.width v a (omega arith) r (rw (n, e, scanf_width_bound) at q)

-- The bound that a field width sets on a numeric conversion covers every value that the field can
-- hold: digits of the base, at most as many as the width, and for the signed conversions also a
-- minus sign and at most one digit fewer.
pub scanf_width_bound_sound :
    (c : ScanfConv) (v : ℤ) (a : Interval)
    → Delivers c v
    → scanf_width_bound c ≡ some a
    → contains a v ≡ true
unfolding scanf_width_bound
scanf_width_bound_sound c v a d q = elim (Bool-cases (c.width == 0)) [
  | inl y ↦ cc (rw (y, scanf_width_bound) at q)
  | inr n ↦ limited_sound c v a n d q
]

is_counted : (c : ScanfConv) (v : ℤ) → Delivers c v → (c.conv == 110) ≡ true → pos 0 ≤ℤ v
is_counted c v (unlimited w k m) e = absurd (cc (m, e))
is_counted c v (characters_read q h) e = h
is_counted c v (decimal q r) e = absurd (ground arith)
is_counted c v (any_base q r) e = absurd (ground arith)
is_counted c v (unsigned_decimal q r) e = absurd (ground arith)
is_counted c v (octal q r) e = absurd (ground arith)
is_counted c v (hex (inl q) r) e = absurd (ground arith)
is_counted c v (hex (inr q) r) e = absurd (ground arith)

pub Delivers-is_numeric :
    (c : ScanfConv) (v : ℤ) → Delivers c v → is_numeric_scanf_conv c.conv ≡ true
unfolding is_numeric_scanf_conv
Delivers-is_numeric c v (unlimited w k m) = k
Delivers-is_numeric c v (characters_read q h) = rw (q, is_numeric_scanf_conv) refl
Delivers-is_numeric c v (decimal q r) = rw (q, is_numeric_scanf_conv) refl
Delivers-is_numeric c v (any_base q r) = rw (q, is_numeric_scanf_conv) refl
Delivers-is_numeric c v (unsigned_decimal q r) = rw (q, is_numeric_scanf_conv) refl
Delivers-is_numeric c v (octal q r) = rw (q, is_numeric_scanf_conv) refl
Delivers-is_numeric c v (hex (inl q) r) = rw (q, is_numeric_scanf_conv) refl
Delivers-is_numeric c v (hex (inr q) r) = rw (q, is_numeric_scanf_conv) refl

-- What a conversion delivers into a type is in the interval that it seeds.
pub contains-seed_within :
    (c : ScanfConv) (a : Interval) (v : ℤ)
    → Delivers c v
    → contains a v ≡ true
    → contains (seed_within c a) v ≡ true
unfolding seed_within
contains-seed_within c a v d h = elim (Bool-cases (c.conv == 110)) [
  | inl y ↦ rw y (
      contains-meet_both a (at_least (pos 0)) v h
        (let k = is_counted c v d y in rw (contains-at_least (pos 0) v) (ground arith)))
  | inr n ↦ elim (Option-cases (scanf_width_bound c)) [
    | inl e ↦ rw (n, e, seed_within) h
    | inr p ↦
        let (b, e) = p in
        rw (n, e, seed_within) (contains-meet_both a b v h (scanf_width_bound_sound c v b d e))
  ]
]
