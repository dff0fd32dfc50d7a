-- ===== src/IntervalEval/Values.antt =====
-- engine/IntervalEval.cpp: masks, remainders, type ranges and casts cover the values they bound.
use code_skeptic.Prelude.{
  ℕ, zero, suc, ◌-◌, ◌/◌, ◌%◌, ◌^◌, ◌≤◌, ◌<◌, ◌≡◌, ◌≢◌, sym, min, true, false, not, ◌&&◌, ◌||◌,
  arith, ltb, ◌==◌, if◌then◌else◌, Option, none, some, Bool-cases, Option-cases, inl, inr, subst,
  tests, leb→le,
}
use Prim.Native.Nat.{bit_and, digits, bit_and-bitwise}
use native.Mathlib.Nat.{mod-lt}
use code_skeptic.Prelude.Int.{
  ℤ, pos, negsuc, ◌≤ℤ◌, ◌-ℤ◌, ltb_ℤ, leb_ℤ, eqb_ℤ, -ℤ_parts, eq_of_parts, rem_ℤ, and_ℤ, abs_ℤ,
  min_ℤ,
}
use code_skeptic.Interval.{Interval, int64_max, range, contains, is_singleton}
use code_skeptic.Interval.Arith.{signed_max, signed_min}
use code_skeptic.Interval.Lattice.{contains-lo, contains-hi}
use code_skeptic.Interval.Sound.{contains-range, contains-top}
use code_skeptic.Condition.{IntType}
use code_skeptic.Condition.Meaning.{convert}
use code_skeptic.IntervalEval.{
  non_neg, bit_and_bounded, mask_of, bit_and_range, rem_bound, int_rem_by, int_rem, int_type_range,
  cast_min, cast_max, cast_range, or_top, sext_literal,
}
use code_skeptic.IntervalEval.Ranges.{
  InType, convert-InType, convert-fits, signed_max_eq, signed_min_eq,
}

digits-le-left : (n a b : ℕ) → digits (λ c. 0) min n a b ≤ a
digits-le-left zero a b = omega arith
digits-le-left (suc n) zero b = omega arith
digits-le-left (suc n) (suc a) b = omega (arith, digits-le-left n (suc a / 2) (b / 2))

digits-le-right : (n a b : ℕ) → digits (λ c. 0) min n a b ≤ b
digits-le-right zero a b = omega arith
digits-le-right (suc n) zero b = omega arith
digits-le-right (suc n) (suc a) b = omega (arith, digits-le-right n (suc a / 2) (b / 2))

bit_and-le-left : (a b : ℕ) → bit_and a b ≤ a
bit_and-le-left a b = rw (bit_and-bitwise a b) (digits-le-left a a b)

bit_and-le-right : (a b : ℕ) → bit_and a b ≤ b
bit_and-le-right a b = rw (bit_and-bitwise a b) (digits-le-right a a b)

-- A number in [0, c].
abbrev pub Between : ℤ → ℤ → Type 0
Between c v = (pos 0 ≤ℤ v) × (v ≤ℤ c)

and_ℤ-right : (v w : ℤ) → pos 0 ≤ℤ w → Between w (and_ℤ v w)
unfolding and_ℤ
and_ℤ-right (pos a) (pos b) h = (omega arith, omega (arith, bit_and-le-right a b))
and_ℤ-right (negsuc a) (pos b) h = (omega arith, omega arith)
and_ℤ-right v (negsuc b) h = absurd (omega arith)

and_ℤ-left : (v w : ℤ) → pos 0 ≤ℤ v → Between v (and_ℤ v w)
unfolding and_ℤ
and_ℤ-left (pos a) (pos b) h = (omega arith, omega (arith, bit_and-le-left a b))
and_ℤ-left (pos a) (negsuc b) h = (omega arith, omega arith)
and_ℤ-left (negsuc b) w h = absurd (omega arith)

pub singleton-value :
    (a : Interval) (c v : ℤ) → contains a v ≡ true → is_singleton a ≡ some c → v ≡ c
unfolding contains is_singleton
singleton-value a c v h s = ground (arith, eq_of_parts v a.lo)

mask-cases : (o : Option ℤ) (c : ℤ) → mask_of o ≡ some c → (o ≡ some c) × (pos 0 ≤ℤ c)
mask-cases none c h = cc
mask-cases (some d) c h = (ground arith, let e : d ≡ c = ground arith in ground arith)

in_range : (c v : ℤ) → Between c v → contains (range (pos 0) c) v ≡ true
in_range c v h = contains-range (pos 0) c v h.0 h.1

non_neg-value : (a : Interval) (v : ℤ) → contains a v ≡ true → non_neg a ≡ true → pos 0 ≤ℤ v
non_neg-value a v h n = ground (arith, contains-lo a v h)

module _ (l r : Interval) (v w : ℤ) (hl : contains l v ≡ true) (hr : contains r w ≡ true) where
  below_right : non_neg r ≡ true → r.hi_inf ≡ false → Between r.hi (and_ℤ v w)
  below_right n f =
      let (a, b) = and_ℤ-right v w (non_neg-value r w hr n) in
      (a, omega (arith, contains-hi r w hr f))

  below_left : non_neg l ≡ true → l.hi_inf ≡ false → Between l.hi (and_ℤ v w)
  below_left n f =
      let (a, b) = and_ℤ-left v w (non_neg-value l v hl n) in
      (a, omega (arith, contains-hi l v hl f))

  below_both :
      non_neg l ≡ true
      → non_neg r ≡ true
      → l.hi_inf ≡ false
      → r.hi_inf ≡ false
      → Between (min_ℤ l.hi r.hi) (and_ℤ v w)
  below_both n m f g =
      let (a, b) = below_left n f in let (c, d) = below_right m g in (a, ground arith)

  bit_and_bounded_lem : contains (bit_and_bounded l r) (and_ℤ v w) ≡ true
  unfolding bit_and_bounded
  bit_and_bounded_lem = elim (Bool-cases (non_neg l && not l.hi_inf)) [
    | inl p ↦ elim (Bool-cases (non_neg r && not r.hi_inf)) [
      | inl q ↦
          let e : (non_neg l && non_neg r && not l.hi_inf && not r.hi_inf) ≡ true = ground arith in
          rw e (
            in_range (min_ℤ l.hi r.hi) (and_ℤ v w)
              (below_both (ground arith) (ground arith) (ground arith) (ground arith)))
      | inr q ↦
          let e : (non_neg l && non_neg r && not l.hi_inf && not r.hi_inf) ≡ false = ground arith in
          rw (e, p) (in_range l.hi (and_ℤ v w) (below_left (ground arith) (ground arith)))
    ]
    | inr p ↦
        let e : (non_neg l && non_neg r && not l.hi_inf && not r.hi_inf) ≡ false = ground arith in
        elim (Bool-cases (non_neg r && not r.hi_inf)) [
          | inl q ↦
              rw (e, p, q) (in_range r.hi (and_ℤ v w) (below_right (ground arith) (ground arith)))
          | inr q ↦ rw (e, p, q) (contains-top (and_ℤ v w))
        ]
  ]

  -- A mask covers every conjunction of values that its operands cover.
  pub contains-bit_and_range : contains (bit_and_range l r) (and_ℤ v w) ≡ true
  unfolding bit_and_range
  contains-bit_and_range = elim (Option-cases (mask_of (is_singleton r))) [
    | inr p ↦
        let (c, e) = p in
        let (s, n) = mask-cases (is_singleton r) c e in
        let same = singleton-value r c w hr s in
        rw (e, bit_and_range) (in_range c (and_ℤ v w) (rw (sym same) (and_ℤ-right v w (rw same n))))
    | inl e ↦ elim (Option-cases (mask_of (is_singleton l))) [
      | inr p ↦
          let (c, f) = p in
          let (s, n) = mask-cases (is_singleton l) c f in
          let same = singleton-value l c v hl s in
          rw (e, f, bit_and_range)
            (in_range c (and_ℤ v w) (rw (sym same) (and_ℤ-left v w (rw same n))))
      | inl f ↦ rw (e, f, bit_and_range) bit_and_bounded_lem
    ]
  ]

rem_below : (a b : ℕ) → 1 ≤ b → a % b < b
rem_below a zero h = omega arith
rem_below a (suc b) h = mod-lt a (omega arith)

rem_bound_lem : (d : ℤ) → d ≢ pos 0 → (n : ℕ) → n < abs_ℤ d → pos n ≤ℤ rem_bound d
rem_bound_lem d h n l = ground (arith, -ℤ_parts (pos (abs_ℤ d)) (pos 1))

abs-pos : (d : ℤ) → d ≢ pos 0 → 1 ≤ abs_ℤ d
abs-pos d h = ground (arith, eq_of_parts d (pos 0))

rem_upper : (v d : ℤ) → d ≢ pos 0 → rem_ℤ v d ≤ℤ rem_bound d
unfolding rem_ℤ
rem_upper v d h =
    let m = abs_ℤ v % abs_ℤ d in
    let l = rem_bound_lem d h m (rem_below (abs_ℤ v) (abs_ℤ d) (abs-pos d h)) in
    elim (Bool-cases (ltb_ℤ v (pos 0))) [
      | inl n ↦ rw n (omega (arith, l, -ℤ_parts (pos 0) (pos m)))
      | inr n ↦ rw n l
    ]

rem_lower : (v d : ℤ) → d ≢ pos 0 → pos 0 -ℤ rem_bound d ≤ℤ rem_ℤ v d
unfolding rem_ℤ
rem_lower v d h =
    let m = abs_ℤ v % abs_ℤ d in
    let l = rem_bound_lem d h m (rem_below (abs_ℤ v) (abs_ℤ d) (abs-pos d h)) in
    elim (Bool-cases (ltb_ℤ v (pos 0))) [
      | inl n ↦ rw n (omega (arith, l, -ℤ_parts (pos 0) (pos m), -ℤ_parts (pos 0) (rem_bound d)))
      | inr n ↦ rw n (omega (arith, l, -ℤ_parts (pos 0) (rem_bound d)))
    ]

rem_non_neg : (v d : ℤ) → pos 0 ≤ℤ v → pos 0 ≤ℤ rem_ℤ v d
unfolding rem_ℤ
rem_non_neg v d h = let e : ltb_ℤ v (pos 0) ≡ false = ground arith in rw e (omega arith)

int_rem_by_lem :
    (l : Interval) (v d : ℤ)
    → contains l v ≡ true
    → contains (int_rem_by l (some d)) (rem_ℤ v d) ≡ true
unfolding int_rem_by
int_rem_by_lem l v d h = elim (Bool-cases (eqb_ℤ d (pos 0))) [
  | inl z ↦ rw z (contains-top (rem_ℤ v d))
  | inr z ↦
      let n : d ≢ pos 0 = ground arith in
      elim (Bool-cases (non_neg l)) [
        | inl p ↦
            rw (z, p)
              (in_range (rem_bound d) (rem_ℤ v d)
                (rem_non_neg v d (non_neg-value l v h p), rem_upper v d n))
        | inr p ↦
            rw (z, p)
              (contains-range (pos 0 -ℤ rem_bound d) (rem_bound d) (rem_ℤ v d) (rem_lower v d n)
                (rem_upper v d n))
      ]
]

-- A remainder covers every remainder of values that its operands cover.
pub contains-int_rem :
    (l r : Interval) (v w : ℤ)
    → contains l v ≡ true
    → contains r w ≡ true
    → contains (int_rem l r) (rem_ℤ v w) ≡ true
unfolding int_rem int_rem_by
contains-int_rem l r v w hl hr = elim (Option-cases (is_singleton r)) [
  | inl e ↦ rw e (contains-top (rem_ℤ v w))
  | inr p ↦ let (d, e) = p in rw (e, singleton-value r d w hr e) (int_rem_by_lem l v d hl)
]

unsigned_below :
    (w : ℕ) (v : ℤ)
    → ltb 64 w ≡ false
    → v ≤ℤ (if ltb w 64 then pos (2 ^ w) -ℤ pos 1 else int64_max)
    → v ≤ℤ pos (2 ^ w) -ℤ pos 1
unsigned_below w v k b = elim (Bool-cases (ltb w 64)) [
  | inl l ↦ rw l at b
  | inr l ↦
      let e : 64 ≡ w = ground arith in
      let c = rw l at b in
      subst (λ u. v ≤ℤ pos (2 ^ u) -ℤ pos 1) e (omega (arith, c, -ℤ_parts (pos (2 ^ 64)) (pos 1)))
]

bounded-InType :
    (t : IntType) (v : ℤ)
    → ltb 64 t.width ≡ false
    → (cast_min t ≤ℤ v) × (v ≤ℤ cast_max t)
    → InType t v
bounded-InType t v k b = elim (Bool-cases t.signed) [
  | inl s ↦
      let c = rw s at b in
      rw s (rw (sym (signed_min_eq t.width)) c.0, rw (sym (signed_max_eq t.width)) c.1)
  | inr s ↦ let c = rw s at b in rw s (c.0, unsigned_below t.width v k c.1)
]

cast-value :
    (t : IntType) (a : Interval) (v : ℤ)
    → contains a v ≡ true
    → a.lo_inf ≡ false
    → a.hi_inf ≡ false
    → (leb_ℤ (cast_min t) a.lo && leb_ℤ a.hi (cast_max t)) ≡ true
    → (cast_min t ≤ℤ v) × (v ≤ℤ cast_max t)
cast-value t a v h l u f =
    let p : leb_ℤ (cast_min t) a.lo ≡ true = ground arith in
    let q : leb_ℤ a.hi (cast_max t) ≡ true = ground arith in
    (omega (tests, leb→le, contains-lo a v h l), omega (tests, contains-hi a v h u))

-- A cast covers the conversion of every value that its operand covers.
pub contains-cast_range :
    (t : IntType) (a : Interval) (v : ℤ)
    → contains a v ≡ true
    → contains (cast_range t a) (convert t v) ≡ true
unfolding cast_range
contains-cast_range t a v h = elim (Bool-cases (a.empty || a.lo_inf || a.hi_inf)) [
  | inl e ↦ rw e (contains-top (convert t v))
  | inr e ↦ elim (Bool-cases (t.width == 0 || ltb 64 t.width)) [
    | inl f ↦ rw (e, f) (contains-top (convert t v))
    | inr f ↦ elim (Bool-cases (leb_ℤ (cast_min t) a.lo && leb_ℤ a.hi (cast_max t))) [
      | inr g ↦ rw (e, f, g) (contains-top (convert t v))
      | inl g ↦
          let keeps : convert t v ≡ v = convert-fits t v (ground arith) (
            bounded-InType t v (ground arith)
              (cast-value t a v h (ground arith) (ground arith) g)) in
          rw (e, f, g, keeps) h
    ]
  ]
]

int_type_range_lem :
    (t : IntType) (v : ℤ)
    → (1 ≤ t.width → InType t v)
    → contains (or_top (int_type_range t)) v ≡ true
unfolding int_type_range
int_type_range_lem t v i = elim (Bool-cases (t.width == 0 || ltb 64 t.width)) [
  | inl e ↦ rw e (contains-top v)
  | inr e ↦ elim (Bool-cases t.signed) [
    | inl s ↦
        let (a, b) = rw s at i (ground arith) in
        rw (e, s)
          (contains-range (signed_min t.width) (signed_max t.width) v (rw (signed_min_eq t.width) a)
            (rw (signed_max_eq t.width) b))
    | inr s ↦
        let (a, b) = rw s at i (ground arith) in
        elim (Bool-cases (not (ltb t.width 64))) [
          | inl f ↦ rw (e, s, f) (contains-top v)
          | inr f ↦ rw (e, s, f) (contains-range (pos 0) (pos (2 ^ t.width) -ℤ pos 1) v a b)
        ]
  ]
]

-- The range of a type covers every value that a conversion to it yields.
pub contains-int_type_range :
    (t : IntType) (v : ℤ) → contains (or_top (int_type_range t)) (convert t v) ≡ true
contains-int_type_range t v = int_type_range_lem t (convert t v) (convert-InType t v)

-- A literal below the sign bit of its type is read as it is written.
pub sext_literal-value :
    (t : IntType) (n : ℕ) (c : ℤ)
    → 1 ≤ t.width
    → n < 2 ^ (t.width - 1)
    → sext_literal t n ≡ some c
    → c ≡ pos n
unfolding sext_literal
sext_literal-value t n c w h e =
    let keeps : convert (record t { signed = true }) (pos n) ≡ pos n =
      convert-fits (record t { signed = true }) (pos n) w
        (
          omega (arith, -ℤ_parts (pos 0) (pos (2 ^ (t.width - 1)))),
          omega (arith, -ℤ_parts (pos (2 ^ (t.width - 1))) (pos 1)),
        ) in
    ground (arith, rw keeps at e)
