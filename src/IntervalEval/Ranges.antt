-- ===== src/IntervalEval/Ranges.antt =====
-- engine/IntervalEval.cpp: type ranges and casts cover the values they bound.
use code_skeptic.Prelude.{
  ℕ, zero, suc, ◌+◌, ◌-◌, ◌%◌, ◌^◌, ◌≤◌, ◌<◌, ◌≡◌, refl, sym, ap, subst, true, false, not, arith,
  ltb, ◌==◌, if◌then◌else◌, Bool-cases, inl, inr, ==_eq,
}
use native.Mathlib.Nat.{mod-eq_of_lt, mod-lt, pow-suc}
use code_skeptic.Prelude.Int.{ℤ, pos, negsuc, ◌≤ℤ◌, ◌-ℤ◌, int_laws, -ℤ_parts, eq_of_parts}
use code_skeptic.Interval.Arith.{signed_max, signed_min}
use code_skeptic.Condition.{IntType}
use code_skeptic.Condition.Meaning.{low_bits, convert}

pub pow_pos : (w : ℕ) → 1 ≤ 2 ^ w
pow_pos zero = omega arith
pow_pos (suc w) = omega (arith, pow-suc 2 w, pow_pos w)

pub pow_half : (w : ℕ) → 1 ≤ w → 2 ^ w ≡ 2 ^ (w - 1) + 2 ^ (w - 1)
pow_half zero h = omega arith
pow_half (suc w) h = let e : suc w - 1 ≡ w = omega arith in rw e (omega (arith, pow-suc 2 w))

mod_below : (n p : ℕ) → 1 ≤ p → n % p < p
mod_below n zero h = omega arith
mod_below n (suc p) h = mod-lt n (omega arith)

low_bits-lt : (w : ℕ) (v : ℤ) → low_bits w v < 2 ^ w
unfolding low_bits
low_bits-lt w (pos n) = mod_below n (2 ^ w) (pow_pos w)
low_bits-lt w (negsuc n) = omega (arith, pow_pos w)

pub signed_max_eq : (w : ℕ) → signed_max w ≡ pos (2 ^ (w - 1)) -ℤ pos 1
unfolding ◌-ℤ◌
signed_max_eq w = elim (Bool-cases (w == 64)) [
  | inl e ↦ subst (λ u. signed_max u ≡ pos (2 ^ (u - 1)) -ℤ pos 1) (sym (==_eq w 64 e)) refl
  | inr e ↦ rw e refl
]

pub signed_min_eq : (w : ℕ) → signed_min w ≡ pos 0 -ℤ pos (2 ^ (w - 1))
unfolding ◌-ℤ◌
signed_min_eq w = elim (Bool-cases (w == 64)) [
  | inl e ↦ subst (λ u. signed_min u ≡ pos 0 -ℤ pos (2 ^ (u - 1))) (sym (==_eq w 64 e)) refl
  | inr e ↦ rw e refl
]

-- The values of a type, without a case for 64 bits.
abbrev pub InType : IntType → ℤ → Type 0
InType t v =
    if t.signed
    then (pos 0 -ℤ pos (2 ^ (t.width - 1)) ≤ℤ v) × (v ≤ℤ pos (2 ^ (t.width - 1)) -ℤ pos 1)
    else (pos 0 ≤ℤ v) × (v ≤ℤ pos (2 ^ t.width) -ℤ pos 1)

signed_wrap :
    (p h u : ℕ)
    → 1 ≤ h
    → p ≡ h + h
    → u < p
    → (pos 0 -ℤ pos h ≤ℤ (if not (ltb u h) then pos u -ℤ pos p else pos u))
      × ((if not (ltb u h) then pos u -ℤ pos p else pos u) ≤ℤ pos h -ℤ pos 1)
signed_wrap p h u hp e l = (lo, hi)
  where
    lo : pos 0 -ℤ pos h ≤ℤ (if not (ltb u h) then pos u -ℤ pos p else pos u)
    lo = ground (arith, -ℤ_parts (pos 0) (pos h), -ℤ_parts (pos u) (pos p))

    hi : (if not (ltb u h) then pos u -ℤ pos p else pos u) ≤ℤ pos h -ℤ pos 1
    hi = ground (arith, -ℤ_parts (pos h) (pos 1), -ℤ_parts (pos u) (pos p))

pub convert-InType : (t : IntType) (v : ℤ) → 1 ≤ t.width → InType t (convert t v)
unfolding convert
convert-InType t v h = elim (Bool-cases t.signed) [
  | inl s ↦
      rw (s, convert)
        (signed_wrap (2 ^ t.width) (2 ^ (t.width - 1)) (low_bits t.width v) (pow_pos (t.width - 1))
          (pow_half t.width h) (low_bits-lt t.width v))
  | inr s ↦ rw (s, convert) (omega arith, omega (int_laws, low_bits-lt t.width v))
]

signed_fits_neg :
    (n p h : ℕ)
    → p ≡ h + h
    → n < h
    → (let u = p - 1 - n % p in if not (ltb u h) then pos u -ℤ pos p else pos u) ≡ negsuc n
signed_fits_neg n p h e l =
    let r : n % p ≡ n = mod-eq_of_lt (omega arith) in
    rw r (
      ground (
        arith,
        -ℤ_parts (pos (p - 1 - n)) (pos p),
        eq_of_parts (pos (p - 1 - n) -ℤ pos p) (negsuc n),
      ))

signed_fits_pos :
    (n p h : ℕ)
    → p ≡ h + h
    → n < h
    → (let u = n % p in if not (ltb u h) then pos u -ℤ pos p else pos u) ≡ pos n
signed_fits_pos n p h e l = let r : n % p ≡ n = mod-eq_of_lt (omega arith) in rw r (ground arith)

signed_fits : (t : IntType) (v : ℤ) → 1 ≤ t.width → t.signed ≡ true → InType t v → convert t v ≡ v
unfolding convert low_bits
signed_fits t (pos n) h s f = rw s (
    signed_fits_pos n (2 ^ t.width) (2 ^ (t.width - 1)) (pow_half t.width h) (
      let (a, b) = rw s at f in
      omega (arith, -ℤ_parts (pos (2 ^ (t.width - 1))) (pos 1), pow_pos (t.width - 1))))
signed_fits t (negsuc n) h s f = rw s (
    signed_fits_neg n (2 ^ t.width) (2 ^ (t.width - 1)) (pow_half t.width h) (
      let (a, b) = rw s at f in
      omega (arith, -ℤ_parts (pos 0) (pos (2 ^ (t.width - 1))), pow_pos (t.width - 1))))

unsigned_fits : (t : IntType) (v : ℤ) → t.signed ≡ false → InType t v → convert t v ≡ v
unfolding convert low_bits
unsigned_fits t (pos n) s f = rw s (
    ap pos (
      mod-eq_of_lt (
        let (a, b) = rw s at f in
        omega (arith, -ℤ_parts (pos (2 ^ t.width)) (pos 1), pow_pos t.width))))
unsigned_fits t (negsuc n) s f = absurd (let (a, b) = rw s at f in omega arith)

-- A conversion keeps the values of its type.
pub convert-fits : (t : IntType) (v : ℤ) → 1 ≤ t.width → InType t v → convert t v ≡ v
convert-fits t v h f = elim (Bool-cases t.signed) [
  | inl s ↦ signed_fits t v h s f
  | inr s ↦ unsigned_fits t v s f
]
