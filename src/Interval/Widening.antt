-- ===== src/Interval/Widening.antt =====
-- engine/Interval.cpp: repeated widening comes to rest.
use code_skeptic.Prelude.{ℕ, zero, suc, ◌+◌, ◌<◌, ◌≡◌, ◌⊎◌, inl, inr, true, arith, if◌then◌else◌}
use code_skeptic.Interval.{Interval, join, widen, eqb}

-- How many more times a widening sequence can lose a bound: 3 for the empty interval.
pub rank : Interval → ℕ
rank a = if a.empty then 3 else (if a.lo_inf then 0 else 1) + (if a.hi_inf then 0 else 1)

-- One round of the iteration `x = widen(x, join(x, y))` keeps `x`, or lowers its rank.
pub widen_settles :
    (x y : Interval) → (eqb x (widen x (join x y)) ≡ true) ⊎ (rank (widen x (join x y)) < rank x)
unfolding eqb widen join rank
widen_settles x y = ground arith

-- The iteration over a sequence of inputs.
abbrev pub widen_seq : Interval → (ℕ → Interval) → ℕ → Interval
widen_seq x y zero = x
widen_seq x y (suc k) = widen_seq (widen x (join x (y 0))) (λ i. y (suc i)) k

rests :
    (n : ℕ) (x : Interval) (y : ℕ → Interval)
    → rank x < n
    → (k : ℕ) × (k < n) × (eqb (widen_seq x y k) (widen_seq x y (suc k)) ≡ true)
rests zero x y h = elim h [ ]
rests (suc n) x y h = elim (widen_settles x (y 0)) [
  | inl e ↦ (zero, omega arith, e)
  | inr lt ↦
      let (k, small, e) = rests n (widen x (join x (y 0))) (λ i. y (suc i)) (omega arith) in
      (suc k, omega arith, e)
]

rank_bound : (x : Interval) → rank x < 4
unfolding rank
rank_bound x = ground arith

-- Whatever is joined in at each round, some two of the first five values of the iteration
-- `x = widen(x, join(x, y))` that follow one another are equal.
pub widen_seq_rests :
    (x : Interval) (y : ℕ → Interval)
    → (k : ℕ) × (k < 4) × (eqb (widen_seq x y k) (widen_seq x y (suc k)) ≡ true)
widen_seq_rests x y = rests 4 x y (rank_bound x)
