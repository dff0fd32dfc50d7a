-- ===== src/IntervalEval.antt =====
-- engine/IntervalEval.cpp: the interval of an expression, and refinement on a branch edge.
pub mod Ranges
pub mod Values
pub mod Scanf
pub mod Assign
pub mod Eval
pub mod Refine
use code_skeptic.Prelude.{
  ℕ, ◌^◌, ◌-◌, Bool, true, false, not, ◌&&◌, ◌||◌, Option, none, some, List, [], ◌∷◌, ltb, ◌==◌,
  if◌then◌else◌, update,
}
use code_skeptic.Prelude.Int.{ℤ, pos, ◌-ℤ◌, ltb_ℤ, leb_ℤ, eqb_ℤ, min_ℤ, abs_ℤ}
use code_skeptic.Interval.{
  Interval, int64_max, int64_min, top, range, constant, contains, is_singleton,
}
use code_skeptic.Interval.Checked.{fits_int64}
use code_skeptic.Interval.Arith.{
  negate, add, sub, mul, constrain_lt, constrain_le, constrain_gt, constrain_ge, constrain_eq,
  constrain_ne, signed_max, signed_min,
}
use code_skeptic.Condition
use code_skeptic.Condition.{
  IntType, Var, BinOp, Expr, Fact, truth, compare, literal, ref, paren, implicit, keeps_value,
  integral, minus, plus, bin, untrusted_call, walk_condition, ignore_paren_imp_casts, lt, gt, le,
  ge, eq, ne, rem,
}
use code_skeptic.Condition.Meaning.{convert}

abbrev pub IntervalMap : Type 0
IntervalMap = ℕ → Option Interval

abbrev pub non_neg : Interval → Bool
non_neg a = not a.lo_inf && leb_ℤ (pos 0) a.lo

-- The cases of `bitAnd` without a constant mask.
unfoldable pub bit_and_bounded : Interval → Interval → Interval
bit_and_bounded l r =
    if non_neg l && non_neg r && not l.hi_inf && not r.hi_inf
    then range (pos 0) (min_ℤ l.hi r.hi)
    else if non_neg l && not l.hi_inf
    then range (pos 0) l.hi
    else if non_neg r && not r.hi_inf
    then range (pos 0) r.hi
    else top

abbrev pub mask_of : Option ℤ → Option ℤ
mask_of none = none
mask_of (some c) = if ltb_ℤ c (pos 0) then none else some c

-- `bitAnd`.
unfoldable pub bit_and_range : Interval → Interval → Interval
bit_and_range l r = elim (mask_of (is_singleton r)) [
  | some c ↦ range (pos 0) c
  | none ↦ elim (mask_of (is_singleton l)) [ some c ↦ range (pos 0) c | none ↦ bit_and_bounded l r ]
]

-- |d| - 1, for a divisor that is not zero.
abbrev pub rem_bound : ℤ → ℤ
rem_bound d = if eqb_ℤ d int64_min then int64_max else pos (abs_ℤ d) -ℤ pos 1

-- `intRem`, on the divisor if it is a constant.
unfoldable pub int_rem_by : Interval → Option ℤ → Interval
int_rem_by l none = top
int_rem_by l (some d) =
    if eqb_ℤ d (pos 0)
    then top
    else if non_neg l
    then range (pos 0) (rem_bound d)
    else range (pos 0 -ℤ rem_bound d) (rem_bound d)

unfoldable pub int_rem : Interval → Interval → Interval
unfolding int_rem_by
int_rem l r = int_rem_by l (is_singleton r)

-- `intTypeRange`, on an integer type.
unfoldable pub int_type_range : IntType → Option Interval
int_type_range t =
    if t.width == 0 || ltb 64 t.width
    then none
    else if t.signed
    then some (range (signed_min t.width) (signed_max t.width))
    else if not (ltb t.width 64)
    then none
    else some (range (pos 0) (pos (2 ^ t.width) -ℤ pos 1))

abbrev pub cast_min : IntType → ℤ
cast_min t = if t.signed then signed_min t.width else pos 0

abbrev pub cast_max : IntType → ℤ
cast_max t =
    if t.signed
    then signed_max t.width
    else if ltb t.width 64
    then pos (2 ^ t.width) -ℤ pos 1
    else int64_max

-- An integral cast in `evalInterval`, with a context.
unfoldable pub cast_range : IntType → Interval → Interval
cast_range t v =
    if v.empty || v.lo_inf || v.hi_inf
    then top
    else if t.width == 0 || ltb 64 t.width
    then top
    else if leb_ℤ (cast_min t) v.lo && leb_ℤ v.hi (cast_max t)
    then v
    else top

-- `getSExtValue` of a literal, if `isSignedIntN(64)`: the sign is the top bit of its own type.
unfoldable pub sext_literal : IntType → ℕ → Option ℤ
sext_literal t n =
    let v = convert (record t { signed = true }) (pos n) in if fits_int64 v then some v else none

abbrev pub or_top : Option Interval → Interval
or_top none = top
or_top (some v) = v

unfoldable pub binary_range : BinOp → Interval → Interval → Interval
binary_range BinOp.add l r = add l r
binary_range BinOp.sub l r = sub l r
binary_range BinOp.mul l r = mul l r
binary_range BinOp.bit_and l r = bit_and_range l r
binary_range rem l r = int_rem l r
binary_range op l r = top

-- `evalInterval`. The Boolean tells whether there is a context.
unfoldable pub eval_interval : Bool → IntervalMap → Expr → Interval
eval_interval ctx st (paren e) = eval_interval ctx st e
eval_interval ctx st (implicit keeps_value e) = eval_interval ctx st e
eval_interval true st (implicit (integral t) e) = cast_range t (eval_interval true st e)
eval_interval ctx st (literal t n) = elim (sext_literal t n) [ none ↦ top | some v ↦ constant v ]
eval_interval ctx st (ref v) = or_top (st v.id)
eval_interval ctx st (minus e) = negate (eval_interval ctx st e)
eval_interval ctx st (plus e) = eval_interval ctx st e
eval_interval ctx st (bin op l r) =
    binary_range op (eval_interval ctx st l) (eval_interval ctx st r)
eval_interval true st (untrusted_call t) = or_top (int_type_range t)
eval_interval ctx st _ = top

-- `constInt`: literals under any number of minus signs.
unfoldable pub const_int : Expr → Option ℤ
const_int (paren e) = const_int e
const_int (implicit k e) = const_int e
const_int (literal t n) = sext_literal t n
const_int (minus e) = elim (const_int e) [ none ↦ none | some v ↦ some (pos 0 -ℤ v) ]
const_int _ = none

-- `foldConstInt`. Clang's own constant evaluator is the parameter.
unfoldable pub fold_const_int : (Expr → Option ℤ) → Bool → Expr → Option ℤ
fold_const_int folds ctx e = elim (const_int e) [
  | some v ↦ some v
  | none ↦ if ctx then folds e else none
]

unfoldable pub negate_cmp : BinOp → BinOp
negate_cmp lt = ge
negate_cmp le = gt
negate_cmp gt = le
negate_cmp ge = lt
negate_cmp eq = ne
negate_cmp ne = eq
negate_cmp op = op

unfoldable pub constrain_by : Interval → BinOp → ℤ → Interval
constrain_by a lt c = constrain_lt a c
constrain_by a le c = constrain_le a c
constrain_by a gt c = constrain_gt a c
constrain_by a ge c = constrain_ge a c
constrain_by a eq c = constrain_eq a c
constrain_by a ne c = constrain_ne a c
constrain_by a op c = a

-- Rewrites the interval of a variable that is both in `vars` and in the state.
unfoldable pub narrow : (ℕ → Bool) → IntervalMap → Var → (Interval → Interval) → IntervalMap
narrow vars st v f =
    if vars v.id then elim (st v.id) [ none ↦ st | some a ↦ update st v.id (some (f a)) ] else st

-- The two callbacks of `refineIntervalOnEdge`.
unfoldable pub refine_fact :
    (Expr → Option ℤ) → Bool → (ℕ → Bool) → IntervalMap → Fact → IntervalMap
refine_fact folds ctx vars st (truth v sense) =
    narrow vars st v (λ a. if sense then constrain_ne a (pos 0) else constrain_eq a (pos 0))
refine_fact folds ctx vars st (compare v op e sense) = elim (fold_const_int folds ctx e) [
  | none ↦ st
  | some c ↦ narrow vars st v (λ a. constrain_by a (if sense then op else negate_cmp op) c)
]

unfoldable pub refine_facts :
    (Expr → Option ℤ) → Bool → (ℕ → Bool) → IntervalMap → List Fact → IntervalMap
refine_facts folds ctx vars st [] = st
refine_facts folds ctx vars st (f ∷ fs) =
    refine_facts folds ctx vars (refine_fact folds ctx vars st f) fs

unfoldable pub refine_interval_on_edge :
    (Expr → Option ℤ) → Bool → (ℕ → Bool) → IntervalMap → Expr → Bool → IntervalMap
refine_interval_on_edge folds ctx vars st cond sense =
    refine_facts folds ctx vars st (walk_condition false cond sense)
