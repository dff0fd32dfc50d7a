-- ===== src/Examples/Conditions.antt =====
-- engine/ConditionWalk.h and engine/IntervalEval.cpp: conditions, expressions and formats at concrete values.
use code_skeptic.Prelude.{
  ℕ, ◌≡◌, refl, sym, ◌==◌, if◌then◌else◌, Bool-cases, Bool, true, false, some, none, [], ◌∷◌,
  Option, All, inl, inr, arith,
}
use code_skeptic.Prelude.Int.{ℤ, pos, negsuc, ◌-ℤ◌, ◌+ℤ◌}
use code_skeptic.Interval.{Interval, range, contains, top}
use code_skeptic.Interval.Guards.{IsInt64}
use code_skeptic.Condition.{
  IntType, Var, integer, Expr, literal, ref, bin, lnot, land, lt, eq, rem, implicit, keeps_value,
  integral, paren, Fact, truth, compare, walk_condition,
}
use code_skeptic.Condition
use code_skeptic.Condition.Meaning.{Env, eval, is_true, FactHolds, low_bits, convert, binary}
use code_skeptic.Condition.Walk.{walk_condition_sound}
use code_skeptic.IntervalEval.{IntervalMap, eval_interval, refine_interval_on_edge}
use code_skeptic.IntervalEval.Eval.{Covers, eval_interval_sound}
use code_skeptic.IntervalEval.Refine.{refine_interval_on_edge_sound}
use code_skeptic.IntervalEval.Scanf.{ScanfConv, parse_scanf_format, scanf_width_bound}
use code_skeptic.IntervalEval.Assign.{Stmt, evaluate, IntervalState}
use code_skeptic.IntervalAnalysis.Execution.{decimal}
use code_skeptic.IntervalAnalysis.Fields.{scanf_width_bound_sound}

abbrev pub int32 : IntType
int32 = record { signed = true; width = 32 }

abbrev pub x : Var
x = record { id = 0; kind = integer int32 }

abbrev pub y : Var
y = record { id = 1; kind = integer int32 }

abbrev pub lit : ℕ → Expr
lit n = literal int32 n

abbrev pub loaded_var : Var → Expr
loaded_var v = implicit keeps_value (ref v)

-- `!(x < 10) && y`, at x = 12 and y = 3.
abbrev pub guard : Expr
guard = bin land (lnot (paren (bin lt (loaded_var x) (lit 10)))) (loaded_var y)

abbrev pub env : Env
env = record {
  var = λ n. if n == 0 then pos 12 else pos 3;
  source = λ t. pos 0;
  unknown = λ e. pos 0;
}

walk-guard : walk_condition false guard true ≡ compare x lt (lit 10) false ∷ truth y true ∷ []
unfolding walk_condition code_skeptic.Condition.binary_facts code_skeptic.Condition.compare_facts
    code_skeptic.Condition.compare_left code_skeptic.Condition.compare_right
    code_skeptic.Condition.as_var code_skeptic.Condition.ignore_paren_imp_casts
walk-guard = refl

pub guard_taken : is_true (eval env guard) ≡ true
unfolding eval binary
guard_taken = refl

walk_condition_sound_example : All (FactHolds env) (walk_condition false guard true)
unfolding eval
walk_condition_sound_example =
    walk_condition_sound env false guard true (((refl, tt), tt), (refl, tt)) guard_taken

abbrev pub between : ℤ → ℤ → Interval
between lo hi = record { empty = false; lo_inf = false; hi_inf = false; lo = lo; hi = hi }

-- x in [10, 20] and y in [0, 3].
abbrev pub intervals : IntervalMap
intervals n =
    if n == 0
    then some (between (pos 10) (pos 20))
    else if n == 1
    then some (between (pos 0) (pos 3))
    else none

intervals-Covers : Covers intervals env
unfolding contains
intervals-Covers n a e = elim (Bool-cases (n == 0)) [
  | inl q ↦ let s : between (pos 10) (pos 20) ≡ a = let z = rw q at e in cc in rw (q, sym s) refl
  | inr q ↦ elim (Bool-cases (n == 1)) [
    | inl r ↦
        let s : between (pos 0) (pos 3) ≡ a = let z = rw (q, r) at e in cc in rw (q, sym s) refl
    | inr r ↦ cc (rw (q, r) at e)
  ]
]

-- `x % 8 + y`.
abbrev pub index : Expr
index = bin Condition.add (bin rem (loaded_var x) (lit 8)) (loaded_var y)

index-interval : eval_interval true intervals index ≡ range (pos 0) (pos 10)
unfolding eval_interval code_skeptic.IntervalEval.binary_range code_skeptic.IntervalEval.int_rem
    code_skeptic.IntervalEval.int_rem_by code_skeptic.IntervalEval.sext_literal range
    code_skeptic.Interval.constant code_skeptic.Interval.is_singleton
    code_skeptic.Interval.Arith.add code_skeptic.Interval.Arith.with_bound
    code_skeptic.Interval.Checked.checked_add64 code_skeptic.Interval.Checked.checked convert
    low_bits ◌+ℤ◌ ◌-ℤ◌
index-interval = refl

eval_interval_sound_example : contains (eval_interval true intervals index) (eval env index) ≡ true
eval_interval_sound_example =
    eval_interval_sound intervals env intervals-Covers true index
      ((tt, (omega arith, omega arith)), tt)

no_folds : Expr → Option ℤ
no_folds e = none

env-IsInt64 : (n : ℕ) → IsInt64 (env.var n)
env-IsInt64 n = elim (Bool-cases (n == 0)) [
  | inl q ↦ rw q (omega arith, omega arith)
  | inr q ↦ rw q (omega arith, omega arith)
]

refine_interval_on_edge_sound_example :
    Covers (refine_interval_on_edge no_folds true (λ n. true) intervals guard true) env
unfolding eval no_folds
refine_interval_on_edge_sound_example =
    refine_interval_on_edge_sound env no_folds (λ e c q. cc) (λ n. true) true env-IsInt64 intervals
      guard true (((refl, tt), tt), (refl, tt)) ((tt, (omega arith, omega arith)), tt) guard_taken
      intervals-Covers

-- `%2d` that reads `-7`.
abbrev pub two_digits : ScanfConv
two_digits = record { suppressed = false; width = 2; conv = 100 }

two_digits-bound : scanf_width_bound two_digits ≡ some (range (negsuc 8) (pos 99))
unfolding scanf_width_bound code_skeptic.IntervalEval.Scanf.pow_capped
    code_skeptic.IntervalEval.Scanf.pow_capped_from ◌-ℤ◌
two_digits-bound = refl

scanf_width_bound_sound_example : contains (range (negsuc 8) (pos 99)) (negsuc 6) ≡ true
unfolding ◌-ℤ◌
scanf_width_bound_sound_example =
    scanf_width_bound_sound two_digits (negsuc 6) (range (negsuc 8) (pos 99))
      (decimal refl (inr (7 ∷ [], (omega arith, tt), omega arith, refl))) two_digits-bound

-- `%*d,%3u`
parsed :
    parse_scanf_format 8 (37 ∷ 42 ∷ 100 ∷ 44 ∷ 37 ∷ 51 ∷ 117 ∷ [])
    ≡ some (
        record { suppressed = true; width = 0; conv = 100 }
        ∷ record { suppressed = false; width = 3; conv = 117 }
        ∷ [])
unfolding parse_scanf_format code_skeptic.IntervalEval.Scanf.read_flag
    code_skeptic.IntervalEval.Scanf.read_spec code_skeptic.IntervalEval.Scanf.read_conv
    code_skeptic.IntervalEval.Scanf.read_width code_skeptic.IntervalEval.Scanf.skip_modifiers
parsed = refl

-- `x = x % 8 + y`.
abbrev pub assignment : Stmt
assignment = evaluate (bin Condition.assign (ref x) index)

abbrev pub tracked : ℕ → Bool
tracked n = if n == 0 then true else if n == 1 then true else false

abbrev pub state : IntervalState
state = record { iv = intervals; untrusted = λ n. false }

abbrev pub after : Env
after = record {
  var = λ n. if n == 0 then pos 7 else pos 3;
  source = λ t. pos 0;
  unknown = λ e. pos 0;
}
