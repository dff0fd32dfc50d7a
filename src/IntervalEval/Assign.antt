-- ===== src/IntervalEval/Assign.antt =====
-- engine/IntervalEval.cpp and engine/CallRefArgs.h: what a statement does to the intervals and to the
-- set of variables of untrusted origin.
use code_skeptic.Prelude.{
  ℕ, suc, ◌+◌, Bool, true, false, not, ◌||◌, Option, none, some, List, [], ◌∷◌, ◌==◌, if◌then◌else◌,
  update, length, drop,
}
use code_skeptic.Interval.{Interval, top}
use code_skeptic.Condition.{
  IntType, integer, pointer, other_kind, Var, assign, compound, Expr, ref, paren, implicit,
  explicit, lnot, minus, plus, step, addr_of, bin, conditional, untrusted_call,
}
use code_skeptic.IntervalEval.{IntervalMap, eval_interval, int_type_range}
use code_skeptic.IntervalEval.Scanf.{
  ScanfConv, parse_scanf_format, is_numeric_scanf_conv, seed_within,
}

-- A call: which arguments bind to non-const references (`none` without a prototype), whether the
-- parameters start at the second argument, and the arguments. The format is where it is a literal.
pub data Callee : Type 0 where
  scanf_family : Bool → Option (List ℕ) → Callee
  untrusted_source unknown_callee : Callee

pub record Call : Type 0 where
  pub callee : Callee
  pub ref_params : Option (List Bool)
  pub object_first : Bool
  pub args : List Expr

pub data Stmt : Type 0 where
  declare : List (Var × Option Expr) → Stmt
  evaluate : Expr → Stmt
  call : Call → Stmt
  other_stmt : Stmt

pub record IntervalState : Type 0 where
  pub iv : IntervalMap
  pub untrusted : ℕ → Bool

-- `forEachNonConstRefArg`: the arguments at the positions of the parameters, as long as there are any.
unfoldable pub ref_args : List Bool → List Expr → List Expr
ref_args [] args = []
ref_args (p ∷ ps) [] = []
ref_args (p ∷ ps) (e ∷ es) = let more = ref_args ps es in if p then e ∷ more else more

unfoldable pub non_const_ref_args : Call → List Expr
unfolding ref_args
non_const_ref_args c = elim c.ref_params [
  | none ↦ []
  | some ps ↦ ref_args ps (drop (if c.object_first then 1 else 0) c.args)
]

unfoldable pub integer_var : Var → Option (Var × IntType)
integer_var v = elim v.kind [ integer t ↦ some (v, t) | pointer ↦ none | other_kind ↦ none ]

-- `asIntVar`, with the type of the variable.
unfoldable pub as_int_var : Expr → Option (Var × IntType)
unfolding integer_var
as_int_var (paren e) = as_int_var e
as_int_var (implicit k e) = as_int_var e
as_int_var (ref v) = integer_var v
as_int_var _ = none

-- `addrOfIntVar`.
unfoldable pub addr_of_int_var : Expr → Option (Var × IntType)
addr_of_int_var (paren e) = addr_of_int_var e
addr_of_int_var (implicit k e) = addr_of_int_var e
addr_of_int_var (addr_of e) = as_int_var e
addr_of_int_var _ = none

-- `exprDerivesFromUntrusted`.
unfoldable pub expr_derives_from_untrusted : (ℕ → Bool) → Expr → Bool
expr_derives_from_untrusted u (paren e) = expr_derives_from_untrusted u e
expr_derives_from_untrusted u (implicit k e) = expr_derives_from_untrusted u e
expr_derives_from_untrusted u (explicit k e) = expr_derives_from_untrusted u e
expr_derives_from_untrusted u (ref v) = u v.id
expr_derives_from_untrusted u (untrusted_call t) = true
expr_derives_from_untrusted u (lnot e) = expr_derives_from_untrusted u e
expr_derives_from_untrusted u (minus e) = expr_derives_from_untrusted u e
expr_derives_from_untrusted u (plus e) = expr_derives_from_untrusted u e
expr_derives_from_untrusted u (step e) = expr_derives_from_untrusted u e
expr_derives_from_untrusted u (addr_of e) = expr_derives_from_untrusted u e
expr_derives_from_untrusted u (bin op l r) =
    expr_derives_from_untrusted u l || expr_derives_from_untrusted u r
expr_derives_from_untrusted u (conditional c t f) =
    expr_derives_from_untrusted u t || expr_derives_from_untrusted u f
expr_derives_from_untrusted u _ = false

module _ (ctx : Bool) (vars : ℕ → Bool) where
  unfoldable pub set : IntervalState → Var → Interval → IntervalState
  set st v a = if vars v.id then record st { iv = update st.iv v.id (some a) } else st

  -- Inserts the variable into the origin set, or erases it.
  unfoldable pub mark : IntervalState → Var → Bool → IntervalState
  mark st v derived =
      if vars v.id then record st { untrusted = update st.untrusted v.id derived } else st

  unfoldable pub set_origin : IntervalState → Var → Option Expr → IntervalState
  set_origin st v none = mark st v false
  set_origin st v (some rhs) = mark st v (expr_derives_from_untrusted st.untrusted rhs)

  unfoldable pub initial_interval : IntervalState → Option Expr → Interval
  initial_interval st none = top
  initial_interval st (some e) = eval_interval ctx st.iv e

  unfoldable pub define : IntervalState → Var → Option Expr → IntervalState
  define st v o = set_origin (set st v (initial_interval st o)) v o

  unfoldable pub define_all : IntervalState → List (Var × Option Expr) → IntervalState
  define_all st [] = st
  define_all st (d ∷ ds) = define_all (define st d.0 d.1) ds

  unfoldable pub forget : IntervalState → Option (Var × IntType) → IntervalState
  forget st none = st
  forget st (some (v, t)) = set st v top

  unfoldable pub apply_evaluate : IntervalState → Expr → IntervalState
  apply_evaluate st (bin assign l r) = elim (as_int_var l) [
    | none ↦ st
    | some (v, t) ↦ define st v (some r)
  ]
  apply_evaluate st (bin compound l r) = forget st (as_int_var l)
  apply_evaluate st (step e) = forget st (as_int_var e)
  apply_evaluate st (addr_of e) = forget st (as_int_var e)
  apply_evaluate st _ = st

  -- A variable filled with a value of its type from outside.
  unfoldable pub seed : IntervalState → Option (Var × IntType) → IntervalState
  seed st none = st
  seed st (some (v, t)) = elim (int_type_range t) [ none ↦ st | some a ↦ mark (set st v a) v true ]

  unfoldable pub seed_all :
      (Expr → Option (Var × IntType)) → IntervalState → List Expr → IntervalState
  seed_all target st [] = st
  seed_all target st (e ∷ es) = seed_all target (seed st (target e)) es

  -- One conversion of a scanf format with its argument.
  unfoldable pub seed_conv : IntervalState → ScanfConv → Option (Var × IntType) → IntervalState
  seed_conv st c none = st
  seed_conv st c (some (v, t)) = elim (int_type_range t) [
    | none ↦ st
    | some a ↦
        let narrowed = seed_within c a in
        let filled = set st v narrowed in
        if not (is_numeric_scanf_conv c.conv) || narrowed.empty
        then st
        else if c.conv == 110
        then filled
        else mark filled v true
  ]

  -- The conversions in order; one that is suppressed takes no argument.
  unfoldable pub seed_convs : IntervalState → List ScanfConv → List Expr → IntervalState
  seed_convs st [] args = st
  seed_convs st (c ∷ cs) [] = if c.suppressed then seed_convs st cs [] else st
  seed_convs st (c ∷ cs) (e ∷ es) = elim c.suppressed [
    | true ↦ seed_convs st cs (e ∷ es)
    | false ↦ seed_convs (seed_conv st c (addr_of_int_var e)) cs es
  ]

  abbrev pub format_index : Bool → ℕ
  format_index format_first = if format_first then 0 else 1

  abbrev pub parsed_format : Option (List ℕ) → Option (List ScanfConv)
  parsed_format none = none
  parsed_format (some fmt) = parse_scanf_format (suc (length fmt)) fmt

  unfoldable pub apply_scanf : IntervalState → Bool → Option (List ℕ) → List Expr → IntervalState
  apply_scanf st format_first fmt args = elim (parsed_format fmt) [
    | some convs ↦ seed_convs st convs (drop (format_index format_first + 1) args)
    | none ↦ seed_all addr_of_int_var st args
  ]

  -- A variable that an unknown callee may have rewritten. The origin goes whether it is tracked or not.
  unfoldable pub rewritten : IntervalState → Option (Var × IntType) → IntervalState
  rewritten st none = st
  rewritten st (some (v, t)) =
      let st' = set st v top in record st' { untrusted = update st'.untrusted v.id false }

  unfoldable pub rewrite_all : IntervalState → List Expr → IntervalState
  rewrite_all st [] = st
  rewrite_all st (e ∷ es) = rewrite_all (rewritten st (as_int_var e)) es

  unfoldable pub apply_unknown : IntervalState → Call → IntervalState
  apply_unknown st c = rewrite_all st (non_const_ref_args c)

  unfoldable pub apply_call : IntervalState → Callee → Call → IntervalState
  apply_call st (scanf_family format_first fmt) c =
      if ctx then apply_scanf st format_first fmt c.args else apply_unknown st c
  apply_call st untrusted_source c =
      if ctx
      then seed_all addr_of_int_var (seed_all as_int_var st (non_const_ref_args c)) c.args
      else apply_unknown st c
  apply_call st unknown_callee c = apply_unknown st c

  -- `applyIntervalAssign`, with an origin set.
  unfoldable pub apply_interval_assign : Stmt → IntervalState → IntervalState
  apply_interval_assign (declare ds) st = define_all st ds
  apply_interval_assign (evaluate e) st = apply_evaluate st e
  apply_interval_assign (call c) st = apply_call st c.callee c
  apply_interval_assign other_stmt st = st
