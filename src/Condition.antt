-- ===== src/Condition.antt =====
-- engine/ConditionWalk.h: expressions as far as the condition walk tells them apart, and the walk.
pub mod Meaning
pub mod Walk
pub mod Parts
pub mod Digests
pub mod Claims
use code_skeptic.Prelude.{
  ℕ, Bool, true, false, not, Option, none, some, List, [], ◌∷◌, ◌++◌, ◌==◌, if◌then◌else◌,
}

pub record IntType : Type 0 where
  pub signed : Bool
  pub width : ℕ

pub data VarKind : Type 0 where
  integer : IntType → VarKind
  pointer other_kind : VarKind

pub record Var : Type 0 where
  pub id : ℕ
  pub kind : VarKind

-- The operators of `BinaryOperator`; `compound` stands for each compound assignment.
pub data BinOp : Type 0 where
  lt gt le ge eq ne land lor comma assign compound add sub mul bit_and rem other_op : BinOp

-- Implicit casts: loads and no-ops, integral conversions, and all others.
pub data CastKind : Type 0 where
  keeps_value : CastKind
  integral : IntType → CastKind
  other_cast : CastKind

-- Explicit casts: to `bool`, to the type that the operand has, and all others.
pub data ExplicitKind : Type 0 where
  to_bool same_type converting : ExplicitKind

-- A literal has its type and its value. The operand of an explicit cast is the one written. `step`
-- is an increment or a decrement. A call is `__builtin_expect`, a call of a visible identity function, a call of an untrusted
-- integer source with its return type, or `opaque`, which also stands for all other expressions.
pub data Expr : Type 0 where
  literal : IntType → ℕ → Expr
  null_ptr : Expr
  ref : Var → Expr
  paren : Expr → Expr
  implicit : CastKind → Expr → Expr
  explicit : ExplicitKind → Expr → Expr
  expect : Expr → Expr
  identity : Expr → Expr
  untrusted_call : IntType → Expr
  lnot : Expr → Expr
  minus : Expr → Expr
  plus : Expr → Expr
  bin : BinOp → Expr → Expr → Expr
  step : Expr → Expr
  addr_of : Expr → Expr
  conditional : Expr → Expr → Expr → Expr
  opaque : ℕ → Expr

abbrev pub is_assignment : BinOp → Bool
is_assignment assign = true
is_assignment compound = true
is_assignment _ = false

abbrev pub is_comparison : BinOp → Bool
is_comparison lt = true
is_comparison gt = true
is_comparison le = true
is_comparison ge = true
is_comparison eq = true
is_comparison ne = true
is_comparison _ = false

unfoldable pub ignore_parens : Expr → Expr
ignore_parens (paren e) = ignore_parens e
ignore_parens e = e

unfoldable pub ignore_paren_imp_casts : Expr → Expr
ignore_paren_imp_casts (paren e) = ignore_paren_imp_casts e
ignore_paren_imp_casts (implicit k e) = ignore_paren_imp_casts e
ignore_paren_imp_casts e = e

unfoldable pub ignore_paren_casts : Expr → Expr
ignore_paren_casts (paren e) = ignore_paren_casts e
ignore_paren_casts (implicit k e) = ignore_paren_casts e
ignore_paren_casts (explicit k e) = ignore_paren_casts e
ignore_paren_casts e = e

-- The variable that an expression tests: itself, or the target of an assignment.
unfoldable pub as_var : Expr → Option Var
as_var (paren e) = as_var e
as_var (implicit k e) = as_var e
as_var (bin op l r) = let target = as_var l in if is_assignment op then target else none
as_var (ref v) = some v
as_var _ = none

unfoldable pub mirror : BinOp → BinOp
mirror lt = gt
mirror gt = lt
mirror le = ge
mirror ge = le
mirror op = op

-- What the walk tells a domain: `onTruth(var, isTrue)` or `onCompare(var, opc, other, isTrue)`.
pub data Fact : Type 0 where
  truth : Var → Bool → Fact
  compare : Var → BinOp → Expr → Bool → Fact

unfoldable pub compare_left : Option Var → BinOp → Expr → Bool → List Fact
compare_left none op other_side sense = []
compare_left (some v) op other_side sense = compare v op other_side sense ∷ []

unfoldable pub compare_right : Option Var → Option Var → BinOp → Expr → Bool → List Fact
compare_right none lv op other_side sense = []
compare_right (some v) none op other_side sense = compare v (mirror op) other_side sense ∷ []
compare_right (some v) (some w) op other_side sense =
    if v.id == w.id then [] else compare v (mirror op) other_side sense ∷ []

unfoldable pub compare_facts : BinOp → Expr → Expr → Bool → List Fact
compare_facts op l r sense =
    compare_left (as_var l) op (ignore_paren_imp_casts r) sense
    ++ compare_right (as_var r) (as_var l) op (ignore_paren_imp_casts l) sense

unfoldable pub truth_facts : Option Var → Bool → List Fact
truth_facts none sense = []
truth_facts (some v) sense = truth v sense ∷ []

unfoldable pub binary_facts : BinOp → Expr → Expr → Bool → List Fact → List Fact → List Fact
binary_facts land l r sense of_l of_r = if sense then of_l ++ of_r else []
binary_facts lor l r sense of_l of_r = if sense then [] else of_l ++ of_r
binary_facts assign l r sense of_l of_r = truth_facts (as_var l) sense
binary_facts compound l r sense of_l of_r = truth_facts (as_var l) sense
binary_facts op l r sense of_l of_r = if is_comparison op then compare_facts op l r sense else []

-- `walkCondition`. Behind a stripped explicit cast (`under`) only parentheses and further such
-- casts are looked through; elsewhere implicit casts are too.
unfoldable pub walk_condition : Bool → Expr → Bool → List Fact
walk_condition under (paren e) sense = walk_condition under e sense
walk_condition false (implicit k e) sense = walk_condition false e sense
walk_condition true (implicit k e) sense = truth_facts (as_var e) sense
walk_condition under (explicit to_bool e) sense = walk_condition true e sense
walk_condition under (explicit same_type e) sense = walk_condition true e sense
walk_condition under (explicit converting e) sense = []
walk_condition under (expect e) sense = walk_condition false e sense
walk_condition under (identity e) sense = walk_condition false e sense
walk_condition under (ref v) sense = truth v sense ∷ []
walk_condition under (lnot e) sense = walk_condition false e (not sense)
walk_condition under (bin op l r) sense =
    binary_facts op l r sense (walk_condition false l sense) (walk_condition false r sense)
walk_condition under _ sense = []
