-- ===== src/PathFacts/Conditions.antt =====
-- engine/PathFacts.cpp: the fact that a condition is reduced to.
use code_skeptic.Prelude.{
  ℕ, zero, Bool, true, false, not, ◌&&◌, ◌||◌, Option, none, some, List, [], ◌∷◌, ◌==◌,
  if◌then◌else◌,
}
use code_skeptic.Prelude.Int.{ℤ, pos, ◌-ℤ◌}
use code_skeptic.Condition.{
  IntType, Var, integer, pointer, other_kind, BinOp, lt, gt, eq, ne, Expr, literal, null_ptr, ref,
  paren, implicit, explicit, lnot, minus, bin, opaque, is_comparison, ignore_paren_imp_casts,
}
use code_skeptic.Condition.Digests.{is_pointer_var}
use code_skeptic.IntervalEval.{sext_literal}
use code_skeptic.PathFacts.{FactKey, Claim, var_key, equals, normalize_compare}

-- A statement of a visible body: a return with its value, or another.
pub data BodyStmt : Type 0 where
  returns : Expr → BodyStmt
  other_body : BodyStmt

-- What an opaque expression is: an enum constant with its type and bits; a member access with
-- whether it is an arrow, its base, its field, and whether the field is a non-volatile integer; a
-- call with the number of its arguments, the callee and the callee's body, if that is visible; a
-- subscript with its base.
pub data Shape : Type 0 where
  enum_constant : IntType → ℕ → Shape
  member : Bool → Expr → ℕ → Bool → Shape
  call : ℕ → ℕ → Option (List BodyStmt) → Shape
  subscript : Expr → Shape
  other_shape : Shape

-- Clang's answers: the shapes, and which variables are template parameters, volatile, of an
-- enumeration type, or static locals. No chain of accesses is longer than `depth`.
pub record Ast : Type 0 where
  pub shape : ℕ → Shape
  pub template_param : ℕ → Bool
  pub volatile : ℕ → Bool
  pub enumeral : ℕ → Bool
  pub static_local : ℕ → Bool
  pub depth : ℕ

-- The sets that an analysis gives. The bases of member keys are empty if no scope is active.
pub record Keyable : Type 0 where
  pub unkeyable : ℕ → Bool
  pub ptr_keyable : ℕ → Bool
  pub member_base : ℕ → Bool

unfoldable pub as_ref : Expr → Option Var
as_ref (paren e) = as_ref e
as_ref (implicit k e) = as_ref e
as_ref (ref v) = some v
as_ref _ = none

unfoldable pub enum_value : Shape → Option ℤ
enum_value (enum_constant t n) = sext_literal t n
enum_value _ = none

unfoldable pub negated : Option ℤ → Option ℤ
negated none = none
negated (some v) = some (pos 0 -ℤ v)

unfoldable pub is_integer : Var → Bool
is_integer v = elim v.kind [ integer t ↦ true | pointer ↦ false | other_kind ↦ false ]

unfoldable pub is_unsigned : Var → Bool
is_unsigned v = elim v.kind [ integer t ↦ not t.signed | pointer ↦ false | other_kind ↦ false ]

-- `isNullConstant`.
unfoldable pub is_null_constant : Expr → Bool
is_null_constant (paren e) = is_null_constant e
is_null_constant (implicit k e) = is_null_constant e
is_null_constant (explicit k e) = is_null_constant e
is_null_constant null_ptr = true
is_null_constant (literal t n) = n == 0
is_null_constant _ = false

abbrev pub is_equality : BinOp → Bool
is_equality eq = true
is_equality ne = true
is_equality _ = false

abbrev pub is_eq : BinOp → Bool
is_eq eq = true
is_eq _ = false

abbrev pub filtered : Option Var → (Var → Bool) → Option Var
filtered none p = none
filtered (some v) p = if p v then some v else none

-- A comparison of a keyed integer variable with a constant, on either side; `rest` is what follows.
unfoldable pub int_test :
    BinOp → Option Var → Option Var → Option ℤ → Option ℤ → Option Claim → Option Claim
int_test op (some v) right_var left_lit (some c) rest =
    normalize_compare (is_unsigned v) v.id op c true
int_test op (some v) right_var left_lit none rest = none
int_test op none (some v) (some c) right_lit rest =
    normalize_compare (is_unsigned v) v.id op c false
int_test op none (some v) none right_lit rest = none
int_test op none none left_lit right_lit rest = rest

-- A comparison of a keyed pointer with the null constant.
unfoldable pub null_test :
    BinOp → Option Var → Option Var → Bool → Bool → Option Claim → Option Claim
null_test op (some v) right_ptr left_null right_null rest =
    if right_null then some (var_key v.id equals (pos 0), is_eq op) else rest
null_test op none (some v) left_null right_null rest =
    if left_null then some (var_key v.id equals (pos 0), is_eq op) else rest
null_test op none none left_null right_null rest = rest

abbrev pub member_key : ℕ × ℕ → ℤ → FactKey
member_key m c = record { var = m.0; rel = equals; literal = c; field = some m.1 }

unfoldable pub member_test :
    BinOp → Option (ℕ × ℕ) → Option (ℕ × ℕ) → Option ℤ → Option ℤ → Option Claim
member_test op (some m) right_member left_lit (some c) = some (member_key m c, is_eq op)
member_test op (some m) right_member left_lit none = none
member_test op none (some m) (some c) right_lit = some (member_key m c, is_eq op)
member_test op none (some m) none right_lit = none
member_test op none none left_lit right_lit = none

unfoldable pub truth_of_var : Option Var → Option Var → Option Claim
truth_of_var (some v) ptr = some (var_key v.id equals (pos 0), false)
truth_of_var none (some v) = some (var_key v.id equals (pos 0), false)
truth_of_var none none = none

unfoldable pub flipped : Option Claim → Option Claim
flipped none = none
flipped (some c) = some (c.0, not c.1)

module _ (ast : Ast) where
  -- `intLiteralValue`.
  unfoldable pub int_literal_value : Expr → Option ℤ
  int_literal_value (paren e) = int_literal_value e
  int_literal_value (implicit k e) = int_literal_value e
  int_literal_value (literal t n) = sext_literal t n
  int_literal_value (opaque n) = enum_value (ast.shape n)
  int_literal_value (minus e) = negated (int_literal_value e)
  int_literal_value _ = none

  unfoldable pub const_return : ℕ → List BodyStmt → Option ℕ
  const_return f (returns e ∷ []) = elim (int_literal_value e) [ none ↦ none | some c ↦ some f ]
  const_return f _ = none

  -- `constReturningCallee`.
  unfoldable pub const_returning_callee : Shape → Option ℕ
  const_returning_callee (call zero f (some body)) = const_return f body
  const_returning_callee _ = none

  module _ (k : Keyable) where
    unfoldable pub is_stable : Var → Bool
    is_stable v =
        if ast.template_param v.id
        then is_integer v || ast.enumeral v.id
        else is_integer v && (not (ast.volatile v.id) && not (k.unkeyable v.id))

    -- `stableDeclRef`.
    unfoldable pub stable_decl_ref : Expr → Option Var
    stable_decl_ref e = filtered (as_ref e) is_stable

    unfoldable pub is_keyed_pointer : Var → Bool
    is_keyed_pointer v =
        is_pointer_var v
        && (not (ast.volatile v.id) && (k.ptr_keyable v.id && not (k.unkeyable v.id)))

    -- `ptrDeclRef`.
    unfoldable pub ptr_decl_ref : Expr → Option Var
    ptr_decl_ref e = filtered (as_ref e) is_keyed_pointer

    unfoldable pub member_of : Option Var → ℕ → Option (ℕ × ℕ)
    member_of none f = none
    member_of (some v) f = if k.member_base v.id then some (v.id, f) else none

    unfoldable pub member_shape : Shape → Option (ℕ × ℕ)
    member_shape (member false base f true) = member_of (as_ref base) f
    member_shape _ = none

    -- `memberFactRef`.
    unfoldable pub member_fact_ref : Expr → Option (ℕ × ℕ)
    member_fact_ref (paren e) = member_fact_ref e
    member_fact_ref (implicit c e) = member_fact_ref e
    member_fact_ref (opaque n) = member_shape (ast.shape n)
    member_fact_ref _ = none

    unfoldable pub comparison_fact : BinOp → Expr → Expr → Option Claim
    comparison_fact op l r =
        let members =
          member_test op (member_fact_ref l) (member_fact_ref r) (int_literal_value l)
            (int_literal_value r) in
        let ints =
          int_test op (stable_decl_ref l) (stable_decl_ref r) (int_literal_value l)
            (int_literal_value r) (if is_equality op then members else none) in
        if is_equality op
        then null_test op (ptr_decl_ref l) (ptr_decl_ref r) (is_null_constant l)
            (is_null_constant r) ints
        else ints

    unfoldable pub opaque_fact : Option (ℕ × ℕ) → Option ℕ → Option Claim
    opaque_fact (some m) callee = some (member_key m (pos 0), false)
    opaque_fact none (some f) = some (var_key f equals (pos 0), false)
    opaque_fact none none = none

    -- `conditionFact`: the key, and its value when the condition is true.
    unfoldable pub condition_fact : Expr → Option Claim
    condition_fact (paren e) = condition_fact e
    condition_fact (implicit c e) = condition_fact e
    condition_fact (ref v) = truth_of_var (stable_decl_ref (ref v)) (ptr_decl_ref (ref v))
    condition_fact (opaque n) =
        opaque_fact (member_shape (ast.shape n)) (const_returning_callee (ast.shape n))
    condition_fact (lnot e) = flipped (condition_fact e)
    condition_fact (bin op l r) = if is_comparison op then comparison_fact op l r else none
    condition_fact _ = none

    -- `unsignedStrictUpperBoundNonzero`; whether an expression's type is unsigned is the parameter.
    module _ (unsigned_expr : Expr → Bool) where
      unfoldable pub nonzero_bound : Option Var → Bool → Option FactKey
      nonzero_bound none both_unsigned = none
      nonzero_bound (some v) both_unsigned =
          if both_unsigned then some (var_key v.id equals (pos 0)) else none

      unfoldable pub upper_bound_nonzero : Expr → Option FactKey
      upper_bound_nonzero (paren e) = upper_bound_nonzero e
      upper_bound_nonzero (implicit c e) = upper_bound_nonzero e
      upper_bound_nonzero (bin lt l r) =
          nonzero_bound (stable_decl_ref r)
            (unsigned_expr r && unsigned_expr (ignore_paren_imp_casts l))
      upper_bound_nonzero (bin gt l r) =
          nonzero_bound (stable_decl_ref l)
            (unsigned_expr l && unsigned_expr (ignore_paren_imp_casts r))
      upper_bound_nonzero _ = none
