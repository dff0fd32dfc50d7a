-- ===== src/Condition/Digests.antt =====
-- engine/ConditionWalk.h: the zeroness and nullness digests; engine/DataflowEngine.h: `edgeCondition`.
use code_skeptic.Prelude.{
  Bool, true, false, not, ◌&&◌, Option, none, some, List, [], ◌∷◌, ◌++◌, ◌==◌, if◌then◌else◌,
}
use code_skeptic.Condition.{
  Var, integer, pointer, other_kind, BinOp, lt, gt, le, ge, eq, ne, comma, Expr, literal, null_ptr,
  paren, implicit, explicit, to_bool, same_type, expect, lnot, minus, bin, Fact, truth, compare,
  walk_condition,
}

-- On the edge the variable is surely zero (null), or surely not.
pub record Claim : Type 0 where
  pub var : Var
  pub is_zero : Bool

-- `zeroLiteralState`: surely zero, surely not, or no constant.
unfoldable pub zero_literal_state : Expr → Option Bool
zero_literal_state (paren e) = zero_literal_state e
zero_literal_state (implicit k e) = zero_literal_state e
zero_literal_state (literal t n) = some (n == 0)
zero_literal_state (minus e) = zero_literal_state e
zero_literal_state _ = none

unfoldable pub is_null_literal : Expr → Bool
is_null_literal (paren e) = is_null_literal e
is_null_literal (implicit k e) = is_null_literal e
is_null_literal (explicit k e) = is_null_literal e
is_null_literal null_ptr = true
is_null_literal (literal t n) = n == 0
is_null_literal _ = false

abbrev pub claim : Var → Bool → List Claim
claim v z = record { var = v; is_zero = z } ∷ []

-- A comparison of a variable with a constant, by the constant's zero state.
unfoldable pub zero_compare : Var → BinOp → Bool → Bool → List Claim
zero_compare v eq zero_state sense =
    if zero_state then claim v sense else if sense then claim v false else []
zero_compare v ne zero_state sense =
    if zero_state then claim v (not sense) else if sense then [] else claim v false
zero_compare v gt zero_state sense = if zero_state && sense then claim v false else []
zero_compare v lt zero_state sense = if zero_state && sense then claim v false else []
zero_compare v ge zero_state sense = if zero_state && not sense then claim v false else []
zero_compare v le zero_state sense = if zero_state && not sense then claim v false else []
zero_compare v op zero_state sense = []

unfoldable pub zero_claims : Fact → List Claim
zero_claims (truth v sense) = claim v (not sense)
zero_claims (compare v op e sense) = elim (zero_literal_state e) [
  | none ↦ []
  | some z ↦ zero_compare v op z sense
]

unfoldable pub is_pointer_var : Var → Bool
is_pointer_var v = elim v.kind [ pointer ↦ true | integer t ↦ false | other_kind ↦ false ]

-- A comparison of a pointer; `pointer_typed` is whether the other side is a pointer.
unfoldable pub null_compare : Var → BinOp → Bool → Bool → Bool → List Claim
null_compare v lt pointer_typed null_literal sense =
    if pointer_typed && not null_literal then claim v false else []
null_compare v gt pointer_typed null_literal sense =
    if pointer_typed && not null_literal then claim v false else []
null_compare v le pointer_typed null_literal sense =
    if pointer_typed && not null_literal then claim v false else []
null_compare v ge pointer_typed null_literal sense =
    if pointer_typed && not null_literal then claim v false else []
null_compare v eq pointer_typed null_literal sense = if null_literal then claim v sense else []
null_compare v ne pointer_typed null_literal sense =
    if null_literal then claim v (not sense) else []
null_compare v op pointer_typed null_literal sense = []

unfoldable pub null_claims : (Expr → Bool) → Fact → List Claim
null_claims pointer_typed (truth v sense) = if is_pointer_var v then claim v (not sense) else []
null_claims pointer_typed (compare v op e sense) =
    if is_pointer_var v then null_compare v op (pointer_typed e) (is_null_literal e) sense else []

unfoldable pub claims : (Fact → List Claim) → List Fact → List Claim
claims digest [] = []
claims digest (f ∷ fs) = digest f ++ claims digest fs

unfoldable pub walk_zero_condition : Expr → Bool → List Claim
walk_zero_condition cond sense = claims zero_claims (walk_condition false cond sense)

-- Clang's answer whether an expression is a pointer is the parameter.
unfoldable pub walk_null_condition : (Expr → Bool) → Expr → Bool → List Claim
walk_null_condition pointer_typed cond sense =
    claims (null_claims pointer_typed) (walk_condition false cond sense)

-- `edgeCondition`: the leaf of a branch condition, and whether its sense is flipped.
unfoldable pub edge_condition : Bool → Expr → Expr × Bool
edge_condition flip (paren e) = edge_condition flip e
edge_condition flip (implicit k e) = edge_condition flip e
edge_condition flip (explicit to_bool e) = edge_condition flip e
edge_condition flip (explicit same_type e) = edge_condition flip e
edge_condition flip (expect e) = edge_condition flip e
edge_condition flip (lnot e) = edge_condition (not flip) e
edge_condition flip (bin comma l r) = edge_condition flip r
edge_condition flip e = (e, flip)
