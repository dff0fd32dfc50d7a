-- ===== src/Disjuncts/Execution.antt =====
-- engine/GuardedDisjuncts.h: what a statement does to the store, and `applyStmtFacts` over it.
use code_skeptic.Prelude.{
  ℕ, ◌≡◌, refl, ap, ◌∙◌, inl, inr, Bool, false, ◌&&◌, Option, none, some, [], ◌∷◌, ◌==◌,
  if◌then◌else◌, Bool-cases, opt_eq,
}
use code_skeptic.Prelude.Int.{ℤ}
use code_skeptic.Condition.{Var, assign, compound, Expr, bin, step}
use code_skeptic.Condition.Meaning.{eval, CastsKeep, LiteralsFit}
use code_skeptic.IntervalEval.Assign.{Stmt, declare, evaluate, call}
use code_skeptic.PathFacts.Stores.{Store, place_value}
use code_skeptic.PathFacts.Conditions.{Ast, Keyable, as_ref, int_literal_value, member_fact_ref}
use code_skeptic.Disjuncts.Statements.{
  assigned_decl, with_value, member_assign, MemberAssign, is_some, assigned_int_literal,
  assigned_member_fact,
}
use code_skeptic.Disjuncts.Assignments.{addressed}

with_value-inversion :
    (o : Option Var) (c : Option ℤ) (l : Var × ℤ) → with_value o c ≡ some l → c ≡ some l.1
with_value-inversion none c l q = cc
with_value-inversion (some v) none l q = cc
with_value-inversion (some v) (some d) l q =
    let e : (v, d) ≡ l = cc in ap (λ (p : Var × ℤ). some p.1) e

member_assign-inversion :
    (o : Option (ℕ × ℕ)) (c : Option ℤ) (m : MemberAssign)
    → member_assign o c ≡ some m
    → c ≡ m.literal
member_assign-inversion none c m q = cc
member_assign-inversion (some p) c m q =
    let written : MemberAssign = record { base = p.0; field = p.1; literal = c } in
    let e : written ≡ m = cc in ap (λ (a : MemberAssign). a.literal) e

module _ (ast : Ast) where
  -- The expression whose value a plain assignment or an initialisation stores. The initialiser of a
  -- static local runs once, so it stores nothing here.
  abbrev pub assigned_expr : Stmt → Option Expr
  assigned_expr (evaluate (bin assign l r)) = some r
  assigned_expr (declare ((v, some i) ∷ [])) = if ast.static_local v.id then none else some i
  assigned_expr _ = none

  pub literal_expr :
      (stmt : Stmt) (l : Var × ℤ)
      → assigned_int_literal ast stmt ≡ some l
      → (e : Expr) × (assigned_expr stmt ≡ some e) × (int_literal_value ast e ≡ some l.1)
  unfolding assigned_int_literal
  literal_expr (evaluate (bin assign l r)) c q =
      (r, refl, with_value-inversion (as_ref l) (int_literal_value ast r) c q)
  literal_expr (declare ((v, some i) ∷ [])) c q = elim (Bool-cases (ast.static_local v.id)) [
    | inl once ↦ let q' = rw once at q in cc
    | inr each ↦
        (i, rw each refl, with_value-inversion (some v) (int_literal_value ast i) c (rw each at q))
  ]
  literal_expr _ c q = cc

  module _ (k : Keyable) where
    pub member_literal_expr :
        (stmt : Stmt) (m : MemberAssign) (c : ℤ)
        → assigned_member_fact ast k stmt ≡ some m
        → m.literal ≡ some c
        → (e : Expr) × (assigned_expr stmt ≡ some e) × (int_literal_value ast e ≡ some c)
    unfolding assigned_member_fact
    member_literal_expr (evaluate (bin assign l r)) m c q h = (
      r,
      refl,
      member_assign-inversion (member_fact_ref ast k l) (int_literal_value ast r) m q ∙ h,
    )
    member_literal_expr (evaluate (bin compound l r)) m c q h =
        let e = member_assign-inversion (member_fact_ref ast k l) none m q in cc
    member_literal_expr (evaluate (bin _ l r)) m c q h = cc
    member_literal_expr (evaluate (step e)) m c q h =
        let e' = member_assign-inversion (member_fact_ref ast k e) none m q in cc
    member_literal_expr _ m c q h = cc

    abbrev pub call_addresses : Stmt → ℕ → Bool
    call_addresses (call c) x = addressed ast k c.args (λ _. false) x
    call_addresses _ x = false

    -- The places that a statement may write: the variable or the member that it assigns, or the
    -- members of an admitted base whose address a call takes.
    abbrev pub touches : Stmt → ℕ → Option ℕ → Bool
    touches stmt x f = elim (assigned_decl stmt) [
      | some v ↦ x == v.id
      | none ↦ elim (assigned_member_fact ast k stmt) [
        | some m ↦ x == m.base && opt_eq f (some m.field)
        | none ↦ is_some f && call_addresses stmt x
      ]
    ]

    abbrev pub IsStored : Store → ℤ → Expr → Type 0
    IsStored s w e = CastsKeep s.env e × LiteralsFit e × (w ≡ eval s.env e)

    -- The statement takes the store `s` to `t`: other places keep their values, and an assigned
    -- place has the value of the expression.
    pub record Runs (stmt : Stmt) (s t : Store) : Type 0 where
      pub keeps_places :
          (x : ℕ) (f : Option ℕ) → touches stmt x f ≡ false → place_value t x f ≡ place_value s x f
      pub var_value :
          (v : Var) (e : Expr)
          → assigned_decl stmt ≡ some v
          → assigned_expr stmt ≡ some e
          → IsStored s (t.env.var v.id) e
      pub member_value :
          (m : MemberAssign) (e : Expr)
          → assigned_member_fact ast k stmt ≡ some m
          → assigned_expr stmt ≡ some e
          → IsStored s (t.member m.base m.field) e
