-- ===== src/Disjuncts/Statements.antt =====
-- engine/PathFacts.cpp, GuardedDisjuncts.h: what statements assign, and the facts they erase and stamp.
use code_skeptic.Prelude.{
  ℕ, zero, suc, Bool, true, false, ◌&&◌, ◌||◌, Option, none, some, List, [], ◌∷◌, ◌==◌,
  if◌then◌else◌, opt_eq,
}
use code_skeptic.Prelude.Int.{ℤ, pos, eqb_ℤ}
use code_skeptic.Condition.{
  Var, assign, Expr, ref, paren, implicit, explicit, bin, step, addr_of, opaque, is_assignment,
}
use code_skeptic.IntervalEval.Assign.{Stmt, declare, evaluate, call}
use code_skeptic.PathFacts.{FactKey, Facts, var_key, equals, record_fact, erase_facts}
use code_skeptic.PathFacts.Conditions.{
  Ast, Keyable, member, subscript, as_ref, int_literal_value, member_fact_ref, member_key,
}
use code_skeptic.Disjuncts.{Guarded, GuardedOps, normalize_guarded}

-- `assignedDecl`.
unfoldable pub assigned_decl : Stmt → Option Var
assigned_decl (evaluate (bin op l r)) =
    let target = as_ref l in if is_assignment op then target else none
assigned_decl (evaluate (step e)) = as_ref e
assigned_decl (declare ((v, some i) ∷ [])) = some v
assigned_decl _ = none

abbrev pub with_value : Option Var → Option ℤ → Option (Var × ℤ)
with_value none c = none
with_value (some v) none = none
with_value (some v) (some c) = some (v, c)

pub record MemberAssign : Type 0 where
  pub base : ℕ
  pub field : ℕ
  pub literal : Option ℤ

abbrev pub member_assign : Option (ℕ × ℕ) → Option ℤ → Option MemberAssign
member_assign none c = none
member_assign (some m) c = some (record { base = m.0; field = m.1; literal = c })

abbrev pub is_plain : (Expr → Option ℤ) → Stmt → Option ℤ
is_plain value (evaluate (bin assign l r)) = value r
is_plain value _ = none

-- The expression below `&`, whatever the casts around it.
unfoldable pub addr_operand : Expr → Option Expr
addr_operand (paren e) = addr_operand e
addr_operand (implicit k e) = addr_operand e
addr_operand (explicit k e) = addr_operand e
addr_operand (addr_of e) = some e
addr_operand _ = none

-- The facts of each disjunct without the stale ones, with a fresh one.
unfoldable pub stamped : Option FactKey → Facts → Facts
stamped none fs = fs
stamped (some key) fs = record_fact key true fs

unfoldable pub any_stale : (FactKey → Bool) → Facts → Bool
any_stale stale [] = false
any_stale stale (f ∷ fs) = stale f.0 || any_stale stale fs

abbrev pub is_some : {A : Type 0} → Option A → Bool
is_some none = false
is_some (some a) = true

module _ (ast : Ast) where
  -- `assignedIntLiteral`.
  unfoldable pub assigned_int_literal : Stmt → Option (Var × ℤ)
  assigned_int_literal (evaluate (bin assign l r)) = with_value (as_ref l) (int_literal_value ast r)
  assigned_int_literal (declare ((v, some i) ∷ [])) =
      let stamp = with_value (some v) (int_literal_value ast i) in
      if ast.static_local v.id then none else stamp
  assigned_int_literal _ = none

  -- `assignedMemberFact`.
  unfoldable pub assigned_member_fact : Keyable → Stmt → Option MemberAssign
  assigned_member_fact k (evaluate (bin op l r)) =
      let written =
        member_assign (member_fact_ref ast k l)
          (is_plain (int_literal_value ast) (evaluate (bin op l r))) in
      if is_assignment op then written else none
  assigned_member_fact k (evaluate (step e)) = member_assign (member_fact_ref ast k e) none
  assigned_member_fact k _ = none

  -- The loop of `addrOfBaseVar`, on fuel.
  unfoldable pub base_var : ℕ → Expr → Option ℕ
  base_var fuel (paren e) = base_var fuel e
  base_var fuel (implicit k e) = base_var fuel e
  base_var fuel (ref v) = some v.id
  base_var zero _ = none
  base_var (suc fuel) (opaque n) = elim (ast.shape n) [
    | member false base f ok ↦ base_var fuel base
    | subscript base ↦ base_var fuel base
    | _ ↦ none
  ]
  base_var (suc fuel) _ = none

  -- `addrOfBaseVar`.
  unfoldable pub addr_of_base_var : Expr → Option ℕ
  addr_of_base_var e = elim (addr_operand e) [ none ↦ none | some o ↦ base_var ast.depth o ]

-- The facts that an assignment, and a call that takes a base's address, make stale.
abbrev pub var_stale : Var → FactKey → Bool
var_stale target key = key.var == target.id

abbrev pub member_stale : MemberAssign → FactKey → Bool
member_stale m key = key.var == m.base && opt_eq key.field (some m.field)

abbrev pub member_stamp : MemberAssign → Option FactKey
member_stamp m = elim m.literal [ none ↦ none | some c ↦ some (member_key (m.base, m.field) c) ]

abbrev pub base_stale : ℕ → FactKey → Bool
base_stale base key = key.var == base && is_some key.field

module _ {Val : Type 0} where
  unfoldable pub update_facts :
      (FactKey → Bool) → Option FactKey → List (Guarded Val) → List (Guarded Val)
  update_facts stale stamp [] = []
  update_facts stale stamp (d ∷ ds) =
      record d { facts = stamped stamp (erase_facts stale d.facts) } ∷ update_facts stale stamp ds

  unfoldable pub facts_change : (FactKey → Bool) → Option FactKey → List (Guarded Val) → Bool
  facts_change stale stamp [] = false
  facts_change stale stamp (d ∷ ds) =
      any_stale stale d.facts || (is_some stamp || facts_change stale stamp ds)

  module _ (ast : Ast) (k : Keyable) where
    -- `applyMemberStmtFacts`: the state, and whether it changed.
    unfoldable pub apply_member_stmt_facts : List (Guarded Val) → Stmt → List (Guarded Val) × Bool
    apply_member_stmt_facts state stmt = elim (assigned_member_fact ast k stmt) [
      | none ↦ (state, false)
      | some m ↦ (
        update_facts (member_stale m) (member_stamp m) state,
        facts_change (member_stale m) (member_stamp m) state,
      )
    ]

    unfoldable pub erase_base : Option ℕ → List (Guarded Val) × Bool → List (Guarded Val) × Bool
    erase_base none sc = sc
    erase_base (some base) sc =
        if k.member_base base
        then (
          update_facts (base_stale base) none sc.0,
          sc.1 || facts_change (base_stale base) none sc.0,
        )
        else sc

    unfoldable pub erase_for_args :
        List Expr → List (Guarded Val) × Bool → List (Guarded Val) × Bool
    erase_for_args [] sc = sc
    erase_for_args (a ∷ rest) sc = erase_for_args rest (erase_base (addr_of_base_var ast a) sc)

    -- `eraseMemberFactsAtCall`, after what the state has changed before.
    unfoldable pub erase_member_facts_at_call :
        Stmt → List (Guarded Val) × Bool → List (Guarded Val) × Bool
    erase_member_facts_at_call (call c) sc = erase_for_args c.args sc
    erase_member_facts_at_call stmt sc = sc

    module _ (ops : GuardedOps Val) (stampable ptr_stampable : ℕ → Bool) where
      unfoldable pub normalize_changed : List (Guarded Val) × Bool → List (Guarded Val) × Bool
      normalize_changed sc = (if sc.1 then normalize_guarded ops sc.0 else sc.0, sc.1)

      -- The stamp of a constant: of an integer that is asked about, or of a null pointer.
      unfoldable pub literal_stamp : Var → Option (Var × ℤ) → Option FactKey
      literal_stamp target none = none
      literal_stamp target (some l) =
          if stampable target.id || (ptr_stampable target.id && eqb_ℤ l.1 (pos 0))
          then some (var_key target.id equals l.1)
          else none

      -- `applyStmtFactsOps`; without the erasure at calls it is `applyStmtFacts`.
      unfoldable pub apply_stmt_facts : Bool → List (Guarded Val) → Stmt → List (Guarded Val) × Bool
      apply_stmt_facts erase_member_calls state stmt = elim (assigned_decl stmt) [
        | none ↦
            let member_changed = apply_member_stmt_facts state stmt in
            let after_call = erase_member_facts_at_call stmt member_changed in
            normalize_changed (if erase_member_calls then after_call else member_changed)
        | some target ↦
            let stamp = literal_stamp target (assigned_int_literal ast stmt) in
            normalize_changed (
              update_facts (var_stale target) stamp state,
              facts_change (var_stale target) stamp state,
            )
      ]
