-- ===== src/Disjuncts/Edges.antt =====
-- engine/GuardedDisjuncts.h: the refinement of disjuncts by a condition, and the facts at its leaves.
use code_skeptic.Prelude.{
  Bool, true, false, not, ◌||◌, Option, none, some, List, [], ◌∷◌, if◌then◌else◌,
}
use code_skeptic.Condition.{
  land, lor, comma, Expr, paren, implicit, explicit, to_bool, same_type, expect, lnot, bin,
}
use code_skeptic.PathFacts.{FactKey, Claim, Facts, facts_contradict, record_fact}
use code_skeptic.PathFacts.Conditions.{Ast, Keyable, condition_fact, upper_bound_nonzero}
use code_skeptic.Disjuncts.{Guarded, GuardedOps, normalize_guarded}

abbrev pub and_then : {A : Type 0} → Option A → (A → Option A) → Option A
and_then none f = none
and_then (some a) f = f a

-- Which operand of a disjunction is left, by the operands that the disjunct rules out.
abbrev pub remaining_operand : {A : Type 0} → Bool → Bool → Option A → Option A → A → Option A
remaining_operand true true of_l of_r d = none
remaining_operand true false of_l of_r d = of_r
remaining_operand false true of_l of_r d = of_l
remaining_operand false false of_l of_r d = some d

unfoldable pub claim_refuted : Facts → Option Claim → Bool → Bool
claim_refuted fs none wanted = false
claim_refuted fs (some c) wanted = facts_contradict fs c.0 (if wanted then c.1 else not c.1)

module _ {Val : Type 0} where
  module _ (refutes : Guarded Val → Expr → Bool → Bool)
      (apply_leaf : Guarded Val → Expr → Bool → Option (Guarded Val)) where
    -- `refineDisjunctCondition`; `none` drops the disjunct. Behind a stripped explicit cast (`under`)
    -- only parentheses and further such casts are looked through.
    unfoldable pub refine_disjunct : Bool → Expr → Bool → Guarded Val → Option (Guarded Val)
    refine_disjunct under (paren e) sense d = refine_disjunct under e sense d
    refine_disjunct false (implicit k e) sense d = refine_disjunct false e sense d
    refine_disjunct under (explicit to_bool e) sense d = refine_disjunct true e sense d
    refine_disjunct under (explicit same_type e) sense d = refine_disjunct true e sense d
    refine_disjunct under (expect e) sense d = refine_disjunct false e sense d
    refine_disjunct under (lnot e) sense d = refine_disjunct false e (not sense) d
    refine_disjunct under (bin comma l r) sense d = refine_disjunct false r sense d
    refine_disjunct under (bin land l r) true d =
        and_then (refine_disjunct false l true d) (refine_disjunct false r true)
    refine_disjunct under (bin lor l r) false d =
        and_then (refine_disjunct false l false d) (refine_disjunct false r false)
    refine_disjunct under (bin lor l r) true d =
        remaining_operand (refutes d l true) (refutes d r true) (refine_disjunct false l true d)
          (refine_disjunct false r true d) d
    refine_disjunct under (bin land l r) false d =
        remaining_operand (refutes d l false) (refutes d r false) (refine_disjunct false l false d)
          (refine_disjunct false r false d) d
    refine_disjunct under e sense d = apply_leaf d e sense

    unfoldable pub push_kept : Option (Guarded Val) → List (Guarded Val) → List (Guarded Val)
    push_kept none ds = ds
    push_kept (some d) ds = d ∷ ds

    unfoldable pub refine_each : Expr → Bool → List (Guarded Val) → List (Guarded Val)
    refine_each cond sense [] = []
    refine_each cond sense (d ∷ ds) =
        push_kept (refine_disjunct false cond sense d) (refine_each cond sense ds)

  -- Facts at a leaf; whether the type of an expression is unsigned is a parameter.
  module _ (ast : Ast) (k : Keyable) (unsigned_expr : Expr → Bool) where
    unfoldable pub learn : Guarded Val → FactKey → Bool → Option (Guarded Val)
    learn d key value =
        if facts_contradict d.facts key value
        then none
        else some (record d { facts = record_fact key value d.facts })

    unfoldable pub learn_bound : Guarded Val → Option FactKey → Option (Guarded Val)
    learn_bound d none = some d
    learn_bound d (some key) = learn d key false

    unfoldable pub learn_claim : Guarded Val → Option Claim → Bool → Option (Guarded Val)
    learn_claim d none sense = some d
    learn_claim d (some c) sense = learn d c.0 (if sense then c.1 else not c.1)

    -- `applyFactLeaf`.
    unfoldable pub apply_fact_leaf : Guarded Val → Expr → Bool → Option (Guarded Val)
    apply_fact_leaf d leaf sense =
        and_then
          (if sense then learn_bound d (upper_bound_nonzero ast k unsigned_expr leaf) else some d)
          (λ d'. learn_claim d' (condition_fact ast k leaf) sense)

    -- `factsRefute`.
    unfoldable pub facts_refute : Guarded Val → Expr → Bool → Bool
    facts_refute d e wanted = claim_refuted d.facts (condition_fact ast k e) wanted

    module _ (ops : GuardedOps Val) (extra_refutes : Guarded Val → Expr → Bool → Bool)
        (extra_apply : Guarded Val → Expr → Bool → Guarded Val) where
      unfoldable pub any_refutes : Guarded Val → Expr → Bool → Bool
      any_refutes d e wanted = facts_refute d e wanted || extra_refutes d e wanted

      unfoldable pub apply_leaf_with : Guarded Val → Expr → Bool → Option (Guarded Val)
      apply_leaf_with d leaf sense =
          and_then (apply_fact_leaf d leaf sense) (λ d'. some (extra_apply d' leaf sense))

      -- A leaf that the disjunct refutes drops the disjunct.
      unfoldable pub apply_leaf_ops : Guarded Val → Expr → Bool → Option (Guarded Val)
      apply_leaf_ops d leaf sense =
          if any_refutes d leaf sense then none else apply_leaf_with d leaf sense

      -- `refineGuardedFactsWith`.
      unfoldable pub refine_guarded_facts_with :
          List (Guarded Val) → Expr → Bool → List (Guarded Val)
      refine_guarded_facts_with state cond sense =
          normalize_guarded ops (refine_each any_refutes apply_leaf_with cond sense state)

      -- `refineGuardedFactsOps`.
      unfoldable pub refine_guarded_facts_ops :
          List (Guarded Val) → Expr → Bool → List (Guarded Val)
      refine_guarded_facts_ops state cond sense =
          normalize_guarded ops (refine_each any_refutes apply_leaf_ops cond sense state)
