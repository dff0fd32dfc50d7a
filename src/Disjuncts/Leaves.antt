-- ===== src/Disjuncts/Leaves.antt =====
-- engine/GuardedDisjuncts.h: the facts at the leaves of a condition, and the refined state.
use code_skeptic.Prelude.{
  ◌≡◌, refl, sym, ◌∙◌, inl, inr, Bool, true, false, not, Option, none, some, List, if◌then◌else◌,
  Bool-cases, bool_eq,
}
use code_skeptic.Condition.{Expr}
use code_skeptic.Condition.Meaning.{eval, is_true}
use code_skeptic.PathFacts.{FactKey, Claim, Facts, facts_contradict}
use code_skeptic.PathFacts.Stores.{Store, key_holds, claim_value, FactsHold, record_fact-FactsHold}
use code_skeptic.PathFacts.Contradiction.{facts_contradict_sound}
use code_skeptic.PathFacts.Conditions.{Ast, Keyable, condition_fact, upper_bound_nonzero}
use code_skeptic.PathFacts.Keying.{IsRead}
use code_skeptic.PathFacts.Facts.{condition_fact_sound, upper_bound_nonzero_sound}
use code_skeptic.Disjuncts.{Guarded, GuardedOps}
use code_skeptic.Disjuncts.Covers.{PathState, DisjunctCovers, Covers, IsSoundOps}
use code_skeptic.Disjuncts.Normalize.{normalize_guarded-Covers}
use code_skeptic.Disjuncts.Edges.{
  learn, learn_bound, learn_claim, apply_fact_leaf, claim_refuted, facts_refute, any_refutes,
  apply_leaf_with, apply_leaf_ops, refine_guarded_facts_with, refine_guarded_facts_ops,
}
use code_skeptic.Disjuncts.Refinement.{
  Takes, Keeps, IsSoundRefuter, IsSoundLeaf, Keeps-and_then, refine_each-Covers,
}

claim_true : (holds v : Bool) → bool_eq holds v ≡ true → holds ≡ v
claim_true true true h = refl
claim_true true false h = cc
claim_true false true h = cc
claim_true false false h = refl

claim_false : (holds v : Bool) → bool_eq holds v ≡ false → holds ≡ not v
claim_false true true h = cc
claim_false true false h = refl
claim_false false true h = refl
claim_false false false h = cc

value_twice : (b v : Bool) → b ≡ v → b ≡ not v → ⊥
value_twice b true h g = cc
value_twice b false h g = cc

claim-at :
    (s : Store) (c : Claim) (b sense : Bool)
    → b ≡ claim_value s c
    → b ≡ sense
    → key_holds s c.0 ≡ (if sense then c.1 else not c.1)
claim-at s c b true says takes = claim_true (key_holds s c.0) c.1 (sym says ∙ takes)
claim-at s c b false says takes = claim_false (key_holds s c.0) c.1 (sym says ∙ takes)

module _ {Val : Type 0} (Le : Store → Val → Val → Type 0) (p : PathState Val) (ast : Ast)
    (k : Keyable) (unsigned_expr : Expr → Bool) (read : IsRead ast p.store) where
  not_contradicted :
      (fs : Facts) (key : FactKey) (value : Bool)
      → FactsHold p.store fs
      → key_holds p.store key ≡ value
      → facts_contradict fs key value ≡ false
  not_contradicted fs key value h v = elim (Bool-cases (facts_contradict fs key value)) [
    | inl clash ↦
        let other = facts_contradict_sound p.store fs key value h clash in
        absurd (value_twice (key_holds p.store key) value v other)
    | inr fine ↦ fine
  ]

  learn-Keeps :
      (d : Guarded Val) (key : FactKey) (value : Bool)
      → DisjunctCovers Le p d
      → key_holds p.store key ≡ value
      → Keeps Le p (learn ast k unsigned_expr d key value)
  unfolding learn
  learn-Keeps d key value h v =
      rw (not_contradicted d.facts key value h.0 v)
        (record_fact-FactsHold p.store key value d.facts v h.0, h.1)

  learn_bound-Keeps :
      (d : Guarded Val) (o : Option FactKey)
      → DisjunctCovers Le p d
      → ((key : FactKey) → o ≡ some key → key_holds p.store key ≡ false)
      → Keeps Le p (learn_bound ast k unsigned_expr d o)
  unfolding learn_bound
  learn_bound-Keeps d none h v = h
  learn_bound-Keeps d (some key) h v = learn-Keeps d key false h (v key refl)

  learn_claim-Keeps :
      (d : Guarded Val) (o : Option Claim) (b sense : Bool)
      → DisjunctCovers Le p d
      → ((c : Claim) → o ≡ some c → b ≡ claim_value p.store c)
      → b ≡ sense
      → Keeps Le p (learn_claim ast k unsigned_expr d o sense)
  unfolding learn_claim
  learn_claim-Keeps d none b sense h says t = h
  learn_claim-Keeps d (some c) b sense h says t =
      learn-Keeps d c.0 (if sense then c.1 else not c.1) h
        (claim-at p.store c b sense (says c refl) t)

  apply_fact_leaf-Keeps :
      (d : Guarded Val) (e : Expr) (sense : Bool)
      → DisjunctCovers Le p d
      → Takes Le p unsigned_expr e sense
      → Keeps Le p (apply_fact_leaf ast k unsigned_expr d e sense)
  unfolding apply_fact_leaf
  apply_fact_leaf-Keeps d e true h t =
      Keeps-and_then Le p
        (learn_bound ast k unsigned_expr d (upper_bound_nonzero ast k unsigned_expr e)) _
        (learn_bound-Keeps d (upper_bound_nonzero ast k unsigned_expr e) h
          (λ key q. upper_bound_nonzero_sound ast p.store read k unsigned_expr e key t.4 t.0 q t.2))
        (λ d' h'.
          learn_claim-Keeps d' (condition_fact ast k e) (is_true (eval p.store.env e)) true h'
            (λ c q. condition_fact_sound ast p.store read k e c t.0 t.1 t.3 q) t.2)
  apply_fact_leaf-Keeps d e false h t =
      learn_claim-Keeps d (condition_fact ast k e) (is_true (eval p.store.env e)) false h
        (λ c q. condition_fact_sound ast p.store read k e c t.0 t.1 t.3 q) t.2

  claim_refuted-not :
      (fs : Facts) (o : Option Claim) (b wanted : Bool)
      → FactsHold p.store fs
      → ((c : Claim) → o ≡ some c → b ≡ claim_value p.store c)
      → b ≡ wanted
      → claim_refuted fs o wanted ≡ false
  unfolding claim_refuted
  claim_refuted-not fs none b wanted h says t = refl
  claim_refuted-not fs (some c) b wanted h says t =
      not_contradicted fs c.0 (if wanted then c.1 else not c.1) h
        (claim-at p.store c b wanted (says c refl) t)

  facts_refute-IsSoundRefuter : IsSoundRefuter Le p unsigned_expr (facts_refute ast k unsigned_expr)
  unfolding facts_refute
  facts_refute-IsSoundRefuter d e wanted h t =
      claim_refuted-not d.facts (condition_fact ast k e) (is_true (eval p.store.env e)) wanted h.0
        (λ c q. condition_fact_sound ast p.store read k e c t.0 t.1 t.3 q) t.2

  module _ (ops : GuardedOps Val) (sound : IsSoundOps Le ops)
      (extra_refutes : Guarded Val → Expr → Bool → Bool)
      (extra_apply : Guarded Val → Expr → Bool → Guarded Val)
      (refuter : IsSoundRefuter Le p unsigned_expr extra_refutes)
      (applies : IsSoundLeaf Le p unsigned_expr (λ d e sense. some (extra_apply d e sense))) where
    any_refutes-IsSoundRefuter :
        IsSoundRefuter Le p unsigned_expr
          (any_refutes ast k unsigned_expr ops extra_refutes extra_apply)
    unfolding any_refutes
    any_refutes-IsSoundRefuter d e wanted h t =
        rw (facts_refute-IsSoundRefuter d e wanted h t) (refuter d e wanted h t)

    apply_leaf_with-IsSoundLeaf :
        IsSoundLeaf Le p unsigned_expr
          (apply_leaf_with ast k unsigned_expr ops extra_refutes extra_apply)
    unfolding apply_leaf_with
    apply_leaf_with-IsSoundLeaf d e sense h t =
        Keeps-and_then Le p (apply_fact_leaf ast k unsigned_expr d e sense)
          (λ d'. some (extra_apply d' e sense)) (apply_fact_leaf-Keeps d e sense h t)
          (λ d' h'. applies d' e sense h' t)

    apply_leaf_ops-IsSoundLeaf :
        IsSoundLeaf Le p unsigned_expr
          (apply_leaf_ops ast k unsigned_expr ops extra_refutes extra_apply)
    unfolding apply_leaf_ops
    apply_leaf_ops-IsSoundLeaf d e sense h t =
        rw (any_refutes-IsSoundRefuter d e sense h t) (apply_leaf_with-IsSoundLeaf d e sense h t)

    -- A path that takes an edge is covered by the refined state if it was covered before. The
    -- condition evaluates to the sense of the edge, no implicit cast in it changes a value, no
    -- literal reaches the sign bit of its type, and no variable or other part of it that has an
    -- unsigned type is negative. In the
    -- store null pointer constants are zero, an access of a member has the member's value, a call of
    -- a function that returns a constant has one value, and an enum constant has that of its bits,
    -- which are below the sign bit where its type is unsigned. The analysis's own hooks keep the
    -- path, and its lattice laws hold.
    pub refine_guarded_facts_ops_sound :
        (state : List (Guarded Val)) (cond : Expr) (sense : Bool)
        → Takes Le p unsigned_expr cond sense
        → Covers Le p state
        → Covers Le p (
            refine_guarded_facts_ops ast k unsigned_expr ops extra_refutes extra_apply state cond
              sense)
    unfolding refine_guarded_facts_ops
    refine_guarded_facts_ops_sound state cond sense t h =
        normalize_guarded-Covers Le ops sound p _ (
          refine_each-Covers Le p unsigned_expr _ _ any_refutes-IsSoundRefuter
            apply_leaf_ops-IsSoundLeaf cond sense state t h)

    -- The same for the refinement without the refutation of leaves.
    pub refine_guarded_facts_with_sound :
        (state : List (Guarded Val)) (cond : Expr) (sense : Bool)
        → Takes Le p unsigned_expr cond sense
        → Covers Le p state
        → Covers Le p (
            refine_guarded_facts_with ast k unsigned_expr ops extra_refutes extra_apply state cond
              sense)
    unfolding refine_guarded_facts_with
    refine_guarded_facts_with_sound state cond sense t h =
        normalize_guarded-Covers Le ops sound p _ (
          refine_each-Covers Le p unsigned_expr _ _ any_refutes-IsSoundRefuter
            apply_leaf_with-IsSoundLeaf cond sense state t h)
