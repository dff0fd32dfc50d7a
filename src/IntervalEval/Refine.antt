-- ===== src/IntervalEval/Refine.antt =====
-- engine/IntervalEval.cpp: refinement on an edge keeps every state that takes the edge.
use code_skeptic.Prelude.{
  ℕ, ◌≡◌, ◌≢◌, refl, sym, ap, ◌∙◌, Bool, true, false, Option, some, List, [], ◌∷◌, Option-cases,
  Bool-cases, inl, inr, arith, if◌then◌else◌, ◌==◌, ==_eq, update, All,
}
use code_skeptic.Prelude.Int.{ℤ, pos, ◌-ℤ◌}
use code_skeptic.Interval.{Interval, contains}
use code_skeptic.Interval.Arith.{constrain_eq, constrain_ne}
use code_skeptic.Interval.Guards.{IsInt64, constrain_exact, constrain_ne_sound}
use code_skeptic.Condition.{
  BinOp, lt, gt, le, ge, eq, ne, Var, Expr, literal, paren, implicit, minus, Fact, truth, compare,
  walk_condition,
}
use code_skeptic.Condition.Meaning.{
  Env, eval, is_true, compare_values, CastsKeep, LiteralsFit, FactHolds,
}
use code_skeptic.Condition.Walk.{walk_condition_sound}
use code_skeptic.Condition.Parts.{IsPlainFact, walk-IsPlain}
use code_skeptic.IntervalEval.{
  IntervalMap, const_int, fold_const_int, negate_cmp, constrain_by, narrow, refine_fact,
  refine_facts, refine_interval_on_edge,
}
use code_skeptic.IntervalEval.Values.{sext_literal-value}
use code_skeptic.IntervalEval.Eval.{Covers}

module _ (a : Interval) (v c : ℤ) (i : IsInt64 v) (h : contains a v ≡ true) where
  ne_keeps : v ≢ c → contains (constrain_ne a c) v ≡ true
  ne_keeps n = (constrain_ne_sound a c v).0 h n

  -- The interval that `x op c` leaves on the edge where it is true, or false, keeps the values that go there.
  pub constrain_by_sound :
      (op : BinOp) (sense : Bool)
      → compare_values op v c ≡ sense
      → contains (constrain_by a (if sense then op else negate_cmp op) c) v ≡ true
  unfolding constrain_by negate_cmp
  constrain_by_sound lt true e = (constrain_exact a c v i).0 ∙ (rw (h, e) refl)
  constrain_by_sound lt false e = (constrain_exact a c v i).3 ∙ ground arith
  constrain_by_sound le true e = (constrain_exact a c v i).1 ∙ (rw (h, e) refl)
  constrain_by_sound le false e = (constrain_exact a c v i).2 ∙ ground arith
  constrain_by_sound gt true e = (constrain_exact a c v i).2 ∙ (rw (h, e) refl)
  constrain_by_sound gt false e = (constrain_exact a c v i).1 ∙ ground arith
  constrain_by_sound ge true e = (constrain_exact a c v i).3 ∙ (rw (h, e) refl)
  constrain_by_sound ge false e = (constrain_exact a c v i).0 ∙ ground arith
  constrain_by_sound eq true e = (constrain_exact a c v i).4 ∙ (rw (h, e) refl)
  constrain_by_sound eq false e = ne_keeps (ground arith)
  constrain_by_sound ne true e = ne_keeps (ground arith)
  constrain_by_sound ne false e = (constrain_exact a c v i).4 ∙ ground arith
  constrain_by_sound op true e = h
  constrain_by_sound op false e = h

module _ (ρ : Env) (folds : Expr → Option ℤ)
    (right : (e : Expr) (c : ℤ) → folds e ≡ some c → eval ρ e ≡ c) where
  const_int_sound :
      (e : Expr) (c : ℤ) → CastsKeep ρ e → LiteralsFit e → const_int e ≡ some c → eval ρ e ≡ c
  unfolding const_int eval
  const_int_sound (paren e) c h f q = const_int_sound e c h f q
  const_int_sound (implicit k e) c h f q = h.0 ∙ const_int_sound e c h.1 f q
  const_int_sound (literal t n) c h f q = sym (sext_literal-value t n c f.0 f.1 q)
  const_int_sound (minus e) c h f q = elim (Option-cases (const_int e)) [
    | inl n ↦ cc (rw (n, const_int) at q)
    | inr p ↦
        let (d, r) = p in
        let s : (pos 0 -ℤ d) ≡ c = let z = rw (r, const_int) at q in cc in
        ap (λ x. pos 0 -ℤ x) (const_int_sound e d h f r) ∙ s
  ]
  const_int_sound _ c h f q = cc

  fold_const_int_sound :
      (ctx : Bool) (e : Expr) (c : ℤ)
      → CastsKeep ρ e
      → LiteralsFit e
      → fold_const_int folds ctx e ≡ some c
      → eval ρ e ≡ c
  unfolding fold_const_int
  fold_const_int_sound ctx e c h f q = elim (Option-cases (const_int e)) [
    | inr p ↦
        let (d, r) = p in
        let s : d ≡ c = let z = rw (r, fold_const_int) at q in cc in const_int_sound e d h f r ∙ s
    | inl n ↦ elim (Bool-cases ctx) [
      | inl y ↦ right e c (rw (n, y, fold_const_int) at q)
      | inr y ↦ cc (rw (n, y, fold_const_int) at q)
    ]
  ]

  module _ (vars : ℕ → Bool) where
    narrow_sound :
        (st : IntervalMap) (v : Var) (f : Interval → Interval)
        → ((a : Interval) → contains a (ρ.var v.id) ≡ true → contains (f a) (ρ.var v.id) ≡ true)
        → Covers st ρ
        → Covers (narrow vars st v f) ρ
    unfolding narrow
    narrow_sound st v f keep cov = elim (Bool-cases (vars v.id)) [
      | inr n ↦ rw (n, narrow) cov
      | inl y ↦ elim (Option-cases (st v.id)) [
        | inl n ↦ rw (y, n, narrow) cov
        | inr p ↦ let (a, e) = p in rw (y, e, narrow) (λ x b q. at_var a e x b q)
      ]
    ]
      where
        at_var :
            (a : Interval)
            → st v.id ≡ some a
            → (x : ℕ) (b : Interval) → update st v.id (some (f a)) x ≡ some b
            → contains b (ρ.var x) ≡ true
        at_var a e x b q = elim (Bool-cases (x == v.id)) [
          | inl same ↦
              let s : f a ≡ b = let z = rw same at q in cc in
              rw (==_eq x v.id same)
                (ap (λ (d : Interval). contains d (ρ.var v.id)) (sym s) ∙ keep a (cov v.id a e))
          | inr other ↦ cov x b (rw other at q)
        ]

    module _ (ctx : Bool) (fits : (x : ℕ) → IsInt64 (ρ.var x)) where
      refine_fact_sound :
          (st : IntervalMap) (f : Fact)
          → FactHolds ρ f
          → IsPlainFact ρ f
          → Covers st ρ
          → Covers (refine_fact folds ctx vars st f) ρ
      unfolding refine_fact constrain_by negate_cmp
      refine_fact_sound st (truth v true) h p cov =
          narrow_sound st v (λ a. constrain_ne a (pos 0))
            (λ a k. constrain_by_sound a (ρ.var v.id) (pos 0) (fits v.id) k ne true h) cov
      refine_fact_sound st (truth v false) h p cov =
          narrow_sound st v (λ a. constrain_eq a (pos 0))
            (λ a k. constrain_by_sound a (ρ.var v.id) (pos 0) (fits v.id) k ne false h) cov
      refine_fact_sound st (compare v op e sense) h p cov =
          elim (Option-cases (fold_const_int folds ctx e)) [
            | inl n ↦ rw (n, refine_fact) cov
            | inr q ↦
                let (c, r) = q in
                let same = fold_const_int_sound ctx e c p.0 p.1 r in
                rw (r, refine_fact)
                  (narrow_sound st v (λ a. constrain_by a (if sense then op else negate_cmp op) c)
                    (λ a k.
                      constrain_by_sound a (ρ.var v.id) c (fits v.id) k op sense
                        (ap (compare_values op (ρ.var v.id)) (sym same) ∙ h))
                    cov)
          ]

      refine_facts_sound :
          (st : IntervalMap) (fs : List Fact)
          → All (FactHolds ρ) fs
          → All (IsPlainFact ρ) fs
          → Covers st ρ
          → Covers (refine_facts folds ctx vars st fs) ρ
      unfolding refine_facts
      refine_facts_sound st [] h p cov = cov
      refine_facts_sound st (f ∷ fs) h p cov =
          refine_facts_sound (refine_fact folds ctx vars st f) fs h.1 p.1
            (refine_fact_sound st f h.0 p.0 cov)

      -- Refinement on the edge where a condition is true, or false, keeps each variable within its
      -- interval in every state in which the condition evaluates so. Clang's constant evaluator is
      -- right, the variables hold 64-bit values, no implicit cast in the condition changes a value
      -- and no literal reaches the sign bit of its type.
      pub refine_interval_on_edge_sound :
          (st : IntervalMap) (cond : Expr) (sense : Bool)
          → CastsKeep ρ cond
          → LiteralsFit cond
          → is_true (eval ρ cond) ≡ sense
          → Covers st ρ
          → Covers (refine_interval_on_edge folds ctx vars st cond sense) ρ
      unfolding refine_interval_on_edge
      refine_interval_on_edge_sound st cond sense h f t cov =
          refine_facts_sound st (walk_condition false cond sense)
            (walk_condition_sound ρ false cond sense h t) (walk-IsPlain ρ false cond sense h f) cov
