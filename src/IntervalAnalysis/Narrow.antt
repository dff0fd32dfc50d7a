-- ===== src/IntervalAnalysis/Narrow.antt =====
-- engine/IntervalEval.cpp: refinement on an edge only narrows.
use code_skeptic.Prelude.{
  ℕ, ◌≡◌, refl, sym, ap, ◌∙◌, Bool, true, false, Option, some, List, [], ◌∷◌, ◌==◌, if◌then◌else◌,
  Bool-cases, Option-cases, inl, inr, update, ==_eq,
}
use code_skeptic.Prelude.Int.{ℤ, pos, eqb_ℤ}
use code_skeptic.Interval.{
  Interval, contains, bottom, int64_max, int64_min, at_most, at_least, constant,
}
use code_skeptic.Interval.Arith.{
  constrain_lt, constrain_le, constrain_gt, constrain_ge, constrain_eq, constrain_ne,
}
use code_skeptic.Interval.Lattice.{contains-meet_left}
use code_skeptic.Interval.Guards.{constrain_ne_sound}
use code_skeptic.Condition.{BinOp, lt, gt, le, ge, eq, ne, Var, Expr, Fact, truth, compare}
use code_skeptic.Condition.Meaning.{Env}
use code_skeptic.IntervalEval.{
  IntervalMap, narrow, refine_fact, refine_facts, fold_const_int, constrain_by, negate_cmp,
}
use code_skeptic.IntervalEval.Eval.{Covers}
use code_skeptic.IntervalAnalysis.{same}

bottom-empty : (v : ℤ) → contains bottom v ≡ true → ⊥
unfolding contains
bottom-empty v h = cc

lt-narrows : (a : Interval) (c v : ℤ) → contains (constrain_lt a c) v ≡ true → contains a v ≡ true
unfolding constrain_lt
lt-narrows a c v h = elim (Bool-cases (eqb_ℤ c int64_min)) [
  | inl y ↦ absurd (bottom-empty v (rw (y, constrain_lt) at h))
  | inr n ↦ contains-meet_left a _ v (rw (n, constrain_lt) at h)
]

gt-narrows : (a : Interval) (c v : ℤ) → contains (constrain_gt a c) v ≡ true → contains a v ≡ true
unfolding constrain_gt
gt-narrows a c v h = elim (Bool-cases (eqb_ℤ c int64_max)) [
  | inl y ↦ absurd (bottom-empty v (rw (y, constrain_gt) at h))
  | inr n ↦ contains-meet_left a _ v (rw (n, constrain_gt) at h)
]

constrain_by-narrows :
    (a : Interval) (op : BinOp) (c v : ℤ)
    → contains (constrain_by a op c) v ≡ true
    → contains a v ≡ true
unfolding constrain_by constrain_le constrain_ge constrain_eq
constrain_by-narrows a lt c v h = lt-narrows a c v h
constrain_by-narrows a le c v h = contains-meet_left a (at_most c) v h
constrain_by-narrows a gt c v h = gt-narrows a c v h
constrain_by-narrows a ge c v h = contains-meet_left a (at_least c) v h
constrain_by-narrows a eq c v h = contains-meet_left a (constant c) v h
constrain_by-narrows a ne c v h = (constrain_ne_sound a c v).1 h
constrain_by-narrows a op c v h = h

module _ (vars : ℕ → Bool) (ρ : Env) where
  narrow-below :
      (st : IntervalMap) (v : Var) (f : Interval → Interval)
      → ((a : Interval) → contains (f a) (ρ.var v.id) ≡ true → contains a (ρ.var v.id) ≡ true)
      → Covers (narrow vars st v f) ρ
      → Covers st ρ
  unfolding narrow
  narrow-below st v f below c = elim (Bool-cases (vars v.id)) [
    | inr n ↦ rw (n, narrow) at c
    | inl y ↦ elim (Option-cases (st v.id)) [
      | inl n ↦ rw (y, n, narrow) at c
      | inr p ↦ let (a, e) = p in at_var a e (rw (y, e, narrow) at c)
    ]
  ]
    where
      at_var :
          (a : Interval) → st v.id ≡ some a → Covers (update st v.id (some (f a))) ρ → Covers st ρ
      at_var a e c x b q = elim (Bool-cases (x == v.id)) [
        | inl same ↦
            let s : a ≡ b =
              let z : some a ≡ some b = sym e ∙ ap st (sym (==_eq x v.id same)) ∙ q in cc in
            let at_x = ap (λ (d : Interval). contains d (ρ.var v.id)) s in
            rw (==_eq x v.id same)
              (sym at_x ∙ below a (rw (==_eq x v.id same) at (c x (f a) (rw same refl))))
        | inr other ↦ c x b (rw other q)
      ]

  fact-below :
      (folds : Expr → Option ℤ) (st : IntervalMap) (f : Fact)
      → Covers (refine_fact folds true vars st f) ρ
      → Covers st ρ
  unfolding refine_fact
  fact-below folds st (truth v true) c =
      narrow-below st v (λ a. constrain_ne a (pos 0))
        (λ a h. (constrain_ne_sound a (pos 0) (ρ.var v.id)).1 h) c
  fact-below folds st (truth v false) c =
      narrow-below st v (λ a. constrain_eq a (pos 0))
        (λ a h. unfold constrain_eq in contains-meet_left a (constant (pos 0)) (ρ.var v.id) h) c
  fact-below folds st (compare v op e sense) c = elim (Option-cases (fold_const_int folds true e)) [
    | inl n ↦ rw (n, refine_fact) at c
    | inr p ↦
        let (k, q) = p in
        narrow-below st v (λ a. constrain_by a (if sense then op else negate_cmp op) k)
          (λ a h. constrain_by-narrows a (if sense then op else negate_cmp op) k (ρ.var v.id) h)
          (rw (q, refine_fact) at c)
  ]

  pub facts-below :
      (folds : Expr → Option ℤ) (st : IntervalMap) (fs : List Fact)
      → Covers (refine_facts folds true vars st fs) ρ
      → Covers st ρ
  unfolding refine_facts
  facts-below folds st [] c = c
  facts-below folds st (f ∷ fs) c =
      fact-below folds st f (facts-below folds (refine_fact folds true vars st f) fs c)
