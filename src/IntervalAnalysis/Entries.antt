-- ===== src/IntervalAnalysis/Entries.antt =====
-- engine/IntervalAnalysis.h: in every state of the analysis, exactly the tracked variables have an entry.
use code_skeptic.Prelude.{
  ℕ, ◌≡◌, refl, sym, ap, ◌∙◌, Bool, true, false, not, ◌||◌, Option, none, some, List, [], ◌∷◌, ◌==◌,
  Bool-cases, Option-cases, inl, inr, update, ==_eq,
}
use code_skeptic.Prelude.Int.{ℤ}
use code_skeptic.Interval.{Interval, top}
use code_skeptic.Condition.{
  IntType, Var, Expr, Fact, truth, compare, bin, assign, compound, step, addr_of,
}
use code_skeptic.IntervalEval.{
  IntervalMap, narrow, refine_fact, refine_facts, fold_const_int, int_type_range,
}
use code_skeptic.IntervalEval.Scanf.{ScanfConv, is_numeric_scanf_conv, seed_within}
use code_skeptic.IntervalEval.Assign.{
  Call, Callee, scanf_family, untrusted_source, unknown_callee, Stmt, declare, evaluate, call,
  other_stmt, IntervalState, set, mark, set_origin, initial_interval, define, define_all, forget,
  apply_evaluate, seed, seed_all, seed_conv, seed_convs, parsed_format, apply_scanf, rewritten,
  rewrite_all, apply_unknown, apply_call, apply_interval_assign, as_int_var, addr_of_int_var,
  non_const_ref_args,
}

abbrev pub present : Option Interval → Bool
present none = false
present (some a) = true

module _ (vars : ℕ → Bool) where
  abbrev pub IsTracked : IntervalMap → Type 0
  IsTracked st = (x : ℕ) → present (st x) ≡ vars x

  pub set-IsTracked :
      (st : IntervalState) (v : Var) (a : Interval)
      → IsTracked st.iv
      → IsTracked (set true vars st v a).iv
  unfolding set
  set-IsTracked st v a h x = elim (Bool-cases (vars v.id)) [
    | inr n ↦ rw n (h x)
    | inl y ↦ rw y (elim (Bool-cases (x == v.id)) [
      | inl same ↦ rw (same) (sym (ap vars (==_eq x v.id same) ∙ y))
      | inr other ↦ rw other (h x)
    ])
  ]

  pub mark-iv : (st : IntervalState) (v : Var) (b : Bool) → (mark true vars st v b).iv ≡ st.iv
  unfolding mark
  mark-iv st v b = elim (Bool-cases (vars v.id)) [ inl y ↦ rw y refl | inr n ↦ rw n refl ]

  pub set_origin-iv :
      (st : IntervalState) (v : Var) (o : Option Expr) → (set_origin true vars st v o).iv ≡ st.iv
  unfolding set_origin
  set_origin-iv st v none = mark-iv st v false
  set_origin-iv st v (some e) = mark-iv st v _

  pub define-IsTracked :
      (st : IntervalState) (v : Var) (o : Option Expr)
      → IsTracked st.iv
      → IsTracked (define true vars st v o).iv
  unfolding define
  define-IsTracked st v o h x =
      let a = initial_interval true vars st o in
      ap (λ (m : IntervalMap). present (m x)) (set_origin-iv (set true vars st v a) v o)
      ∙ set-IsTracked st v a h x

  define_all-IsTracked :
      (st : IntervalState) (ds : List (Var × Option Expr))
      → IsTracked st.iv
      → IsTracked (define_all true vars st ds).iv
  unfolding define_all
  define_all-IsTracked st [] h = h
  define_all-IsTracked st (d ∷ ds) h =
      define_all-IsTracked (define true vars st d.0 d.1) ds (define-IsTracked st d.0 d.1 h)

  forget-IsTracked :
      (st : IntervalState) (o : Option (Var × IntType))
      → IsTracked st.iv
      → IsTracked (forget true vars st o).iv
  unfolding forget
  forget-IsTracked st none h = h
  forget-IsTracked st (some (v, t)) h = set-IsTracked st v top h

  assign-IsTracked :
      (st : IntervalState) (l r : Expr)
      → IsTracked st.iv
      → IsTracked (apply_evaluate true vars st (bin assign l r)).iv
  unfolding apply_evaluate
  assign-IsTracked st l r h = elim (Option-cases (as_int_var l)) [
    | inl n ↦ rw (n, apply_evaluate) h
    | inr p ↦ let (q, e) = p in rw (e, apply_evaluate) (define-IsTracked st q.0 (some r) h)
  ]

  apply_evaluate-IsTracked :
      (st : IntervalState) (e : Expr)
      → IsTracked st.iv
      → IsTracked (apply_evaluate true vars st e).iv
  unfolding apply_evaluate
  apply_evaluate-IsTracked st (bin assign l r) h = assign-IsTracked st l r h
  apply_evaluate-IsTracked st (bin compound l r) h = forget-IsTracked st (as_int_var l) h
  apply_evaluate-IsTracked st (step e) h = forget-IsTracked st (as_int_var e) h
  apply_evaluate-IsTracked st (addr_of e) h = forget-IsTracked st (as_int_var e) h
  apply_evaluate-IsTracked st (bin _ l r) h = h
  apply_evaluate-IsTracked st _ h = h

  filled-IsTracked :
      (st : IntervalState) (v : Var) (a : Interval) (b : Bool)
      → IsTracked st.iv
      → IsTracked (mark true vars (set true vars st v a) v b).iv
  filled-IsTracked st v a b h x =
      ap (λ (m : IntervalMap). present (m x)) (mark-iv (set true vars st v a) v b)
      ∙ set-IsTracked st v a h x

  pub seed-IsTracked :
      (st : IntervalState) (o : Option (Var × IntType))
      → IsTracked st.iv
      → IsTracked (seed true vars st o).iv
  unfolding seed
  seed-IsTracked st none h = h
  seed-IsTracked st (some (v, t)) h = elim (Option-cases (int_type_range t)) [
    | inl n ↦ rw (n, seed) h
    | inr p ↦ let (a, e) = p in rw (e, seed) (filled-IsTracked st v a true h)
  ]

  pub seed_all-IsTracked :
      (target : Expr → Option (Var × IntType)) (st : IntervalState) (es : List Expr)
      → IsTracked st.iv
      → IsTracked (seed_all true vars target st es).iv
  unfolding seed_all
  seed_all-IsTracked target st [] h = h
  seed_all-IsTracked target st (e ∷ es) h =
      seed_all-IsTracked target (seed true vars st (target e)) es (seed-IsTracked st (target e) h)

  pub seed_conv-IsTracked :
      (st : IntervalState) (c : ScanfConv) (o : Option (Var × IntType))
      → IsTracked st.iv
      → IsTracked (seed_conv true vars st c o).iv
  unfolding seed_conv
  seed_conv-IsTracked st c none h = h
  seed_conv-IsTracked st c (some (v, t)) h = elim (Option-cases (int_type_range t)) [
    | inl n ↦ rw (n, seed_conv) h
    | inr p ↦
        let (a, e) = p in
        elim (Bool-cases (not (is_numeric_scanf_conv c.conv) || (seed_within c a).empty)) [
          | inl y ↦ rw (e, y, seed_conv) h
          | inr n ↦ elim (Bool-cases (c.conv == 110)) [
            | inl y ↦ rw (e, n, y, seed_conv) (set-IsTracked st v (seed_within c a) h)
            | inr m ↦ rw (e, n, m, seed_conv) (filled-IsTracked st v (seed_within c a) true h)
          ]
        ]
  ]

  seed_convs-IsTracked :
      (st : IntervalState) (cs : List ScanfConv) (es : List Expr)
      → IsTracked st.iv
      → IsTracked (seed_convs true vars st cs es).iv
  unfolding seed_convs
  seed_convs-IsTracked st [] es h = h
  seed_convs-IsTracked st (c ∷ cs) [] h = elim (Bool-cases c.suppressed) [
    | inl y ↦ rw y (seed_convs-IsTracked st cs [] h)
    | inr n ↦ rw n h
  ]
  seed_convs-IsTracked st (c ∷ cs) (e ∷ es) h = elim (Bool-cases c.suppressed) [
    | inl y ↦ rw (y, seed_convs) (seed_convs-IsTracked st cs (e ∷ es) h)
    | inr n ↦
        rw (n, seed_convs)
          (seed_convs-IsTracked (seed_conv true vars st c (addr_of_int_var e)) cs es
            (seed_conv-IsTracked st c (addr_of_int_var e) h))
  ]

  apply_scanf-IsTracked :
      (st : IntervalState) (f : Bool) (fmt : Option (List ℕ)) (es : List Expr)
      → IsTracked st.iv
      → IsTracked (apply_scanf true vars st f fmt es).iv
  unfolding apply_scanf
  apply_scanf-IsTracked st f fmt es h = elim (Option-cases (parsed_format true vars fmt)) [
    | inl n ↦ rw (n, apply_scanf) (seed_all-IsTracked addr_of_int_var st es h)
    | inr p ↦ let (cs, e) = p in rw (e, apply_scanf) (seed_convs-IsTracked st cs _ h)
  ]

  pub rewritten-IsTracked :
      (st : IntervalState) (o : Option (Var × IntType))
      → IsTracked st.iv
      → IsTracked (rewritten true vars st o).iv
  unfolding rewritten
  rewritten-IsTracked st none h = h
  rewritten-IsTracked st (some (v, t)) h = set-IsTracked st v top h

  rewrite_all-IsTracked :
      (st : IntervalState) (es : List Expr)
      → IsTracked st.iv
      → IsTracked (rewrite_all true vars st es).iv
  unfolding rewrite_all
  rewrite_all-IsTracked st [] h = h
  rewrite_all-IsTracked st (e ∷ es) h =
      rewrite_all-IsTracked (rewritten true vars st (as_int_var e)) es
        (rewritten-IsTracked st (as_int_var e) h)

  apply_call-IsTracked :
      (st : IntervalState) (k : Callee) (c : Call)
      → IsTracked st.iv
      → IsTracked (apply_call true vars st k c).iv
  unfolding apply_call apply_unknown
  apply_call-IsTracked st (scanf_family f fmt) c h = apply_scanf-IsTracked st f fmt c.args h
  apply_call-IsTracked st untrusted_source c h =
      seed_all-IsTracked addr_of_int_var _ c.args
        (seed_all-IsTracked as_int_var st (non_const_ref_args c) h)
  apply_call-IsTracked st unknown_callee c h = rewrite_all-IsTracked st (non_const_ref_args c) h

  -- A statement leaves exactly the tracked variables with an entry.
  pub assign-IsTracked_all :
      (i : Stmt) (st : IntervalState)
      → IsTracked st.iv
      → IsTracked (apply_interval_assign true vars i st).iv
  unfolding apply_interval_assign
  assign-IsTracked_all (declare ds) st h = define_all-IsTracked st ds h
  assign-IsTracked_all (evaluate e) st h = apply_evaluate-IsTracked st e h
  assign-IsTracked_all (call c) st h = apply_call-IsTracked st c.callee c h
  assign-IsTracked_all other_stmt st h = h

  narrow-IsTracked :
      (st : IntervalMap) (v : Var) (f : Interval → Interval)
      → IsTracked st
      → IsTracked (narrow vars st v f)
  unfolding narrow
  narrow-IsTracked st v f h = elim (Bool-cases (vars v.id)) [
    | inr n ↦ rw (n, narrow) h
    | inl y ↦ elim (Option-cases (st v.id)) [
      | inl n ↦ rw (y, n, narrow) h
      | inr p ↦ let (a, e) = p in rw (y, e, narrow) (λ x. replaced y (f a) x)
    ]
  ]
    where
      replaced :
          vars v.id ≡ true → (b : Interval) (x : ℕ) → present (update st v.id (some b) x) ≡ vars x
      replaced y b x = elim (Bool-cases (x == v.id)) [
        | inl same ↦ rw same (sym (ap vars (==_eq x v.id same) ∙ y))
        | inr other ↦ rw other (h x)
      ]

  refine_fact-IsTracked :
      (folds : Expr → Option ℤ) (st : IntervalMap) (f : Fact)
      → IsTracked st
      → IsTracked (refine_fact folds true vars st f)
  unfolding refine_fact
  refine_fact-IsTracked folds st (truth v sense) h = narrow-IsTracked st v _ h
  refine_fact-IsTracked folds st (compare v op e sense) h =
      elim (Option-cases (fold_const_int folds true e)) [
        | inl n ↦ rw (n, refine_fact) h
        | inr p ↦ let (c, q) = p in rw (q, refine_fact) (narrow-IsTracked st v _ h)
      ]

  pub refine_facts-IsTracked :
      (folds : Expr → Option ℤ) (st : IntervalMap) (fs : List Fact)
      → IsTracked st
      → IsTracked (refine_facts folds true vars st fs)
  unfolding refine_facts
  refine_facts-IsTracked folds st [] h = h
  refine_facts-IsTracked folds st (f ∷ fs) h =
      refine_facts-IsTracked folds (refine_fact folds true vars st f) fs
        (refine_fact-IsTracked folds st f h)
