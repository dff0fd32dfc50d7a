-- ===== src/IntervalAnalysis/Transfer.antt =====
-- engine/IntervalEval.cpp: a statement keeps every tracked variable within its interval.
use code_skeptic.Prelude.{
  ℕ, ◌≡◌, refl, sym, ap, ◌∙◌, Bool, true, false, not, ◌||◌, Option, none, some, List, [], ◌∷◌, ◌==◌,
  arith, drop, All, ◌≢◌, zero, suc, Bool-cases, Option-cases, inl, inr, update, ==_eq,
}
use code_skeptic.Prelude.Int.{ℤ}
use code_skeptic.Interval.{Interval, top, contains}
use code_skeptic.Interval.Lattice.{contains-live}
use code_skeptic.Interval.Sound.{contains-top}
use code_skeptic.Condition.{IntType, Var, Expr, bin, assign, compound, step, addr_of}
use code_skeptic.Condition.Meaning.{Env, convert, LiteralsFit}
use code_skeptic.IntervalEval.{IntervalMap, eval_interval, int_type_range, or_top}
use code_skeptic.IntervalEval.Values.{contains-int_type_range}
use code_skeptic.IntervalEval.Scanf.{ScanfConv, is_numeric_scanf_conv, seed_within}
use code_skeptic.IntervalEval.Eval.{Covers, eval_interval_sound}
use code_skeptic.IntervalEval.Assign.{
  Call, Callee, scanf_family, untrusted_source, unknown_callee, Stmt, declare, evaluate, call,
  other_stmt, IntervalState, set, initial_interval, define, define_all, forget, apply_evaluate,
  seed, seed_all, seed_conv, seed_convs, parsed_format, apply_scanf, rewritten, rewrite_all,
  apply_unknown, apply_call, apply_interval_assign, as_int_var, addr_of_int_var, non_const_ref_args,
}
use code_skeptic.IntervalAnalysis.Entries.{
  present, IsTracked, mark-iv, set_origin-iv, define-IsTracked, seed-IsTracked, seed_all-IsTracked,
  seed_conv-IsTracked, rewritten-IsTracked,
}
use code_skeptic.IntervalAnalysis.Execution.{
  Same, Writes, Stores, AnyValue, Delivers, OfType, Initialises, ExecDecls, ExecAssign,
  ExecEvaluate, ExecEach, ExecConvs, ExecScanf, ExecCall, Exec, InitialiserFits, IsRanged,
  IsRangedCall, IsPlain,
}
use code_skeptic.IntervalAnalysis.Fields.{contains-seed_within, Delivers-is_numeric}

pub unchanged-Covers : (m : IntervalMap) (ρ σ : Env) → Same ρ σ → Covers m ρ → Covers m σ
unchanged-Covers m ρ σ s c x a e = rw (s x) (c x a e)

module _ (vars : ℕ → Bool) where
  -- A variable without an entry may change.
  untracked-Covers :
      (m : IntervalMap) (v : ℕ) (ρ σ : Env)
      → IsTracked vars m
      → vars v ≡ false
      → Writes v ρ σ
      → Covers m ρ
      → Covers m σ
  untracked-Covers m v ρ σ h n w c x a e = elim (Bool-cases (x == v)) [
    | inl same ↦
        let absent : present (m x) ≡ false = h x ∙ ap vars (==_eq x v same) ∙ n in
        absurd (cc (absent, e))
    | inr other ↦ rw (w x other) (c x a e)
  ]

  set-Covers :
      (st : IntervalState) (v : Var) (a : Interval) (ρ σ : Env)
      → IsTracked vars st.iv
      → Writes v.id ρ σ
      → contains a (σ.var v.id) ≡ true
      → Covers st.iv ρ
      → Covers (set true vars st v a).iv σ
  unfolding set
  set-Covers st v a ρ σ h w i c = elim (Bool-cases (vars v.id)) [
    | inr n ↦ rw (n, set) (untracked-Covers st.iv v.id ρ σ h n w c)
    | inl y ↦ rw (y, set) replaced
  ]
    where
      replaced :
          (x : ℕ) (b : Interval)
          → update st.iv v.id (some a) x ≡ some b
          → contains b (σ.var x) ≡ true
      replaced x b e = elim (Bool-cases (x == v.id)) [
        | inl same ↦
            let s : a ≡ b = let z = rw same at e in cc in
            rw (==_eq x v.id same) (ap (λ (d : Interval). contains d (σ.var v.id)) (sym s) ∙ i)
        | inr other ↦ rw (w x other) (c x b (rw other at e))
      ]

  define-Covers :
      (st : IntervalState) (v : Var) (o : Option Expr) (ρ σ : Env)
      → IsTracked vars st.iv
      → Writes v.id ρ σ
      → InitialiserFits o
      → Initialises o ρ (σ.var v.id)
      → Covers st.iv ρ
      → Covers (define true vars st v o).iv σ
  unfolding define initial_interval
  define-Covers st v none ρ σ h w f i c =
      rw (set_origin-iv vars (set true vars st v top) v none)
        (set-Covers st v top ρ σ h w (contains-top (σ.var v.id)) c)
  define-Covers st v (some e) ρ σ h w f i c =
      let a = eval_interval true st.iv e in
      rw (set_origin-iv vars (set true vars st v a) v (some e))
        (set-Covers st v a ρ σ h w (rw i (eval_interval_sound st.iv ρ c true e f)) c)

  define_all-Covers :
      (st : IntervalState) (ds : List (Var × Option Expr)) (ρ σ : Env)
      → IsTracked vars st.iv
      → All (λ d. InitialiserFits d.1) ds
      → ExecDecls ds ρ σ
      → Covers st.iv ρ
      → Covers (define_all true vars st ds).iv σ
  unfolding define_all
  define_all-Covers st [] ρ σ h f x c = unchanged-Covers st.iv ρ σ x c
  define_all-Covers st ((v, o) ∷ ds) ρ σ h f (τ, w, i, x) c =
      define_all-Covers (define true vars st v o) ds τ σ (define-IsTracked vars st v o h) f.1 x
        (define-Covers st v o ρ τ h w f.0 i c)

  forget-Covers :
      (st : IntervalState) (o : Option (Var × IntType)) (ρ σ : Env)
      → IsTracked vars st.iv
      → Stores AnyValue o ρ σ
      → Covers st.iv ρ
      → Covers (forget true vars st o).iv σ
  unfolding forget
  forget-Covers st none ρ σ h x c = unchanged-Covers st.iv ρ σ x c
  forget-Covers st (some (v, t)) ρ σ h x c =
      set-Covers st v top ρ σ h x.0 (contains-top (σ.var v.id)) c

  assign-Covers :
      (st : IntervalState) (l r : Expr) (o : Option (Var × IntType)) (ρ σ : Env)
      → as_int_var l ≡ o
      → IsTracked vars st.iv
      → LiteralsFit r
      → ExecAssign o r ρ σ
      → Covers st.iv ρ
      → Covers (apply_evaluate true vars st (bin assign l r)).iv σ
  unfolding apply_evaluate
  assign-Covers st l r none ρ σ e h f x c = rw (e, apply_evaluate) (unchanged-Covers st.iv ρ σ x c)
  assign-Covers st l r (some (v, t)) ρ σ e h f x c =
      rw (e, apply_evaluate) (define-Covers st v (some r) ρ σ h x.0 f x.1 c)

  evaluate-Covers :
      (st : IntervalState) (e : Expr) (ρ σ : Env)
      → IsTracked vars st.iv
      → IsPlain (evaluate e)
      → ExecEvaluate e ρ σ
      → Covers st.iv ρ
      → Covers (apply_evaluate true vars st e).iv σ
  unfolding apply_evaluate
  evaluate-Covers st (bin assign l r) ρ σ h f x c =
      assign-Covers st l r (as_int_var l) ρ σ refl h f x c
  evaluate-Covers st (bin compound l r) ρ σ h f x c = forget-Covers st (as_int_var l) ρ σ h x c
  evaluate-Covers st (step e) ρ σ h f x c = forget-Covers st (as_int_var e) ρ σ h x c
  evaluate-Covers st (addr_of e) ρ σ h f x c = forget-Covers st (as_int_var e) ρ σ h x c
  evaluate-Covers st (bin _ l r) ρ σ h f x c = unchanged-Covers st.iv ρ σ x c
  evaluate-Covers st _ ρ σ h f x c = unchanged-Covers st.iv ρ σ x c

  OfType-range :
      (t : IntType) (v : ℤ)
      → int_type_range t ≢ none
      → OfType t v
      → (a : Interval) × (int_type_range t ≡ some a) × (contains a v ≡ true)
  OfType-range t v ranged (n, e) = elim (Option-cases (int_type_range t)) [
    | inl no_ ↦ absurd (ranged no_)
    | inr p ↦
        let (a, q) = p in
        (
          a,
          q,
          rw e (ap (λ o. contains (or_top o) (convert t n)) (sym q) ∙ contains-int_type_range t n),
        )
  ]

  seed-Covers :
      (st : IntervalState) (o : Option (Var × IntType)) (ρ σ : Env)
      → IsTracked vars st.iv
      → IsRanged o
      → Stores OfType o ρ σ
      → Covers st.iv ρ
      → Covers (seed true vars st o).iv σ
  unfolding seed
  seed-Covers st none ρ σ h r x c = unchanged-Covers st.iv ρ σ x c
  seed-Covers st (some (v, t)) ρ σ h r x c =
      let (a, e, i) = OfType-range t (σ.var v.id) r x.1 in
      rw (e, seed)
        (rw (mark-iv vars (set true vars st v a) v true) (set-Covers st v a ρ σ h x.0 i c))

  seed_all-Covers :
      (target : Expr → Option (Var × IntType)) (st : IntervalState) (es : List Expr) (ρ σ : Env)
      → IsTracked vars st.iv
      → All (λ e. IsRanged (target e)) es
      → ExecEach OfType target es ρ σ
      → Covers st.iv ρ
      → Covers (seed_all true vars target st es).iv σ
  unfolding seed_all
  seed_all-Covers target st [] ρ σ h r x c = unchanged-Covers st.iv ρ σ x c
  seed_all-Covers target st (e ∷ es) ρ σ h r (τ, w, x) c =
      seed_all-Covers target (seed true vars st (target e)) es τ σ
        (seed-IsTracked vars st (target e) h) r.1 x (seed-Covers st (target e) ρ τ h r.0 w c)

  seed_conv-Covers :
      (st : IntervalState) (d : ScanfConv) (o : Option (Var × IntType)) (ρ σ : Env)
      → IsTracked vars st.iv
      → IsRanged o
      → Stores (λ t v. OfType t v × Delivers d v) o ρ σ
      → Covers st.iv ρ
      → Covers (seed_conv true vars st d o).iv σ
  unfolding seed_conv
  seed_conv-Covers st d none ρ σ h r x c = unchanged-Covers st.iv ρ σ x c
  seed_conv-Covers st d (some (v, t)) ρ σ h r (w, (o, k)) c =
      let (a, e, i) = OfType-range t (σ.var v.id) r o in
      let inside = contains-seed_within d a (σ.var v.id) k i in
      let filled = set-Covers st v (seed_within d a) ρ σ h w inside c in
      let numeric = Delivers-is_numeric d (σ.var v.id) k in
      let live = contains-live (seed_within d a) (σ.var v.id) inside in
      let guard : (not (is_numeric_scanf_conv d.conv) || (seed_within d a).empty) ≡ false =
        ground arith in
      elim (Bool-cases (d.conv == 110)) [
        | inl y ↦ rw (e, guard, y, seed_conv) filled
        | inr n ↦
            rw (e, guard, n, seed_conv)
              (rw (mark-iv vars (set true vars st v (seed_within d a)) v true) filled)
      ]

  seed_convs-Covers :
      (st : IntervalState) (ds : List ScanfConv) (es : List Expr) (ρ σ : Env)
      → IsTracked vars st.iv
      → All (λ e. IsRanged (addr_of_int_var e)) es
      → ExecConvs ds es ρ σ
      → Covers st.iv ρ
      → Covers (seed_convs true vars st ds es).iv σ
  unfolding seed_convs
  seed_convs-Covers st [] es ρ σ h r x c = unchanged-Covers st.iv ρ σ x c
  seed_convs-Covers st (d ∷ ds) [] ρ σ h r x c = elim (Bool-cases d.suppressed) [
    | inl y ↦ rw y (seed_convs-Covers st ds [] ρ σ h r (rw (y, ExecConvs) at x) c)
    | inr n ↦ rw n (unchanged-Covers st.iv ρ σ (rw (n, ExecConvs) at x) c)
  ]
  seed_convs-Covers st (d ∷ ds) (e ∷ es) ρ σ h r x c = elim (Bool-cases d.suppressed) [
    | inl y ↦
        rw (y, seed_convs) (seed_convs-Covers st ds (e ∷ es) ρ σ h r (rw (y, ExecConvs) at x) c)
    | inr n ↦
        let (τ, w, rest) = rw (n, ExecConvs) at x in
        rw (n, seed_convs)
          (seed_convs-Covers (seed_conv true vars st d (addr_of_int_var e)) ds es τ σ
            (seed_conv-IsTracked vars st d (addr_of_int_var e) h) r.1 rest
            (seed_conv-Covers st d (addr_of_int_var e) ρ τ h r.0 w c))
  ]

  All-drop : {A : Type 0} (P : A → Type 0) (n : ℕ) (xs : List A) → All P xs → All P (drop n xs)
  All-drop P zero xs h = h
  All-drop P (suc n) [] h = tt
  All-drop P (suc n) (x ∷ xs) h = All-drop P n xs h.1

  scanf-Covers :
      (st : IntervalState) (f : Bool) (fmt : Option (List ℕ)) (es : List Expr) (ρ σ : Env)
      → IsTracked vars st.iv
      → All (λ e. IsRanged (addr_of_int_var e)) es
      → ExecScanf f (parsed_format true vars fmt) es ρ σ
      → Covers st.iv ρ
      → Covers (apply_scanf true vars st f fmt es).iv σ
  unfolding apply_scanf
  scanf-Covers st f fmt es ρ σ h r x c = elim (Option-cases (parsed_format true vars fmt)) [
    | inl n ↦ rw (n, apply_scanf) (seed_all-Covers addr_of_int_var st es ρ σ h r (rw n at x) c)
    | inr p ↦
        let (ds, e) = p in
        rw (e, apply_scanf)
          (seed_convs-Covers st ds _ ρ σ h (All-drop (λ a. IsRanged (addr_of_int_var a)) _ es r)
            (rw e at x) c)
  ]

  rewritten-Covers :
      (st : IntervalState) (o : Option (Var × IntType)) (ρ σ : Env)
      → IsTracked vars st.iv
      → Stores AnyValue o ρ σ
      → Covers st.iv ρ
      → Covers (rewritten true vars st o).iv σ
  unfolding rewritten
  rewritten-Covers st none ρ σ h x c = unchanged-Covers st.iv ρ σ x c
  rewritten-Covers st (some (v, t)) ρ σ h x c =
      set-Covers st v top ρ σ h x.0 (contains-top (σ.var v.id)) c

  rewrite_all-Covers :
      (st : IntervalState) (es : List Expr) (ρ σ : Env)
      → IsTracked vars st.iv
      → ExecEach AnyValue as_int_var es ρ σ
      → Covers st.iv ρ
      → Covers (rewrite_all true vars st es).iv σ
  unfolding rewrite_all
  rewrite_all-Covers st [] ρ σ h x c = unchanged-Covers st.iv ρ σ x c
  rewrite_all-Covers st (e ∷ es) ρ σ h (τ, w, x) c =
      rewrite_all-Covers (rewritten true vars st (as_int_var e)) es τ σ
        (rewritten-IsTracked vars st (as_int_var e) h) x
        (rewritten-Covers st (as_int_var e) ρ τ h w c)

  call-Covers :
      (st : IntervalState) (k : Callee) (d : Call) (ρ σ : Env)
      → IsTracked vars st.iv
      → IsRangedCall k d
      → ExecCall k d ρ σ
      → Covers st.iv ρ
      → Covers (apply_call true vars st k d).iv σ
  unfolding apply_call apply_unknown
  call-Covers st (scanf_family f fmt) d ρ σ h r x c = scanf-Covers st f fmt d.args ρ σ h r x c
  call-Covers st untrusted_source d ρ σ h r (τ, w, x) c =
      seed_all-Covers addr_of_int_var (seed_all true vars as_int_var st (non_const_ref_args d))
        d.args τ σ (seed_all-IsTracked vars as_int_var st (non_const_ref_args d) h) r.1 x
        (seed_all-Covers as_int_var st (non_const_ref_args d) ρ τ h r.0 w c)
  call-Covers st unknown_callee d ρ σ h r x c =
      rewrite_all-Covers st (non_const_ref_args d) ρ σ h x c

  pub apply_interval_assign_sound :
      (i : Stmt) (st : IntervalState) (ρ σ : Env)
      → IsTracked vars st.iv
      → IsPlain i
      → Exec i ρ σ
      → Covers st.iv ρ
      → Covers (apply_interval_assign true vars i st).iv σ
  unfolding apply_interval_assign
  apply_interval_assign_sound (declare ds) st ρ σ h p x c = define_all-Covers st ds ρ σ h p x c
  apply_interval_assign_sound (evaluate e) st ρ σ h p x c = evaluate-Covers st e ρ σ h p x c
  apply_interval_assign_sound (call d) st ρ σ h p x c = call-Covers st d.callee d ρ σ h p x c
  apply_interval_assign_sound other_stmt st ρ σ h p x c = unchanged-Covers st.iv ρ σ x c
