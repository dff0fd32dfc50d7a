-- ===== src/IntervalAnalysis/Engine.antt =====
-- engine/IntervalAnalysis.h and engine/DataflowEngine.h: the interval domain run by the engine.
use code_skeptic.Prelude.{
  ℕ, ◌≡◌, refl, ◌∙◌, Bool, true, false, Option, none, some, List, All, Bool-cases, Option-cases,
  inl, inr,
}
use code_skeptic.Prelude.Int.{ℤ}
use code_skeptic.Interval.{Interval, contains, is_singleton}
use code_skeptic.Condition.{Expr, walk_condition}
use code_skeptic.Condition.Meaning.{Env}
use code_skeptic.IntervalEval.{refine_interval_on_edge}
use code_skeptic.IntervalEval.Eval.{Covers}
use code_skeptic.IntervalEval.Assign.{Stmt, IntervalState}
use code_skeptic.Dataflow.{Analysis, Cfg, Element, stmt}
use code_skeptic.Dataflow.Semantics.{
  Concrete, Run, done, exec, skip, exec_other, AtExit, start, follow,
}
use code_skeptic.IntervalAnalysis.{
  member, initial_state, lattice_height, merge_entry, merge, same, transfer, refine_on_edge,
  widen_entry, widen,
}
use code_skeptic.IntervalAnalysis.Entries.{
  present, IsTracked, assign-IsTracked_all, refine_facts-IsTracked,
}
use code_skeptic.IntervalAnalysis.Execution.{Same, Exec, IsPlain, Decides}

module _ (ids : List ℕ) (seeds : ℕ → Option Interval) (folds : Expr → Option ℤ) where
  -- The states that arise: exactly the tracked variables have an interval.
  abbrev pub State : Type 0
  State = (s : IntervalState) × IsTracked (member ids) s.iv

  abbrev pub In : State → Env → Type 0
  In s ρ = Covers s.0.iv ρ

  pub initial-IsTracked : IsTracked (member ids) (initial_state ids seeds folds).iv
  unfolding initial_state
  initial-IsTracked x = elim (Bool-cases (member ids x)) [ inl y ↦ rw y refl | inr n ↦ rw n refl ]

  merge_entry-present :
      (o p : Option Interval) (b : Bool)
      → present o ≡ b
      → present p ≡ b
      → present (merge_entry ids seeds folds o p) ≡ b
  unfolding merge_entry
  merge_entry-present none none b h k = h
  merge_entry-present none (some c) b h k = k
  merge_entry-present (some a) none b h k = h
  merge_entry-present (some a) (some c) b h k = h

  pub merge-IsTracked :
      (s t : IntervalState)
      → IsTracked (member ids) s.iv
      → IsTracked (member ids) t.iv
      → IsTracked (member ids) (merge ids seeds folds s t).iv
  unfolding merge
  merge-IsTracked s t h k x = merge_entry-present (s.iv x) (t.iv x) (member ids x) (h x) (k x)

  pub transfer-IsTracked :
      (i : Stmt) (s : IntervalState)
      → IsTracked (member ids) s.iv
      → IsTracked (member ids) (transfer ids seeds folds i s).iv
  unfolding transfer
  transfer-IsTracked i s h = assign-IsTracked_all (member ids) i s h

  pub refine-IsTracked :
      (c : Expr) (sense : Bool) (s : IntervalState)
      → IsTracked (member ids) s.iv
      → IsTracked (member ids) (refine_on_edge ids seeds folds c sense s).iv
  unfolding refine_on_edge refine_interval_on_edge
  refine-IsTracked c sense s h =
      refine_facts-IsTracked (member ids) folds s.iv (walk_condition false c sense) h

  widen_entry-present : (o : Option Interval) → present (widen_entry ids seeds folds o) ≡ present o
  unfolding widen_entry
  widen_entry-present none = refl
  widen_entry-present (some a) = elim (Option-cases (is_singleton a)) [
    | inl e ↦ rw (e, widen_entry) refl
    | inr p ↦ let (c, e) = p in rw (e, widen_entry) refl
  ]

  pub widen-IsTracked :
      (s : IntervalState)
      → IsTracked (member ids) s.iv
      → IsTracked (member ids) (widen ids seeds folds s).iv
  unfolding widen
  widen-IsTracked s h x = widen_entry-present (s.iv x) ∙ h x

  module _ (fatal : Stmt → Bool) (infeasible : Expr → Bool → Bool) where
    -- The domain as the engine takes it; what the class does not define is the identity.
    abbrev pub refine_step : Expr → Bool → State → State
    refine_step c sense s =
        (refine_on_edge ids seeds folds c sense s.0, refine-IsTracked c sense s.0 s.1)

    abbrev pub widen_step : State → State
    widen_step s = (widen ids seeds folds s.0, widen-IsTracked s.0 s.1)

    abbrev pub interval_analysis : Analysis State Stmt Unit Expr
    interval_analysis = record {
      initial = (initial_state ids seeds folds, initial-IsTracked);
      lattice_height = lattice_height ids seeds folds;
      merge = λ s t. (merge ids seeds folds s.0 t.0, merge-IsTracked s.0 t.0 s.1 t.1);
      same = λ s t. same ids seeds folds s.0 t.0;
      apply_guards = λ i s. s;
      transfer = λ i s. (transfer ids seeds folds i s.0, transfer-IsTracked i s.0 s.1);
      transfer_element = λ o s. s;
      refine = some refine_step;
      widen = some widen_step;
      infeasible = infeasible;
      is_fatal = fatal;
    }

    module _ (IsState : Env → Type 0) where
      -- Executions start within the seeds, and conditions are decided in states of the program.
      abbrev pub executions : Concrete Env Stmt Unit Expr
      executions = record {
        Initial = λ ρ. (x : ℕ) (a : Interval) → seeds x ≡ some a → contains a (ρ.var x) ≡ true;
        Exec = Exec;
        ExecOther = λ o ρ σ. Same ρ σ;
        Holds = λ c sense ρ. IsState ρ × Decides c sense ρ;
      }

      -- The executions that run plain statements only.
      abbrev pub plain_executions : Concrete Env Stmt Unit Expr
      plain_executions = record executions { Exec = λ i ρ σ. IsPlain i × Exec i ρ σ }

      abbrev pub IsPlainElement : Element Stmt Unit → Type 0
      IsPlainElement (stmt i) = IsPlain i
      IsPlainElement _ = Unit

      module _ (g : Cfg Stmt Unit Expr) where
        plain-Run :
            (es : List (Element Stmt Unit)) (ρ σ : Env)
            → All IsPlainElement es
            → Run g interval_analysis executions es ρ σ
            → Run g interval_analysis plain_executions es ρ σ
        plain-Run es ρ σ p done = done
        plain-Run es ρ σ p (exec f x r) = exec f (p.0, x) (plain-Run _ _ _ p.1 r)
        plain-Run es ρ σ p (skip r) = skip (plain-Run _ _ _ p.1 r)
        plain-Run es ρ σ p (exec_other x r) = exec_other x (plain-Run _ _ _ p.1 r)

        -- An execution of a graph of plain statements runs plain statements only.
        pub plain-AtExit :
            (b : ℕ) (ρ : Env)
            → ((b : ℕ) → All IsPlainElement (g.elements b))
            → AtExit g interval_analysis executions b ρ
            → AtExit g interval_analysis plain_executions b ρ
        plain-AtExit b ρ p (start i r q) = start i (plain-Run _ _ _ (p _) r) q
        plain-AtExit b ρ p (follow h m t r q) =
            follow (plain-AtExit _ _ p h) m t (plain-Run _ _ _ (p _) r) q
