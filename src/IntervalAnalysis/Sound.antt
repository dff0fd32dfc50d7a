-- ===== src/IntervalAnalysis/Sound.antt =====
-- engine/IntervalAnalysis.h and engine/DataflowEngine.h: the stored intervals cover every execution.
use code_skeptic.Prelude.{ℕ, ◌≡◌, Bool, true, false, Option, some, List, subst}
use code_skeptic.Prelude.Int.{ℤ}
use code_skeptic.Interval.{Interval}
use code_skeptic.Condition.{Expr, walk_condition}
use code_skeptic.Condition.Meaning.{Env, eval}
use code_skeptic.IntervalEval.{refine_interval_on_edge}
use code_skeptic.IntervalEval.Refine.{refine_interval_on_edge_sound}
use code_skeptic.IntervalEval.Assign.{Stmt}
use code_skeptic.Dataflow.Semantics.{IsSound}
use code_skeptic.IntervalAnalysis.{member, transfer, refine_on_edge}
use code_skeptic.IntervalAnalysis.Execution.{Decides}
use code_skeptic.IntervalAnalysis.Transfer.{unchanged-Covers, apply_interval_assign_sound}
use code_skeptic.IntervalAnalysis.Narrow.{facts-below}
use code_skeptic.IntervalAnalysis.Engine.{
  State, In, interval_analysis, plain_executions, refine_step, widen_step,
}
use code_skeptic.IntervalAnalysis.Orders.{
  initial-Covers, merge-left, merge-right, same-forth, same-back, widen-Covers,
}

module _ (ids : List ℕ) (seeds : ℕ → Option Interval) (folds : Expr → Option ℤ)
    (fatal : Stmt → Bool) (infeasible : Expr → Bool → Bool) (IsState : Env → Type 0)
    (right : (ρ : Env) → IsState ρ → (e : Expr) (c : ℤ) → folds e ≡ some c → eval ρ e ≡ c)
    (refutes : (c : Expr) (sense : Bool) (ρ : Env)
      → infeasible c sense ≡ true
      → IsState ρ
      → ¬ Decides c sense ρ) where
  step_Covers :
      (c : Expr) (sense : Bool) (s : State ids seeds folds) (ρ : Env)
      → IsState ρ
      → Decides c sense ρ
      → In ids seeds folds s ρ
      → In ids seeds folds (refine_step ids seeds folds fatal infeasible c sense s) ρ
  unfolding refine_on_edge
  step_Covers c sense s ρ state (h, f, t, fits) i =
      refine_interval_on_edge_sound ρ folds (right ρ state) (member ids) true fits s.0.iv c sense h
        f t i

  step-below :
      (c : Expr) (sense : Bool) (s : State ids seeds folds) (ρ : Env)
      → In ids seeds folds (refine_step ids seeds folds fatal infeasible c sense s) ρ
      → In ids seeds folds s ρ
  unfolding refine_on_edge refine_interval_on_edge
  step-below c sense s ρ i =
      facts-below (member ids) ρ folds s.0.iv (walk_condition false c sense) i

  some_same : {A : Type 0} (x y : A) → some x ≡ some y → x ≡ y
  some_same x y e = cc

  pub interval_analysis-IsSound :
      IsSound
        (interval_analysis ids seeds folds fatal infeasible)
        (plain_executions ids seeds folds fatal infeasible IsState)
        (In ids seeds folds)
  unfolding transfer
  interval_analysis-IsSound = record {
    initial = λ ρ h. initial-Covers ids seeds folds ρ h;
    merge_left = merge-left ids seeds folds;
    merge_right = merge-right ids seeds folds;
    same = same-forth ids seeds folds;
    same_back = same-back ids seeds folds;
    transfer = λ i s ρ σ x c. apply_interval_assign_sound (member ids) i s.0 ρ σ s.1 x.0 x.1 c;
    transfer_element = λ o s ρ σ x c. unchanged-Covers s.0.iv ρ σ x c;
    refine = λ f e c sense s ρ h i.
        subst (λ g. In ids seeds folds (g c sense s) ρ)
          (some_same (refine_step ids seeds folds fatal infeasible) f e)
          (step_Covers c sense s ρ h.0 h.1 i);
    refine_below = λ f e c sense s ρ i.
        subst (λ g. In ids seeds folds (g c sense s) ρ → In ids seeds folds s ρ)
          (some_same (refine_step ids seeds folds fatal infeasible) f e) (step-below c sense s ρ) i;
    widen = λ f e s ρ h.
        subst (λ g. In ids seeds folds (g s) ρ)
          (some_same (widen_step ids seeds folds fatal infeasible) f e)
          (widen-Covers ids seeds folds s ρ h);
    infeasible = λ c sense ρ e h. refutes c sense ρ e h.0 h.1;
  }
