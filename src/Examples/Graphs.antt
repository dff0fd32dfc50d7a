-- ===== src/Examples/Graphs.antt =====
-- engine/DataflowEngine.h and engine/IntervalAnalysis.h: a function with one branch, run by the engine.
--   x = 12;  if (x < (1 << 5)) { y = x; }
use code_skeptic.Prelude.{
  ℕ, zero, suc, ◌*◌, ◌^◌, ◌≡◌, ◌∙◌, All, refl, sym, ap, subst, ◌==◌, if◌then◌else◌, Bool, true,
  false, Bool-cases, inl, inr, some, none, List, [], ◌∷◌, Option, arith,
}
use code_skeptic.Prelude.Int.{ℤ, pos, negsuc}
use mathlib.Core.List.{Memᴰ}
use code_skeptic.Interval.{Interval, range, contains}
use code_skeptic.Interval.Guards.{IsInt64}
use code_skeptic.Condition
use code_skeptic.Condition.{IntType, Expr, literal, ref, bin, lt, other_op}
use code_skeptic.Condition.Meaning.{Env, eval, binary}
use code_skeptic.IntervalEval.Assign.{Stmt, evaluate}
use code_skeptic.Dataflow.{Cfg, Element, stmt, branch}
use code_skeptic.Dataflow.Loop.{run_dataflow, loop, start}
use code_skeptic.Dataflow.Semantics.{IsGraph, AtExit, follow, Run, done, exec}
use code_skeptic.Dataflow.Sound.{run_dataflow_sound}
use code_skeptic.Dataflow.Pending.{count, pending_once}
use code_skeptic.IntervalAnalysis.Execution.{Decides}
use code_skeptic.IntervalAnalysis.Engine.{
  State, In, interval_analysis, executions, plain_executions, IsPlainElement, plain-AtExit,
}
use code_skeptic.IntervalAnalysis.Sound.{interval_analysis-IsSound}
use code_skeptic.Examples.Conditions.{x, y, lit, loaded_var}

abbrev ids : List ℕ
ids = 0 ∷ 1 ∷ []

no_seeds : ℕ → Option Interval
no_seeds n = none

-- Clang folds a shift of literals; it is no operator of the model.
shift_folds : Expr → Option ℤ
shift_folds (bin other_op (literal t a) (literal u b)) = some (pos (a * 2 ^ b))
shift_folds _ = none

-- The states in which a shift of literals has its value.
abbrev FoldsShifts : Env → Type 0
FoldsShifts ρ =
    (t u : IntType) (a b : ℕ)
    → ρ.unknown (bin other_op (literal t a) (literal u b)) ≡ pos (a * 2 ^ b)

never_fatal : Stmt → Bool
never_fatal s = false

never_infeasible : Expr → Bool → Bool
never_infeasible c sense = false

abbrev set_x : Stmt
set_x = evaluate (bin Condition.assign (ref x) (lit 12))

abbrev set_y : Stmt
set_y = evaluate (bin Condition.assign (ref y) (loaded_var x))

abbrev test : Expr
test = bin lt (loaded_var x) (bin other_op (lit 1) (lit 5))

abbrev preds : ℕ → List (Option ℕ)
preds zero = some 1 ∷ some 2 ∷ []
preds (suc zero) = some 2 ∷ []
preds (suc (suc zero)) = some 3 ∷ []
preds (suc (suc (suc n))) = []

abbrev succs : ℕ → List (Option ℕ)
succs zero = []
succs (suc zero) = some 0 ∷ []
succs (suc (suc zero)) = some 1 ∷ some 0 ∷ []
succs (suc (suc (suc zero))) = some 2 ∷ []
succs (suc (suc (suc (suc n)))) = []

-- Block 3 is the entry, 2 sets x and tests it, 1 sets y, and 0 is the exit.
abbrev graph : Cfg Stmt Unit Expr
graph = record {
  num_blocks = 4;
  entry = 3;
  exit = 0;
  preds = preds;
  succs = succs;
  elements = λ b. if b == 2 then stmt set_x ∷ [] else if b == 1 then stmt set_y ∷ [] else [];
  condition = λ b. if b == 2 then some (test, false) else none;
  selects_value = λ b. false;
  no_return = λ b. false;
}

abbrev env : ℤ → ℤ → Env
env v w = record {
  var = λ n. if n == 0 then v else if n == 1 then w else pos 0;
  source = λ t. pos 0;
  unknown = λ e. elim (shift_folds e) [ none ↦ pos 0 | some c ↦ c ];
}

edge : (p b c : ℕ) → some b ≡ some c → Memᴰ (some p) (preds c) → Memᴰ (some p) (preds b)
edge p b c e m = let q : c ≡ b = cc in subst (λ d. Memᴰ (some p) (preds d)) q m

listed : (p b : ℕ) → Memᴰ (some b) (succs p) → Memᴰ (some p) (preds b)
listed zero b m = elim m [ ]
listed (suc zero) b (Memᴰ.head e) = edge 1 b 0 e (Memᴰ.head refl)
listed (suc zero) b (Memᴰ.tail m) = elim m [ ]
listed (suc (suc zero)) b (Memᴰ.head e) = edge 2 b 1 e (Memᴰ.head refl)
listed (suc (suc zero)) b (Memᴰ.tail (Memᴰ.head e)) = edge 2 b 0 e (Memᴰ.tail (Memᴰ.head refl))
listed (suc (suc zero)) b (Memᴰ.tail (Memᴰ.tail m)) = elim m [ ]
listed (suc (suc (suc zero))) b (Memᴰ.head e) = edge 3 b 2 e (Memᴰ.head refl)
listed (suc (suc (suc zero))) b (Memᴰ.tail m) = elim m [ ]
listed (suc (suc (suc (suc n)))) b m = elim m [ ]

graph-IsGraph : IsGraph graph
graph-IsGraph = record { listed = listed; entry_first = refl }

shift_folds_right :
    (ρ : Env) → FoldsShifts ρ → (e : Expr) (c : ℤ) → shift_folds e ≡ some c → eval ρ e ≡ c
unfolding shift_folds eval binary
shift_folds_right ρ h (bin other_op (literal t a) (literal u b)) c q = h t u a b ∙ cc
shift_folds_right ρ h _ c q = cc

env-FoldsShifts : (v w : ℤ) → FoldsShifts (env v w)
unfolding shift_folds
env-FoldsShifts v w t u a b = refl

none_refuted :
    (c : Expr) (sense : Bool) (ρ : Env)
    → never_infeasible c sense ≡ true
    → FoldsShifts ρ
    → ¬ Decides c sense ρ
unfolding never_infeasible
none_refuted c sense ρ q = absurd (cc q)

graph-plain :
    (b : ℕ)
    → All
        (IsPlainElement ids no_seeds shift_folds never_fatal never_infeasible FoldsShifts)
        (graph.elements b)
graph-plain b = elim (Bool-cases (b == 2)) [
  | inl q ↦ rw q ((omega arith, omega arith), tt)
  | inr q ↦ elim (Bool-cases (b == 1)) [ inl r ↦ rw (q, r) (tt, tt) | inr r ↦ rw (q, r) tt ]
]

converges :
    (run_dataflow graph
      (interval_analysis ids no_seeds shift_folds never_fatal never_infeasible)).converged
    ≡ true
unfolding no_seeds shift_folds never_fatal never_infeasible code_skeptic.Prelude.Int.◌-ℤ◌
    code_skeptic.Prelude.Int.◌+ℤ◌ code_skeptic.Dataflow.sense_of code_skeptic.Dataflow.branch
    code_skeptic.Dataflow.assume code_skeptic.Dataflow.edge_state code_skeptic.Dataflow.add_state
    code_skeptic.Dataflow.from_pred code_skeptic.Dataflow.merge_preds
    code_skeptic.Dataflow.Loop.run_dataflow code_skeptic.Dataflow.Loop.result_of
    code_skeptic.Dataflow.Loop.loop code_skeptic.Dataflow.Loop.start
    code_skeptic.Dataflow.Loop.enqueue code_skeptic.Dataflow.Loop.enqueue_all
    code_skeptic.Dataflow.Loop.visit code_skeptic.Dataflow.Loop.pop
    code_skeptic.Dataflow.Loop.entry_state code_skeptic.Dataflow.Loop.rewind
    code_skeptic.Dataflow.Loop.rewind_preds code_skeptic.Dataflow.Loop.rewind_arms
    code_skeptic.Dataflow.Loop.rewind_at code_skeptic.Dataflow.Loop.arms_pure
    code_skeptic.Dataflow.Loop.walk code_skeptic.Dataflow.Loop.widen_entry
    code_skeptic.Dataflow.Loop.with_memory code_skeptic.Dataflow.Loop.widen_after
    code_skeptic.Dataflow.Loop.record_exit code_skeptic.Dataflow.Loop.finish
    code_skeptic.Dataflow.Loop.process code_skeptic.Dataflow.Loop.max_iterations
    code_skeptic.IntervalAnalysis.member code_skeptic.IntervalAnalysis.initial_state
    code_skeptic.IntervalAnalysis.lattice_height code_skeptic.IntervalAnalysis.merge_entry
    code_skeptic.IntervalAnalysis.merge code_skeptic.IntervalAnalysis.same_entry
    code_skeptic.IntervalAnalysis.same_on code_skeptic.IntervalAnalysis.same
    code_skeptic.IntervalAnalysis.transfer code_skeptic.IntervalAnalysis.refine_on_edge
    code_skeptic.IntervalAnalysis.widen_entry code_skeptic.IntervalAnalysis.widen
    code_skeptic.IntervalEval.refine_interval_on_edge code_skeptic.IntervalEval.refine_facts
    code_skeptic.IntervalEval.refine_fact code_skeptic.IntervalEval.narrow
    code_skeptic.IntervalEval.fold_const_int code_skeptic.IntervalEval.const_int
    code_skeptic.IntervalEval.sext_literal code_skeptic.IntervalEval.constrain_by
    code_skeptic.IntervalEval.negate_cmp code_skeptic.IntervalEval.eval_interval
    code_skeptic.IntervalEval.binary_range code_skeptic.IntervalEval.Assign.apply_interval_assign
    code_skeptic.IntervalEval.Assign.apply_evaluate code_skeptic.IntervalEval.Assign.define
    code_skeptic.IntervalEval.Assign.set code_skeptic.IntervalEval.Assign.set_origin
    code_skeptic.IntervalEval.Assign.mark code_skeptic.IntervalEval.Assign.initial_interval
    code_skeptic.IntervalEval.Assign.as_int_var code_skeptic.IntervalEval.Assign.integer_var
    code_skeptic.IntervalEval.Assign.expr_derives_from_untrusted
    code_skeptic.Condition.walk_condition code_skeptic.Condition.binary_facts
    code_skeptic.Condition.compare_facts code_skeptic.Condition.compare_left
    code_skeptic.Condition.compare_right code_skeptic.Condition.as_var
    code_skeptic.Condition.ignore_paren_imp_casts code_skeptic.Condition.truth_facts
    code_skeptic.Condition.mirror code_skeptic.Condition.Meaning.low_bits
    code_skeptic.Condition.Meaning.convert code_skeptic.Interval.range
    code_skeptic.Interval.constant code_skeptic.Interval.meet code_skeptic.Interval.meet_bounds
    code_skeptic.Interval.or_bottom code_skeptic.Interval.at_most code_skeptic.Interval.at_least
    code_skeptic.Interval.is_singleton code_skeptic.Interval.join code_skeptic.Interval.eqb
    code_skeptic.Interval.Arith.constrain_lt code_skeptic.Interval.Arith.constrain_ge
    code_skeptic.Interval.Arith.constrain_le code_skeptic.Interval.Arith.constrain_gt
    code_skeptic.Interval.Arith.constrain_eq code_skeptic.Interval.Arith.constrain_ne
converges = refl

-- The execution: x is set to 12, the test holds, and y is set to 12.
sets_x :
    Run graph
      (interval_analysis ids no_seeds shift_folds never_fatal never_infeasible)
      (executions ids no_seeds shift_folds never_fatal never_infeasible FoldsShifts)
      (stmt set_x ∷ [])
      (env (pos 0) (pos 0))
      (env (pos 12) (pos 0))
unfolding never_fatal eval code_skeptic.IntervalEval.Assign.as_int_var
    code_skeptic.IntervalEval.Assign.integer_var
sets_x = exec refl (λ n q. rw q refl, refl) done

sets_y :
    Run graph
      (interval_analysis ids no_seeds shift_folds never_fatal never_infeasible)
      (executions ids no_seeds shift_folds never_fatal never_infeasible FoldsShifts)
      (stmt set_y ∷ [])
      (env (pos 12) (pos 0))
      (env (pos 12) (pos 12))
unfolding never_fatal eval code_skeptic.IntervalEval.Assign.as_int_var
    code_skeptic.IntervalEval.Assign.integer_var
sets_y = exec refl (kept, refl) done
  where
    kept : (n : ℕ) → (n == 1) ≡ false → (env (pos 12) (pos 12)).var n ≡ (env (pos 12) (pos 0)).var n
    kept n q = rw q refl

test_holds : Decides test true (env (pos 12) (pos 0))
unfolding eval binary shift_folds
test_holds = (
  ((refl, tt), (tt, tt)),
  (tt, ((omega arith, omega arith), (omega arith, omega arith))),
  refl,
  fits,
)
  where
    fits : (n : ℕ) → IsInt64 ((env (pos 12) (pos 0)).var n)
    fits n = elim (Bool-cases (n == 0)) [
      | inl q ↦ rw q (omega arith, omega arith)
      | inr q ↦ elim (Bool-cases (n == 1)) [
        | inl r ↦ rw (q, r) (omega arith, omega arith)
        | inr r ↦ rw (q, r) (omega arith, omega arith)
      ]
    ]

some_same : (p q : Expr × Bool) → some p ≡ some q → p ≡ q
some_same p q e = cc

path :
    AtExit graph
      (interval_analysis ids no_seeds shift_folds never_fatal never_infeasible)
      (executions ids no_seeds shift_folds never_fatal never_infeasible FoldsShifts)
      1
      (env (pos 12) (pos 12))
unfolding no_seeds branch code_skeptic.Dataflow.sense_of
path =
    follow
      (follow (AtExit.start (λ n a q. cc) done refl) (Memᴰ.head refl) (λ c sense q. cc) sets_x refl)
      (Memᴰ.head refl)
      (λ c sense q. (
        env-FoldsShifts (pos 12) (pos 0),
        subst (λ (r : Expr × Bool). Decides r.0 r.1 (env (pos 12) (pos 0)))
            (some_same (test, true) (c, sense) q) test_holds,
      ))
      sets_y refl

run_dataflow_sound_example :
    (s : State ids no_seeds shift_folds) × ((run_dataflow graph
          (interval_analysis ids no_seeds shift_folds never_fatal never_infeasible)).block_exits
        1
      ≡ some s)
    × In ids no_seeds shift_folds s (env (pos 12) (pos 12))
run_dataflow_sound_example =
    run_dataflow_sound graph
      (interval_analysis ids no_seeds shift_folds never_fatal never_infeasible)
      (plain_executions ids no_seeds shift_folds never_fatal never_infeasible FoldsShifts)
      (In ids no_seeds shift_folds) graph-IsGraph
      (interval_analysis-IsSound ids no_seeds shift_folds never_fatal never_infeasible FoldsShifts
        shift_folds_right none_refuted)
      1 (env (pos 12) (pos 12)) converges
      (plain-AtExit ids no_seeds shift_folds never_fatal never_infeasible FoldsShifts graph 1
        (env (pos 12) (pos 12)) graph-plain path)

pending_once_example :
    count 2
      (loop graph (interval_analysis ids no_seeds shift_folds never_fatal never_infeasible) 1 (
        start graph
          (interval_analysis ids no_seeds shift_folds never_fatal never_infeasible))).worklist
    ≡ (if (loop graph (interval_analysis ids no_seeds shift_folds never_fatal never_infeasible) 1 (
            start graph
              (interval_analysis ids no_seeds shift_folds never_fatal never_infeasible))).queued
          2
        then 1
        else 0)
pending_once_example =
    pending_once graph (interval_analysis ids no_seeds shift_folds never_fatal never_infeasible) 1 2
