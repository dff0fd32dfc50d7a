-- ===== src/IntervalAnalysis.antt =====
-- engine/IntervalAnalysis.h: the interval domain as an analysis for the dataflow engine.
pub mod Entries
pub mod Execution
pub mod Fields
pub mod Transfer
pub mod Narrow
pub mod Engine
pub mod Orders
pub mod Sound
use code_skeptic.Prelude.{
  ℕ, ◌+◌, ◌*◌, Bool, true, false, not, ◌&&◌, ◌||◌, Option, none, some, List, [], ◌∷◌, ◌==◌,
  if◌then◌else◌, bool_eq, length,
}
use code_skeptic.Prelude.Int.{ℤ, pos}
use code_skeptic.Interval.{Interval, top, join, eqb, is_singleton}
use code_skeptic.Condition.{Expr}
use code_skeptic.IntervalEval.{IntervalMap, refine_interval_on_edge}
use code_skeptic.IntervalEval.Assign.{Stmt, IntervalState, apply_interval_assign}

unfoldable pub member : List ℕ → ℕ → Bool
member [] x = false
member (y ∷ ys) x = x == y || member ys x

-- The tracked variables, the seeds of the parameters, and Clang's constant evaluator.
module _ (ids : List ℕ) (seeds : ℕ → Option Interval) (folds : Expr → Option ℤ) where
  abbrev pub or_seed : Option Interval → Interval
  or_seed none = top
  or_seed (some a) = a

  unfoldable pub initial_state : IntervalState
  initial_state = record {
    iv = λ x. if member ids x then some (or_seed (seeds x)) else none;
    untrusted = λ x. false;
  }

  unfoldable pub lattice_height : ℕ
  lattice_height = length ids * 2 + 4

  unfoldable pub merge_entry : Option Interval → Option Interval → Option Interval
  merge_entry o none = o
  merge_entry none (some b) = some b
  merge_entry (some a) (some b) = some (join a b)

  unfoldable pub merge : IntervalState → IntervalState → IntervalState
  merge s t = record {
    iv = λ x. merge_entry (s.iv x) (t.iv x);
    untrusted = λ x. s.untrusted x || t.untrusted x;
  }

  -- `operator==`; no variable but the tracked ones has an entry.
  unfoldable pub same_entry : Option Interval → Option Interval → Bool
  same_entry none none = true
  same_entry none (some b) = false
  same_entry (some a) none = false
  same_entry (some a) (some b) = eqb a b

  unfoldable pub same_on : List ℕ → IntervalState → IntervalState → Bool
  same_on [] s t = true
  same_on (x ∷ xs) s t =
      same_entry (s.iv x) (t.iv x) && bool_eq (s.untrusted x) (t.untrusted x) && same_on xs s t

  unfoldable pub same : IntervalState → IntervalState → Bool
  same s t = same_on ids s t

  unfoldable pub transfer : Stmt → IntervalState → IntervalState
  transfer stmt s = apply_interval_assign true (member ids) stmt s

  unfoldable pub refine_on_edge : Expr → Bool → IntervalState → IntervalState
  refine_on_edge cond sense s = record s {
    iv = refine_interval_on_edge folds true (member ids) s.iv cond sense;
  }

  -- Anything but a constant goes.
  unfoldable pub widen_entry : Option Interval → Option Interval
  widen_entry none = none
  widen_entry (some a) = elim (is_singleton a) [ none ↦ some top | some c ↦ some a ]

  unfoldable pub widen : IntervalState → IntervalState
  widen s = record s { iv = λ x. widen_entry (s.iv x) }
