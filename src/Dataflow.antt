-- ===== src/Dataflow.antt =====
-- engine/DataflowEngine.h: the control-flow graph as the engine reads it, the interface of an
-- analysis, and the parts of one round: edges, entry state, block walk.
pub mod Loop
pub mod Semantics
pub mod Entry
pub mod Round
pub mod Visit
pub mod Sound
pub mod Pending
use code_skeptic.Prelude.{
  ℕ, ◌+◌, zero, suc, Bool, true, false, not, ◌&&◌, ◌||◌, Option, none, some, List, [], ◌∷◌, ◌==◌,
  if◌then◌else◌, bool_eq, length, opt_is, opt_eq,
}

-- Clang's graph. A list of neighbours holds `none` for an edge that `getReachableBlock` drops.
-- `condition` is the result of `edgeCondition`: the leaf and whether its sense is flipped.
pub data Element (Stmt Other : Type 0) : Type 0 where
  stmt : Stmt → Element Stmt Other
  null_stmt : Element Stmt Other
  other : Other → Element Stmt Other

pub record Cfg (Stmt Other Cond : Type 0) : Type 0 where
  pub num_blocks : ℕ
  pub entry : ℕ
  pub exit : ℕ
  pub preds : ℕ → List (Option ℕ)
  pub succs : ℕ → List (Option ℕ)
  pub elements : ℕ → List (Element Stmt Other)
  pub condition : ℕ → Option (Cond × Bool)
  pub selects_value : ℕ → Bool
  pub no_return : ℕ → Bool

-- An analysis; a hook that it lacks is the identity, but for `refine` and `widen`, whose absence
-- takes code out. `infeasible` and `is_fatal` are `edgeInfeasibleByFlags` and `isFatalCall`.
pub record Analysis (State Stmt Other Cond : Type 0) : Type 0 where
  pub initial : State
  pub lattice_height : ℕ
  pub merge : State → State → State
  pub same : State → State → Bool
  pub apply_guards : Stmt → State → State
  pub transfer : Stmt → State → State
  pub transfer_element : Other → State → State
  pub refine : Option (Cond → Bool → State → State)
  pub widen : Option (State → State)
  pub infeasible : Cond → Bool → Bool
  pub is_fatal : Stmt → Bool

abbrev pub Exits : Type 0 → Type 0
Exits State = ℕ → Option State

module _ {State Stmt Other Cond : Type 0} (g : Cfg Stmt Other Cond)
    (a : Analysis State Stmt Other Cond) where
  -- `refineOnEdge`, if the analysis has it.
  abbrev pub refined : Cond → Bool → State → State
  refined c sense s = elim a.refine [ none ↦ s | some f ↦ f c sense s ]

  -- The leaf and the sense of the branch from `pred` to `block`, where there is one.
  unfoldable pub sense_of : List (Option ℕ) → Option (Cond × Bool) → ℕ → Option (Cond × Bool)
  sense_of (t ∷ f ∷ []) (some (c, flip)) block =
      if not (opt_eq t f) && (opt_is t block || opt_is f block)
      then some (c, not (bool_eq (opt_is t block) flip))
      else none
  sense_of _ _ _ = none

  unfoldable pub branch : ℕ → ℕ → Option (Cond × Bool)
  branch pred block = sense_of (g.succs pred) (g.condition pred) block

  -- What the edge delivers: `none` for a branch that the immutable flags rule out.
  unfoldable pub assume : Option (Cond × Bool) → State → Option State
  assume none s = some s
  assume (some (c, sense)) s = if a.infeasible c sense then none else some (refined c sense s)

  unfoldable pub edge_state : ℕ → ℕ → State → Option State
  edge_state pred block s = assume (branch pred block) s

  -- The loop over the predecessors: the state so far, and whether an edge has contributed.
  unfoldable pub add_state : State × Bool → Option State → State × Bool
  add_state acc none = acc
  add_state (entry, has) (some s) = (if has then a.merge entry s else s, true)

  unfoldable pub from_pred : Exits State → ℕ → Option ℕ → Option State
  from_pred exits block none = none
  from_pred exits block (some p) = elim (exits p) [ none ↦ none | some s ↦ edge_state p block s ]

  unfoldable pub merge_preds : Exits State → ℕ → State × Bool → List (Option ℕ) → State × Bool
  merge_preds exits block acc [] = acc
  merge_preds exits block acc (p ∷ ps) =
      merge_preds exits block (add_state acc (from_pred exits block p)) ps
