-- ===== src/Dataflow/Loop.antt =====
-- engine/DataflowEngine.h: the value-selection rewind, the block walk, one round of the work list
-- and the loop under its safety limit.
use code_skeptic.Prelude.{
  ℕ, ◌+◌, ◌*◌, zero, suc, Bool, true, false, not, ◌&&◌, Option, none, some, List, [], ◌∷◌, ◌++◌,
  ◌==◌, ltb, if◌then◌else◌, update, is_nil, first_is,
}
use code_skeptic.Dataflow.{Element, stmt, null_stmt, other, Cfg, Analysis, Exits, merge_preds}

pub data Failure : Type 0 where
  ok cfg_unavailable iteration_limit : Failure

-- The locals of `runDataflow`. A function stands for each map and each vector over block numbers.
pub record Engine (State : Type 0) : Type 0 where
  pub exits : Exits State
  pub worklist : List ℕ
  pub queued : ℕ → Bool
  pub visits : ℕ → ℕ
  pub widened : ℕ → Option State

pub record Result (State : Type 0) : Type 0 where
  pub block_exits : Exits State
  pub converged : Bool
  pub failure : Failure
  pub exit_block : ℕ

module _ {State Stmt Other Cond : Type 0} (g : Cfg Stmt Other Cond)
    (a : Analysis State Stmt Other Cond) where
  -- Both arms of a conditional operator left the pure refinement of the exit of its condition.
  unfoldable pub arms_pure :
      (Cond → Bool → State → State) → Cond → Bool → State → State → State → Bool
  arms_pure refine c flip exit true_exit false_exit =
      a.same true_exit (refine c (not flip) exit) && a.same false_exit (refine c flip exit)

  -- The join of a diamond re-enters with the state of the condition block.
  unfoldable pub rewind_at :
      (Cond → Bool → State → State)
      → ℕ
      → ℕ
      → ℕ
      → Option (Cond × Bool)
      → Option State
      → Option State
      → Option State
      → Option State
  rewind_at refine top arm1 arm2 (some (c, flip)) (some exit) (some e1) (some e2) =
      let first = first_is (g.succs top) arm1 in
      if arms_pure refine c flip exit (if first then e1 else e2) (if first then e2 else e1)
      then some exit
      else none
  rewind_at refine top arm1 arm2 _ _ _ _ = none

  unfoldable pub rewind_arms :
      (Cond → Bool → State → State)
      → Exits State
      → ℕ
      → ℕ
      → List (Option ℕ)
      → List (Option ℕ)
      → Option State
  rewind_arms refine exits arm1 arm2 (some g1 ∷ []) (some g2 ∷ []) =
      if not (arm1 == arm2) && g1 == g2 && g.selects_value g1
      then rewind_at refine g1 arm1 arm2 (g.condition g1) (exits g1) (exits arm1) (exits arm2)
      else none
  rewind_arms refine exits arm1 arm2 _ _ = none

  unfoldable pub rewind_preds :
      (Cond → Bool → State → State) → Exits State → List (Option ℕ) → Option State
  rewind_preds refine exits (some arm1 ∷ some arm2 ∷ []) =
      rewind_arms refine exits arm1 arm2 (g.preds arm1) (g.preds arm2)
  rewind_preds refine exits _ = none

  unfoldable pub rewind : Exits State → ℕ → Option State
  rewind exits block = elim a.refine [
    | none ↦ none
    | some refine ↦ rewind_preds refine exits (g.preds block)
  ]

  -- `computeEntryState`: the state, and `hasPreds`.
  unfoldable pub entry_state : Exits State → ℕ → State × Bool
  entry_state exits block = elim (rewind exits block) [
    | some s ↦ (s, true)
    | none ↦ merge_preds g a exits block (a.initial, false) (g.preds block)
  ]

  -- The elements of a block; `none` when a fatal call ends the path.
  unfoldable pub walk : List (Element Stmt Other) → State → Option State
  walk [] s = some s
  walk (stmt x ∷ rest) s =
      let after = walk rest (a.transfer x (a.apply_guards x s)) in
      if a.is_fatal x then none else after
  walk (null_stmt ∷ rest) s = walk rest s
  walk (other x ∷ rest) s = walk rest (a.transfer_element x s)

  unfoldable pub enqueue : Engine State → Option ℕ → Engine State
  enqueue e none = e
  enqueue e (some b) =
      if e.queued b
      then e
      else record e { queued = update e.queued b true; worklist = e.worklist ++ b ∷ [] }

  unfoldable pub enqueue_all : Engine State → List (Option ℕ) → Engine State
  enqueue_all e [] = e
  enqueue_all e (b ∷ bs) = enqueue_all (enqueue e b) bs

  unfoldable pub widen_after : ℕ
  widen_after = a.lattice_height + 2

  -- The entry joined with the last widened entry of the block.
  unfoldable pub with_memory : Option State → State → State
  with_memory none s = s
  with_memory (some m) s = a.merge m s

  -- Counts the visit, and widens the entry once there have been too many.
  unfoldable pub widen_entry : Engine State → ℕ → State → Engine State × State
  widen_entry e b s = elim a.widen [
    | none ↦ (e, s)
    | some widen ↦
        let e' = record e { visits = update e.visits b (e.visits b + 1) } in
        let s' = widen (with_memory (e.widened b) s) in
        if ltb widen_after (e.visits b + 1)
        then (record e' { widened = update e.widened b (some s') }, s')
        else (e', s)
  ]

  -- Stores the exit state of `b`, and queues the successors if it changed.
  unfoldable pub record_exit : Engine State → ℕ → State → Engine State
  record_exit e b s =
      let stored = record e { exits = update e.exits b (some s) } in
      let propagated = enqueue_all stored (g.succs b) in
      elim (e.exits b) [ none ↦ propagated | some old ↦ if a.same old s then e else propagated ]

  unfoldable pub finish : Engine State → ℕ → Option State → Engine State
  finish e b none = e
  finish e b (some s) = if g.no_return b then e else record_exit e b s

  unfoldable pub process : Engine State → ℕ → State → Engine State
  process e b s = let (e', s') = widen_entry e b s in finish e' b (walk (g.elements b) s')

  unfoldable pub visit : Engine State → ℕ → Engine State
  visit e b =
      let (s, has) = entry_state e.exits b in
      if not has && not (b == g.entry) then e else process e b s

  unfoldable pub pop : Engine State → ℕ → List ℕ → Engine State
  pop e b rest = record e { worklist = rest; queued = update e.queued b false }

  unfoldable pub loop : ℕ → Engine State → Engine State
  loop zero e = e
  loop (suc fuel) e = elim e.worklist [ [] ↦ e | b ∷ rest ↦ loop fuel (visit (pop e b rest) b) ]

  unfoldable pub start : Engine State
  start =
      enqueue
        (record {
          exits = λ _. none;
          worklist = [];
          queued = λ _. false;
          visits = λ _. 0;
          widened = λ _. none;
        })
        (some g.entry)

  unfoldable pub max_iterations : ℕ
  max_iterations = g.num_blocks * (a.lattice_height + 2)

  unfoldable pub result_of : Engine State → Result State
  result_of e = record {
    block_exits = e.exits;
    converged = is_nil e.worklist;
    failure = if is_nil e.worklist then ok else iteration_limit;
    exit_block = g.exit;
  }

  -- The fixpoint phase, on a function whose graph is there.
  unfoldable pub run_dataflow : Result State
  run_dataflow = result_of (loop max_iterations start)
