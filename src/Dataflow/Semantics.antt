-- ===== src/Dataflow/Semantics.antt =====
-- What the engine promises: the executions of a graph, and the laws that make an analysis an
-- over-approximation of them.
use code_skeptic.Prelude.{ℕ, ◌≡◌, Bool, true, false, some, List, [], ◌∷◌}
use mathlib.Core.List.{Memᴰ}
use code_skeptic.Dataflow.{Element, stmt, null_stmt, other, Cfg, Analysis, branch}

-- The meaning of statements and conditions on concrete states.
pub record Concrete (Store Stmt Other Cond : Type 0) : Type 1 where
  pub Initial : Store → Type 0
  pub Exec : Stmt → Store → Store → Type 0
  pub ExecOther : Other → Store → Store → Type 0
  pub Holds : Cond → Bool → Store → Type 0

module _ {State Store Stmt Other Cond : Type 0} (g : Cfg Stmt Other Cond)
    (a : Analysis State Stmt Other Cond) (k : Concrete Store Stmt Other Cond) where
  open k use {Initial, Exec, ExecOther, Holds}

  -- Running the elements of a block to its end. A fatal call has no run.
  pub data Run : List (Element Stmt Other) → Store → Store → Type 0 where
    done : {x : Store} → Run [] x x
    exec :
        {s : Stmt} {rest : List (Element Stmt Other)} {x y z : Store}
        → a.is_fatal s ≡ false
        → Exec s x y
        → Run rest y z
        → Run (stmt s ∷ rest) x z
    skip :
        {rest : List (Element Stmt Other)} {x z : Store} → Run rest x z → Run (null_stmt ∷ rest) x z
    exec_other :
        {o : Other} {rest : List (Element Stmt Other)} {x y z : Store}
        → ExecOther o x y
        → Run rest y z
        → Run (other o ∷ rest) x z

  -- The branch from `p` to `b`, where there is one, is taken only as its condition says.
  abbrev pub Passes : ℕ → ℕ → Store → Type 0
  Passes p b x = (c : Cond) (sense : Bool) → branch g a p b ≡ some (c, sense) → Holds c sense x

  -- The concrete states with which control leaves a block.
  pub data AtExit : ℕ → Store → Type 0 where
    start :
        {x y : Store}
        → Initial x
        → Run (g.elements g.entry) x y
        → g.no_return g.entry ≡ false
        → AtExit g.entry y
    follow :
        {p b : ℕ} {x y : Store}
        → AtExit p x
        → Memᴰ (some b) (g.succs p)
        → Passes p b x
        → Run (g.elements b) x y
        → g.no_return b ≡ false
        → AtExit b y

-- What Clang's graphs satisfy: edges are listed at both ends, and nothing leads to the entry.
pub record IsGraph {Stmt Other Cond : Type 0} (g : Cfg Stmt Other Cond) : Type 0 where
  pub listed : (p b : ℕ) → Memᴰ (some b) (g.succs p) → Memᴰ (some p) (g.preds b)
  pub entry_first : g.preds g.entry ≡ []

-- `In s x`: the abstract state `s` covers the concrete state `x`.
pub record IsSound {State Store Stmt Other Cond : Type 0} (a : Analysis State Stmt Other Cond)
    (k : Concrete Store Stmt Other Cond) (In : State → Store → Type 0) : Type 0 where
  pub initial : (x : Store) → k.Initial x → In a.initial x
  pub merge_left : (s t : State) (x : Store) → In s x → In (a.merge s t) x
  pub merge_right : (s t : State) (x : Store) → In t x → In (a.merge s t) x
  pub same : (s t : State) (x : Store) → a.same s t ≡ true → In t x → In s x
  pub same_back : (s t : State) (x : Store) → a.same s t ≡ true → In s x → In t x
  pub transfer :
      (i : Stmt) (s : State) (x y : Store)
      → k.Exec i x y
      → In s x
      → In (a.transfer i (a.apply_guards i s)) y
  pub transfer_element :
      (o : Other) (s : State) (x y : Store)
      → k.ExecOther o x y
      → In s x
      → In (a.transfer_element o s) y
  pub refine :
      (f : Cond → Bool → State → State)
      → a.refine ≡ some f
      → (c : Cond) (sense : Bool) (s : State) (x : Store) → k.Holds c sense x
      → In s x
      → In (f c sense s) x
  pub refine_below :
      (f : Cond → Bool → State → State)
      → a.refine ≡ some f
      → (c : Cond) (sense : Bool) (s : State) (x : Store) → In (f c sense s) x
      → In s x
  pub widen : (f : State → State) → a.widen ≡ some f → (s : State) (x : Store) → In s x → In (f s) x
  pub infeasible :
      (c : Cond) (sense : Bool) (x : Store) → a.infeasible c sense ≡ true → ¬ k.Holds c sense x
