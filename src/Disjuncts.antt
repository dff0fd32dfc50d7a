-- ===== src/Disjuncts.antt =====
-- engine/GuardedDisjuncts.h: states as lists of facts with values, their canonical form and join.
pub mod Covers
pub mod Maps
pub mod Normalize
pub mod Edges
pub mod Refinement
pub mod Leaves
pub mod Statements
pub mod Assignments
pub mod Execution
pub mod Lifecycle
use code_skeptic.Prelude.{
  ℕ, Bool, true, false, not, ◌&&◌, ◌||◌, Option, none, some, List, [], ◌∷◌, ◌++◌, ◌==◌, ltb,
  if◌then◌else◌, bool_eq, length,
}
use code_skeptic.PathFacts.{FactKey, Facts, key_eq, key_less, find_fact}

-- The values of variables, as a `std::map` that is sorted by its keys.
abbrev pub VarMap : Type 0 → Type 0
VarMap Val = List (ℕ × Val)

pub record Guarded (Val : Type 0) : Type 0 where
  pub facts : Facts
  pub vars : VarMap Val

-- The hooks of an analysis: the order and equality of values, `mergeVal`, `meetVal` and `mine`.
pub record GuardedOps (Val : Type 0) : Type 0 where
  pub less : Val → Val → Bool
  pub same : Val → Val → Bool
  pub merge_val : Val → Val → Val
  pub meet_val : Facts → Val → Val → Val
  pub mine : List (Guarded Val) → Guarded Val → Guarded Val

-- `kMaxDisjuncts`.
abbrev pub max_disjuncts : ℕ
max_disjuncts = 4

-- The orders and equalities of pairs and of containers, as the C++ library defines them.
abbrev pub pair_less : {A B : Type 0} → (A → A → Bool) → (B → B → Bool) → A × B → A × B → Bool
pair_less less_a less_b p q = less_a p.0 q.0 || (not (less_a q.0 p.0) && less_b p.1 q.1)

unfoldable pub list_less : {A : Type 0} → (A → A → Bool) → List A → List A → Bool
list_less less xs [] = false
list_less less [] (y ∷ ys) = true
list_less less (x ∷ xs) (y ∷ ys) = less x y || (not (less y x) && list_less less xs ys)

unfoldable pub list_same : {A : Type 0} → (A → A → Bool) → List A → List A → Bool
list_same same [] [] = true
list_same same [] (y ∷ ys) = false
list_same same (x ∷ xs) [] = false
list_same same (x ∷ xs) (y ∷ ys) = same x y && list_same same xs ys

unfoldable pub fact_less : FactKey × Bool → FactKey × Bool → Bool
fact_less = pair_less key_less (λ a b. not a && b)

unfoldable pub fact_same : FactKey × Bool → FactKey × Bool → Bool
fact_same p q = key_eq p.0 q.0 && bool_eq p.1 q.1

unfoldable pub facts_same : Facts → Facts → Bool
facts_same = list_same fact_same

-- The facts of `fs` that `gs` has with the same value.
unfoldable pub agreed_facts : Facts → Facts → Facts
agreed_facts [] gs = []
agreed_facts (f ∷ fs) gs =
    let rest = agreed_facts fs gs in
    elim (find_fact gs f.0) [ none ↦ rest | some v ↦ if bool_eq v f.1 then f ∷ rest else rest ]

module _ {Val : Type 0} where
  unfoldable pub find_var : VarMap Val → ℕ → Option Val
  find_var [] x = none
  find_var (e ∷ es) x = let later = find_var es x in if e.0 == x then some e.1 else later

  -- `emplace` of a key that is not there.
  unfoldable pub insert_entry : ℕ → Val → VarMap Val → VarMap Val
  insert_entry x v [] = (x, v) ∷ []
  insert_entry x v (e ∷ es) =
      let later = insert_entry x v es in if ltb x e.0 then (x, v) ∷ e ∷ es else e ∷ later

  unfoldable pub replace_entry : ℕ → Val → VarMap Val → VarMap Val
  replace_entry x v [] = []
  replace_entry x v (e ∷ es) =
      let later = replace_entry x v es in if e.0 == x then (x, v) ∷ es else e ∷ later

  -- One round of `mergeVarMaps`: a new entry, or the old one combined.
  unfoldable pub put_merged : (Val → Val → Val) → ℕ → Val → VarMap Val → VarMap Val
  put_merged combine x v m = elim (find_var m x) [
    | none ↦ insert_entry x v m
    | some u ↦ replace_entry x (combine u v) m
  ]

  -- `mergeVarMaps`.
  unfoldable pub merge_var_maps : (Val → Val → Val) → VarMap Val → VarMap Val → VarMap Val
  merge_var_maps combine into [] = into
  merge_var_maps combine into (e ∷ es) = merge_var_maps combine (put_merged combine e.0 e.1 into) es

module _ {Val : Type 0} (ops : GuardedOps Val) where
  unfoldable pub guarded_less : Guarded Val → Guarded Val → Bool
  guarded_less a b =
      if facts_same a.facts b.facts
      then list_less (pair_less ltb ops.less) a.vars b.vars
      else list_less fact_less a.facts b.facts

  unfoldable pub insert_sorted : Guarded Val → List (Guarded Val) → List (Guarded Val)
  insert_sorted d [] = d ∷ []
  insert_sorted d (e ∷ es) =
      let later = insert_sorted d es in if guarded_less d e then d ∷ e ∷ es else e ∷ later

  -- `std::sort`.
  unfoldable pub sort : List (Guarded Val) → List (Guarded Val)
  sort [] = []
  sort (d ∷ ds) = insert_sorted d (sort ds)

  unfoldable pub absorb : Guarded Val → Guarded Val → Guarded Val
  absorb into d = record into { vars = merge_var_maps (ops.meet_val into.facts) into.vars d.vars }

  -- The loop over the sorted disjuncts, with the last one that it kept.
  unfoldable pub join_same_facts : Guarded Val → List (Guarded Val) → List (Guarded Val)
  join_same_facts last [] = last ∷ []
  join_same_facts last (d ∷ ds) =
      let absorbed = join_same_facts (absorb last d) ds in
      let kept = last ∷ join_same_facts d ds in
      if facts_same last.facts d.facts then absorbed else kept

  unfoldable pub join_sorted : List (Guarded Val) → List (Guarded Val)
  join_sorted [] = []
  join_sorted (d ∷ ds) = join_same_facts d ds

  unfoldable pub collapse : Guarded Val → List (Guarded Val) → Guarded Val
  collapse widened [] = widened
  collapse widened (d ∷ ds) =
      let next : Guarded Val = record {
        facts = agreed_facts widened.facts d.facts;
        vars = merge_var_maps ops.merge_val widened.vars d.vars;
      } in
      collapse next ds

  -- `widenGuardedOps`.
  unfoldable pub widen_guarded : List (Guarded Val) → List (Guarded Val)
  widen_guarded [] = []
  widen_guarded (d ∷ []) = d ∷ []
  widen_guarded (d ∷ e ∷ ds) = ops.mine (d ∷ e ∷ ds) (collapse d (e ∷ ds)) ∷ []

  -- `normalizeGuardedOps`.
  unfoldable pub normalize_guarded : List (Guarded Val) → List (Guarded Val)
  normalize_guarded state =
      let merged = join_sorted (sort state) in
      if ltb max_disjuncts (length merged) then widen_guarded merged else merged

  -- `mergeGuardedOps`.
  unfoldable pub merge_guarded : List (Guarded Val) → List (Guarded Val) → List (Guarded Val)
  merge_guarded a b = normalize_guarded (a ++ b)

  -- `flattenGuarded`, from the map that is built up.
  unfoldable pub flatten_guarded : VarMap Val → List (Guarded Val) → VarMap Val
  flatten_guarded out [] = out
  flatten_guarded out (d ∷ ds) = flatten_guarded (merge_var_maps ops.merge_val out d.vars) ds

-- The hooks of an analysis that has `mergeVal` alone: `normalizeGuarded` and its kin.
abbrev pub plain_ops :
    {Val : Type 0} → (Val → Val → Bool) → (Val → Val → Bool) → (Val → Val → Val) → GuardedOps Val
plain_ops less same merge_val = record {
  less = less;
  same = same;
  merge_val = merge_val;
  meet_val = λ facts. merge_val;
  mine = λ before widened. widened;
}
