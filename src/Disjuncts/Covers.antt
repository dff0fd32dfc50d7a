-- ===== src/Disjuncts/Covers.antt =====
-- engine/GuardedDisjuncts.h: which paths a state covers, and the laws that an analysis owes.
use code_skeptic.Prelude.{ℕ, ◌≡◌, ◌⊎◌, Option, none, some, List, [], ◌∷◌}
use code_skeptic.PathFacts.{Facts}
use code_skeptic.PathFacts.Stores.{Store, FactsHold}
use code_skeptic.Disjuncts.{VarMap, Guarded, GuardedOps, find_var}

-- What one path establishes: the store, and a value for some variables.
pub record PathState (Val : Type 0) : Type 0 where
  pub store : Store
  pub values : ℕ → Option Val

module _ {Val : Type 0} where
  -- `Le s a b`: in the store `s`, `b` says no more than `a`.
  module _ (Le : Store → Val → Val → Type 0) where
    abbrev pub BelowEntry : Store → Val → Option Val → Type 0
    BelowEntry s v none = ⊥
    BelowEntry s v (some w) = Le s v w

    -- Each value of the path is below the map's.
    abbrev pub VarsBelow : Store → (ℕ → Option Val) → VarMap Val → Type 0
    VarsBelow s values m = (x : ℕ) (v : Val) → values x ≡ some v → BelowEntry s v (find_var m x)

    abbrev pub DisjunctCovers : PathState Val → Guarded Val → Type 0
    DisjunctCovers p d = FactsHold p.store d.facts × VarsBelow p.store p.values d.vars

    -- Some disjunct covers the path.
    abbrev pub Covers : PathState Val → List (Guarded Val) → Type 0
    Covers p [] = ⊥
    Covers p (d ∷ ds) = DisjunctCovers p d ⊎ Covers p ds

    -- What an analysis owes: `merge_val` bounds both values, `meet_val` does where the shared facts
    -- hold, and `mine` keeps the paths that the disjuncts and their collapse cover.
    pub record IsSoundOps (ops : GuardedOps Val) : Type 0 where
      pub le_refl : (s : Store) (a : Val) → Le s a a
      pub le_trans : (s : Store) (a b c : Val) → Le s a b → Le s b c → Le s a c
      pub merge_left : (s : Store) (a b : Val) → Le s a (ops.merge_val a b)
      pub merge_right : (s : Store) (a b : Val) → Le s b (ops.merge_val a b)
      pub meet_left :
          (s : Store) (fs : Facts) (a b : Val) → FactsHold s fs → Le s a (ops.meet_val fs a b)
      pub meet_right :
          (s : Store) (fs : Facts) (a b : Val) → FactsHold s fs → Le s b (ops.meet_val fs a b)
      pub mine_covers :
          (p : PathState Val) (before : List (Guarded Val)) (widened : Guarded Val)
          → Covers p before
          → DisjunctCovers p widened
          → DisjunctCovers p (ops.mine before widened)
