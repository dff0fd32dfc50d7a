-- ===== src/Condition/Parts.antt =====
-- engine/ConditionWalk.h: what the walk hands to a domain is part of the condition.
use code_skeptic.Prelude.{
  Bool, true, false, not, Option, none, some, List, ◌==◌, Bool-cases, inl, inr, All,
}
use code_skeptic.Condition.{
  Var, BinOp, lt, gt, le, ge, eq, ne, land, lor, assign, compound, to_bool, same_type, converting,
  Expr, ref, paren, implicit, explicit, expect, identity, lnot, bin, Fact, truth, compare,
  ignore_paren_imp_casts, as_var, compare_left, compare_right, compare_facts, truth_facts,
  binary_facts, walk_condition,
}
use code_skeptic.Condition.Meaning.{Env, CastsKeep, LiteralsFit}
use code_skeptic.Condition.Walk.{All-append}

-- What the walk hands to a domain is part of the condition: its casts keep values, and its literals fit.
abbrev pub IsPlainFact : Env → Fact → Type 0
IsPlainFact ρ (truth v sense) = Unit
IsPlainFact ρ (compare v op e sense) = CastsKeep ρ e × LiteralsFit e

module _ (ρ : Env) where
  ignore-IsPlain :
      (e : Expr)
      → CastsKeep ρ e
      → LiteralsFit e
      → CastsKeep ρ (ignore_paren_imp_casts e) × LiteralsFit (ignore_paren_imp_casts e)
  unfolding ignore_paren_imp_casts
  ignore-IsPlain (paren e) h f = ignore-IsPlain e h f
  ignore-IsPlain (implicit k e) h f = ignore-IsPlain e h.1 f
  ignore-IsPlain _ h f = (h, f)

  truth_facts-IsPlain : (o : Option Var) (sense : Bool) → All (IsPlainFact ρ) (truth_facts o sense)
  unfolding truth_facts
  truth_facts-IsPlain none sense = tt
  truth_facts-IsPlain (some v) sense = (tt, tt)

  left-IsPlain :
      (o : Option Var) (op : BinOp) (e : Expr) (sense : Bool)
      → CastsKeep ρ e × LiteralsFit e
      → All (IsPlainFact ρ) (compare_left o op e sense)
  unfolding compare_left
  left-IsPlain none op e sense h = tt
  left-IsPlain (some v) op e sense h = (h, tt)

  right-IsPlain :
      (o w : Option Var) (op : BinOp) (e : Expr) (sense : Bool)
      → CastsKeep ρ e × LiteralsFit e
      → All (IsPlainFact ρ) (compare_right o w op e sense)
  unfolding compare_right
  right-IsPlain none w op e sense h = tt
  right-IsPlain (some v) none op e sense h = (h, tt)
  right-IsPlain (some v) (some u) op e sense h = elim (Bool-cases (v.id == u.id)) [
    | inl q ↦ rw q tt
    | inr q ↦ rw q (h, tt)
  ]

  compare-IsPlain :
      (op : BinOp) (l r : Expr) (sense : Bool)
      → CastsKeep ρ l × CastsKeep ρ r
      → LiteralsFit l × LiteralsFit r
      → All (IsPlainFact ρ) (compare_facts op l r sense)
  unfolding compare_facts
  compare-IsPlain op l r sense h f =
      All-append (IsPlainFact ρ) (compare_left (as_var l) op (ignore_paren_imp_casts r) sense)
        (compare_right (as_var r) (as_var l) op (ignore_paren_imp_casts l) sense)
        (left-IsPlain (as_var l) op (ignore_paren_imp_casts r) sense (ignore-IsPlain r h.1 f.1))
        (right-IsPlain (as_var r) (as_var l) op (ignore_paren_imp_casts l) sense
          (ignore-IsPlain l h.0 f.0))

  binary-IsPlain :
      (op : BinOp) (l r : Expr) (sense : Bool) (of_l of_r : List Fact)
      → CastsKeep ρ l × CastsKeep ρ r
      → LiteralsFit l × LiteralsFit r
      → All (IsPlainFact ρ) of_l
      → All (IsPlainFact ρ) of_r
      → All (IsPlainFact ρ) (binary_facts op l r sense of_l of_r)
  unfolding binary_facts
  binary-IsPlain land l r true of_l of_r h f kl kr = All-append (IsPlainFact ρ) of_l of_r kl kr
  binary-IsPlain land l r false of_l of_r h f kl kr = tt
  binary-IsPlain lor l r true of_l of_r h f kl kr = tt
  binary-IsPlain lor l r false of_l of_r h f kl kr = All-append (IsPlainFact ρ) of_l of_r kl kr
  binary-IsPlain assign l r sense of_l of_r h f kl kr = truth_facts-IsPlain (as_var l) sense
  binary-IsPlain compound l r sense of_l of_r h f kl kr = truth_facts-IsPlain (as_var l) sense
  binary-IsPlain lt l r sense of_l of_r h f kl kr = compare-IsPlain lt l r sense h f
  binary-IsPlain gt l r sense of_l of_r h f kl kr = compare-IsPlain gt l r sense h f
  binary-IsPlain le l r sense of_l of_r h f kl kr = compare-IsPlain le l r sense h f
  binary-IsPlain ge l r sense of_l of_r h f kl kr = compare-IsPlain ge l r sense h f
  binary-IsPlain eq l r sense of_l of_r h f kl kr = compare-IsPlain eq l r sense h f
  binary-IsPlain ne l r sense of_l of_r h f kl kr = compare-IsPlain ne l r sense h f
  binary-IsPlain _ l r sense of_l of_r h f kl kr = tt

  pub walk-IsPlain :
      (under : Bool) (e : Expr) (sense : Bool)
      → CastsKeep ρ e
      → LiteralsFit e
      → All (IsPlainFact ρ) (walk_condition under e sense)
  unfolding walk_condition
  walk-IsPlain under (paren e) sense h f = walk-IsPlain under e sense h f
  walk-IsPlain false (implicit k e) sense h f = walk-IsPlain false e sense h.1 f
  walk-IsPlain true (implicit k e) sense h f = truth_facts-IsPlain (as_var e) sense
  walk-IsPlain under (explicit to_bool e) sense h f = walk-IsPlain true e sense h f
  walk-IsPlain under (explicit same_type e) sense h f = walk-IsPlain true e sense h f
  walk-IsPlain under (explicit converting e) sense h f = tt
  walk-IsPlain under (expect e) sense h f = walk-IsPlain false e sense h f
  walk-IsPlain under (identity e) sense h f = walk-IsPlain false e sense h f
  walk-IsPlain under (ref v) sense h f = (tt, tt)
  walk-IsPlain under (lnot e) sense h f = walk-IsPlain false e (not sense) h f
  walk-IsPlain under (bin op l r) sense h f =
      binary-IsPlain op l r sense (walk_condition false l sense) (walk_condition false r sense) h f
        (walk-IsPlain false l sense h.0 f.0) (walk-IsPlain false r sense h.1 f.1)
  walk-IsPlain under _ sense h f = tt
