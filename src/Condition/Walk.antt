-- ===== src/Condition/Walk.antt =====
-- engine/ConditionWalk.h: every fact that the walk reports holds on its edge.
use code_skeptic.Prelude.{
  ◌≡◌, refl, sym, ap, ◌∙◌, Bool, true, false, not, Option, none, some, List, [], ◌∷◌, ◌++◌, ◌==◌,
  arith, Option-cases, Bool-cases, inl, inr, All,
}
use code_skeptic.Prelude.Int.{ℤ}
use code_skeptic.Condition.{
  Var, BinOp, lt, gt, le, ge, eq, ne, land, lor, assign, compound, to_bool, same_type, converting,
  Expr, ref, paren, implicit, explicit, expect, identity, lnot, bin, Fact, compare,
  ignore_paren_imp_casts, as_var, mirror, compare_left, compare_right, compare_facts, truth_facts,
  binary_facts, walk_condition,
}
use code_skeptic.Condition.Meaning.{
  Env, eval, binary, is_true, of_bool, compare_values, CastsKeep, FactHolds,
}

pub All-append :
    {A : Type 0} (P : A → Type 0) (xs ys : List A) → All P xs → All P ys → All P (xs ++ ys)
All-append P [] ys h k = k
All-append P (x ∷ xs) ys h k = (h.0, All-append P xs ys h.1 k)

module _ (ρ : Env) where
  pub eval-ignore : (e : Expr) → CastsKeep ρ e → eval ρ (ignore_paren_imp_casts e) ≡ eval ρ e
  unfolding ignore_paren_imp_casts eval
  eval-ignore (paren e) h = eval-ignore e h
  eval-ignore (implicit k e) h = eval-ignore e h.1 ∙ sym h.0
  eval-ignore _ h = refl

  as_var-eval : (e : Expr) (v : Var) → CastsKeep ρ e → as_var e ≡ some v → eval ρ e ≡ ρ.var v.id
  unfolding as_var eval binary
  as_var-eval (paren e) v h q = as_var-eval e v h q
  as_var-eval (implicit k e) v h q = h.0 ∙ as_var-eval e v h.1 q
  as_var-eval (bin assign l r) v h q = as_var-eval l v h.0 q
  as_var-eval (bin compound l r) v h q = as_var-eval l v h.0 q
  as_var-eval (ref w) v h q = let e : w ≡ v = cc in ap (λ (u : Var). ρ.var u.id) e
  as_var-eval (bin _ l r) v h q = cc
  as_var-eval _ v h q = cc

  of_bool-is_true : (b : Bool) → is_true (of_bool b) ≡ b
  of_bool-is_true true = ground arith
  of_bool-is_true false = ground arith

  truth_facts_hold :
      (e : Expr) (sense : Bool)
      → CastsKeep ρ e
      → is_true (eval ρ e) ≡ sense
      → All (FactHolds ρ) (truth_facts (as_var e) sense)
  unfolding truth_facts
  truth_facts_hold e sense h t = elim (Option-cases (as_var e)) [
    | inl q ↦ rw q tt
    | inr q ↦ let (v, ev) = q in rw ev (sym (ap is_true (as_var-eval e v h ev)) ∙ t, tt)
  ]

  mirror_values : (op : BinOp) (a b : ℤ) → compare_values (mirror op) a b ≡ compare_values op b a
  unfolding mirror
  mirror_values lt a b = refl
  mirror_values gt a b = refl
  mirror_values le a b = refl
  mirror_values ge a b = refl
  mirror_values eq a b = ground arith
  mirror_values ne a b = ground arith
  mirror_values _ a b = refl

  left_holds :
      (o : Option Var) (op : BinOp) (e : Expr) (a : ℤ) (sense : Bool)
      → ((v : Var) → o ≡ some v → a ≡ ρ.var v.id)
      → compare_values op a (eval ρ e) ≡ sense
      → All (FactHolds ρ) (compare_left o op e sense)
  unfolding compare_left
  left_holds none op e a sense h t = tt
  left_holds (some v) op e a sense h t =
      (ap (λ z. compare_values op z (eval ρ e)) (sym (h v refl)) ∙ t, tt)

  mirrored_holds :
      (v : Var) (op : BinOp) (e : Expr) (b : ℤ) (sense : Bool)
      → b ≡ ρ.var v.id
      → compare_values op (eval ρ e) b ≡ sense
      → FactHolds ρ (compare v (mirror op) e sense)
  mirrored_holds v op e b sense h t =
      mirror_values op (ρ.var v.id) (eval ρ e) ∙ ap (compare_values op (eval ρ e)) (sym h) ∙ t

  right_holds :
      (o w : Option Var) (op : BinOp) (e : Expr) (b : ℤ) (sense : Bool)
      → ((v : Var) → o ≡ some v → b ≡ ρ.var v.id)
      → compare_values op (eval ρ e) b ≡ sense
      → All (FactHolds ρ) (compare_right o w op e sense)
  unfolding compare_right
  right_holds none w op e b sense h t = tt
  right_holds (some v) none op e b sense h t = (mirrored_holds v op e b sense (h v refl) t, tt)
  right_holds (some v) (some u) op e b sense h t = elim (Bool-cases (v.id == u.id)) [
    | inl q ↦ rw q tt
    | inr q ↦ rw q (mirrored_holds v op e b sense (h v refl) t, tt)
  ]

  compare_facts_hold :
      (op : BinOp) (l r : Expr) (sense : Bool)
      → CastsKeep ρ l
      → CastsKeep ρ r
      → compare_values op (eval ρ l) (eval ρ r) ≡ sense
      → All (FactHolds ρ) (compare_facts op l r sense)
  unfolding compare_facts
  compare_facts_hold op l r sense hl hr t =
      All-append (FactHolds ρ) (compare_left (as_var l) op (ignore_paren_imp_casts r) sense)
        (compare_right (as_var r) (as_var l) op (ignore_paren_imp_casts l) sense)
        (left_holds (as_var l) op (ignore_paren_imp_casts r) (eval ρ l) sense
          (λ v. as_var-eval l v hl) (ap (compare_values op (eval ρ l)) (eval-ignore r hr) ∙ t))
        (right_holds (as_var r) (as_var l) op (ignore_paren_imp_casts l) (eval ρ r) sense
          (λ v. as_var-eval r v hr)
          (ap (λ z. compare_values op z (eval ρ r)) (eval-ignore l hl) ∙ t))

  binary_facts_hold :
      (op : BinOp) (l r : Expr) (sense : Bool) (of_l of_r : List Fact)
      → CastsKeep ρ l
      → CastsKeep ρ r
      → is_true (eval ρ (bin op l r)) ≡ sense
      → (is_true (eval ρ l) ≡ sense → All (FactHolds ρ) of_l)
      → (is_true (eval ρ r) ≡ sense → All (FactHolds ρ) of_r)
      → All (FactHolds ρ) (binary_facts op l r sense of_l of_r)
  unfolding binary_facts eval binary
  binary_facts_hold land l r true of_l of_r hl hr t kl kr =
      All-append (FactHolds ρ) of_l of_r (kl (ground arith)) (kr (ground arith))
  binary_facts_hold land l r false of_l of_r hl hr t kl kr = tt
  binary_facts_hold lor l r true of_l of_r hl hr t kl kr = tt
  binary_facts_hold lor l r false of_l of_r hl hr t kl kr =
      All-append (FactHolds ρ) of_l of_r (kl (ground arith)) (kr (ground arith))
  binary_facts_hold assign l r sense of_l of_r hl hr t kl kr = truth_facts_hold l sense hl t
  binary_facts_hold compound l r sense of_l of_r hl hr t kl kr = truth_facts_hold l sense hl t
  binary_facts_hold lt l r sense of_l of_r hl hr t kl kr =
      compare_facts_hold lt l r sense hl hr
        (sym (of_bool-is_true (compare_values lt (eval ρ l) (eval ρ r))) ∙ t)
  binary_facts_hold gt l r sense of_l of_r hl hr t kl kr =
      compare_facts_hold gt l r sense hl hr
        (sym (of_bool-is_true (compare_values gt (eval ρ l) (eval ρ r))) ∙ t)
  binary_facts_hold le l r sense of_l of_r hl hr t kl kr =
      compare_facts_hold le l r sense hl hr
        (sym (of_bool-is_true (compare_values le (eval ρ l) (eval ρ r))) ∙ t)
  binary_facts_hold ge l r sense of_l of_r hl hr t kl kr =
      compare_facts_hold ge l r sense hl hr
        (sym (of_bool-is_true (compare_values ge (eval ρ l) (eval ρ r))) ∙ t)
  binary_facts_hold eq l r sense of_l of_r hl hr t kl kr =
      compare_facts_hold eq l r sense hl hr
        (sym (of_bool-is_true (compare_values eq (eval ρ l) (eval ρ r))) ∙ t)
  binary_facts_hold ne l r sense of_l of_r hl hr t kl kr =
      compare_facts_hold ne l r sense hl hr
        (sym (of_bool-is_true (compare_values ne (eval ρ l) (eval ρ r))) ∙ t)
  binary_facts_hold _ l r sense of_l of_r hl hr t kl kr = tt

  -- If no implicit cast in the condition changes a value, then every fact that the walk reports for
  -- an edge holds whenever the condition evaluates to that edge's sense.
  pub walk_condition_sound :
      (under : Bool) (e : Expr) (sense : Bool)
      → CastsKeep ρ e
      → is_true (eval ρ e) ≡ sense
      → All (FactHolds ρ) (walk_condition under e sense)
  unfolding walk_condition eval
  walk_condition_sound under (paren e) sense h t = walk_condition_sound under e sense h t
  walk_condition_sound false (implicit k e) sense h t =
      walk_condition_sound false e sense h.1 (sym (ap is_true h.0) ∙ t)
  walk_condition_sound true (implicit k e) sense h t =
      truth_facts_hold e sense h.1 (sym (ap is_true h.0) ∙ t)
  walk_condition_sound under (explicit to_bool e) sense h t =
      walk_condition_sound true e sense h (sym (of_bool-is_true (is_true (eval ρ e))) ∙ t)
  walk_condition_sound under (explicit same_type e) sense h t =
      walk_condition_sound true e sense h t
  walk_condition_sound under (explicit converting e) sense h t = tt
  walk_condition_sound under (expect e) sense h t = walk_condition_sound false e sense h t
  walk_condition_sound under (identity e) sense h t = walk_condition_sound false e sense h t
  walk_condition_sound under (ref v) sense h t = (t, tt)
  walk_condition_sound under (lnot e) sense h t =
      walk_condition_sound false e (not sense) h
        (ground (arith, of_bool-is_true (not (is_true (eval ρ e)))))
  walk_condition_sound under (bin op l r) sense h t =
      binary_facts_hold op l r sense (walk_condition false l sense) (walk_condition false r sense)
        h.0 h.1 t (walk_condition_sound false l sense h.0) (walk_condition_sound false r sense h.1)
  walk_condition_sound under _ sense h t = tt
