-- ===== src/PathFacts/Facts.antt =====
-- engine/PathFacts.cpp: `conditionFact` says what a condition evaluates to.
use code_skeptic.Prelude.{
  ℕ, ◌≡◌, refl, sym, ap, subst, ◌∙◌, Bool, true, false, not, ◌&&◌, Option, none, some, bool_eq,
  Bool-cases, inl, inr, arith,
}
use code_skeptic.Prelude.Int.{ℤ, pos, eqb_ℤ, ltb_ℤ, ◌≤ℤ◌}
use code_skeptic.Condition.{
  Var, BinOp, lt, gt, le, ge, eq, ne, Expr, ref, paren, implicit, lnot, bin, opaque, is_comparison,
  ignore_paren_imp_casts,
}
use code_skeptic.Condition.Meaning.{eval, binary, is_true, compare_values, CastsKeep, LiteralsFit}
use code_skeptic.Condition.Walk.{eval-ignore}
use code_skeptic.PathFacts.{FactKey, Claim, var_key, equals, compare_literals}
use code_skeptic.PathFacts.Stores.{Store, key_holds, claim_value}
use code_skeptic.PathFacts.Normal.{not-bool_eq}
use code_skeptic.PathFacts.Conditions.{
  Ast, Keyable, Shape, member_key, truth_of_var, flipped, const_returning_callee, is_stable,
  stable_decl_ref, is_keyed_pointer, ptr_decl_ref, member_shape, opaque_fact, condition_fact,
  upper_bound_nonzero, nonzero_bound,
}
use code_skeptic.PathFacts.Keying.{
  IsRead, ShapeHolds, UnsignedHold, TypesHold, ignored-OwnTypeHolds, truth-key, of_bool-is_true,
  member_shape-value,
}
use code_skeptic.PathFacts.Comparison.{IsAt, IsMember, Says, filtered-IsAt, comparison_fact-Says}

module _ (ast : Ast) (s : Store) (read : IsRead ast s) (k : Keyable) where
  comparison-eval :
      (op : BinOp) (a b other : ℤ)
      → is_comparison op ≡ true
      → is_true (binary op a b other) ≡ compare_values op a b
  unfolding binary
  comparison-eval lt a b other h = of_bool-is_true (compare_values lt a b)
  comparison-eval gt a b other h = of_bool-is_true (compare_values gt a b)
  comparison-eval le a b other h = of_bool-is_true (compare_values le a b)
  comparison-eval ge a b other h = of_bool-is_true (compare_values ge a b)
  comparison-eval eq a b other h = of_bool-is_true (compare_values eq a b)
  comparison-eval ne a b other h = of_bool-is_true (compare_values ne a b)
  comparison-eval _ a b other h = cc

  truth-Says :
      (w : ℤ) (key : FactKey) (claim : Claim)
      → compare_literals equals w (pos 0) ≡ key_holds s key
      → (key, false) ≡ claim
      → is_true w ≡ claim_value s claim
  truth-Says w key claim h e =
      truth-key w ∙ ap (λ (x : Bool). bool_eq x false) h ∙ ap (claim_value s) e

  place-equal :
      (w x : ℤ) → w ≡ x → compare_literals equals w (pos 0) ≡ compare_literals equals x (pos 0)
  place-equal w x e = ap (λ (a : ℤ). compare_literals equals a (pos 0)) e

  truth_of_var-Says :
      (w : ℤ) (sv pv : Option Var)
      → IsAt s w sv
      → IsAt s w pv
      → Says s (is_true w) (truth_of_var sv pv)
  unfolding truth_of_var
  truth_of_var-Says w (some v) pv hs hp claim q =
      truth-Says w (var_key v.id equals (pos 0)) claim (place-equal w (s.env.var v.id) (hs v refl))
        (cc)
  truth_of_var-Says w none (some v) hs hp claim q =
      truth-Says w (var_key v.id equals (pos 0)) claim (place-equal w (s.env.var v.id) (hp v refl))
        (cc)
  truth_of_var-Says w none none hs hp claim q = cc

  opaque_fact-Says :
      (w : ℤ) (m : Option (ℕ × ℕ)) (f : Option ℕ)
      → IsMember s w m
      → ((g : ℕ) → f ≡ some g → w ≡ s.env.var g)
      → Says s (is_true w) (opaque_fact ast k m f)
  unfolding opaque_fact
  opaque_fact-Says w (some m) f hm hf claim q =
      truth-Says w (member_key m (pos 0)) claim (place-equal w (s.member m.0 m.1) (hm m refl)) (cc)
  opaque_fact-Says w none (some f) hm hf claim q =
      truth-Says w (var_key f equals (pos 0)) claim (place-equal w (s.env.var f) (hf f refl)) (cc)
  opaque_fact-Says w none none hm hf claim q = cc

  flipped-Says : (b : Bool) (o : Option Claim) → Says s b o → Says s (not b) (flipped o)
  unfolding flipped
  flipped-Says b none h claim q = cc
  flipped-Says b (some c) h claim q =
      ap not (h c refl)
      ∙ not-bool_eq (key_holds s c.0) c.1
      ∙ ap (claim_value s) (let e : (c.0, not c.1) ≡ claim = cc in e)

  callee-value :
      (sh : Shape) (w : ℤ) (g : ℕ)
      → ShapeHolds ast s sh w
      → const_returning_callee ast sh ≡ some g
      → w ≡ s.env.var g
  unfolding const_returning_callee
  callee-value (Shape.call n f body) w g h q = h g q
  callee-value _ w g h q = cc

  condition_fact-Says :
      (e : Expr)
      → CastsKeep s.env e
      → LiteralsFit e
      → UnsignedHold s.env e
      → Says s (is_true (eval s.env e)) (condition_fact ast k e)
  unfolding condition_fact eval stable_decl_ref ptr_decl_ref
  condition_fact-Says (paren e) h f u claim q = condition_fact-Says e h f u claim q
  condition_fact-Says (implicit c e) h f u claim q =
      ap is_true h.0 ∙ condition_fact-Says e h.1 f u claim q
  condition_fact-Says (ref v) h f u claim q =
      truth_of_var-Says (s.env.var v.id) (stable_decl_ref ast k (ref v))
        (ptr_decl_ref ast k (ref v)) (filtered-IsAt ast s read (ref v) (is_stable ast k) tt)
        (filtered-IsAt ast s read (ref v) (is_keyed_pointer ast k) tt) claim q
  condition_fact-Says (opaque n) h f u claim q =
      let w = s.env.unknown (opaque n) in
      opaque_fact-Says w (member_shape ast k (ast.shape n))
        (const_returning_callee ast (ast.shape n))
        (λ m q. member_shape-value ast s read k (ast.shape n) w m (read.shapes n) q)
        (λ g q. callee-value (ast.shape n) w g (read.shapes n) q) claim q
  condition_fact-Says (lnot e) h f u claim q =
      of_bool-is_true (not (is_true (eval s.env e)))
      ∙ flipped-Says (is_true (eval s.env e)) (condition_fact ast k e) (condition_fact-Says e h f u)
          claim q
  condition_fact-Says (bin op l r) h f u claim q = elim (Bool-cases (is_comparison op)) [
    | inl compares ↦
        comparison-eval op (eval s.env l) (eval s.env r) (s.env.unknown (bin op l r)) compares
        ∙ comparison_fact-Says ast s read k op l r h.0 h.1 f.0 f.1 u.0 u.1 claim (rw compares at q)
    | inr other ↦ let q' = rw other at q in cc
  ]
  condition_fact-Says _ h f u claim q = cc

  -- The fact that a condition is reduced to says what the condition evaluates to: its key has the
  -- returned value exactly if the condition is true. No implicit cast in the condition changes a
  -- value, no literal reaches the sign bit of its type, and no variable in it that has an unsigned
  -- type is negative. In the store null pointer constants are zero, an access of a member has the
  -- member's value, a call of a function that returns a constant has one value, and an enum constant
  -- has that of its bits, which are below the sign bit where its type is unsigned.
  pub condition_fact_sound :
      (e : Expr) (claim : Claim)
      → CastsKeep s.env e
      → LiteralsFit e
      → UnsignedHold s.env e
      → condition_fact ast k e ≡ some claim
      → is_true (eval s.env e) ≡ claim_value s claim
  condition_fact_sound e claim h f u q = condition_fact-Says e h f u claim q

  nonzero_bound-holds :
      (u : Expr → Bool) (o : Option Var) (both : Bool) (big small : ℤ) (key : FactKey)
      → IsAt s big o
      → (both ≡ true → pos 0 ≤ℤ small)
      → ltb_ℤ small big ≡ true
      → nonzero_bound ast k u o both ≡ some key
      → key_holds s key ≡ false
  unfolding nonzero_bound compare_literals
  nonzero_bound-holds u none both big small key ha hs t q = cc
  nonzero_bound-holds u (some v) false big small key ha hs t q = cc
  nonzero_bound-holds u (some v) true big small key ha hs t q =
      let e : var_key v.id equals (pos 0) ≡ key = cc in
      let low = hs refl in
      let positive : eqb_ℤ big (pos 0) ≡ false = ground arith in
      let here : eqb_ℤ (s.env.var v.id) (pos 0) ≡ false =
        ap (λ (a : ℤ). eqb_ℤ a (pos 0)) (sym (ha v refl)) ∙ positive in
      ap (key_holds s) (sym e) ∙ here

  small-nonneg :
      (u : Expr → Bool) (e other : Expr)
      → TypesHold u s.env e
      → CastsKeep s.env e
      → (u other && u (ignore_paren_imp_casts e)) ≡ true
      → pos 0 ≤ℤ eval s.env e
  small-nonneg u e other nn h both =
      let unsigned : u (ignore_paren_imp_casts e) ≡ true = ground arith in
      subst (λ (a : ℤ). pos 0 ≤ℤ a) (eval-ignore s.env e h)
        (ignored-OwnTypeHolds u s.env e nn unsigned)

  -- The key of a strict upper bound is false wherever the comparison is true: its variable is not
  -- zero, if no part of it that has an unsigned type is negative and no implicit cast in the condition changes a
  -- value.
  pub upper_bound_nonzero_sound :
      (unsigned_expr : Expr → Bool) (e : Expr) (key : FactKey)
      → TypesHold unsigned_expr s.env e
      → CastsKeep s.env e
      → upper_bound_nonzero ast k unsigned_expr e ≡ some key
      → is_true (eval s.env e) ≡ true
      → key_holds s key ≡ false
  unfolding upper_bound_nonzero eval stable_decl_ref
  upper_bound_nonzero_sound u (paren e) key nn h q t = upper_bound_nonzero_sound u e key nn.1 h q t
  upper_bound_nonzero_sound u (implicit c e) key nn h q t =
      upper_bound_nonzero_sound u e key nn.1 h.1 q (ap is_true (sym h.0) ∙ t)
  upper_bound_nonzero_sound u (bin lt l r) key nn h q t =
      nonzero_bound-holds u (stable_decl_ref ast k r) (u r && u (ignore_paren_imp_casts l))
        (eval s.env r) (eval s.env l) key (filtered-IsAt ast s read r (is_stable ast k) h.1)
        (small-nonneg u l r nn.1 h.0)
        (sym (comparison-eval lt (eval s.env l) (eval s.env r) (s.env.unknown (bin lt l r)) refl)
          ∙ t)
        q
  upper_bound_nonzero_sound u (bin gt l r) key nn h q t =
      nonzero_bound-holds u (stable_decl_ref ast k l) (u l && u (ignore_paren_imp_casts r))
        (eval s.env l) (eval s.env r) key (filtered-IsAt ast s read l (is_stable ast k) h.0)
        (small-nonneg u r l nn.2 h.1)
        (sym (comparison-eval gt (eval s.env l) (eval s.env r) (s.env.unknown (bin gt l r)) refl)
          ∙ t)
        q
  upper_bound_nonzero_sound u (bin _ l r) key nn h q t = cc
  upper_bound_nonzero_sound u _ key nn h q t = cc
