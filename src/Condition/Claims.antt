-- ===== src/Condition/Claims.antt =====
-- engine/ConditionWalk.h and engine/DataflowEngine.h: the digests claim what holds, and the leaf of a
-- condition decides it.
use code_skeptic.Prelude.{
  ◌≡◌, refl, sym, ap, ◌∙◌, Bool, true, false, not, some, List, [], ◌∷◌, ◌==◌, bool_eq, arith, All,
  Bool-cases, Option-cases, inl, inr,
}
use code_skeptic.Prelude.Int.{ℤ, pos, -ℤ_parts, eqb_ℤ}
use code_skeptic.Condition.{
  Var, BinOp, lt, gt, le, ge, eq, ne, comma, Expr, literal, paren, implicit, explicit, to_bool,
  same_type, expect, lnot, minus, bin, Fact, truth, compare, walk_condition,
}
use code_skeptic.Condition.Meaning.{
  Env, eval, binary, is_true, of_bool, compare_values, CastsKeep, LiteralsFit, FactHolds,
}
use code_skeptic.Condition.Walk.{All-append, walk_condition_sound}
use code_skeptic.Condition.Parts.{IsPlainFact, walk-IsPlain}
use code_skeptic.Condition.Digests.{
  Claim, zero_literal_state, is_null_literal, zero_compare, zero_claims, is_pointer_var,
  null_compare, null_claims, claims, walk_zero_condition, walk_null_condition, edge_condition,
}

abbrev pub is_ordering : BinOp → Bool
is_ordering lt = true
is_ordering gt = true
is_ordering le = true
is_ordering ge = true
is_ordering op = false

module _ (ρ : Env) where
  abbrev pub ClaimHolds : Claim → Type 0
  ClaimHolds c = eqb_ℤ (ρ.var c.var.id) (pos 0) ≡ c.is_zero

  claims_hold :
      (digest : Fact → List Claim) (Ok : Fact → Type 0) (fs : List Fact)
      → ((f : Fact) → Ok f → All ClaimHolds (digest f))
      → All Ok fs
      → All ClaimHolds (claims digest fs)
  unfolding claims
  claims_hold digest Ok [] h k = tt
  claims_hold digest Ok (f ∷ fs) h k =
      All-append ClaimHolds (digest f) (claims digest fs) (h f k.0) (claims_hold digest Ok fs h k.1)

  zero_literal-value :
      (e : Expr) (z : Bool)
      → CastsKeep ρ e
      → zero_literal_state e ≡ some z
      → eqb_ℤ (eval ρ e) (pos 0) ≡ z
  unfolding zero_literal_state eval
  zero_literal-value (paren e) z h q = zero_literal-value e z h q
  zero_literal-value (implicit k e) z h q =
      ap (λ v. eqb_ℤ v (pos 0)) h.0 ∙ zero_literal-value e z h.1 q
  zero_literal-value (literal t n) z h q = let s : (n == 0) ≡ z = cc in ground arith
  zero_literal-value (minus e) z h q =
      let ih = zero_literal-value e z h q in ground (arith, -ℤ_parts (pos 0) (eval ρ e))
  zero_literal-value _ z h q = cc

  zero_compare_sound :
      (v : Var) (op : BinOp) (w : ℤ) (z sense : Bool)
      → eqb_ℤ w (pos 0) ≡ z
      → compare_values op (ρ.var v.id) w ≡ sense
      → All ClaimHolds (zero_compare v op z sense)
  unfolding zero_compare
  zero_compare_sound v eq w true sense h t = (ground arith, tt)
  zero_compare_sound v eq w false true h t = (ground arith, tt)
  zero_compare_sound v eq w false false h t = tt
  zero_compare_sound v ne w true sense h t = (ground arith, tt)
  zero_compare_sound v ne w false true h t = tt
  zero_compare_sound v ne w false false h t = (ground arith, tt)
  zero_compare_sound v gt w true true h t = (ground arith, tt)
  zero_compare_sound v gt w true false h t = tt
  zero_compare_sound v gt w false sense h t = tt
  zero_compare_sound v lt w true true h t = (ground arith, tt)
  zero_compare_sound v lt w true false h t = tt
  zero_compare_sound v lt w false sense h t = tt
  zero_compare_sound v ge w true true h t = tt
  zero_compare_sound v ge w true false h t = (ground arith, tt)
  zero_compare_sound v ge w false sense h t = tt
  zero_compare_sound v le w true true h t = tt
  zero_compare_sound v le w true false h t = (ground arith, tt)
  zero_compare_sound v le w false sense h t = tt
  zero_compare_sound v op w z sense h t = tt

  abbrev PlainFact : Fact → Type 0
  PlainFact f = FactHolds ρ f × IsPlainFact ρ f

  All-both : (fs : List Fact) → All (FactHolds ρ) fs → All (IsPlainFact ρ) fs → All PlainFact fs
  All-both [] h k = tt
  All-both (f ∷ fs) h k = ((h.0, k.0), All-both fs h.1 k.1)

  zero_claims_sound : (f : Fact) → PlainFact f → All ClaimHolds (zero_claims f)
  unfolding zero_claims
  zero_claims_sound (truth v sense) h = (ground arith, tt)
  zero_claims_sound (compare v op e sense) h = elim (Option-cases (zero_literal_state e)) [
    | inl n ↦ rw (n, zero_claims) tt
    | inr p ↦
        let (z, q) = p in
        rw (q, zero_claims)
          (zero_compare_sound v op (eval ρ e) z sense (zero_literal-value e z h.1.0 q) h.0)
  ]

  -- What the zeroness digest claims of a variable on an edge, that it is zero or that it is not,
  -- holds when the condition evaluates to the sense of the edge, if no implicit cast in it changes a
  -- value and no literal reaches the sign bit of its type.
  pub walk_zero_condition_sound :
      (cond : Expr) (sense : Bool)
      → CastsKeep ρ cond
      → LiteralsFit cond
      → is_true (eval ρ cond) ≡ sense
      → All ClaimHolds (walk_zero_condition cond sense)
  unfolding walk_zero_condition
  walk_zero_condition_sound cond sense h f t =
      claims_hold zero_claims PlainFact (walk_condition false cond sense) zero_claims_sound (
        All-both (walk_condition false cond sense) (walk_condition_sound ρ false cond sense h t)
          (walk-IsPlain ρ false cond sense h f))

  -- A branch condition is true exactly when its leaf is, or, if the sense is flipped, when its leaf
  -- is not. No implicit cast in the condition changes a value.
  pub edge_condition_sound :
      (flip : Bool) (e : Expr)
      → CastsKeep ρ e
      → bool_eq (is_true (eval ρ e)) (not flip)
        ≡ bool_eq (is_true (eval ρ (edge_condition flip e).0)) (not (edge_condition flip e).1)
  unfolding edge_condition eval binary
  edge_condition_sound flip (paren e) h = edge_condition_sound flip e h
  edge_condition_sound flip (implicit k e) h =
      ap (λ v. bool_eq (is_true v) (not flip)) h.0 ∙ edge_condition_sound flip e h.1
  edge_condition_sound flip (explicit to_bool e) h =
      let ih = edge_condition_sound flip e h in
      let s : is_true (of_bool (is_true (eval ρ e))) ≡ is_true (eval ρ e) = ground arith in
      ap (λ b. bool_eq b (not flip)) s ∙ ih
  edge_condition_sound flip (explicit same_type e) h = edge_condition_sound flip e h
  edge_condition_sound flip (expect e) h = edge_condition_sound flip e h
  edge_condition_sound flip (lnot e) h =
      let ih = edge_condition_sound (not flip) e h in
      let s : bool_eq (is_true (of_bool (not (is_true (eval ρ e))))) (not flip)
          ≡ bool_eq (is_true (eval ρ e)) (not (not flip)) =
        ground arith in
      s ∙ ih
  edge_condition_sound flip (bin comma l r) h = edge_condition_sound flip r h.1
  edge_condition_sound flip (bin _ l r) h = refl
  edge_condition_sound flip (explicit _ e) h = refl
  edge_condition_sound flip _ h = refl

  -- The C standard, 6.5.8: two pointers that are ordered point into one object, so neither is null.
  abbrev pub IsOrdered : (Expr → Bool) → Fact → Type 0
  IsOrdered pointer_typed (truth v sense) = Unit
  IsOrdered pointer_typed (compare v op e sense) =
      is_ordering op ≡ true → pointer_typed e ≡ true → eqb_ℤ (ρ.var v.id) (pos 0) ≡ false

  module _ (pointer_typed : Expr → Bool)
      (null_is_zero : (e : Expr) → is_null_literal e ≡ true → eval ρ e ≡ pos 0) where
    abbrev NullFact : Fact → Type 0
    NullFact f = FactHolds ρ f × IsOrdered pointer_typed f

    null_compare_sound :
        (v : Var) (op : BinOp) (w : ℤ) (p n sense : Bool)
        → (n ≡ true → w ≡ pos 0)
        → (is_ordering op ≡ true → p ≡ true → eqb_ℤ (ρ.var v.id) (pos 0) ≡ false)
        → compare_values op (ρ.var v.id) w ≡ sense
        → All ClaimHolds (null_compare v op p n sense)
    unfolding null_compare
    null_compare_sound v lt w true false sense z o t = (o refl refl, tt)
    null_compare_sound v gt w true false sense z o t = (o refl refl, tt)
    null_compare_sound v le w true false sense z o t = (o refl refl, tt)
    null_compare_sound v ge w true false sense z o t = (o refl refl, tt)
    null_compare_sound v lt w true true sense z o t = tt
    null_compare_sound v gt w true true sense z o t = tt
    null_compare_sound v le w true true sense z o t = tt
    null_compare_sound v ge w true true sense z o t = tt
    null_compare_sound v lt w false n sense z o t = tt
    null_compare_sound v gt w false n sense z o t = tt
    null_compare_sound v le w false n sense z o t = tt
    null_compare_sound v ge w false n sense z o t = tt
    null_compare_sound v eq w p true sense z o t =
        let e = z refl in (ap (eqb_ℤ (ρ.var v.id)) (sym e) ∙ t, tt)
    null_compare_sound v eq w p false sense z o t = tt
    null_compare_sound v ne w p true sense z o t =
        let e = z refl in
        let s : not (eqb_ℤ (ρ.var v.id) (pos 0)) ≡ sense =
          ap (λ u. not (eqb_ℤ (ρ.var v.id) u)) (sym e) ∙ t in
        (ground (arith, s), tt)
    null_compare_sound v ne w p false sense z o t = tt
    null_compare_sound v op w p n sense z o t = tt

    null_claims_sound : (f : Fact) → NullFact f → All ClaimHolds (null_claims pointer_typed f)
    unfolding null_claims
    null_claims_sound (truth v sense) h = elim (Bool-cases (is_pointer_var v)) [
      | inl y ↦ rw y (let t = h.0 in ground arith, tt)
      | inr n ↦ rw n tt
    ]
    null_claims_sound (compare v op e sense) h = elim (Bool-cases (is_pointer_var v)) [
      | inl y ↦ rw y (
          null_compare_sound v op (eval ρ e) (pointer_typed e) (is_null_literal e) sense
            (null_is_zero e) h.1 h.0)
      | inr n ↦ rw n tt
    ]

    both :
        (fs : List Fact) → All (FactHolds ρ) fs → All (IsOrdered pointer_typed) fs → All NullFact fs
    both [] h k = tt
    both (f ∷ fs) h k = ((h.0, k.0), both fs h.1 k.1)

    -- What the nullness digest claims of a pointer on an edge, that it is null or that it is not,
    -- holds when the condition evaluates to the sense of the edge. No implicit cast in the condition
    -- changes a value, null pointer constants are zero, and a pointer that the condition compares
    -- with another by an ordering is not null.
    pub walk_null_condition_sound :
        (cond : Expr) (sense : Bool)
        → CastsKeep ρ cond
        → All (IsOrdered pointer_typed) (walk_condition false cond sense)
        → is_true (eval ρ cond) ≡ sense
        → All ClaimHolds (walk_null_condition pointer_typed cond sense)
    unfolding walk_null_condition
    walk_null_condition_sound cond sense h o t =
        claims_hold (null_claims pointer_typed) NullFact (walk_condition false cond sense)
          null_claims_sound
          (both (walk_condition false cond sense) (walk_condition_sound ρ false cond sense h t) o)
