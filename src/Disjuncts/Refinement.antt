-- ===== src/Disjuncts/Refinement.antt =====
-- engine/GuardedDisjuncts.h: a path that takes an edge stays covered when the edge refines the state.
use code_skeptic.Prelude.{
  ◌≡◌, refl, sym, ap, ◌∙◌, ◌⊎◌, inl, inr, Bool, true, false, not, ◌&&◌, ◌||◌, Option, none, some,
  List, [], ◌∷◌,
}
use code_skeptic.Condition.{
  land, lor, comma, Expr, paren, implicit, explicit, to_bool, same_type, expect, lnot, bin,
}
use code_skeptic.Condition.Meaning.{eval, binary, is_true, of_bool, CastsKeep, LiteralsFit}
use code_skeptic.PathFacts.Stores.{Store}
use code_skeptic.PathFacts.Keying.{UnsignedHold, TypesHold, of_bool-is_true}
use code_skeptic.Disjuncts.{Guarded}
use code_skeptic.Disjuncts.Covers.{PathState, DisjunctCovers, Covers}
use code_skeptic.Disjuncts.Edges.{
  and_then, remaining_operand, refine_disjunct, push_kept, refine_each,
}

module _ {Val : Type 0} (Le : Store → Val → Val → Type 0) (p : PathState Val) where
  -- A disjunct is left, and it covers the path.
  abbrev pub Keeps : Option (Guarded Val) → Type 0
  Keeps none = ⊥
  Keeps (some d) = DisjunctCovers Le p d

  pub Keeps-and_then :
      (o : Option (Guarded Val)) (f : Guarded Val → Option (Guarded Val))
      → Keeps o
      → ((d : Guarded Val) → DisjunctCovers Le p d → Keeps (f d))
      → Keeps (and_then o f)
  Keeps-and_then none f h k = h
  Keeps-and_then (some d) f h k = k d h

  module _ (unsigned_expr : Expr → Bool) where
    -- The path takes a condition with a sense: no implicit cast in it changes a value, no literal
    -- reaches the sign bit of its type, and its variables and parts of unsigned types are not negative.
    abbrev pub Takes : Expr → Bool → Type 0
    Takes e sense =
        CastsKeep p.store.env e
        × LiteralsFit e
        × (is_true (eval p.store.env e) ≡ sense)
        × UnsignedHold p.store.env e
        × TypesHold unsigned_expr p.store.env e

    -- What a hook that rules conditions out owes, and one that refines a disjunct at a leaf.
    abbrev pub IsSoundRefuter : (Guarded Val → Expr → Bool → Bool) → Type 0
    IsSoundRefuter refutes =
        (d : Guarded Val) (e : Expr) (wanted : Bool)
        → DisjunctCovers Le p d
        → Takes e wanted
        → refutes d e wanted ≡ false

    abbrev pub IsSoundLeaf : (Guarded Val → Expr → Bool → Option (Guarded Val)) → Type 0
    IsSoundLeaf apply_leaf =
        (d : Guarded Val) (e : Expr) (sense : Bool)
        → DisjunctCovers Le p d
        → Takes e sense
        → Keeps (apply_leaf d e sense)

    module _ (refutes : Guarded Val → Expr → Bool → Bool)
        (apply_leaf : Guarded Val → Expr → Bool → Option (Guarded Val))
        (refuter : IsSoundRefuter refutes) (leaf : IsSoundLeaf apply_leaf) where
      -- One of two operands has the value, and the other operand may be ruled out.
      Keeps-remaining :
          (l_out r_out : Bool) (of_l of_r : Option (Guarded Val)) (d : Guarded Val)
          → DisjunctCovers Le p d
          → (((l_out ≡ false) × Keeps of_l) ⊎ ((r_out ≡ false) × Keeps of_r))
          → Keeps (remaining_operand l_out r_out of_l of_r d)
      Keeps-remaining true true of_l of_r d h k = elim k [ inl a ↦ cc a.0 | inr b ↦ cc b.0 ]
      Keeps-remaining true false of_l of_r d h k = elim k [ inl a ↦ cc a.0 | inr b ↦ b.1 ]
      Keeps-remaining false true of_l of_r d h k = elim k [ inl a ↦ a.1 | inr b ↦ cc b.0 ]
      Keeps-remaining false false of_l of_r d h k = h

      and_true : (a b : Bool) → (a && b) ≡ true → (a ≡ true) × (b ≡ true)
      and_true true true h = (refl, refl)
      and_true true false h = cc
      and_true false b h = cc

      or_false : (a b : Bool) → (a || b) ≡ false → (a ≡ false) × (b ≡ false)
      or_false false false h = (refl, refl)
      or_false false true h = cc
      or_false true b h = cc

      or_true : (a b : Bool) → (a || b) ≡ true → (a ≡ true) ⊎ (b ≡ true)
      or_true true b h = inl refl
      or_true false b h = inr h

      and_false : (a b : Bool) → (a && b) ≡ false → (a ≡ false) ⊎ (b ≡ false)
      and_false false b h = inl refl
      and_false true b h = inr h

      truth_of : (b sense : Bool) → is_true (of_bool b) ≡ sense → b ≡ sense
      truth_of b sense h = sym (of_bool-is_true b) ∙ h

      not_equal : (b sense : Bool) → not b ≡ sense → b ≡ not sense
      not_equal true sense h = ap not h
      not_equal false sense h = ap not h

      refine_disjunct-Keeps :
          (under : Bool) (e : Expr) (sense : Bool) (d : Guarded Val)
          → DisjunctCovers Le p d
          → Takes e sense
          → Keeps (refine_disjunct refutes apply_leaf under e sense d)
      unfolding refine_disjunct eval binary
      refine_disjunct-Keeps under (paren e) sense d h t =
          refine_disjunct-Keeps under e sense d h (t.0, t.1, t.2, t.3, t.4.1)
      refine_disjunct-Keeps false (implicit k e) sense d h t =
          refine_disjunct-Keeps false e sense d h
            (t.0.1, t.1, ap is_true (sym t.0.0) ∙ t.2, t.3, t.4.1)
      refine_disjunct-Keeps true (implicit k e) sense d h t = leaf d (implicit k e) sense h t
      refine_disjunct-Keeps under (explicit to_bool e) sense d h t =
          refine_disjunct-Keeps true e sense d h
            (t.0, t.1, truth_of (is_true (eval p.store.env e)) sense t.2, t.3, t.4.1)
      refine_disjunct-Keeps under (explicit same_type e) sense d h t =
          refine_disjunct-Keeps true e sense d h (t.0, t.1, t.2, t.3, t.4.1)
      refine_disjunct-Keeps under (explicit k e) sense d h t = leaf d (explicit k e) sense h t
      refine_disjunct-Keeps under (expect e) sense d h t =
          refine_disjunct-Keeps false e sense d h (t.0, t.1, t.2, t.3, t.4.1)
      refine_disjunct-Keeps under (lnot e) sense d h t =
          let flipped =
            not_equal (is_true (eval p.store.env e)) sense
              (truth_of (not (is_true (eval p.store.env e))) sense t.2) in
          refine_disjunct-Keeps false e (not sense) d h (t.0, t.1, flipped, t.3, t.4.1)
      refine_disjunct-Keeps under (bin comma l r) sense d h t =
          refine_disjunct-Keeps false r sense d h (t.0.1, t.1.1, t.2, t.3.1, t.4.2)
      refine_disjunct-Keeps under (bin land l r) true d h t =
          let (vl, vr) = and_true _ _ (truth_of _ true t.2) in
          Keeps-and_then (refine_disjunct refutes apply_leaf false l true d)
            (refine_disjunct refutes apply_leaf false r true)
            (refine_disjunct-Keeps false l true d h (t.0.0, t.1.0, vl, t.3.0, t.4.1))
            (λ d' h'. refine_disjunct-Keeps false r true d' h' (t.0.1, t.1.1, vr, t.3.1, t.4.2))
      refine_disjunct-Keeps under (bin lor l r) false d h t =
          let (vl, vr) = or_false _ _ (truth_of _ false t.2) in
          Keeps-and_then (refine_disjunct refutes apply_leaf false l false d)
            (refine_disjunct refutes apply_leaf false r false)
            (refine_disjunct-Keeps false l false d h (t.0.0, t.1.0, vl, t.3.0, t.4.1))
            (λ d' h'. refine_disjunct-Keeps false r false d' h' (t.0.1, t.1.1, vr, t.3.1, t.4.2))
      refine_disjunct-Keeps under (bin lor l r) true d h t =
          Keeps-remaining (refutes d l true) (refutes d r true)
            (refine_disjunct refutes apply_leaf false l true d)
            (refine_disjunct refutes apply_leaf false r true d) d h
            (elim (or_true _ _ (truth_of _ true t.2)) [
              | inl vl ↦
                  let takes : Takes l true = (t.0.0, t.1.0, vl, t.3.0, t.4.1) in
                  inl (refuter d l true h takes, refine_disjunct-Keeps false l true d h takes)
              | inr vr ↦
                  let takes : Takes r true = (t.0.1, t.1.1, vr, t.3.1, t.4.2) in
                  inr (refuter d r true h takes, refine_disjunct-Keeps false r true d h takes)
            ])
      refine_disjunct-Keeps under (bin land l r) false d h t =
          Keeps-remaining (refutes d l false) (refutes d r false)
            (refine_disjunct refutes apply_leaf false l false d)
            (refine_disjunct refutes apply_leaf false r false d) d h
            (elim (and_false _ _ (truth_of _ false t.2)) [
              | inl vl ↦
                  let takes : Takes l false = (t.0.0, t.1.0, vl, t.3.0, t.4.1) in
                  inl (refuter d l false h takes, refine_disjunct-Keeps false l false d h takes)
              | inr vr ↦
                  let takes : Takes r false = (t.0.1, t.1.1, vr, t.3.1, t.4.2) in
                  inr (refuter d r false h takes, refine_disjunct-Keeps false r false d h takes)
            ])
      refine_disjunct-Keeps under e sense d h t = leaf d e sense h t

      push_kept-Covers :
          (o : Option (Guarded Val)) (ds : List (Guarded Val))
          → Keeps o ⊎ Covers Le p ds
          → Covers Le p (push_kept refutes apply_leaf o ds)
      unfolding push_kept
      push_kept-Covers none ds h = elim h [ inl gone ↦ absurd gone | inr rest ↦ rest ]
      push_kept-Covers (some d) ds h = h

      pub refine_each-Covers :
          (cond : Expr) (sense : Bool) (ds : List (Guarded Val))
          → Takes cond sense
          → Covers Le p ds
          → Covers Le p (refine_each refutes apply_leaf cond sense ds)
      unfolding refine_each
      refine_each-Covers cond sense [] t h = h
      refine_each-Covers cond sense (d ∷ ds) t h =
          push_kept-Covers (refine_disjunct refutes apply_leaf false cond sense d)
            (refine_each refutes apply_leaf cond sense ds)
            (elim h [
              | inl here ↦ inl (refine_disjunct-Keeps false cond sense d here t)
              | inr rest ↦ inr (refine_each-Covers cond sense ds t rest)
            ])
