-- ===== src/PathFacts/Normal.antt =====
-- engine/PathFacts.cpp: the normal form of a comparison says what the comparison says.
use code_skeptic.Prelude.{
  ℕ, ◌≡◌, refl, sym, ap, ◌∙◌, Bool, true, false, not, ◌&&◌, some, if◌then◌else◌, bool_eq,
  Bool-cases, Option-cases, inl, inr, arith,
}
use code_skeptic.Prelude.Int.{ℤ, pos, eqb_ℤ, ltb_ℤ, leb_ℤ, ◌≤ℤ◌}
use code_skeptic.Condition.{BinOp, lt, gt, le, ge, eq, ne, mirror}
use code_skeptic.Condition.Meaning.{compare_values}
use code_skeptic.PathFacts.{
  Claim, var_key, equals, below, at_most, compare_literals, canonical, canonical_of, zero_identity,
  normalize_compare,
}
use code_skeptic.PathFacts.Stores.{Store, claim_value}

pub bool_eq-true : (b : Bool) → b ≡ bool_eq b true
bool_eq-true true = refl
bool_eq-true false = refl

pub bool_eq-false : (b : Bool) → not b ≡ bool_eq b false
bool_eq-false true = refl
bool_eq-false false = refl

pub not-bool_eq : (b v : Bool) → not (bool_eq b v) ≡ bool_eq b (not v)
not-bool_eq true v = refl
not-bool_eq false true = refl
not-bool_eq false false = refl

not_ge : (a b : ℤ) → leb_ℤ b a ≡ not (ltb_ℤ a b)
not_ge a b = ground arith

not_gt : (a b : ℤ) → ltb_ℤ b a ≡ not (leb_ℤ a b)
not_gt a b = ground arith

canonical-value :
    (s : Store) (op : BinOp) (v : ℕ) (c : ℤ) (claim : Claim)
    → canonical op v c ≡ some claim
    → compare_values op (s.env.var v) c ≡ claim_value s claim
unfolding canonical compare_literals
canonical-value s eq v c claim q =
    let e : (var_key v equals c, true) ≡ claim = cc in
    bool_eq-true (eqb_ℤ (s.env.var v) c) ∙ ap (claim_value s) e
canonical-value s ne v c claim q =
    let e : (var_key v equals c, false) ≡ claim = cc in
    bool_eq-false (eqb_ℤ (s.env.var v) c) ∙ ap (claim_value s) e
canonical-value s lt v c claim q =
    let e : (var_key v below c, true) ≡ claim = cc in
    bool_eq-true (ltb_ℤ (s.env.var v) c) ∙ ap (claim_value s) e
canonical-value s ge v c claim q =
    let e : (var_key v below c, false) ≡ claim = cc in
    not_ge (s.env.var v) c ∙ bool_eq-false (ltb_ℤ (s.env.var v) c) ∙ ap (claim_value s) e
canonical-value s le v c claim q =
    let e : (var_key v at_most c, true) ≡ claim = cc in
    bool_eq-true (leb_ℤ (s.env.var v) c) ∙ ap (claim_value s) e
canonical-value s gt v c claim q =
    let e : (var_key v at_most c, false) ≡ claim = cc in
    not_gt (s.env.var v) c ∙ bool_eq-false (leb_ℤ (s.env.var v) c) ∙ ap (claim_value s) e
canonical-value s _ v c claim q = cc

zero_identity-value :
    (unsigned : Bool) (op op' : BinOp) (a : ℤ)
    → (unsigned ≡ true → pos 0 ≤ℤ a)
    → zero_identity unsigned op ≡ some op'
    → compare_values op a (pos 0) ≡ compare_values op' a (pos 0)
unfolding zero_identity
zero_identity-value false op op' a h q =
    let e : op ≡ op' = cc in ap (λ (o : BinOp). compare_values o a (pos 0)) e
zero_identity-value true le op' a h q =
    let e : eq ≡ op' = cc in
    let low = h refl in
    let same : compare_values le a (pos 0) ≡ compare_values eq a (pos 0) = ground arith in
    same ∙ ap (λ (o : BinOp). compare_values o a (pos 0)) e
zero_identity-value true gt op' a h q =
    let e : ne ≡ op' = cc in
    let low = h refl in
    let same : compare_values gt a (pos 0) ≡ compare_values ne a (pos 0) = ground arith in
    same ∙ ap (λ (o : BinOp). compare_values o a (pos 0)) e
zero_identity-value true lt op' a h q = cc
zero_identity-value true ge op' a h q = cc
zero_identity-value true op op' a h q =
    let e : op ≡ op' = cc in ap (λ (o : BinOp). compare_values o a (pos 0)) e

zero_identity-false : (op op' : BinOp) → zero_identity false op ≡ some op' → op ≡ op'
unfolding zero_identity
zero_identity-false op op' q = cc

-- Mirroring the operator is comparing the other way round.
mirror-value : (op : BinOp) (a b : ℤ) → compare_values (mirror op) a b ≡ compare_values op b a
unfolding mirror
mirror-value lt a b = refl
mirror-value gt a b = refl
mirror-value le a b = refl
mirror-value ge a b = refl
mirror-value eq a b = ground arith
mirror-value ne a b = ground arith
mirror-value _ a b = refl

normalized-value :
    (s : Store) (unsigned : Bool) (v : ℕ) (op : BinOp) (c : ℤ) (claim : Claim)
    → (unsigned ≡ true → pos 0 ≤ℤ s.env.var v)
    → canonical_of (zero_identity (unsigned && eqb_ℤ c (pos 0)) op) v c ≡ some claim
    → compare_values op (s.env.var v) c ≡ claim_value s claim
unfolding canonical_of
normalized-value s unsigned v op c claim h q =
    elim (Option-cases (zero_identity (unsigned && eqb_ℤ c (pos 0)) op)) [
      | inl missing ↦ let q' = rw (missing, canonical_of) at q in cc
      | inr found ↦
          let (op', e) = found in
          let kept : compare_values op (s.env.var v) c ≡ compare_values op' (s.env.var v) c =
            (elim (Bool-cases (unsigned && eqb_ℤ c (pos 0))) [
              | inl both ↦
                  let zero_c : c ≡ pos 0 = ground arith in
                  let is_u : unsigned ≡ true = ground arith in
                  rw zero_c
                    (zero_identity-value true op op' (s.env.var v) (λ _. h is_u) (rw both at e))
              | inr apart ↦
                  let same : op ≡ op' = zero_identity-false op op' (rw apart at e) in
                  ap (λ (o : BinOp). compare_values o (s.env.var v) c) same
            ]) in
          kept ∙ canonical-value s op' v c claim (rw (e, canonical_of) at q)
    ]

-- The normal form of a comparison of a variable with a constant says what the comparison says. An
-- unsigned variable is not negative.
pub normalize_compare-value :
    (s : Store) (unsigned : Bool) (v : ℕ) (op : BinOp) (c : ℤ) (on_left : Bool) (claim : Claim)
    → (unsigned ≡ true → pos 0 ≤ℤ s.env.var v)
    → normalize_compare unsigned v op c on_left ≡ some claim
    → (if on_left then compare_values op (s.env.var v) c else compare_values op c (s.env.var v))
      ≡ claim_value s claim
unfolding normalize_compare
normalize_compare-value s unsigned v op c true claim h q =
    normalized-value s unsigned v op c claim h q
normalize_compare-value s unsigned v op c false claim h q =
    sym (mirror-value op (s.env.var v) c) ∙ normalized-value s unsigned v (mirror op) c claim h q
