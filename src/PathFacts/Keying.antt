-- ===== src/PathFacts/Keying.antt =====
-- engine/PathFacts.cpp: the fact of a condition says what the condition evaluates to.
use code_skeptic.Prelude.{
  ℕ, ◌-◌, ◌≤◌, ◌<◌, ◌^◌, ◌⊎◌, subst, ◌≡◌, refl, sym, ap, ◌∙◌, Bool, true, false, Option, none, some,
  bool_eq, Bool-cases, Option-cases, inl, inr, arith,
}
use code_skeptic.Prelude.Int.{ℤ, pos, ◌-ℤ◌, eqb_ℤ, ◌≤ℤ◌}
use code_skeptic.Condition.{
  IntType, Var, BinOp, eq, ne, Expr, literal, ref, paren, implicit, explicit, expect, identity,
  lnot, minus, plus, bin, opaque, ignore_paren_imp_casts,
}
use code_skeptic.Condition.Meaning.{
  Env, eval, convert, is_true, of_bool, compare_values, CastsKeep, LiteralsFit,
}
use code_skeptic.Interval.Checked.{fits_int64}
use code_skeptic.IntervalEval.{sext_literal}
use code_skeptic.IntervalEval.Values.{sext_literal-value}
use code_skeptic.PathFacts.{equals, compare_literals}
use code_skeptic.PathFacts.Stores.{Store}
use code_skeptic.PathFacts.Normal.{bool_eq-true, bool_eq-false}
use code_skeptic.PathFacts.Conditions.{
  Ast, Keyable, Shape, enum_constant, member, call, as_ref, enum_value, negated, is_unsigned,
  is_null_constant, is_equality, is_eq, filtered, int_literal_value, const_returning_callee,
  member_of, member_shape, member_fact_ref,
}

-- What an opaque expression evaluates to: an enum constant to its bits, an access of a member to
-- the member's value, and a call of a function that returns a constant to a value that is the
-- function's at each call. The bits of an enum constant of an unsigned type are below the sign bit.
abbrev pub ShapeHolds : Ast → Store → Shape → ℤ → Type 0
ShapeHolds ast s (enum_constant t n) w =
    ((w ≡ convert t (pos n)) × (t.signed ≡ true))
    ⊎ ((w ≡ pos n) × (1 ≤ t.width) × (n < 2 ^ (t.width - 1)))
ShapeHolds ast s (member false base f ok) w = (v : Var) → as_ref base ≡ some v → w ≡ s.member v.id f
ShapeHolds ast s (call n f body) w =
    (g : ℕ) → const_returning_callee ast (call n f body) ≡ some g → w ≡ s.env.var g
ShapeHolds ast s _ w = Unit

-- The store is one of the program: opaque expressions evaluate as their shapes say, and null pointer
-- constants are zero, also where they are converted explicitly.
pub record IsRead (ast : Ast) (s : Store) : Type 0 where
  pub shapes : (n : ℕ) → ShapeHolds ast s (ast.shape n) (s.env.unknown (opaque n))
  pub null : (e : Expr) → is_null_constant e ≡ true → eval s.env e ≡ pos 0

-- Each variable of the expression that has an unsigned type has a value that is not negative.
abbrev pub UnsignedHold : Env → Expr → Type 0
UnsignedHold ρ (ref v) = is_unsigned v ≡ true → pos 0 ≤ℤ ρ.var v.id
UnsignedHold ρ (paren e) = UnsignedHold ρ e
UnsignedHold ρ (implicit k e) = UnsignedHold ρ e
UnsignedHold ρ (explicit k e) = UnsignedHold ρ e
UnsignedHold ρ (expect e) = UnsignedHold ρ e
UnsignedHold ρ (identity e) = UnsignedHold ρ e
UnsignedHold ρ (lnot e) = UnsignedHold ρ e
UnsignedHold ρ (minus e) = UnsignedHold ρ e
UnsignedHold ρ (plus e) = UnsignedHold ρ e
UnsignedHold ρ (bin op l r) = UnsignedHold ρ l × UnsignedHold ρ r
UnsignedHold ρ e = Unit

-- Each part of the expression whose type is unsigned has a value that is not negative. Whether the
-- type of an expression is unsigned is Clang's answer.
abbrev pub OwnTypeHolds : (Expr → Bool) → Env → Expr → Type 0
OwnTypeHolds u ρ e = u e ≡ true → pos 0 ≤ℤ eval ρ e

abbrev pub TypesHold : (Expr → Bool) → Env → Expr → Type 0
TypesHold u ρ (paren e) = OwnTypeHolds u ρ (paren e) × TypesHold u ρ e
TypesHold u ρ (implicit k e) = OwnTypeHolds u ρ (implicit k e) × TypesHold u ρ e
TypesHold u ρ (explicit k e) = OwnTypeHolds u ρ (explicit k e) × TypesHold u ρ e
TypesHold u ρ (expect e) = OwnTypeHolds u ρ (expect e) × TypesHold u ρ e
TypesHold u ρ (identity e) = OwnTypeHolds u ρ (identity e) × TypesHold u ρ e
TypesHold u ρ (lnot e) = OwnTypeHolds u ρ (lnot e) × TypesHold u ρ e
TypesHold u ρ (minus e) = OwnTypeHolds u ρ (minus e) × TypesHold u ρ e
TypesHold u ρ (plus e) = OwnTypeHolds u ρ (plus e) × TypesHold u ρ e
TypesHold u ρ (bin op l r) = OwnTypeHolds u ρ (bin op l r) × TypesHold u ρ l × TypesHold u ρ r
TypesHold u ρ e = OwnTypeHolds u ρ e

own_type : (u : Expr → Bool) (ρ : Env) (e : Expr) → TypesHold u ρ e → OwnTypeHolds u ρ e
own_type u ρ (paren e) h = h.0
own_type u ρ (implicit k e) h = h.0
own_type u ρ (explicit k e) h = h.0
own_type u ρ (expect e) h = h.0
own_type u ρ (identity e) h = h.0
own_type u ρ (lnot e) h = h.0
own_type u ρ (minus e) h = h.0
own_type u ρ (plus e) h = h.0
own_type u ρ (bin op l r) h = h.0
own_type u ρ _ h = h

pub ignored-OwnTypeHolds :
    (u : Expr → Bool) (ρ : Env) (e : Expr)
    → TypesHold u ρ e
    → OwnTypeHolds u ρ (ignore_paren_imp_casts e)
unfolding ignore_paren_imp_casts
ignored-OwnTypeHolds u ρ (paren e) h = ignored-OwnTypeHolds u ρ e h.1
ignored-OwnTypeHolds u ρ (implicit k e) h = ignored-OwnTypeHolds u ρ e h.1
ignored-OwnTypeHolds u ρ e h = own_type u ρ e h

pub truth-key : (a : ℤ) → is_true a ≡ bool_eq (compare_literals equals a (pos 0)) false
unfolding compare_literals
truth-key a = bool_eq-false (eqb_ℤ a (pos 0))

pub of_bool-is_true : (b : Bool) → is_true (of_bool b) ≡ b
of_bool-is_true true = ground arith
of_bool-is_true false = ground arith

pub filtered-some : (o : Option Var) (p : Var → Bool) (v : Var) → filtered o p ≡ some v → o ≡ some v
filtered-some none p v q = cc
filtered-some (some w) p v q = elim (Bool-cases (p w)) [
  | inl kept ↦ rw kept at q
  | inr dropped ↦ let q' = rw dropped at q in cc
]

pub equality-value :
    (op : BinOp) (a c : ℤ)
    → is_equality op ≡ true
    → compare_values op a c ≡ bool_eq (compare_literals equals a c) (is_eq op)
unfolding compare_literals
equality-value eq a c h = bool_eq-true (eqb_ℤ a c)
equality-value ne a c h = bool_eq-false (eqb_ℤ a c)
equality-value _ a c h = cc

pub equality-sym :
    (op : BinOp) (a c : ℤ) → is_equality op ≡ true → compare_values op a c ≡ compare_values op c a
equality-sym eq a c h = ground arith
equality-sym ne a c h = ground arith
equality-sym _ a c h = cc

sext_literal-convert :
    (t : IntType) (n : ℕ) (c : ℤ)
    → sext_literal t n ≡ some c
    → convert (record t { signed = true }) (pos n) ≡ c
unfolding sext_literal
sext_literal-convert t n c q =
    let v = convert (record t { signed = true }) (pos n) in
    elim (Bool-cases (fits_int64 v)) [
      | inl fits ↦ let q' : some v ≡ some c = rw fits at q in cc
      | inr wide ↦ let q' = rw wide at q in cc
    ]

signed-convert :
    (t : IntType) (a : ℤ) → t.signed ≡ true → convert t a ≡ convert (record t { signed = true }) a
unfolding convert
signed-convert t a h = rw h refl

module _ (ast : Ast) (s : Store) (read : IsRead ast s) where
  enum_value-eval : (sh : Shape) (w c : ℤ) → ShapeHolds ast s sh w → enum_value sh ≡ some c → w ≡ c
  unfolding enum_value
  enum_value-eval (enum_constant t n) w c (inl h) q =
      h.0 ∙ signed-convert t (pos n) h.1 ∙ sext_literal-convert t n c q
  enum_value-eval (enum_constant t n) w c (inr h) q = h.0 ∙ sym (sext_literal-value t n c h.1 h.2 q)
  enum_value-eval _ w c h q = cc

  pub as_ref-eval :
      (e : Expr) (v : Var) → CastsKeep s.env e → as_ref e ≡ some v → eval s.env e ≡ s.env.var v.id
  unfolding as_ref eval
  as_ref-eval (paren e) v h q = as_ref-eval e v h q
  as_ref-eval (implicit k e) v h q = h.0 ∙ as_ref-eval e v h.1 q
  as_ref-eval (ref w) v h q = let e : w ≡ v = cc in ap (λ (u : Var). s.env.var u.id) e
  as_ref-eval _ v h q = cc

  pub as_ref-unsigned :
      (e : Expr) (v : Var)
      → UnsignedHold s.env e
      → as_ref e ≡ some v
      → is_unsigned v ≡ true
      → pos 0 ≤ℤ s.env.var v.id
  unfolding as_ref
  as_ref-unsigned (paren e) v h q = as_ref-unsigned e v h q
  as_ref-unsigned (implicit k e) v h q = as_ref-unsigned e v h q
  as_ref-unsigned (ref w) v h q =
      let e : w ≡ v = cc in subst (λ (u : Var). is_unsigned u ≡ true → pos 0 ≤ℤ s.env.var u.id) e h
  as_ref-unsigned _ v h q = cc

  pub int_literal_value-eval :
      (e : Expr) (c : ℤ)
      → CastsKeep s.env e
      → LiteralsFit e
      → int_literal_value ast e ≡ some c
      → eval s.env e ≡ c
  unfolding int_literal_value eval negated
  int_literal_value-eval (paren e) c h f q = int_literal_value-eval e c h f q
  int_literal_value-eval (implicit k e) c h f q = h.0 ∙ int_literal_value-eval e c h.1 f q
  int_literal_value-eval (literal t n) c h f q = sym (sext_literal-value t n c f.0 f.1 q)
  int_literal_value-eval (opaque n) c h f q =
      enum_value-eval (ast.shape n) (s.env.unknown (opaque n)) c (read.shapes n) q
  int_literal_value-eval (minus e) c h f q = elim (Option-cases (int_literal_value ast e)) [
    | inl missing ↦ let q' = rw (missing, negated) at q in cc
    | inr found ↦
        let (d, p) = found in
        let ih = int_literal_value-eval e d h f p in
        let e' : some (pos 0 -ℤ d) ≡ some c = rw (p, negated) at q in
        let r : pos 0 -ℤ d ≡ c = cc in ap (λ (a : ℤ). pos 0 -ℤ a) ih ∙ r
  ]
  int_literal_value-eval _ c h f q = cc

  pub member_shape-value :
      (k : Keyable) (sh : Shape) (w : ℤ) (m : ℕ × ℕ)
      → ShapeHolds ast s sh w
      → member_shape ast k sh ≡ some m
      → w ≡ s.member m.0 m.1
  unfolding member_shape member_of
  member_shape-value k (member false base f true) w m h q = elim (Option-cases (as_ref base)) [
    | inl missing ↦ let q' = rw (missing, member_of) at q in cc
    | inr found ↦
        let (v, e) = found in
        elim (Bool-cases (k.member_base v.id)) [
          | inl admitted ↦
              let q' : some (v.id, f) ≡ some m = rw (e, member_of, admitted) at q in
              let pair : (v.id, f) ≡ m = cc in h v e ∙ ap (λ (p : ℕ × ℕ). s.member p.0 p.1) pair
          | inr banned ↦ let q' = rw (e, member_of, banned) at q in cc
        ]
  ]
  member_shape-value k _ w m h q = cc

  pub member_fact_ref-eval :
      (k : Keyable) (e : Expr) (m : ℕ × ℕ)
      → CastsKeep s.env e
      → member_fact_ref ast k e ≡ some m
      → eval s.env e ≡ s.member m.0 m.1
  unfolding member_fact_ref eval
  member_fact_ref-eval k (paren e) m h q = member_fact_ref-eval k e m h q
  member_fact_ref-eval k (implicit c e) m h q = h.0 ∙ member_fact_ref-eval k e m h.1 q
  member_fact_ref-eval k (opaque n) m h q =
      member_shape-value k (ast.shape n) (s.env.unknown (opaque n)) m (read.shapes n) q
  member_fact_ref-eval k _ m h q = cc
