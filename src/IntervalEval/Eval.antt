-- ===== src/IntervalEval/Eval.antt =====
-- engine/IntervalEval.cpp: the interval of an expression covers its value.
use code_skeptic.Prelude.{ℕ, ◌≡◌, Bool, true, none, some, Option-cases, inl, inr, arith}
use code_skeptic.Prelude.Int.{ℤ, pos}
use code_skeptic.Interval.{Interval, top, constant, contains}
use code_skeptic.Interval.Guards.{contains-constant}
use code_skeptic.Interval.Sound.{
  contains-top, contains-add, contains-negate, contains-sub, contains-mul,
}
use code_skeptic.Condition.{
  IntType, BinOp, Expr, literal, ref, paren, implicit, keeps_value, integral, minus, plus, bin,
  untrusted_call, rem,
}
use code_skeptic.Condition.Meaning.{Env, eval, binary, LiteralsFit}
use code_skeptic.IntervalEval.{IntervalMap, or_top, binary_range, sext_literal, eval_interval}
use code_skeptic.IntervalEval.Values.{
  contains-bit_and_range, contains-int_rem, contains-cast_range, contains-int_type_range,
  sext_literal-value,
}

-- Every tracked variable is within its interval.
abbrev pub Covers : IntervalMap → Env → Type 0
Covers st ρ = (x : ℕ) (a : Interval) → st x ≡ some a → contains a (ρ.var x) ≡ true

module _ (st : IntervalMap) (ρ : Env) (cov : Covers st ρ) where
  literal_sound :
      (t : IntType) (n : ℕ)
      → LiteralsFit (literal t n)
      → contains (elim (sext_literal t n) [ none ↦ top | some v ↦ constant v ]) (pos n) ≡ true
  literal_sound t n f = elim (Option-cases (sext_literal t n)) [
    | inl e ↦ rw e (contains-top (pos n))
    | inr p ↦
        let (c, e) = p in
        rw (e, sext_literal-value t n c f.0 f.1 e)
          (rw (contains-constant (pos n) (pos n)) (ground arith))
  ]

  ref_sound : (x : ℕ) → contains (or_top (st x)) (ρ.var x) ≡ true
  ref_sound x = elim (Option-cases (st x)) [
    | inl e ↦ rw e (contains-top (ρ.var x))
    | inr p ↦ let (a, e) = p in rw e (cov x a e)
  ]

  binary_sound :
      (op : BinOp) (a b : Interval) (v w other : ℤ)
      → contains a v ≡ true
      → contains b w ≡ true
      → contains (binary_range op a b) (binary op v w other) ≡ true
  unfolding binary_range binary
  binary_sound BinOp.add a b v w other h k = contains-add a b v w h k
  binary_sound BinOp.sub a b v w other h k = contains-sub a b v w h k
  binary_sound BinOp.mul a b v w other h k = contains-mul a b v w h k
  binary_sound BinOp.bit_and a b v w other h k = contains-bit_and_range a b v w h k
  binary_sound rem a b v w other h k = contains-int_rem a b v w h k
  binary_sound op a b v w other h k = contains-top (binary op v w other)

  -- The interval of an expression contains its value, if each tracked variable is within its
  -- interval and no literal reaches the sign bit of its type. The value is exact: an
  -- arithmetic operation that wraps around is not covered.
  pub eval_interval_sound :
      (ctx : Bool) (e : Expr) → LiteralsFit e → contains (eval_interval ctx st e) (eval ρ e) ≡ true
  unfolding eval_interval eval
  eval_interval_sound ctx (paren e) f = eval_interval_sound ctx e f
  eval_interval_sound ctx (implicit keeps_value e) f = eval_interval_sound ctx e f
  eval_interval_sound true (implicit (integral t) e) f =
      contains-cast_range t (eval_interval true st e) (eval ρ e) (eval_interval_sound true e f)
  eval_interval_sound ctx (literal t n) f = literal_sound t n f
  eval_interval_sound ctx (ref v) f = ref_sound v.id
  eval_interval_sound ctx (minus e) f =
      contains-negate (eval_interval ctx st e) (eval ρ e) (eval_interval_sound ctx e f)
  eval_interval_sound ctx (plus e) f = eval_interval_sound ctx e f
  eval_interval_sound ctx (bin op l r) f =
      binary_sound op (eval_interval ctx st l) (eval_interval ctx st r) (eval ρ l) (eval ρ r)
        (ρ.unknown (bin op l r)) (eval_interval_sound ctx l f.0) (eval_interval_sound ctx r f.1)
  eval_interval_sound true (untrusted_call t) f = contains-int_type_range t (ρ.source t)
  eval_interval_sound ctx e f = contains-top (eval ρ e)
