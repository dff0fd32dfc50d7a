-- ===== src/Condition/Meaning.antt =====
-- What the expressions of a condition evaluate to, read in the state after their side effects.
use code_skeptic.Prelude.{
  ℕ, ◌-◌, ◌%◌, ◌^◌, ◌≤◌, ◌<◌, ◌≡◌, Bool, true, false, not, ◌&&◌, ◌||◌, ltb, if◌then◌else◌,
}
use code_skeptic.Prelude.Int.{ℤ, pos, negsuc, ◌+ℤ◌, ◌-ℤ◌, ◌*ℤ◌, eqb_ℤ, ltb_ℤ, leb_ℤ, rem_ℤ, and_ℤ}
use code_skeptic.Condition.{
  IntType, BinOp, lt, gt, le, ge, eq, ne, land, lor, comma, assign, compound, add, sub, mul,
  bit_and, rem, other_op, keeps_value, integral, other_cast, to_bool, same_type, converting, Expr,
  literal, null_ptr, ref, paren, implicit, explicit, expect, identity, untrusted_call, lnot, minus,
  plus, bin, Fact, truth, compare,
}

-- The values of the variables, and of the expressions that are not modelled.
pub record Env : Type 0 where
  pub var : ℕ → ℤ
  pub source : IntType → ℤ
  pub unknown : Expr → ℤ

-- A value as the type of `width` bits stores it. A null pointer is the value zero.
unfoldable pub low_bits : ℕ → ℤ → ℕ
low_bits w (pos n) = n % 2 ^ w
low_bits w (negsuc n) = 2 ^ w - 1 - n % 2 ^ w

unfoldable pub convert : IntType → ℤ → ℤ
unfolding low_bits
convert t v =
    let u = low_bits t.width v in
    if t.signed && not (ltb u (2 ^ (t.width - 1))) then pos u -ℤ pos (2 ^ t.width) else pos u

abbrev pub of_bool : Bool → ℤ
of_bool true = pos 1
of_bool false = pos 0

abbrev pub is_true : ℤ → Bool
is_true v = not (eqb_ℤ v (pos 0))

abbrev pub compare_values : BinOp → ℤ → ℤ → Bool
compare_values lt a b = ltb_ℤ a b
compare_values gt a b = ltb_ℤ b a
compare_values le a b = leb_ℤ a b
compare_values ge a b = leb_ℤ b a
compare_values eq a b = eqb_ℤ a b
compare_values ne a b = not (eqb_ℤ a b)
compare_values op a b = false

-- The arithmetic is exact: a signed overflow is undefined, and an unsigned one is not modelled.
unfoldable pub binary : BinOp → ℤ → ℤ → ℤ → ℤ
binary land a b other = of_bool (is_true a && is_true b)
binary lor a b other = of_bool (is_true a || is_true b)
binary comma a b other = b
binary assign a b other = a
binary compound a b other = a
binary add a b other = a +ℤ b
binary sub a b other = a -ℤ b
binary mul a b other = a *ℤ b
binary bit_and a b other = and_ℤ a b
binary rem a b other = rem_ℤ a b
binary other_op a b other = other
binary op a b other = of_bool (compare_values op a b)

unfoldable pub eval : Env → Expr → ℤ
unfolding convert binary
eval ρ (literal t n) = pos n
eval ρ null_ptr = pos 0
eval ρ (ref v) = ρ.var v.id
eval ρ (paren e) = eval ρ e
eval ρ (implicit keeps_value e) = eval ρ e
eval ρ (implicit (integral t) e) = convert t (eval ρ e)
eval ρ (implicit other_cast e) = ρ.unknown (implicit other_cast e)
eval ρ (explicit to_bool e) = of_bool (is_true (eval ρ e))
eval ρ (explicit same_type e) = eval ρ e
eval ρ (explicit converting e) = ρ.unknown (explicit converting e)
eval ρ (expect e) = eval ρ e
eval ρ (identity e) = eval ρ e
eval ρ (untrusted_call t) = convert t (ρ.source t)
eval ρ (lnot e) = of_bool (not (is_true (eval ρ e)))
eval ρ (minus e) = pos 0 -ℤ eval ρ e
eval ρ (plus e) = eval ρ e
eval ρ (bin op l r) = binary op (eval ρ l) (eval ρ r) (ρ.unknown (bin op l r))
eval ρ e = ρ.unknown e

-- No implicit cast in the expression changes the value that it converts.
abbrev pub CastsKeep : Env → Expr → Type 0
CastsKeep ρ (paren e) = CastsKeep ρ e
CastsKeep ρ (implicit k e) = (eval ρ (implicit k e) ≡ eval ρ e) × CastsKeep ρ e
CastsKeep ρ (explicit k e) = CastsKeep ρ e
CastsKeep ρ (expect e) = CastsKeep ρ e
CastsKeep ρ (identity e) = CastsKeep ρ e
CastsKeep ρ (lnot e) = CastsKeep ρ e
CastsKeep ρ (minus e) = CastsKeep ρ e
CastsKeep ρ (plus e) = CastsKeep ρ e
CastsKeep ρ (bin op l r) = CastsKeep ρ l × CastsKeep ρ r
CastsKeep ρ e = Unit

-- No literal of the expression reaches the sign bit of its type.
abbrev pub LiteralsFit : Expr → Type 0
LiteralsFit (literal t n) = (1 ≤ t.width) × (n < 2 ^ (t.width - 1))
LiteralsFit (paren e) = LiteralsFit e
LiteralsFit (implicit k e) = LiteralsFit e
LiteralsFit (explicit k e) = LiteralsFit e
LiteralsFit (expect e) = LiteralsFit e
LiteralsFit (identity e) = LiteralsFit e
LiteralsFit (lnot e) = LiteralsFit e
LiteralsFit (minus e) = LiteralsFit e
LiteralsFit (plus e) = LiteralsFit e
LiteralsFit (bin op l r) = LiteralsFit l × LiteralsFit r
LiteralsFit e = Unit

-- What a fact of the walk claims.
abbrev pub FactHolds : Env → Fact → Type 0
FactHolds ρ (truth v sense) = is_true (ρ.var v.id) ≡ sense
FactHolds ρ (compare v op e sense) = compare_values op (ρ.var v.id) (eval ρ e) ≡ sense
