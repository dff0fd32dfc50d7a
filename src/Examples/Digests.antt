-- ===== src/Examples/Digests.antt =====
-- engine/ConditionWalk.h and engine/DataflowEngine.h: the digests of concrete conditions.
use native.Mathlib.Nat.{zero-mod}
use code_skeptic.IntervalEval.Ranges.{pow_pos}
use code_skeptic.Prelude.{
  ◌%◌, ◌==◌, if◌then◌else◌, ◌^◌, ◌-◌, ap, ◌∙◌, ◌≡◌, refl, true, false, not, bool_eq, All, arith,
}
use code_skeptic.Prelude.Int.{pos, negsuc}
use code_skeptic.Condition.{
  Var, pointer, Expr, null_ptr, bin, lnot, ne, comma, expect, ref, implicit, keeps_value, integral,
  other_cast, explicit, to_bool, same_type, converting, literal, paren, IntType, walk_condition,
  binary_facts, compare_facts, compare_left, compare_right, as_var,
}
use code_skeptic.Condition.Meaning.{Env, eval, binary, is_true, convert, low_bits}
use code_skeptic.Condition.Digests.{
  walk_zero_condition, walk_null_condition, edge_condition, is_null_literal,
}
use code_skeptic.Condition.Claims.{
  ClaimHolds, walk_zero_condition_sound, walk_null_condition_sound, edge_condition_sound,
}
use code_skeptic.Examples.Conditions.{x, y, loaded_var, guard, env, guard_taken}

walk_zero_condition_sound_example : All (ClaimHolds env) (walk_zero_condition guard true)
unfolding eval
walk_zero_condition_sound_example =
    walk_zero_condition_sound env guard true (((refl, tt), tt), (refl, tt))
      ((tt, (omega arith, omega arith)), tt) guard_taken

-- `p != nullptr`, at a pointer that is not null.
abbrev p : Var
p = record { id = 0; kind = pointer }

abbrev not_null : Expr
not_null = bin ne (implicit keeps_value (ref p)) null_ptr

abbrev pub env_null : Env
env_null = record {
  var = λ n. if n == 8 then negsuc 0 else pos 64;
  source = λ t. pos 0;
  unknown = λ e. pos 0;
}

zero_converts : (t : IntType) → convert t (pos 0) ≡ pos 0
unfolding convert low_bits
zero_converts t =
    let z : 0 % 2 ^ t.width ≡ 0 = zero-mod (2 ^ t.width) in
    rw z (ground (arith, pow_pos (t.width - 1)))

pub null_value : (e : Expr) → is_null_literal e ≡ true → eval env_null e ≡ pos 0
unfolding eval is_null_literal
null_value (paren e) h = null_value e h
null_value (implicit keeps_value e) h = null_value e h
null_value (implicit (integral t) e) h = ap (convert t) (null_value e h) ∙ zero_converts t
null_value (implicit other_cast e) h = refl
null_value (explicit to_bool e) h = let z = null_value e h in rw z (ground arith)
null_value (explicit same_type e) h = null_value e h
null_value (explicit converting e) h = refl
null_value (literal t n) h = ground arith
null_value null_ptr h = refl
null_value _ h = cc

not_null_taken : is_true (eval env_null not_null) ≡ true
unfolding eval binary
not_null_taken = refl

walk_null_condition_sound_example :
    All (ClaimHolds env_null) (walk_null_condition (λ e. true) not_null true)
unfolding eval walk_condition binary_facts compare_facts compare_left compare_right as_var
walk_null_condition_sound_example =
    walk_null_condition_sound env_null (λ e. true) null_value not_null true ((refl, tt), tt)
      ((λ o t. cc, tt)) not_null_taken

-- `!!(x, __builtin_expect(y, 1))`
abbrev wrapped : Expr
wrapped = lnot (lnot (bin comma (loaded_var x) (expect (loaded_var y))))

edge_condition_sound_example :
    bool_eq (is_true (eval env wrapped)) (not false)
    ≡ bool_eq
        (is_true (eval env (edge_condition false wrapped).0))
        (not (edge_condition false wrapped).1)
unfolding eval
edge_condition_sound_example = edge_condition_sound env false wrapped ((refl, tt), (refl, tt))
