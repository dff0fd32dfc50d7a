-- ===== src/Summaries/ScalarTrip.antt =====
-- engine/FunctionSummary.cpp: the columns of the return value are read back as they were written.
use code_skeptic.Prelude.{ℕ, ◌%◌, ◌<◌, ◌≡◌, refl, ap, Bool, true, some, ◌==◌, ltb, arith}
use code_skeptic.Prelude.Int.{ℤ, pos, negsuc}
use code_skeptic.Prelude.Text.{text_eq}
use code_skeptic.SummaryDiff.{
  FunctionSummary, ReturnNullness, unknown_null, never_null, maybe_null, ReturnZeroness,
  unknown_zero, always_zero, never_zero, maybe_zero, ReturnOwnership, unknown_return, owned,
  borrowed_return, nullness_code, zeroness_code,
}
use code_skeptic.Summaries.{no_param}
use code_skeptic.Summaries.Decimals.{strtoll-decimal, decimal-no_dash}
use code_skeptic.Summaries.Scalars.{
  nullness_to_char, nullness_from_char, zeroness_to_char, zeroness_from_char,
  return_ownership_to_char, return_ownership_from_char, parse_char, to_int, to_index, parse_index,
  write_index, write_scalars, Scalars, parse_scalars,
}

-- An index that fits an `int`, on the side of its axis where it is defined.
abbrev pub Indexes : Bool → ℤ → Type 0
Indexes defined (pos n) = (n < 2147483648) × (defined ≡ true)
Indexes defined (negsuc n) = Unit

-- A summary whose indices are indices of parameters where they are defined: the zero passthrough
-- beside an unknown zeroness, the null passthrough beside an unknown nullness,
-- the condition beside a nullness that may be null.
pub record IsSavable (s : FunctionSummary) : Type 0 where
  pub zero_from : Indexes (zeroness_code s.return_zeroness == 0) s.zero_from_param
  pub null_from : Indexes (nullness_code s.return_nullness == 0) s.null_from_param
  pub alias : Indexes true s.return_alias_param
  pub condition : Indexes (nullness_code s.return_nullness == 2) s.null_cond_param

-- An index as a file keeps it: no index below 0 differs from another.
abbrev pub kept : ℤ → ℤ
kept (pos n) = pos n
kept (negsuc n) = no_param

ltb_small : (n : ℕ) → n < 2147483648 → ltb n 2147483648 ≡ true
ltb_small n h = ground arith

to_int-small : (n : ℕ) → n < 2147483648 → to_int n ≡ pos n
unfolding to_int
to_int-small n h =
    let small : n % 4294967296 ≡ n = ground arith in rw small (rw (ltb_small n h) refl)

parse_index-write_index :
    (defined : Bool) (z : ℤ)
    → Indexes defined z
    → parse_index defined (write_index z) ≡ some (kept z)
unfolding parse_index write_index text_eq to_index
parse_index-write_index defined (pos n) h =
    rw (decimal-no_dash n)
      (rw (h.1) (rw (strtoll-decimal n h.0) (ap (λ i. some i) (to_int-small n h.0))))
parse_index-write_index defined (negsuc n) h = refl

nullness_from_char-nullness_to_char :
    (v : ReturnNullness) → nullness_from_char (nullness_to_char v) ≡ some v
unfolding nullness_from_char nullness_to_char
nullness_from_char-nullness_to_char unknown_null = refl
nullness_from_char-nullness_to_char never_null = refl
nullness_from_char-nullness_to_char maybe_null = refl

zeroness_from_char-zeroness_to_char :
    (v : ReturnZeroness) → zeroness_from_char (zeroness_to_char v) ≡ some v
unfolding zeroness_from_char zeroness_to_char
zeroness_from_char-zeroness_to_char unknown_zero = refl
zeroness_from_char-zeroness_to_char always_zero = refl
zeroness_from_char-zeroness_to_char never_zero = refl
zeroness_from_char-zeroness_to_char maybe_zero = refl

return_ownership_from_char-return_ownership_to_char :
    (v : ReturnOwnership) → return_ownership_from_char (return_ownership_to_char v) ≡ some v
unfolding return_ownership_from_char return_ownership_to_char
return_ownership_from_char-return_ownership_to_char unknown_return = refl
return_ownership_from_char-return_ownership_to_char owned = refl
return_ownership_from_char-return_ownership_to_char borrowed_return = refl

abbrev pub kept_scalars : FunctionSummary → Scalars
kept_scalars s = record {
  return_nullness = s.return_nullness;
  return_zeroness = s.return_zeroness;
  zero_from_param = kept s.zero_from_param;
  null_from_param = kept s.null_from_param;
  return_alias_param = kept s.return_alias_param;
  return_ownership = s.return_ownership;
}

-- The columns of the return value of a savable summary are read back as they were, any index below
-- 0 as -1.
pub parse_scalars-write_scalars :
    (s : FunctionSummary) → IsSavable s → parse_scalars (write_scalars s) ≡ some (kept_scalars s)
unfolding parse_scalars write_scalars parse_char
parse_scalars-write_scalars s h =
    let zero_from = parse_index-write_index _ s.zero_from_param h.zero_from in
    let null_from = parse_index-write_index _ s.null_from_param h.null_from in
    let alias = parse_index-write_index _ s.return_alias_param h.alias in
    rw (nullness_from_char-nullness_to_char s.return_nullness) (
      rw (zeroness_from_char-zeroness_to_char s.return_zeroness) (
        rw zero_from (
          rw null_from (
            rw alias
              (rw (return_ownership_from_char-return_ownership_to_char s.return_ownership) refl)))))
