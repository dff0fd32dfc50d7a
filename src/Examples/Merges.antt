-- ===== src/Examples/Merges.antt =====
-- engine/FunctionSummary.cpp: merges of concrete summaries, and witnesses.
use code_skeptic.Prelude.{ℕ, zero, suc, ◌≡◌, refl, inl, true, false, [], ◌∷◌}
use code_skeptic.Prelude.Int.{pos}
use code_skeptic.Interval.{range, top}
use code_skeptic.SummaryDiff.{
  FunctionSummary, FieldWriteSet, never_null, maybe_null, unknown_zero, borrowed_return, reads_only,
  stores, reads, no_access, borrowed, transferred, non_null_crash, unknown_post, sink,
  param_ownership, param_effect, ownership_of_effect, opaque_effect, unknown_access,
  no_precondition, unknown_size,
}
use code_skeptic.Summaries.{
  merge_conservative, merge_target_summaries, agree, merge_params, pointwise, no_param,
}
use code_skeptic.Prelude.{some}
use code_skeptic.Prelude.Text.{codes, text_eq}
use code_skeptic.Contracts.Lexer.{drop_while, is_space, is_digit, digits_value}
use code_skeptic.SummaryDiff.{param_access}
use code_skeptic.Summaries.Columns.{
  write_columns, parse_columns, write_column, write_all, each, access_to_char,
}
use code_skeptic.Summaries.ColumnTrip.{answered, parse_columns-write_columns}
use code_skeptic.Summaries.Scalars.{
  parse_index, strtoll, to_index, to_int, read_signed, read_digits, all_digits, parse_scalars,
  write_scalars,
}
use code_skeptic.Summaries.ScalarTrip.{IsSavable, kept_scalars, parse_scalars-write_scalars}
use code_skeptic.Summaries.Savable.{merges-IsSavable}
use code_skeptic.Prelude.{arith}
use code_skeptic.Summaries.Calls.{
  Observed, Describes, OfEach, EffectClaim, AccessClaim, OwnershipClaim, FieldsClaim,
  PreconditionClaim, PostconditionClaim, SizeClaim, unknown_fields,
}
use code_skeptic.Summaries.Conservative.{merge_conservative_sound}
use code_skeptic.Summaries.Targets.{merge_target_summaries_sound}

abbrev no_writes : FieldWriteSet
no_writes = record { known = true; fields = [] }

-- It returns null at most if its first argument is not from 0 to 5.
abbrev decoder : FunctionSummary
decoder = record {
  return_nullness = maybe_null;
  return_zeroness = unknown_zero;
  return_ownership = borrowed_return;
  params = reads_only ∷ [];
  param_accesses = reads ∷ [];
  param_ownerships = borrowed ∷ [];
  param_field_writes = no_writes ∷ [];
  param_preconditions = non_null_crash ∷ [];
  param_postconditions = unknown_post ∷ [];
  param_allocator_sizes = sink ∷ [];
  zero_from_param = no_param;
  null_from_param = no_param;
  return_alias_param = no_param;
  null_cond_param = pos 0;
  null_cond_range = range (pos 0) (pos 5);
}

-- Another target of the same call, which never returns null and does not read.
abbrev other_target : FunctionSummary
other_target = record decoder {
  return_nullness = never_null;
  param_accesses = no_access ∷ [];
  null_cond_param = no_param;
  null_cond_range = top;
}

abbrev sample_call : Observed
sample_call = record {
  argument = λ i. pos 3;
  result = pos 7;
  owner_of_result = borrowed_return;
  effect = λ i. reads_only;
  read_through = λ i. true;
  written_through = λ i. false;
  owner = λ i. borrowed;
  written_fields = λ i. [];
  null_treatment = λ i. non_null_crash;
  target = λ i. pos 0;
  reaches_allocator = λ i. true;
}

effects_hold : OfEach (EffectClaim sample_call) opaque_effect (reads_only ∷ [])
effects_hold zero = refl
effects_hold (suc i) = tt

accesses_hold : OfEach (AccessClaim sample_call) unknown_access (reads ∷ [])
accesses_hold zero = refl
accesses_hold (suc i) = tt

owners_hold : (i : ℕ) → OwnershipClaim sample_call i (param_ownership decoder i)
unfolding param_ownership param_effect ownership_of_effect
owners_hold zero = refl
owners_hold (suc i) = tt

writes_hold : OfEach (FieldsClaim sample_call) unknown_fields (no_writes ∷ [])
writes_hold zero = λ e f h. h
writes_hold (suc i) = λ e. cc

preconditions_hold : OfEach (PreconditionClaim sample_call) no_precondition (non_null_crash ∷ [])
preconditions_hold zero = refl
preconditions_hold (suc i) = tt

postconditions_hold : OfEach (PostconditionClaim sample_call) unknown_post (unknown_post ∷ [])
postconditions_hold zero = tt
postconditions_hold (suc i) = tt

sizes_hold : OfEach (SizeClaim sample_call) unknown_size (sink ∷ [])
sizes_hold zero = refl
sizes_hold (suc i) = tt

decoder-Describes : Describes decoder sample_call
decoder-Describes = record {
  nullness = tt;
  zeroness = tt;
  ownership = refl;
  effects = effects_hold;
  accesses = accesses_hold;
  owners = owners_hold;
  field_writes = writes_hold;
  preconditions = preconditions_hold;
  postconditions = postconditions_hold;
  sizes = sizes_hold;
  zero_from = tt;
  null_from = tt;
  alias = tt;
  condition = λ inside. cc;
}

merge_conservative_sound_example : Describes (merge_conservative decoder other_target) sample_call
merge_conservative_sound_example =
    merge_conservative_sound decoder other_target sample_call refl (inl decoder-Describes)

merge_target_summaries_sound_example :
    Describes (merge_target_summaries decoder other_target) sample_call
merge_target_summaries_sound_example =
    merge_target_summaries_sound decoder other_target sample_call refl (inl decoder-Describes)

-- A parameter that is stored and returned, borrowed, and the summary of the same function from a
-- file without ownerships.
abbrev newer_summary : FunctionSummary
newer_summary = record decoder { params = stores ∷ [] }

abbrev older_summary : FunctionSummary
older_summary = record newer_summary { param_ownerships = [] }

-- The merge says that the parameter is transferred, where the newer summary says borrowed.
merge_by_effect : param_ownership (merge_conservative newer_summary older_summary) 0 ≡ transferred
unfolding param_ownership param_effect ownership_of_effect merge_conservative merge_params agree
    pointwise
merge_by_effect = refl

-- The columns of the decoder, which has one parameter.
columns_sample : (write_columns decoder).accesses ≡ codes "R"
unfolding write_columns write_column write_all each param_access access_to_char
columns_sample = refl

-- An empty column, which is no column that a summary is written to, reads as the parameter 0.
empty_index_accepted : parse_index true [] ≡ some (pos 0)
unfolding parse_index strtoll to_index to_int text_eq
empty_index_accepted = refl

-- An index beyond an `int` wraps around.
large_index_wraps : parse_index true (codes "4294967296") ≡ some (pos 0)
unfolding parse_index strtoll to_index to_int text_eq drop_while is_space read_signed read_digits
    all_digits is_digit digits_value
large_index_wraps = refl

parse_columns-write_columns_example :
    parse_columns (write_columns decoder) ≡ some (answered decoder)
parse_columns-write_columns_example = parse_columns-write_columns decoder

decoder-IsSavable : IsSavable decoder
decoder-IsSavable = record {
  zero_from = tt;
  null_from = tt;
  alias = tt;
  condition = (omega arith, refl);
}

-- A function that passes its third argument through, where it is zero.
abbrev pass_through : FunctionSummary
pass_through = record decoder { zero_from_param = pos 2 }

pass_through-IsSavable : IsSavable pass_through
pass_through-IsSavable = record {
  zero_from = (omega arith, refl);
  null_from = tt;
  alias = tt;
  condition = (omega arith, refl);
}

parse_scalars-write_scalars_example :
    parse_scalars (write_scalars pass_through) ≡ some (kept_scalars pass_through)
parse_scalars-write_scalars_example =
    parse_scalars-write_scalars pass_through pass_through-IsSavable

merges-IsSavable_example :
    IsSavable (merge_conservative decoder pass_through)
    × IsSavable (merge_target_summaries decoder pass_through)
merges-IsSavable_example =
    merges-IsSavable decoder pass_through decoder-IsSavable pass_through-IsSavable
