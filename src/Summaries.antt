-- ===== src/Summaries.antt =====
-- engine/FunctionSummary.cpp: the two merges of function summaries. The record stands in SummaryDiff.
pub mod Calls
pub mod Agreement
pub mod Params
pub mod Conservative
pub mod Targets
pub mod Columns
pub mod ColumnTrip
pub mod Scalars
pub mod Decimals
pub mod ScalarTrip
pub mod Savable
use code_skeptic.Prelude.{
  Option, none, some, ℕ, zero, suc, Bool, true, false, not, ◌&&◌, ◌||◌, List, [], ◌∷◌, ◌==◌, ltb,
  if◌then◌else◌, length,
}
use code_skeptic.Prelude.Int.{ℤ, pos, negsuc, eqb_ℤ}
use code_skeptic.Interval.{Interval, eqb, top}
use code_skeptic.SummaryDiff.{
  FunctionSummary, FieldWriteSet, ReturnNullness, unknown_null, never_null, maybe_null,
  ReturnZeroness, unknown_zero, always_zero, never_zero, maybe_zero, unknown_return, opaque_effect,
  ParamAccess, unknown_access, no_access, reads, writes, reads_writes, unknown_ownership,
  no_precondition, unknown_post, unknown_size, nullness_code, zeroness_code, return_ownership_code,
  effect_code, access_code, ownership_code, precondition_code, postcondition_code,
  allocator_size_code,
}

abbrev pub no_param : ℤ
no_param = negsuc 0

-- A field on which the summaries agree, by its position in its enumeration, or the weak claim.
unfoldable pub agree : {A : Type 0} → (A → ℕ) → A → A → A → A
agree code weak a b = if code a == code b then a else weak

-- A vector with an entry for each parameter, entry by entry.
unfoldable pub pointwise : {A : Type 0} → (A → A → A) → List A → List A → List A
pointwise f [] ys = []
pointwise f (a ∷ xs) [] = []
pointwise f (a ∷ xs) (b ∷ ys) = f a b ∷ pointwise f xs ys

unfoldable pub merge_params : {A : Type 0} → (A → A → A) → List A → List A → List A
merge_params f xs ys = if length xs == length ys then pointwise f xs ys else []

-- `std::set::insert`.
unfoldable pub insert_field : ℕ → List ℕ → List ℕ
insert_field f [] = f ∷ []
insert_field f (g ∷ gs) =
    let rest = insert_field f gs in
    if f == g then g ∷ gs else if ltb f g then f ∷ g ∷ gs else g ∷ rest

unfoldable pub insert_fields : List ℕ → List ℕ → List ℕ
insert_fields [] fs = fs
insert_fields (g ∷ gs) fs = insert_fields gs (insert_field g fs)

unfoldable pub merge_fields : FieldWriteSet → FieldWriteSet → FieldWriteSet
merge_fields target source =
    if target.known && source.known
    then record { known = true; fields = insert_fields source.fields target.fields }
    else record { known = false; fields = [] }

-- An index that both summaries give, if the side of the axis on which it is defined is left.
unfoldable pub agree_param : Bool → ℤ → ℤ → ℤ
agree_param defined a b = if eqb_ℤ a b && defined then a else no_param

-- Whether the condition of a null result survives.
unfoldable pub keeps_condition : FunctionSummary → FunctionSummary → Bool
keeps_condition s t =
    (eqb_ℤ s.null_cond_param t.null_cond_param && eqb s.null_cond_range t.null_cond_range)
    && nullness_code (agree nullness_code unknown_null s.return_nullness t.return_nullness) == 2

unfoldable pub merge_conservative : FunctionSummary → FunctionSummary → FunctionSummary
merge_conservative s t =
    let nullness = agree nullness_code unknown_null s.return_nullness t.return_nullness in
    let zeroness = agree zeroness_code unknown_zero s.return_zeroness t.return_zeroness in
    let keeps = keeps_condition s t in
    record {
      return_nullness = nullness;
      return_zeroness = zeroness;
      return_ownership =
          agree return_ownership_code unknown_return s.return_ownership t.return_ownership;
      params = merge_params (agree effect_code opaque_effect) s.params t.params;
      param_accesses =
          merge_params (agree access_code unknown_access) s.param_accesses t.param_accesses;
      param_ownerships =
          merge_params (agree ownership_code unknown_ownership) s.param_ownerships
            t.param_ownerships;
      param_field_writes = merge_params merge_fields s.param_field_writes t.param_field_writes;
      param_preconditions =
          merge_params (agree precondition_code no_precondition) s.param_preconditions
            t.param_preconditions;
      param_postconditions =
          merge_params (agree postcondition_code unknown_post) s.param_postconditions
            t.param_postconditions;
      param_allocator_sizes =
          merge_params (agree allocator_size_code unknown_size) s.param_allocator_sizes
            t.param_allocator_sizes;
      zero_from_param =
          agree_param (zeroness_code zeroness == 0) s.zero_from_param t.zero_from_param;
      null_from_param =
          agree_param (nullness_code nullness == 0) s.null_from_param t.null_from_param;
      return_alias_param = agree_param true s.return_alias_param t.return_alias_param;
      null_cond_param = if keeps then s.null_cond_param else no_param;
      null_cond_range = if keeps then s.null_cond_range else top;
    }

unfoldable pub join_nullness : ReturnNullness → ReturnNullness → ReturnNullness
join_nullness l r =
    if nullness_code l == 0 || nullness_code r == 0
    then unknown_null
    else if nullness_code l == nullness_code r
    then l
    else maybe_null

unfoldable pub join_zeroness : ReturnZeroness → ReturnZeroness → ReturnZeroness
join_zeroness l r =
    if zeroness_code l == 0 || zeroness_code r == 0
    then unknown_zero
    else if zeroness_code l == zeroness_code r
    then l
    else maybe_zero

-- The summary whose condition survives, if one does.
unfoldable pub conditioned : FunctionSummary → FunctionSummary → Option FunctionSummary
conditioned s t =
    let l = nullness_code s.return_nullness in
    let r = nullness_code t.return_nullness in
    let same =
      eqb_ℤ s.null_cond_param t.null_cond_param && eqb s.null_cond_range t.null_cond_range in
    if l == 2 && r == 1
    then some s
    else if l == 1 && r == 2
    then some t
    else if l == 2 && (r == 2 && same)
    then some s
    else none

-- The bits of an access: reads, writes.
abbrev pub access_bits : ParamAccess → Bool × Bool
access_bits no_access = (false, false)
access_bits reads = (true, false)
access_bits writes = (false, true)
access_bits reads_writes = (true, true)
access_bits unknown_access = (true, true)

abbrev pub access_of : Bool → Bool → ParamAccess
access_of false false = no_access
access_of true false = reads
access_of false true = writes
access_of true true = reads_writes

unfoldable pub join_access : ParamAccess → ParamAccess → ParamAccess
join_access l r =
    let a = access_bits l in
    let b = access_bits r in
    if access_code l == 0 || access_code r == 0
    then unknown_access
    else access_of (a.0 || b.0) (a.1 || b.1)

-- The condition that the merge of two targets keeps.
unfoldable pub target_condition : FunctionSummary → FunctionSummary → Option FunctionSummary
target_condition s t =
    if nullness_code (join_nullness s.return_nullness t.return_nullness) == 2
    then conditioned s t
    else none

abbrev pub param_of : Option FunctionSummary → ℤ
param_of none = no_param
param_of (some s) = s.null_cond_param

abbrev pub range_of : Option FunctionSummary → Interval
range_of none = top
range_of (some s) = s.null_cond_range

unfoldable pub merge_target_summaries : FunctionSummary → FunctionSummary → FunctionSummary
merge_target_summaries s t = record (merge_conservative s t) {
  return_nullness = join_nullness s.return_nullness t.return_nullness;
  null_cond_param = param_of (target_condition s t);
  null_cond_range = range_of (target_condition s t);
  return_zeroness = join_zeroness s.return_zeroness t.return_zeroness;
  param_accesses = merge_params join_access s.param_accesses t.param_accesses;
}
