-- ===== src/SummaryDiff.antt =====
-- engine/SummaryDiff.cpp and engine/FunctionSummary.h: function summaries, and the direction in which
-- each of their relations changed. The text of a change is its label.
pub mod Diff
pub mod Gate
pub mod Unchanged
pub mod Weakening
pub mod Visited
pub mod Report
use code_skeptic.Prelude.{
  ℕ, zero, suc, max, Bool, true, false, not, ◌&&◌, ◌||◌, Option, none, some, List, [], ◌∷◌, ◌++◌,
  ◌==◌, ltb, if◌then◌else◌, bool_eq, length, get_elem?,
}
use code_skeptic.Prelude.Int.{ℤ, pos, ltb_ℤ, eqb_ℤ}
use code_skeptic.Interval.{Interval}

pub data ReturnNullness : Type 0 where
  unknown_null never_null maybe_null : ReturnNullness

pub data ReturnZeroness : Type 0 where
  unknown_zero always_zero never_zero maybe_zero : ReturnZeroness

pub data ReturnOwnership : Type 0 where
  unknown_return owned borrowed_return : ReturnOwnership

pub data ParamEffect : Type 0 where
  opaque_effect reads_only frees stores : ParamEffect

pub data ParamAccess : Type 0 where
  unknown_access no_access reads writes reads_writes : ParamAccess

pub data ParamOwnership : Type 0 where
  unknown_ownership borrowed consumed transferred : ParamOwnership

pub data ParamPrecondition : Type 0 where
  no_precondition non_null_crash non_null_rejected : ParamPrecondition

pub data ParamPostcondition : Type 0 where
  unknown_post null_post non_null_post : ParamPostcondition

pub data ParamAllocatorSize : Type 0 where
  unknown_size no_size sink : ParamAllocatorSize

-- A set of field names; numbers stand for the names.
pub record FieldWriteSet : Type 0 where
  pub known : Bool
  pub fields : List ℕ

pub record FunctionSummary : Type 0 where
  pub return_nullness : ReturnNullness
  pub return_zeroness : ReturnZeroness
  pub return_ownership : ReturnOwnership
  pub params : List ParamEffect
  pub param_accesses : List ParamAccess
  pub param_ownerships : List ParamOwnership
  pub param_field_writes : List FieldWriteSet
  pub param_preconditions : List ParamPrecondition
  pub param_postconditions : List ParamPostcondition
  pub param_allocator_sizes : List ParamAllocatorSize
  pub zero_from_param : ℤ
  pub null_from_param : ℤ
  pub return_alias_param : ℤ
  pub null_cond_param : ℤ
  pub null_cond_range : Interval

abbrev pub or_else {ℓ} : {A : Type ℓ} → A → Option A → A
or_else d none = d
or_else d (some a) = a

unfoldable pub param_effect : FunctionSummary → ℕ → ParamEffect
param_effect s i = or_else opaque_effect (get_elem? s.params i)

unfoldable pub param_access : FunctionSummary → ℕ → ParamAccess
param_access s i = or_else unknown_access (get_elem? s.param_accesses i)

unfoldable pub exact_param_field_writes : FunctionSummary → ℕ → Option (List ℕ)
exact_param_field_writes s i = elim (get_elem? s.param_field_writes i) [
  | none ↦ none
  | some w ↦ if w.known then some w.fields else none
]

-- What older summaries, without the relation of their own, say of the ownership.
unfoldable pub ownership_of_effect : ParamEffect → ParamOwnership
ownership_of_effect reads_only = borrowed
ownership_of_effect frees = consumed
ownership_of_effect stores = transferred
ownership_of_effect opaque_effect = unknown_ownership

unfoldable pub param_ownership : FunctionSummary → ℕ → ParamOwnership
param_ownership s i = elim (get_elem? s.param_ownerships i) [
  | some o ↦ o
  | none ↦ ownership_of_effect (param_effect s i)
]

unfoldable pub param_precondition : FunctionSummary → ℕ → ParamPrecondition
param_precondition s i = or_else no_precondition (get_elem? s.param_preconditions i)

unfoldable pub param_postcondition : FunctionSummary → ℕ → ParamPostcondition
param_postcondition s i = or_else unknown_post (get_elem? s.param_postconditions i)

unfoldable pub param_allocator_size : FunctionSummary → ℕ → ParamAllocatorSize
param_allocator_size s i = or_else unknown_size (get_elem? s.param_allocator_sizes i)

-- The position of a value in its enumeration.
abbrev pub nullness_code : ReturnNullness → ℕ
nullness_code unknown_null = 0
nullness_code never_null = 1
nullness_code maybe_null = 2

abbrev pub zeroness_code : ReturnZeroness → ℕ
zeroness_code unknown_zero = 0
zeroness_code always_zero = 1
zeroness_code never_zero = 2
zeroness_code maybe_zero = 3

abbrev pub return_ownership_code : ReturnOwnership → ℕ
return_ownership_code unknown_return = 0
return_ownership_code owned = 1
return_ownership_code borrowed_return = 2

abbrev pub effect_code : ParamEffect → ℕ
effect_code opaque_effect = 0
effect_code reads_only = 1
effect_code frees = 2
effect_code stores = 3

abbrev pub access_code : ParamAccess → ℕ
access_code unknown_access = 0
access_code no_access = 1
access_code reads = 2
access_code writes = 3
access_code reads_writes = 4

abbrev pub ownership_code : ParamOwnership → ℕ
ownership_code unknown_ownership = 0
ownership_code borrowed = 1
ownership_code consumed = 2
ownership_code transferred = 3

abbrev pub precondition_code : ParamPrecondition → ℕ
precondition_code no_precondition = 0
precondition_code non_null_crash = 1
precondition_code non_null_rejected = 2

abbrev pub postcondition_code : ParamPostcondition → ℕ
postcondition_code unknown_post = 0
postcondition_code null_post = 1
postcondition_code non_null_post = 2

abbrev pub allocator_size_code : ParamAllocatorSize → ℕ
allocator_size_code unknown_size = 0
allocator_size_code no_size = 1
allocator_size_code sink = 2

-- The strong claims.
abbrev pub rn_strong : ReturnNullness → Bool
rn_strong v = nullness_code v == 1

abbrev pub rz_strong : ReturnZeroness → Bool
rz_strong v = zeroness_code v == 1 || zeroness_code v == 2

abbrev pub ro_strong : ReturnOwnership → Bool
ro_strong v = not (return_ownership_code v == 0)

abbrev pub pe_strong : ParamEffect → Bool
pe_strong v = effect_code v == 1 || effect_code v == 2

abbrev pub access_strong : ParamAccess → Bool
access_strong v = not (access_code v == 0)

abbrev pub ownership_strong : ParamOwnership → Bool
ownership_strong v = not (ownership_code v == 0)

abbrev pub allocator_size_strong : ParamAllocatorSize → Bool
allocator_size_strong v = allocator_size_code v == 2

abbrev pub alias_strong : ℤ → Bool
alias_strong v = not (ltb_ℤ v (pos 0))
