-- ===== src/Summaries/Calls.antt =====
-- engine/FunctionSummary.h: what the fields of a summary claim of a call.
use code_skeptic.Prelude.{ℕ, ◌≡◌, ◌≢◌, Bool, true, false, List, [], get_elem?}
use code_skeptic.Prelude.Int.{ℤ, pos, negsuc}
use code_skeptic.Interval.{Interval, contains}
use code_skeptic.SummaryDiff.{
  FunctionSummary, FieldWriteSet, ReturnNullness, unknown_null, never_null, maybe_null,
  ReturnZeroness, unknown_zero, always_zero, never_zero, maybe_zero, ReturnOwnership,
  unknown_return, owned, borrowed_return, ParamEffect, opaque_effect, reads_only, frees, stores,
  ParamAccess, unknown_access, no_access, reads, writes, reads_writes, ParamOwnership,
  unknown_ownership, borrowed, consumed, transferred, ParamPrecondition, no_precondition,
  non_null_crash, non_null_rejected, ParamPostcondition, unknown_post, null_post, non_null_post,
  ParamAllocatorSize, unknown_size, no_size, sink, or_else, param_ownership,
}
use code_skeptic.SummaryDiff.Diff.{contains_field}

-- One call as it happened. A null pointer is 0. Of each parameter: whether the pointer was read
-- through, written through, released or stored, who is responsible for its object afterwards, the
-- fields written, what its target is afterwards, and whether its value came to an allocator's size.
pub record Observed : Type 0 where
  pub argument : ℕ → ℤ
  pub result : ℤ
  pub owner_of_result : ReturnOwnership
  pub effect : ℕ → ParamEffect
  pub read_through : ℕ → Bool
  pub written_through : ℕ → Bool
  pub owner : ℕ → ParamOwnership
  pub written_fields : ℕ → List ℕ
  pub null_treatment : ℕ → ParamPrecondition
  pub target : ℕ → ℤ
  pub reaches_allocator : ℕ → Bool

abbrev pub NullnessClaim : ReturnNullness → Observed → Type 0
NullnessClaim never_null c = c.result ≢ pos 0
NullnessClaim unknown_null c = Unit
NullnessClaim maybe_null c = Unit

abbrev pub ZeronessClaim : ReturnZeroness → Observed → Type 0
ZeronessClaim always_zero c = c.result ≡ pos 0
ZeronessClaim never_zero c = c.result ≢ pos 0
ZeronessClaim unknown_zero c = Unit
ZeronessClaim maybe_zero c = Unit

abbrev pub OwnedClaim : ReturnOwnership → Observed → Type 0
OwnedClaim unknown_return c = Unit
OwnedClaim owned c = c.owner_of_result ≡ owned
OwnedClaim borrowed_return c = c.owner_of_result ≡ borrowed_return

abbrev pub EffectClaim : Observed → ℕ → ParamEffect → Type 0
EffectClaim c i opaque_effect = Unit
EffectClaim c i reads_only = c.effect i ≡ reads_only
EffectClaim c i frees = c.effect i ≡ frees
EffectClaim c i stores = c.effect i ≡ stores

abbrev pub AccessClaim : Observed → ℕ → ParamAccess → Type 0
AccessClaim c i unknown_access = Unit
AccessClaim c i no_access = (c.read_through i ≡ false) × (c.written_through i ≡ false)
AccessClaim c i reads = c.written_through i ≡ false
AccessClaim c i writes = c.read_through i ≡ false
AccessClaim c i reads_writes = Unit

abbrev pub OwnershipClaim : Observed → ℕ → ParamOwnership → Type 0
OwnershipClaim c i unknown_ownership = Unit
OwnershipClaim c i borrowed = c.owner i ≡ borrowed
OwnershipClaim c i consumed = c.owner i ≡ consumed
OwnershipClaim c i transferred = c.owner i ≡ transferred

-- Every field that is written is in the set, if the set is known.
abbrev pub FieldsClaim : Observed → ℕ → FieldWriteSet → Type 0
FieldsClaim c i w =
    w.known ≡ true
    → (f : ℕ) → contains_field (c.written_fields i) f ≡ true
    → contains_field w.fields f ≡ true

abbrev pub PreconditionClaim : Observed → ℕ → ParamPrecondition → Type 0
PreconditionClaim c i no_precondition = Unit
PreconditionClaim c i non_null_crash = c.null_treatment i ≡ non_null_crash
PreconditionClaim c i non_null_rejected = c.null_treatment i ≡ non_null_rejected

abbrev pub PostconditionClaim : Observed → ℕ → ParamPostcondition → Type 0
PostconditionClaim c i unknown_post = Unit
PostconditionClaim c i null_post = c.target i ≡ pos 0
PostconditionClaim c i non_null_post = c.target i ≢ pos 0

abbrev pub SizeClaim : Observed → ℕ → ParamAllocatorSize → Type 0
SizeClaim c i unknown_size = Unit
SizeClaim c i no_size = c.reaches_allocator i ≡ false
SizeClaim c i sink = c.reaches_allocator i ≡ true

-- What holds of the parameter at an index, if there is one: an index below 0 claims nothing.
abbrev pub OfParam : (ℕ → Type 0) → ℤ → Type 0
OfParam P (pos i) = P i
OfParam P (negsuc i) = Unit

abbrev pub ZeroFrom : Observed → ℕ → Type 0
ZeroFrom c i = c.result ≡ pos 0 → c.argument i ≡ pos 0

abbrev pub AliasOf : Observed → ℕ → Type 0
AliasOf c i = c.result ≡ c.argument i

abbrev pub NonNullWithin : Interval → Observed → ℕ → Type 0
NonNullWithin r c i = contains r (c.argument i) ≡ true → c.result ≢ pos 0

-- A vector claims something of each parameter, the weak value where it has no entry.
abbrev pub OfEach : {A : Type 0} → (ℕ → A → Type 0) → A → List A → Type 0
OfEach P weak xs = (i : ℕ) → P i (or_else weak (get_elem? xs i))

abbrev pub unknown_fields : FieldWriteSet
unknown_fields = record { known = false; fields = [] }

-- The call is as the summary claims.
pub record Describes (s : FunctionSummary) (c : Observed) : Type 0 where
  pub nullness : NullnessClaim s.return_nullness c
  pub zeroness : ZeronessClaim s.return_zeroness c
  pub ownership : OwnedClaim s.return_ownership c
  pub effects : OfEach (EffectClaim c) opaque_effect s.params
  pub accesses : OfEach (AccessClaim c) unknown_access s.param_accesses
  pub owners : (i : ℕ) → OwnershipClaim c i (param_ownership s i)
  pub field_writes : OfEach (FieldsClaim c) unknown_fields s.param_field_writes
  pub preconditions : OfEach (PreconditionClaim c) no_precondition s.param_preconditions
  pub postconditions : OfEach (PostconditionClaim c) unknown_post s.param_postconditions
  pub sizes : OfEach (SizeClaim c) unknown_size s.param_allocator_sizes
  pub zero_from : OfParam (ZeroFrom c) s.zero_from_param
  pub null_from : OfParam (ZeroFrom c) s.null_from_param
  pub alias : OfParam (AliasOf c) s.return_alias_param
  pub condition : OfParam (NonNullWithin s.null_cond_range c) s.null_cond_param
