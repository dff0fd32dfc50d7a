-- ===== src/Summaries/Columns.antt =====
-- engine/FunctionSummary.cpp: the columns of the summary file with a character for each parameter.
use code_skeptic.Prelude.{
  ℕ, zero, suc, not, Option, none, some, List, [], ◌∷◌, ◌==◌, if◌then◌else◌, length, bool_eq,
  is_nil,
}
use code_skeptic.Prelude.Text.{Text, codes, text_eq}
use code_skeptic.SummaryDiff.{
  FunctionSummary, ParamEffect, reads_only, frees, stores, opaque_effect, ParamPrecondition,
  non_null_crash, non_null_rejected, no_precondition, ParamPostcondition, null_post, non_null_post,
  unknown_post, ParamAccess, no_access, reads, writes, reads_writes, unknown_access, ParamOwnership,
  borrowed, consumed, transferred, unknown_ownership, ParamAllocatorSize, no_size, sink,
  unknown_size, param_access, param_ownership,
}

unfoldable pub effect_to_char : ParamEffect → ℕ
effect_to_char reads_only = b'R'
effect_to_char frees = b'F'
effect_to_char stores = b'S'
effect_to_char opaque_effect = b'O'

unfoldable pub effect_from_char : ℕ → Option ParamEffect
effect_from_char c =
    if c == b'O'
    then some opaque_effect
    else if c == b'R'
    then some reads_only
    else if c == b'F'
    then some frees
    else if c == b'S'
    then some stores
    else none

unfoldable pub precondition_to_char : ParamPrecondition → ℕ
precondition_to_char non_null_crash = b'C'
precondition_to_char non_null_rejected = b'R'
precondition_to_char no_precondition = b'O'

unfoldable pub precondition_from_char : ℕ → Option ParamPrecondition
precondition_from_char c =
    if c == b'O'
    then some no_precondition
    else if c == b'C'
    then some non_null_crash
    else if c == b'R'
    then some non_null_rejected
    else none

unfoldable pub postcondition_to_char : ParamPostcondition → ℕ
postcondition_to_char null_post = b'0'
postcondition_to_char non_null_post = b'N'
postcondition_to_char unknown_post = b'U'

unfoldable pub postcondition_from_char : ℕ → Option ParamPostcondition
postcondition_from_char c =
    if c == b'U'
    then some unknown_post
    else if c == b'0'
    then some null_post
    else if c == b'N'
    then some non_null_post
    else none

unfoldable pub access_to_char : ParamAccess → ℕ
access_to_char no_access = b'O'
access_to_char reads = b'R'
access_to_char writes = b'W'
access_to_char reads_writes = b'B'
access_to_char unknown_access = b'U'

unfoldable pub access_from_char : ℕ → Option ParamAccess
access_from_char c =
    if c == b'U'
    then some unknown_access
    else if c == b'O'
    then some no_access
    else if c == b'R'
    then some reads
    else if c == b'W'
    then some writes
    else if c == b'B'
    then some reads_writes
    else none

unfoldable pub ownership_to_char : ParamOwnership → ℕ
ownership_to_char borrowed = b'B'
ownership_to_char consumed = b'C'
ownership_to_char transferred = b'T'
ownership_to_char unknown_ownership = b'U'

unfoldable pub ownership_from_char : ℕ → Option ParamOwnership
ownership_from_char c =
    if c == b'U'
    then some unknown_ownership
    else if c == b'B'
    then some borrowed
    else if c == b'C'
    then some consumed
    else if c == b'T'
    then some transferred
    else none

unfoldable pub allocator_size_to_char : ParamAllocatorSize → ℕ
allocator_size_to_char no_size = b'O'
allocator_size_to_char sink = b'S'
allocator_size_to_char unknown_size = b'?'

unfoldable pub allocator_size_from_char : ℕ → Option ParamAllocatorSize
allocator_size_from_char c =
    if c == b'?'
    then some unknown_size
    else if c == b'O'
    then some no_size
    else if c == b'S'
    then some sink
    else none

-- `writeParamVector`, where the parameters are counted.
unfoldable pub write_entries : {A : Type 0} → (A → ℕ) → A → ℕ → List A → Text
write_entries to fallback zero values = []
write_entries to fallback (suc n) [] = to fallback ∷ write_entries to fallback n []
write_entries to fallback (suc n) (v ∷ values) = to v ∷ write_entries to fallback n values

unfoldable pub write_param_vector : {A : Type 0} → (A → ℕ) → A → ℕ → List A → Text
write_param_vector to fallback zero values = codes "-"
write_param_vector to fallback (suc n) values = write_entries to fallback (suc n) values

-- What a query answers for each of the parameters.
unfoldable pub each : {A : Type 0} → ℕ → (ℕ → A) → List A
each zero f = []
each (suc n) f = f 0 ∷ each n (λ i. f (suc i))

unfoldable pub write_all : {A : Type 0} → (A → ℕ) → List A → Text
write_all to [] = []
write_all to (a ∷ xs) = to a ∷ write_all to xs

-- A column that is written entry by entry, a dash if there are none.
unfoldable pub write_column : {A : Type 0} → (A → ℕ) → List A → Text
write_column to [] = codes "-"
write_column to (a ∷ xs) = write_all to (a ∷ xs)

unfoldable pub cons_some : {A : Type 0} → Option A → Option (List A) → Option (List A)
cons_some (some a) (some xs) = some (a ∷ xs)
cons_some (some a) none = none
cons_some none xs = none

-- Each character of a column, one after the other.
unfoldable pub parse_all : {A : Type 0} → (ℕ → Option A) → Text → Option (List A)
parse_all from [] = some []
parse_all from (c ∷ cs) = cons_some (from c) (parse_all from cs)

-- The column of the effects, which counts the parameters.
unfoldable pub parse_effects : Text → Option (List ParamEffect)
parse_effects column =
    let parsed = parse_all effect_from_char column in
    if is_nil column then none else if text_eq column (codes "-") then some [] else parsed

-- Another column, which has to agree with the count.
unfoldable pub parse_column : {A : Type 0} → (ℕ → Option A) → ℕ → Text → Option (List A)
parse_column from n column =
    let parsed = parse_all from column in
    if not (bool_eq (text_eq column (codes "-")) (n == 0))
    then none
    else if n == 0
    then some []
    else if length column == n
    then parsed
    else none

-- The columns 3, 9 to 12 and 15 of a line of version 11.
pub record Columns : Type 0 where
  pub effects : Text
  pub preconditions : Text
  pub postconditions : Text
  pub accesses : Text
  pub ownerships : Text
  pub allocator_sizes : Text

unfoldable pub write_columns : FunctionSummary → Columns
write_columns s =
    let n = length s.params in
    record {
      effects = write_column effect_to_char s.params;
      preconditions =
          write_param_vector precondition_to_char no_precondition n s.param_preconditions;
      postconditions =
          write_param_vector postcondition_to_char unknown_post n s.param_postconditions;
      accesses = write_column access_to_char (each n (param_access s));
      ownerships = write_column ownership_to_char (each n (param_ownership s));
      allocator_sizes =
          write_param_vector allocator_size_to_char unknown_size n s.param_allocator_sizes;
    }

-- The vectors that a line fills.
pub record Vectors : Type 0 where
  pub params : List ParamEffect
  pub param_preconditions : List ParamPrecondition
  pub param_postconditions : List ParamPostcondition
  pub param_accesses : List ParamAccess
  pub param_ownerships : List ParamOwnership
  pub param_allocator_sizes : List ParamAllocatorSize

abbrev pub bind_option : {A B : Type 0} → Option A → (A → Option B) → Option B
bind_option none k = none
bind_option (some a) k = k a

unfoldable pub parse_columns : Columns → Option Vectors
parse_columns c = bind_option (parse_effects c.effects) (λ effects.
    let n = length effects in
    bind_option (parse_column precondition_from_char n c.preconditions) (λ pre.
      bind_option (parse_column postcondition_from_char n c.postconditions) (λ post.
        bind_option (parse_column access_from_char n c.accesses) (λ accesses.
          bind_option (parse_column ownership_from_char n c.ownerships) (λ owners.
            bind_option (parse_column allocator_size_from_char n c.allocator_sizes) (λ sizes.
              let v : Vectors = record {
                params = effects;
                param_preconditions = pre;
                param_postconditions = post;
                param_accesses = accesses;
                param_ownerships = owners;
                param_allocator_sizes = sizes;
              } in
              some v))))))
