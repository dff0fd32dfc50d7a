-- ===== src/Summaries/ColumnTrip.antt =====
-- engine/FunctionSummary.cpp: the columns of the parameters are read back as they were written.
use code_skeptic.Prelude.{
  ℕ, zero, suc, ◌≡◌, refl, ap, true, false, Option, some, List, [], ◌∷◌, ◌==◌, length, is_nil,
  get_elem?, arith,
}
use code_skeptic.Prelude.Text.{codes, text_eq}
use code_skeptic.SummaryDiff.{
  FunctionSummary, ParamEffect, reads_only, frees, stores, opaque_effect, non_null_crash,
  non_null_rejected, no_precondition, null_post, non_null_post, unknown_post, no_access, reads,
  writes, reads_writes, unknown_access, borrowed, consumed, transferred, unknown_ownership, no_size,
  sink, unknown_size, or_else, param_access, param_ownership, param_precondition,
  param_postcondition, param_allocator_size,
}
use code_skeptic.Summaries.Columns.{
  Vectors, each, write_all, write_entries, write_column, write_param_vector, cons_some, parse_all,
  parse_effects, parse_column, write_columns, parse_columns, effect_to_char, effect_from_char,
  precondition_to_char, precondition_from_char, postcondition_to_char, postcondition_from_char,
  access_to_char, access_from_char, ownership_to_char, ownership_from_char, allocator_size_to_char,
  allocator_size_from_char,
}

-- A character that is read back, and is not the dash.
abbrev Codec : {A : Type 0} → (A → ℕ) → (ℕ → Option A) → Type 0
Codec {A} to from = (a : A) → (from (to a) ≡ some a) × ((to a == b'-') ≡ false)

effect-Codec : Codec effect_to_char effect_from_char
unfolding effect_to_char effect_from_char
effect-Codec reads_only = (refl, refl)
effect-Codec frees = (refl, refl)
effect-Codec stores = (refl, refl)
effect-Codec opaque_effect = (refl, refl)

precondition-Codec : Codec precondition_to_char precondition_from_char
unfolding precondition_to_char precondition_from_char
precondition-Codec non_null_crash = (refl, refl)
precondition-Codec non_null_rejected = (refl, refl)
precondition-Codec no_precondition = (refl, refl)

postcondition-Codec : Codec postcondition_to_char postcondition_from_char
unfolding postcondition_to_char postcondition_from_char
postcondition-Codec null_post = (refl, refl)
postcondition-Codec non_null_post = (refl, refl)
postcondition-Codec unknown_post = (refl, refl)

access-Codec : Codec access_to_char access_from_char
unfolding access_to_char access_from_char
access-Codec no_access = (refl, refl)
access-Codec reads = (refl, refl)
access-Codec writes = (refl, refl)
access-Codec reads_writes = (refl, refl)
access-Codec unknown_access = (refl, refl)

ownership-Codec : Codec ownership_to_char ownership_from_char
unfolding ownership_to_char ownership_from_char
ownership-Codec borrowed = (refl, refl)
ownership-Codec consumed = (refl, refl)
ownership-Codec transferred = (refl, refl)
ownership-Codec unknown_ownership = (refl, refl)

allocator_size-Codec : Codec allocator_size_to_char allocator_size_from_char
unfolding allocator_size_to_char allocator_size_from_char
allocator_size-Codec no_size = (refl, refl)
allocator_size-Codec sink = (refl, refl)
allocator_size-Codec unknown_size = (refl, refl)

length-each : {A : Type 0} (n : ℕ) (f : ℕ → A) → length (each n f) ≡ n
unfolding each
length-each zero f = refl
length-each (suc n) f = ap suc (length-each n (λ i. f (suc i)))

write_entries-each :
    {A : Type 0} (to : A → ℕ) (fallback : A) (n : ℕ) (values : List A)
    → write_entries to fallback n values
      ≡ write_all to (each n (λ i. or_else fallback (get_elem? values i)))
unfolding write_entries write_all each
write_entries-each to fallback zero values = refl
write_entries-each to fallback (suc n) [] =
    ap (λ cs. to fallback ∷ cs) (write_entries-each to fallback n [])
write_entries-each to fallback (suc n) (v ∷ values) =
    ap (λ cs. to v ∷ cs) (write_entries-each to fallback n values)

write_param_vector-each :
    {A : Type 0} (to : A → ℕ) (fallback : A) (n : ℕ) (values : List A)
    → write_param_vector to fallback n values
      ≡ write_column to (each n (λ i. or_else fallback (get_elem? values i)))
unfolding write_param_vector write_column each
write_param_vector-each to fallback zero values = refl
write_param_vector-each to fallback (suc n) values = write_entries-each to fallback (suc n) values

module _ {A : Type 0} (to : A → ℕ) (from : ℕ → Option A) (d : Codec to from) where
  parse_all-write_all : (xs : List A) → parse_all from (write_all to xs) ≡ some xs
  unfolding parse_all write_all cons_some
  parse_all-write_all [] = refl
  parse_all-write_all (a ∷ xs) = rw ((d a).0) (rw (parse_all-write_all xs) refl)

  length-write_all : (xs : List A) → length (write_all to xs) ≡ length xs
  unfolding write_all
  length-write_all [] = refl
  length-write_all (a ∷ xs) = ap suc (length-write_all xs)

  no_dash : (a : A) (xs : List A) → text_eq (write_all to (a ∷ xs)) (codes "-") ≡ false
  unfolding text_eq write_all
  no_dash a xs = rw ((d a).1) refl

  parse_column-write_column :
      (n : ℕ) (xs : List A) → length xs ≡ n → parse_column from n (write_column to xs) ≡ some xs
  unfolding parse_column write_column text_eq
  parse_column-write_column n [] e =
      let none_left : (n == 0) ≡ true = ground arith in rw none_left refl
  parse_column-write_column n (a ∷ xs) e =
      let some_left : (n == 0) ≡ false = ground arith in
      let size : (length (write_all to (a ∷ xs)) == n) ≡ true =
        let same = length-write_all (a ∷ xs) in ground arith in
      rw some_left (rw (no_dash a xs) (rw size (parse_all-write_all (a ∷ xs))))

starts : {A : Type 0} (to : A → ℕ) (a : A) (xs : List A) → is_nil (write_all to (a ∷ xs)) ≡ false
unfolding write_all
starts to a xs = refl

parse_effects-write_column :
    (xs : List ParamEffect) → parse_effects (write_column effect_to_char xs) ≡ some xs
unfolding parse_effects write_column text_eq
parse_effects-write_column [] = refl
parse_effects-write_column (a ∷ xs) = rw (starts effect_to_char a xs) (
    rw (no_dash effect_to_char effect_from_char effect-Codec a xs)
      (parse_all-write_all effect_to_char effect_from_char effect-Codec (a ∷ xs)))

-- The vectors in which each parameter has what the summary's queries answer for it.
unfoldable pub answered : FunctionSummary → Vectors
answered s =
    let n = length s.params in
    record {
      params = s.params;
      param_preconditions = each n (param_precondition s);
      param_postconditions = each n (param_postcondition s);
      param_accesses = each n (param_access s);
      param_ownerships = each n (param_ownership s);
      param_allocator_sizes = each n (param_allocator_size s);
    }

parse_column-each :
    {A : Type 0} (to : A → ℕ) (from : ℕ → Option A)
    → Codec to from
    → (n : ℕ) (f : ℕ → A) → parse_column from n (write_column to (each n f)) ≡ some (each n f)
parse_column-each to from d n f = parse_column-write_column to from d n (each n f) (length-each n f)

parse_column-write_param_vector :
    {A : Type 0} (to : A → ℕ) (from : ℕ → Option A)
    → Codec to from
    → (fallback : A) (n : ℕ) (values : List A)
    → parse_column from n (write_param_vector to fallback n values)
      ≡ some (each n (λ i. or_else fallback (get_elem? values i)))
parse_column-write_param_vector to from d fallback n values =
    rw (write_param_vector-each to fallback n values) (parse_column-each to from d n _)

-- The columns of the parameters that a summary is written to are read back as the vectors in which
-- each parameter has what the summary's queries answer for it.
pub parse_columns-write_columns :
    (s : FunctionSummary) → parse_columns (write_columns s) ≡ some (answered s)
unfolding parse_columns write_columns answered param_precondition param_postcondition
    param_allocator_size
parse_columns-write_columns s =
    let n = length s.params in
    let pre =
      parse_column-write_param_vector precondition_to_char precondition_from_char precondition-Codec
        no_precondition n s.param_preconditions in
    let post =
      parse_column-write_param_vector postcondition_to_char postcondition_from_char
        postcondition-Codec unknown_post n s.param_postconditions in
    let accesses =
      parse_column-each access_to_char access_from_char access-Codec n (param_access s) in
    let owners =
      parse_column-each ownership_to_char ownership_from_char ownership-Codec n
        (param_ownership s) in
    let sizes =
      parse_column-write_param_vector allocator_size_to_char allocator_size_from_char
        allocator_size-Codec unknown_size n s.param_allocator_sizes in
    rw (parse_effects-write_column s.params)
      (rw pre (rw post (rw accesses (rw owners (rw sizes refl)))))
