-- ===== src/SummaryDiff/Visited.antt =====
-- engine/SummaryDiff.cpp: the comparison of two summaries visits every parameter that can become
-- weaker.
use code_skeptic.Prelude.{
  ℕ, zero, suc, max, ◌+◌, ◌≤◌, ◌<◌, ◌≡◌, ◌↔◌, refl, sym, ap, ◌∙◌, true, false, ◌||◌, Option, none,
  List, [], ◌∷◌, ◌++◌, ◌==◌, arith, inl, inr, Bool-cases, length, get_elem?, ltb,
}
use code_skeptic.SummaryDiff.{
  opaque_effect, unknown_size, no_precondition, FunctionSummary, unknown_access, unknown_ownership,
  unknown_post, param_effect, param_access, exact_param_field_writes, param_ownership,
  ownership_of_effect, param_precondition, param_postcondition, param_allocator_size,
}
use code_skeptic.SummaryDiff.Diff.{
  Direction, Relation, classify_field, classify_precondition, classify_postcondition,
  classify_field_writes, return_directions, param_directions, param_count, all_params, directions,
}
use code_skeptic.SummaryDiff.Gate.{any_weaker}
use code_skeptic.SummaryDiff.Weakening.{
  ParamWeakened, Weakened, or_iff, return_directions-any, param_directions-any,
}

module _ (o n : FunctionSummary) where
  any_weaker-append :
      (xs ys : List (Relation × Option Direction))
      → any_weaker (xs ++ ys) ≡ (any_weaker xs || any_weaker ys)
  any_weaker-append [] ys = refl
  any_weaker-append (x ∷ xs) ys = rw (any_weaker-append xs ys) (ground arith)

  all_params-found :
      (i k : ℕ)
      → any_weaker (all_params o n i k) ≡ true
      → (j : ℕ) × (any_weaker (param_directions o n j) ≡ true)
  unfolding all_params
  all_params-found i zero h = cc
  all_params-found i (suc k) h = elim (Bool-cases (any_weaker (param_directions o n i))) [
    | inl here ↦ (i, here)
    | inr other ↦ all_params-found (suc i) k (
        rw other at
          (sym (any_weaker-append (param_directions o n i) (all_params o n (suc i) k)) ∙ h))
  ]

  all_params-has :
      (i k j : ℕ)
      → i ≤ j
      → j < i + k
      → any_weaker (param_directions o n j) ≡ true
      → any_weaker (all_params o n i k) ≡ true
  unfolding all_params
  all_params-has i zero j lo hi h = absurd (omega arith)
  all_params-has i (suc k) j lo hi h =
      any_weaker-append (param_directions o n i) (all_params o n (suc i) k)
      ∙ elim (Bool-cases (i == j)) [
        | inl same ↦
            let e : i ≡ j = ground arith in
            rw (ap (λ x. any_weaker (param_directions o n x)) e ∙ h) refl
        | inr other ↦ rw (all_params-has (suc i) k j (ground arith) (omega arith) h) (ground arith)
      ]

get_elem?-beyond : {A : Type 0} (xs : List A) (i : ℕ) → length xs ≤ i → get_elem? xs i ≡ none
get_elem?-beyond [] i h = refl
get_elem?-beyond (x ∷ xs) zero h = absurd (omega arith)
get_elem?-beyond (x ∷ xs) (suc i) h = get_elem?-beyond xs i (omega arith)

-- Beyond the vectors of a summary every parameter has the default of each relation.
IsQuiet : FunctionSummary → ℕ → Type 0
IsQuiet s i =
    (param_effect s i ≡ opaque_effect)
    × (param_access s i ≡ unknown_access)
    × (exact_param_field_writes s i ≡ none)
    × (param_ownership s i ≡ unknown_ownership)
    × (param_precondition s i ≡ no_precondition)
    × (param_postcondition s i ≡ unknown_post)
    × (param_allocator_size s i ≡ unknown_size)

beyond-IsQuiet : (s : FunctionSummary) (i : ℕ) → param_count s ≤ i → IsQuiet s i
unfolding IsQuiet param_count param_effect param_access exact_param_field_writes param_ownership
    param_precondition param_postcondition param_allocator_size ownership_of_effect
beyond-IsQuiet s i h =
    let effects = get_elem?-beyond s.params i (omega arith) in
    let accesses = get_elem?-beyond s.param_accesses i (omega arith) in
    let written = get_elem?-beyond s.param_field_writes i (omega arith) in
    let ownerships = get_elem?-beyond s.param_ownerships i (omega arith) in
    let preconditions = get_elem?-beyond s.param_preconditions i (omega arith) in
    let postconditions = get_elem?-beyond s.param_postconditions i (omega arith) in
    let sizes = get_elem?-beyond s.param_allocator_sizes i (omega arith) in
    (
      rw effects refl,
      rw accesses refl,
      rw (written, exact_param_field_writes) refl,
      rw (ownerships, param_ownership, effects) refl,
      rw preconditions refl,
      rw postconditions refl,
      rw sizes refl,
    )

module _ (o n : FunctionSummary) where
  quiet-any_weaker :
      (i : ℕ) → IsQuiet o i → IsQuiet n i → any_weaker (param_directions o n i) ≡ false
  unfolding IsQuiet param_directions classify_field classify_precondition classify_postcondition
      classify_field_writes
  quiet-any_weaker i (e, a, w, s, p, q, z) (e', a', w', s', p', q', z') =
      rw (e, a, w, s, p, q, z, e', a', w', s', p', q', z') refl

  -- No parameter beyond those that the comparison visits becomes weaker.
  within :
      (i : ℕ) → any_weaker (param_directions o n i) ≡ true → i < max (param_count o) (param_count n)
  within i h = elim (Bool-cases (ltb i (max (param_count o) (param_count n)))) [
    | inl below ↦ ground arith
    | inr beyond ↦
        let past : max (param_count o) (param_count n) ≤ i = ground arith in
        let off =
          quiet-any_weaker i (beyond-IsQuiet o i (omega arith))
            (beyond-IsQuiet n i (omega arith)) in
        absurd (cc (h, off))
  ]

  -- The comparison of two summaries finds a weakening exactly if the summary became weaker.
  pub directions-Weakened : (any_weaker (directions o n) ≡ true) ↔ Weakened o n
  unfolding directions
  directions-Weakened =
      let count = max (param_count o) (param_count n) in
      let params : (any_weaker (all_params o n 0 count) ≡ true) ↔ ((i : ℕ) × ParamWeakened o n i) =
        (
          λ h.
              let (i, here) = all_params-found o n 0 count h in
              (i, (param_directions-any o n i).0 here),
          λ w.
              let here = (param_directions-any o n w.0).1 w.1 in
              let low = within w.0 here in
              all_params-has o n 0 count w.0 (omega arith) (omega arith) here,
        ) in
      rw (any_weaker-append o n (return_directions o n) (all_params o n 0 count))
        (or_iff _ _ (return_directions-any o n) params)
