-- ===== src/SummaryDiff/Unchanged.antt =====
-- engine/SummaryDiff.cpp: a harvest that did not change is reported as unchanged.
use code_skeptic.Prelude.{
  ℕ, zero, suc, ◌≡◌, refl, Bool, true, Option, none, some, List, [], ◌∷◌, ◌==◌, arith, All, max,
}
use code_skeptic.Prelude.Int.{ℤ, eqb_ℤ}
use code_skeptic.Condition.Walk.{All-append}
use code_skeptic.SummaryDiff.{
  FunctionSummary, ParamPrecondition, ParamPostcondition, exact_param_field_writes,
  param_precondition, param_postcondition, precondition_code, postcondition_code,
}
use code_skeptic.SummaryDiff.Diff.{
  Direction, Relation, classify_field, classify_precondition, classify_postcondition,
  classify_field_writes, contains_field, includes, return_directions, param_directions, all_params,
  param_count, directions, Outcome, note, notes, no_outcome, compare_summaries, DiffResult,
  SummaryMap, find, record_outcome, visit_old, visit_all_old, visit_new, visit_all_new, no_result,
  diff_summaries,
}

abbrev IsUnchanged : Relation × Option Direction → Type 0
IsUnchanged d = d.1 ≡ none

code_same : (n : ℕ) → (n == n) ≡ true
code_same n = ground arith

alias_same : (v : ℤ) → eqb_ℤ v v ≡ true
alias_same v = ground arith

field_unchanged : (same old new : Bool) → same ≡ true → classify_field same old new ≡ none
unfolding classify_field
field_unchanged same old new e = rw e refl

precondition_unchanged : (p : ParamPrecondition) → classify_precondition p p ≡ none
unfolding classify_precondition
precondition_unchanged p = rw (code_same (precondition_code p)) refl

postcondition_unchanged : (p : ParamPostcondition) → classify_postcondition p p ≡ none
unfolding classify_postcondition
postcondition_unchanged p = rw (code_same (postcondition_code p)) refl

-- A set includes itself, also with more elements before it.
includes_more :
    (f : ℕ) (fields fs : List ℕ) → includes fields fs ≡ true → includes (f ∷ fields) fs ≡ true
unfolding includes contains_field
includes_more f fields [] h = refl
includes_more f fields (g ∷ gs) h =
    let ih = includes_more f fields gs (ground arith) in
    let found : contains_field fields g ≡ true = ground arith in rw (found, ih) (ground arith)

includes_self : (fs : List ℕ) → includes fs fs ≡ true
unfolding includes contains_field
includes_self [] = refl
includes_self (f ∷ fs) = rw (includes_more f fs fs (includes_self fs), code_same f) refl

writes_unchanged : (o : Option (List ℕ)) → classify_field_writes o o ≡ none
unfolding classify_field_writes
writes_unchanged none = refl
writes_unchanged (some fs) = rw (includes_self fs) refl

return-IsUnchanged : (s : FunctionSummary) → All IsUnchanged (return_directions s s)
unfolding return_directions
return-IsUnchanged s = (
  field_unchanged _ _ _ (code_same _),
  (
    field_unchanged _ _ _ (code_same _),
    (
      field_unchanged _ _ _ (code_same _),
      (field_unchanged _ _ _ (alias_same s.return_alias_param), tt),
    ),
  ),
)

param-IsUnchanged : (s : FunctionSummary) (i : ℕ) → All IsUnchanged (param_directions s s i)
unfolding param_directions
param-IsUnchanged s i = (
  field_unchanged _ _ _ (code_same _),
  (
    precondition_unchanged (param_precondition s i),
    (
      postcondition_unchanged (param_postcondition s i),
      (
        field_unchanged _ _ _ (code_same _),
        (
          field_unchanged _ _ _ (code_same _),
          (
            writes_unchanged (exact_param_field_writes s i),
            (field_unchanged _ _ _ (code_same _), tt),
          ),
        ),
      ),
    ),
  ),
)

params-IsUnchanged : (s : FunctionSummary) (i k : ℕ) → All IsUnchanged (all_params s s i k)
unfolding all_params
params-IsUnchanged s i zero = tt
params-IsUnchanged s i (suc k) =
    All-append IsUnchanged (param_directions s s i) (all_params s s (suc i) k)
      (param-IsUnchanged s i) (params-IsUnchanged s (suc i) k)

notes_unchanged :
    (a : Outcome) (ds : List (Relation × Option Direction)) → All IsUnchanged ds → notes a ds ≡ a
unfolding notes note
notes_unchanged a [] h = refl
notes_unchanged a ((l, none) ∷ ds) h = notes_unchanged a ds h.1
notes_unchanged a ((l, some d) ∷ ds) h = let z = h.0 in cc

compare_unchanged : (s : FunctionSummary) → compare_summaries s s ≡ no_outcome
unfolding compare_summaries directions
compare_unchanged s = notes_unchanged no_outcome (directions s s) (
    All-append IsUnchanged (return_directions s s)
      (all_params s s 0 (max (param_count s) (param_count s))) (return-IsUnchanged s)
      (params-IsUnchanged s 0 (max (param_count s) (param_count s))))

-- Each entry is what its key finds: no key occurs twice with different summaries.
abbrev pub IsMap : SummaryMap → Type 0
IsMap m = All (λ (e : ℕ × FunctionSummary). find m e.0 ≡ some e.1) m

old_unchanged :
    (m : SummaryMap) (r : DiffResult) (es : SummaryMap)
    → All (λ (e : ℕ × FunctionSummary). find m e.0 ≡ some e.1) es
    → visit_all_old m r es ≡ r
unfolding visit_all_old visit_old record_outcome
old_unchanged m r [] h = refl
old_unchanged m r (e ∷ es) h =
    rw (h.0, visit_old, compare_unchanged e.1, record_outcome) (old_unchanged m r es h.1)

new_unchanged :
    (m : SummaryMap) (r : DiffResult) (es : SummaryMap)
    → All (λ (e : ℕ × FunctionSummary). find m e.0 ≡ some e.1) es
    → visit_all_new m r es ≡ r
unfolding visit_all_new visit_new
new_unchanged m r [] h = refl
new_unchanged m r (e ∷ es) h = rw (h.0, visit_new) (new_unchanged m r es h.1)

-- The diff of a map with itself has no change and counts nothing.
pub diff_summaries-same : (m : SummaryMap) → IsMap m → diff_summaries m m ≡ no_result
unfolding diff_summaries
diff_summaries-same m h = rw (old_unchanged m no_result m h, new_unchanged m no_result m h) refl
