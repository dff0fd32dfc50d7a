-- ===== src/Examples/Summaries.antt =====
-- engine/SummaryDiff.cpp: harvests that differ in one function.
use code_skeptic.Prelude.{◌≤◌, ◌↔◌, ◌⊎◌, ◌≡◌, refl, true, not, some, none, [], ◌∷◌}
use code_skeptic.Prelude.Int.{negsuc}
use code_skeptic.Interval.{top}
use code_skeptic.SummaryDiff.{
  FunctionSummary, never_null, maybe_null, maybe_zero, owned, reads_only, reads, no_precondition,
  param_effect, param_access, exact_param_field_writes, param_ownership, ownership_of_effect,
  param_precondition, param_postcondition, param_allocator_size, ReturnNullness, ParamPrecondition,
}
use code_skeptic.SummaryDiff.Diff.{
  SummaryMap, report_summary_diff, diff_summaries, no_result, find, classify_precondition,
  classify_field_writes, includes, visit_all_old, visit_old, visit_all_new, visit_new,
  record_outcome, compare_summaries, notes, note, directions, return_directions, all_params,
  param_directions, param_count, classify_field, classify_postcondition, contains_field,
}
use code_skeptic.SummaryDiff.Gate.{is_weaker, promise_kept, classify_field_writes-promise}
use code_skeptic.SummaryDiff.Report.{SomeWeakened, report_summary_diff_lem}
use code_skeptic.SummaryDiff.Unchanged.{IsMap, diff_summaries-same}

-- A function that returns `n` and asks `p` of its parameter.
abbrev summary : ReturnNullness → ParamPrecondition → FunctionSummary
summary n p = record {
  return_nullness = n;
  return_zeroness = maybe_zero;
  return_ownership = owned;
  params = reads_only ∷ [];
  param_accesses = reads ∷ [];
  param_ownerships = [];
  param_field_writes = record { known = true; fields = 4 ∷ 7 ∷ [] } ∷ [];
  param_preconditions = p ∷ [];
  param_postconditions = [];
  param_allocator_sizes = [];
  zero_from_param = negsuc 0;
  null_from_param = negsuc 0;
  return_alias_param = negsuc 0;
  null_cond_param = negsuc 0;
  null_cond_range = top;
}

abbrev before : SummaryMap
before = (1, summary never_null no_precondition) ∷ (2, summary maybe_null no_precondition) ∷ []

abbrev later : SummaryMap
later = (1, summary maybe_null no_precondition) ∷ (3, summary maybe_null no_precondition) ∷ []

gate_closes : report_summary_diff (some before) (some later) true ≡ 1
unfolding report_summary_diff diff_summaries find visit_all_old visit_old visit_all_new visit_new
    record_outcome compare_summaries notes note directions return_directions all_params
    param_directions param_count classify_field classify_precondition classify_postcondition
    classify_field_writes includes contains_field param_effect param_access exact_param_field_writes
    param_ownership ownership_of_effect param_precondition param_postcondition param_allocator_size
gate_closes = refl

report_summary_diff_lem_example :
    ((report_summary_diff (some before) (some later) true ≡ 2)
      ↔ ((some before ≡ none) ⊎ (some later ≡ none)))
    × ((report_summary_diff (some before) (some later) true ≡ 1) ↔ (
        (true ≡ true)
        × ((o : SummaryMap) × (n : SummaryMap) × (some before ≡ some o)
            × (some later ≡ some n)
            × SomeWeakened o n)))
    × (report_summary_diff (some before) (some later) true ≤ 2)
report_summary_diff_lem_example = report_summary_diff_lem (some before) (some later) true

classify_field_writes-promise_example :
    is_weaker (classify_field_writes (some (4 ∷ 7 ∷ [])) (some (7 ∷ 9 ∷ [])))
    ≡ not (promise_kept (some (4 ∷ 7 ∷ [])) (some (7 ∷ 9 ∷ [])))
classify_field_writes-promise_example =
    classify_field_writes-promise (some (4 ∷ 7 ∷ [])) (some (7 ∷ 9 ∷ []))

before-IsMap : IsMap before
unfolding find
before-IsMap = (refl, (refl, tt))

diff_summaries-same_example : diff_summaries before before ≡ no_result
diff_summaries-same_example = diff_summaries-same before before-IsMap
