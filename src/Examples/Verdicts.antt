-- ===== src/Examples/Verdicts.antt =====
-- core/AnalysisResult.h: the verdict of concrete runs.
use code_skeptic.Prelude.{◌≡◌, refl, ◌<◌, ◌↔◌, true, false}
use code_skeptic.Verdict.{
  AnalysisResult, findings, status, exit_code, blocking_findings, has_hard_failure,
  has_incomplete_evidence,
}
use code_skeptic.Verdict.Laws.{code_of, exit_code-status, IsTrustworthy, exit_code-IsTrustworthy}

-- Three units, one of them broken; four findings, one of them report-only.
abbrev run : AnalysisResult
run = record {
  attempted_tus = 3;
  analyzed_tus = 2;
  broken_tus = 1;
  incomplete_functions = 0;
  finding_count = 4;
  report_only_findings = 1;
  analyze_broken_tus = true;
  accept_partial_coverage = false;
  no_inputs = false;
  no_rules = false;
  tool_failed = false;
  summary_load_failed = false;
  summary_stale = false;
  summary_save_failed = false;
  baseline_load_failed = false;
  baseline_write_failed = false;
  baseline_recorded = false;
  report_write_failed = false;
}

run-status : status run ≡ findings
unfolding status has_hard_failure has_incomplete_evidence blocking_findings
run-status = refl

exit_code-status_example : exit_code run ≡ code_of (status run)
exit_code-status_example = exit_code-status run

exit_code-IsTrustworthy_example : (exit_code run < 2) ↔ IsTrustworthy run
exit_code-IsTrustworthy_example = exit_code-IsTrustworthy run
