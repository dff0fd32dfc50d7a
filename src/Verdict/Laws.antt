-- ===== src/Verdict/Laws.antt =====
-- core/AnalysisResult.h: the exit code, the status and the evidence say one thing.
use code_skeptic.Prelude.{ℕ, ◌+◌, ◌≤◌, ◌<◌, ◌≡◌, ◌↔◌, ◌⊎◌, true, false, arith, ◌==◌}
use code_skeptic.Verdict.{
  AnalysisStatus, clean, findings, report_only, recorded, incomplete, failed, AnalysisResult,
  has_hard_failure, has_incomplete_evidence, complete, blocking_findings, status, exit_code,
  analysis_exit_code,
}

abbrev pub code_of : AnalysisStatus → ℕ
code_of clean = 0
code_of findings = 1
code_of report_only = 0
code_of recorded = 0
code_of incomplete = 2
code_of failed = 2

-- The process contract: clean, report-only and recorded runs exit 0, findings exit 1, and runs
-- that failed or lack evidence exit 2.
pub exit_code-status : (r : AnalysisResult) → exit_code r ≡ code_of (status r)
unfolding exit_code status complete
exit_code-status r = ground arith

-- What a run has to show before its verdict counts.
pub record IsTrustworthy (r : AnalysisResult) : Type 0 where
  pub inputs : r.no_inputs ≡ false
  pub rules : r.no_rules ≡ false
  pub tool : r.tool_failed ≡ false
  pub saved : r.summary_save_failed ≡ false
  pub loaded : (r.summary_load_failed ≡ false) × (r.summary_stale ≡ false)
  pub baseline : (r.baseline_load_failed ≡ false) × (r.baseline_write_failed ≡ false)
  pub reported : r.report_write_failed ≡ false
  pub accounted : r.attempted_tus ≤ r.analyzed_tus + r.broken_tus
  pub intact :
      (r.broken_tus ≡ 0) ⊎ ((r.analyze_broken_tus ≡ true) ⊎ (r.accept_partial_coverage ≡ true))
  pub analyzed : (r.attempted_tus ≡ 0) ⊎ ((0 < r.analyzed_tus) ⊎ (r.analyze_broken_tus ≡ true))
  pub functions : r.incomplete_functions ≡ 0

complete-IsTrustworthy : (r : AnalysisResult) → complete r ≡ true → IsTrustworthy r
unfolding complete has_hard_failure has_incomplete_evidence
complete-IsTrustworthy r h = ground arith

IsTrustworthy-complete : (r : AnalysisResult) → IsTrustworthy r → complete r ≡ true
unfolding complete has_hard_failure has_incomplete_evidence
IsTrustworthy-complete r h = ground arith

-- The exit code is 0 or 1 exactly when the run is trustworthy: it had inputs and rules, no tool,
-- summary, baseline or report failed, every unit is accounted for, none is broken unless that was
-- accepted, no function was left incomplete, and if any unit was attempted then at least one was
-- analysed or the run analyses broken units too. A run that attempted no unit may be trustworthy.
pub exit_code-IsTrustworthy : (r : AnalysisResult) → (exit_code r < 2) ↔ IsTrustworthy r
unfolding exit_code
exit_code-IsTrustworthy r =
    (λ h. complete-IsTrustworthy r (ground arith), λ t. ground (arith, IsTrustworthy-complete r t))

abbrev pub with_report_only : AnalysisResult → ℕ → AnalysisResult
with_report_only r n = record r {
  finding_count = r.finding_count + n;
  report_only_findings = r.report_only_findings + n;
}

-- Findings of experimental families, however many, leave the exit code as it was.
pub report_only_neutral :
    (r : AnalysisResult) (n : ℕ) → exit_code (with_report_only r n) ≡ exit_code r
unfolding exit_code complete has_hard_failure has_incomplete_evidence blocking_findings
report_only_neutral r n = ground arith

-- A run in which nothing but the translation units can go wrong.
pub record IsPlain (r : AnalysisResult) : Type 0 where
  pub rules : r.no_rules ≡ false
  pub tool : r.tool_failed ≡ false
  pub saved : r.summary_save_failed ≡ false
  pub loaded : (r.summary_load_failed ≡ false) × (r.summary_stale ≡ false)
  pub baseline : (r.baseline_load_failed ≡ false) × (r.baseline_write_failed ≡ false)
  pub recorded : r.baseline_recorded ≡ false
  pub reported : r.report_write_failed ≡ false
  pub inputs : r.no_inputs ≡ (r.attempted_tus == 0)
  pub accounted : r.analyzed_tus + r.broken_tus ≡ r.attempted_tus
  pub strict : r.accept_partial_coverage ≡ false
  pub functions : r.incomplete_functions ≡ 0

-- On such a run the verdict contract and the older exit policy give the same code.
pub exit_code-policy :
    (r : AnalysisResult)
    → IsPlain r
    → exit_code r
      ≡ analysis_exit_code (blocking_findings r) r.attempted_tus r.broken_tus r.analyze_broken_tus
unfolding exit_code complete has_hard_failure has_incomplete_evidence analysis_exit_code
exit_code-policy r h = ground arith
