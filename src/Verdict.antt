-- ===== src/Verdict.antt =====
-- core/AnalysisResult.h and core/ExitPolicy.h: the verdict of a run and its exit code.
pub mod Laws
use code_skeptic.Prelude.{
  ℕ, ◌+◌, ◌-◌, min, Bool, true, false, not, ◌&&◌, ◌||◌, ltb, ◌==◌, if◌then◌else◌,
}
use Prim.Native.String.{String}

pub data AnalysisStatus : Type 0 where
  clean findings report_only recorded incomplete failed : AnalysisStatus

pub record AnalysisResult : Type 0 where
  pub attempted_tus : ℕ
  pub analyzed_tus : ℕ
  pub broken_tus : ℕ
  pub incomplete_functions : ℕ
  pub finding_count : ℕ
  pub report_only_findings : ℕ
  pub analyze_broken_tus : Bool
  pub accept_partial_coverage : Bool
  pub no_inputs : Bool
  pub no_rules : Bool
  pub tool_failed : Bool
  pub summary_load_failed : Bool
  pub summary_stale : Bool
  pub summary_save_failed : Bool
  pub baseline_load_failed : Bool
  pub baseline_write_failed : Bool
  pub baseline_recorded : Bool
  pub report_write_failed : Bool

unfoldable pub has_hard_failure : AnalysisResult → Bool
has_hard_failure r =
    let nothing_analyzed =
      ltb 0 r.attempted_tus && r.analyzed_tus == 0 && not r.analyze_broken_tus in
    r.no_inputs
    || (r.no_rules
        || (r.tool_failed
            || (nothing_analyzed
                || (r.summary_save_failed
                    || (r.baseline_load_failed
                        || (r.baseline_write_failed || r.report_write_failed))))))

unfoldable pub has_incomplete_evidence : AnalysisResult → Bool
has_incomplete_evidence r =
    let partial_tu_coverage =
      ltb 0 r.broken_tus && not r.analyze_broken_tus && not r.accept_partial_coverage in
    let unaccounted_tus = ltb (r.analyzed_tus + r.broken_tus) r.attempted_tus in
    partial_tu_coverage
    || (unaccounted_tus
        || (ltb 0 r.incomplete_functions || (r.summary_load_failed || r.summary_stale)))

unfoldable pub complete : AnalysisResult → Bool
complete r = not (has_hard_failure r) && not (has_incomplete_evidence r)

unfoldable pub blocking_findings : AnalysisResult → ℕ
blocking_findings r = r.finding_count - min r.finding_count r.report_only_findings

unfoldable pub status : AnalysisResult → AnalysisStatus
status r =
    if has_hard_failure r
    then failed
    else if has_incomplete_evidence r
    then incomplete
    else if r.baseline_recorded
    then recorded
    else if ltb 0 (blocking_findings r)
    then findings
    else if ltb 0 r.finding_count
    then report_only
    else clean

unfoldable pub exit_code : AnalysisResult → ℕ
exit_code r =
    if not (complete r)
    then 2
    else if r.baseline_recorded
    then 0
    else if ltb 0 (blocking_findings r)
    then 1
    else 0

abbrev pub status_name : AnalysisStatus → String
status_name clean = "clean"
status_name findings = "findings"
status_name report_only = "report-only"
status_name recorded = "recorded"
status_name incomplete = "incomplete"
status_name failed = "failed"

-- The exit policy of the earlier frontends. A count of findings is not negative.
unfoldable pub analysis_exit_code : ℕ → ℕ → ℕ → Bool → ℕ
analysis_exit_code blocking total_tus broken_tus analyze_broken_tus =
    if total_tus == 0 || (ltb 0 broken_tus && not analyze_broken_tus)
    then 2
    else if ltb 0 blocking
    then 1
    else 0
