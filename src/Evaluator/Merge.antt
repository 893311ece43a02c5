-- ===== src/Evaluator/Merge.antt =====
-- internal/orchestrator/evaluator.go: the provider's report is merged with the rules of the engine.
-- `format_score` is `%.2f`.
use gorchera.Base.{
  ℕ, ◌==◌, leb, length, String, Bool, true, false, ◌&&◌, ◌||◌, not, List, [], ◌∷◌, ◌++◌, map,
  Option, none, some, if◌then◌else◌,
}
use gorchera.Base.Text.{
  ◌is◌, ◌isn't◌, ◌^^◌, trim_space, is_blank, quote, join, first_non_empty, unique_strings,
}
use gorchera.Base.Dict.{get, put, String_eq}
use gorchera.Domain.{
  Job, JobStatus, Step, RubricAxis, RubricScore, AutomatedCheckResult, SprintContract,
  EvaluatorReport,
}
use gorchera.Evaluator.Coverage.{
  successful_step_types, score_completion, summary_evidence, evaluator_text_contradicts,
  filter_provider_missing_step_types, provider_blocked_only_on_optional_coverage,
}
use gorchera.Evaluator.Evidence.{VerificationContract, EngineCheckArtifact, verification_missing}

-- failedAutomatedCheckNames.
unfoldable pub failed_automated_check_names : List AutomatedCheckResult → List String
failed_automated_check_names [] = []
failed_automated_check_names (r ∷ rs) =
    let later = failed_automated_check_names rs in
    if r.status is "failed"
    then (if r.description is "" then r.detail else r.description) ∷ later
    else later

-- `thresholds`: a later axis of the same name replaces an earlier one.
thresholds_from : List (String × ℕ) → List RubricAxis → List (String × ℕ)
thresholds_from out [] = out
thresholds_from out (axis ∷ axes) = thresholds_from (put axis.name axis.min_threshold out) axes

unfoldable pub thresholds : List RubricAxis → List (String × ℕ)
unfolding thresholds_from
thresholds = thresholds_from []

abbrev pub reaches : Option ℕ → ℕ → Bool
reaches none score = true
reaches (some threshold) score = leb threshold score

unfoldable pub axis_passed : List (String × ℕ) → RubricScore → Bool
axis_passed limits rs = reaches (get rs.axis limits) rs.score

abbrev limit_of : Option ℕ → ℕ
limit_of none = 0
limit_of (some threshold) = threshold

unfoldable pub mark_axis : List (String × ℕ) → RubricScore → RubricScore
mark_axis limits rs = record rs { passed = axis_passed limits rs }

module _ (format_score : ℕ → String) where
  unfoldable pub failed_axes : List (String × ℕ) → List RubricScore → List String
  failed_axes limits [] = []
  failed_axes limits (rs ∷ scores) =
      let later = failed_axes limits scores in
      if axis_passed limits rs
      then later
      else (rs.axis
          ^^ " ("
          ^^ format_score rs.score
          ^^ " < "
          ^^ format_score (limit_of (get rs.axis limits))
          ^^ ")")
        ∷ later

  -- The rubric's part: it only demotes.
  unfoldable pub apply_rubric :
      List RubricAxis → List RubricScore → EvaluatorReport → EvaluatorReport
  apply_rubric axes scores report =
      let limits = thresholds axes in
      let scored : EvaluatorReport = record report {
        rubric_scores = map (mark_axis limits) scores;
      } in
      let failed = failed_axes limits scores in
      if length axes == 0 || length scores == 0
      then report
      else if length failed == 0
      then scored
      else record scored {
        passed = false;
        status = "failed";
        reason = "rubric axis thresholds not met: " ^^ join failed ", ";
      }

-- The automated checks' part.
unfoldable pub apply_checks : List AutomatedCheckResult → EvaluatorReport → EvaluatorReport
apply_checks results report =
    let failed = failed_automated_check_names results in
    if length failed == 0 then report else record report {
      passed = false;
      status = "failed";
      reason = "automated checks failed: " ^^ join failed ", ";
    }

-- `if !rulePassed { ... }`.
unfoldable pub apply_rules : Bool → Bool → List String → EvaluatorReport → EvaluatorReport
apply_rules rule_passed ignore_missing missing report =
    if rule_passed then report else record report {
      passed = false;
      status = "blocked";
      reason =
          if report.reason is "" || ignore_missing
          then "verification contract not satisfied: " ^^ join missing ", "
          else report.reason;
    }

-- The status of a pass, and a reason where there is none.
unfoldable pub settle : Bool → EvaluatorReport → EvaluatorReport
settle ignore_missing report =
    let reason' = if report.passed && ignore_missing then "" else report.reason in
    record report {
      status = if report.passed && report.status isn't "passed" then "passed" else report.status;
      reason =
          if reason' is ""
          then (if report.passed
              then "completion thresholds satisfied"
              else "evaluator blocked completion")
          else reason';
    }

-- The consistency gate.
unfoldable pub demote_contradicted : Bool → EvaluatorReport → EvaluatorReport
demote_contradicted contradicted report =
    if contradicted && report.passed
    then record report {
      passed = false;
      status = if report.status is "passed" then "failed" else report.status;
      reason = "[consistency] " ^^ report.reason;
    }
    else report

-- `ignoreProviderMissing`.
unfoldable pub ignore_provider_missing : SprintContract → EvaluatorReport → Bool
ignore_provider_missing sprint report =
    provider_blocked_only_on_optional_coverage report
      (filter_provider_missing_step_types report.missing_step_types sprint.required_step_types)

module _ (read_artifact : String → Option EngineCheckArtifact) where
  -- `rulePassed`.
  unfoldable pub rule_passed : List Step → SprintContract → Bool
  rule_passed steps sprint =
      length (verification_missing read_artifact steps sprint) == 0
      && leb sprint.threshold_success_count (length (successful_step_types steps))

  -- The report before the rules are applied to it.
  unfoldable pub first_report :
      Job → VerificationContract → SprintContract → EvaluatorReport → EvaluatorReport
  first_report job verification sprint report =
      let filtered =
        filter_provider_missing_step_types report.missing_step_types sprint.required_step_types in
      let ignore_missing = ignore_provider_missing sprint report in
      record {
        status = if report.status is "" then "blocked" else report.status;
        passed = (report.passed || ignore_missing) && rule_passed job.steps sprint;
        score =
            if report.score == 0 || ignore_missing
            then score_completion job.steps sprint.required_step_types
            else report.score;
        reason = trim_space report.reason;
        missing_step_types =
            unique_strings
              (unique_strings (verification_missing read_artifact job.steps sprint) ++ filtered);
        evidence = summary_evidence job.steps ++ report.evidence;
        contract_ref =
            first_non_empty (
              report.contract_ref ∷ verification.sprint_contract_ref ∷ job.sprint_contract_ref
              ∷ []);
        rubric_scores = [];
      }

  -- The rubric's part needs `format_score`.
  unfoldable pub merge_evaluator_report :
      (ℕ → String) → Job → VerificationContract → SprintContract → EvaluatorReport → EvaluatorReport
  merge_evaluator_report format_score job verification sprint report =
      let ignore_missing = ignore_provider_missing sprint report in
      let missing = unique_strings (verification_missing read_artifact job.steps sprint) in
      apply_checks job.pre_check_results (
        apply_rubric format_score verification.rubric_axes report.rubric_scores (
          demote_contradicted (evaluator_text_contradicts report) (
            settle ignore_missing (
              apply_rules (rule_passed job.steps sprint) ignore_missing missing
                (first_report job verification sprint report)))))

-- validateEvaluatorReport. Its default for the contract's reference is lost: it is set on a copy.
unfoldable pub validate_evaluator_report : EvaluatorReport → Option String
validate_evaluator_report report =
    if not (report.status is "passed" || report.status is "blocked" || report.status is "failed")
    then some ("invalid evaluator status: " ^^ quote report.status)
    else if is_blank report.reason
    then some "evaluator output requires reason"
    else none

-- applyEvaluatorJobState.
unfoldable pub apply_evaluator_job_state : Job → EvaluatorReport → Job
apply_evaluator_job_state job report =
    if report.status is "failed"
    then record job {
      status = JobStatus.failed;
      failure_reason = report.reason;
      leader_context_summary = report.reason;
    }
    else if report.status is "passed"
    then record job { leader_context_summary = report.reason }
    else record job {
      status = JobStatus.blocked;
      blocked_reason = report.reason;
      leader_context_summary = report.reason;
    }
