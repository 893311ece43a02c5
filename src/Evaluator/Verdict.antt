-- ===== src/Evaluator/Verdict.antt =====
-- internal/orchestrator/evaluator.go: when the merged report passes, and what it does to the job.
use gorchera.Base.{ℕ, String, ◌≡◌, ◌≢◌, ◌↔◌, sym, ap, ◌∙◌, true, false, All, Option, none}
use gorchera.Base.Text.{is_blank, unique_strings}
use gorchera.Base.Dict.{String_eq}
use gorchera.Domain.{Job, AutomatedCheckResult, SprintContract, EvaluatorReport}
use gorchera.Evaluator.Coverage.{evaluator_text_contradicts}
use gorchera.Evaluator.Evidence.{VerificationContract, EngineCheckArtifact, verification_missing}
use gorchera.Evaluator.Merge.{
  apply_rules, rule_passed, ignore_provider_missing, first_report, merge_evaluator_report,
  validate_evaluator_report, apply_evaluator_job_state,
}
use gorchera.Evaluator.Shown.{verification_missing-nil_iff}
use gorchera.Evaluator.Stages.{
  MeetsThreshold, IsComplete, no_failed_check_iff, rated_iff, apply_checks-passed_iff,
  apply_rules-passed_iff, demote_contradicted-passed_iff, settle-passed, apply_rubric-passed_iff,
  rule_passed_iff, first_report-passed_iff, apply_checks-status, apply_rubric-status,
  demote_settle-status, unchanged_of_passed, first_report-flag_off, apply_rules-rules,
  demote_settle-off, checks_rubric-kept, valid_of_passed,
}

module _ (read_artifact : String → Option EngineCheckArtifact) (format_score : ℕ → String) where
  -- The merged report passes exactly when the provider passed the job, or blocked it only for steps
  -- that are not required; a step of each required kind has succeeded, and as many kinds of steps as
  -- the sprint's threshold asks for; there is an implement step, and the latest one has either no
  -- artifact named as the engine's, or the engine's build and test, each passed or skipped; the
  -- provider's text does not contradict its flag; every score reaches its axis's threshold, if it has
  -- one; and no automated check failed.
  pub merge_evaluator_report-passed_iff :
      (job : Job) (verification : VerificationContract) (sprint : SprintContract)
      (report : EvaluatorReport)
      → ((merge_evaluator_report read_artifact format_score job verification sprint report).passed
          ≡ true)
        ↔ IsComplete read_artifact job verification sprint report
  unfolding merge_evaluator_report
  merge_evaluator_report-passed_iff job verification sprint report = (to_spec, of_spec)
    where
      to_spec :
          (merge_evaluator_report read_artifact format_score job verification sprint report).passed
            ≡ true
          → IsComplete read_artifact job verification sprint report
      to_spec h =
          let checks = (apply_checks-passed_iff job.pre_check_results _).0 h in
          let rubric =
            (apply_rubric-passed_iff format_score verification.rubric_axes report.rubric_scores _).0
              checks.1 in
          let plain = (demote_contradicted-passed_iff _ _).0 rubric.1 in
          let ruled = (apply_rules-passed_iff _ _ _ _).0 (sym (settle-passed _ _) ∙ plain.1) in
          let (claimed, rules) =
            (first_report-passed_iff read_artifact job verification sprint report).0 ruled.1 in
          let (verified, covered) = (rule_passed_iff read_artifact job.steps sprint).0 rules in
          let parts = (verification_missing-nil_iff read_artifact job.steps sprint).0 verified in
          record {
            claimed = claimed;
            required = parts.0;
            shown = parts.1;
            covered = covered;
            consistent = plain.0;
            rated =
                (rated_iff format_score verification.rubric_axes report.rubric_scores).0 rubric.0;
            checked = (no_failed_check_iff job.pre_check_results).0 checks.0;
          }

      of_spec :
          IsComplete read_artifact job verification sprint report
          → (merge_evaluator_report read_artifact format_score job verification sprint
              report).passed
            ≡ true
      of_spec c =
          let verified =
            (verification_missing-nil_iff read_artifact job.steps sprint).1 (c.required, c.shown) in
          let rules = (rule_passed_iff read_artifact job.steps sprint).1 (verified, c.covered) in
          (apply_checks-passed_iff job.pre_check_results _).1 (
            (no_failed_check_iff job.pre_check_results).1 c.checked,
            (apply_rubric-passed_iff format_score verification.rubric_axes report.rubric_scores _).1
                (
                  (rated_iff format_score verification.rubric_axes report.rubric_scores).1 c.rated,
                  (demote_contradicted-passed_iff _ _).1 (
                    c.consistent,
                    settle-passed _ _
                        ∙ (apply_rules-passed_iff _ _ _ _).1 (
                          rules,
                          (first_report-passed_iff read_artifact job verification sprint report).1
                              (c.claimed, rules),
                        ),
                  ),
                ),
          )

  -- A merged report that passes has the status passed, so the job's status is left for the caller to
  -- set.
  pub merge_evaluator_report-passed_status :
      (job : Job) (verification : VerificationContract) (sprint : SprintContract)
      (report : EvaluatorReport)
      → let merged =
          merge_evaluator_report read_artifact format_score job verification sprint report in
        merged.passed ≡ true
        → (merged.status ≡ "passed") × ((apply_evaluator_job_state job merged).status ≡ job.status)
  unfolding merge_evaluator_report
  merge_evaluator_report-passed_status job verification sprint report h =
      let rubric = ((apply_checks-passed_iff job.pre_check_results _).0 h).1 in
      let plain =
        ((apply_rubric-passed_iff format_score verification.rubric_axes report.rubric_scores _).0
          rubric).1 in
      let status =
        apply_checks-status job.pre_check_results _ h
        ∙ apply_rubric-status format_score verification.rubric_axes report.rubric_scores _ rubric
        ∙ demote_settle-status (evaluator_text_contradicts report)
            (ignore_provider_missing sprint report) _ plain in
      (status, unchanged_of_passed job _ status)

  -- A provider's report with the status passed, the flag off and a reason is valid, and where the
  -- rules, the rubric and the checks hold the merged report keeps both: it does not pass, and the
  -- job's status stays what it was.
  pub merge_evaluator_report-flag_off :
      (job : Job) (verification : VerificationContract) (sprint : SprintContract)
      (report : EvaluatorReport)
      → report.status ≡ "passed"
      → report.passed ≡ false
      → is_blank report.reason ≡ false
      → rule_passed read_artifact job.steps sprint ≡ true
      → All (MeetsThreshold verification.rubric_axes) report.rubric_scores
      → All (λ (r : AutomatedCheckResult). r.status ≢ "failed") job.pre_check_results
      → let merged =
          merge_evaluator_report read_artifact format_score job verification sprint report in
        (validate_evaluator_report report ≡ none)
        × (merged.status ≡ "passed")
        × (merged.passed ≡ false)
        × ((apply_evaluator_job_state job merged).status ≡ job.status)
  unfolding merge_evaluator_report
  merge_evaluator_report-flag_off job verification sprint report e off said rules rated checked =
      let base = first_report read_artifact job verification sprint report in
      let begun = first_report-flag_off read_artifact job verification sprint report e off in
      let ruled = apply_rules-rules _ _ _ base rules in
      let missing = unique_strings (verification_missing read_artifact job.steps sprint) in
      let ignored = ignore_provider_missing sprint report in
      let plain =
        demote_settle-off (evaluator_text_contradicts report) ignored
          (apply_rules (rule_passed read_artifact job.steps sprint) ignored missing base)
          (ap (λ (r : EvaluatorReport). r.passed) ruled ∙ begun.1) in
      let kept =
        checks_rubric-kept format_score job.pre_check_results verification.rubric_axes
          report.rubric_scores _ ((no_failed_check_iff job.pre_check_results).1 checked)
          ((rated_iff format_score verification.rubric_axes report.rubric_scores).1 rated) in
      let status = kept.0 ∙ plain.0 ∙ ap (λ (r : EvaluatorReport). r.status) ruled ∙ begun.0 in
      (valid_of_passed report e said, status, kept.1 ∙ plain.1, unchanged_of_passed job _ status)
