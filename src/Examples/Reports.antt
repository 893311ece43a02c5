-- ===== src/Examples/Reports.antt =====
-- The evaluator's merge on a report that passes, and on one whose flag is off.
use gorchera.Base.{
  ℕ, ◌≡◌, ◌≢◌, ◌≤◌, length, refl, ◌↔◌, inl, String, true, false, [], ◌∷◌, All, Option, none, some,
  arith,
}
use gorchera.Base.Text.{is_blank, itoa, unique_from, equal_fold, one_of, contains}
use gorchera.Base.Dict.{get, put, String_eq}
use gorchera.Domain.{EvaluatorReport, RubricScore}
use gorchera.Evaluator.{
  EngineCheckArtifact, merge_evaluator_report, validate_evaluator_report, apply_evaluator_job_state,
  score_completion, rule_passed, verification_missing, missing_required_steps, has_succeeded,
  successful_from, successful_step_types, engine_missing, latest_implement_step,
  load_engine_check_artifacts, thresholds, evaluator_text_contradicts,
}
use gorchera.Evaluator.Score.{Succeeded, score_completion_bounds}
use gorchera.Evaluator.Shown.{IsShown, verification_missing-nil_iff}
use gorchera.Evaluator.Stages.{IsComplete, MeetsThreshold}
use gorchera.Evaluator.Verdict.{
  merge_evaluator_report-passed_iff, merge_evaluator_report-passed_status,
  merge_evaluator_report-flag_off,
}
use gorchera.Examples.Samples.{running, contract, sprint}

abbrev no_artifact : String → Option EngineCheckArtifact
no_artifact path = none

abbrev format : ℕ → String
format n = itoa n

abbrev score : RubricScore
score = record { axis = "quality"; score = 8; passed = false }

abbrev good : EvaluatorReport
good = record {
  status = "passed";
  passed = true;
  score = 90;
  reason = "all there";
  missing_step_types = [];
  evidence = [];
  contract_ref = "";
  rubric_scores = score ∷ [];
}

merge_evaluator_report-passed_iff_example :
    ((merge_evaluator_report no_artifact format running contract sprint good).passed ≡ true)
    ↔ IsComplete no_artifact running contract sprint good
merge_evaluator_report-passed_iff_example =
    merge_evaluator_report-passed_iff no_artifact format running contract sprint good

score_completion_bounds_example :
    (score_completion running.steps sprint.required_step_types ≤ 100)
    × (sprint.required_step_types ≢ []
        → (score_completion running.steps sprint.required_step_types ≡ 100)
          ↔ All (λ kind. Succeeded kind running.steps) sprint.required_step_types)
score_completion_bounds_example = score_completion_bounds running.steps sprint.required_step_types

verified : verification_missing no_artifact running.steps sprint ≡ []
unfolding verification_missing missing_required_steps has_succeeded engine_missing
    latest_implement_step load_engine_check_artifacts unique_from equal_fold
verified = refl

ruled : rule_passed no_artifact running.steps sprint ≡ true
unfolding rule_passed verification_missing missing_required_steps has_succeeded engine_missing
    latest_implement_step load_engine_check_artifacts unique_from equal_fold successful_from one_of
ruled = refl

limit : get "quality" (thresholds contract.rubric_axes) ≡ some 7
unfolding thresholds get put
limit = refl

rated : All (MeetsThreshold contract.rubric_axes) good.rubric_scores
rated = ((λ threshold e. ground (arith, limit)), tt)

abbrev flag_off : EvaluatorReport
flag_off = record good { passed = false }

merge_evaluator_report-flag_off_example :
    let merged = merge_evaluator_report no_artifact format running contract sprint flag_off in
    (validate_evaluator_report flag_off ≡ none)
    × (merged.status ≡ "passed")
    × (merged.passed ≡ false)
    × ((apply_evaluator_job_state running merged).status ≡ running.status)
unfolding is_blank
merge_evaluator_report-flag_off_example =
    merge_evaluator_report-flag_off no_artifact format running contract sprint flag_off refl refl
      refl ruled rated tt

covered : sprint.threshold_success_count ≤ length (successful_step_types running.steps)
unfolding successful_from one_of
covered = ground arith

consistent : evaluator_text_contradicts good ≡ false
unfolding evaluator_text_contradicts contains
consistent = refl

parts :
    All (λ kind. Succeeded kind running.steps) sprint.required_step_types
    × IsShown no_artifact running.steps
parts = (verification_missing-nil_iff no_artifact running.steps sprint).0 verified

complete : IsComplete no_artifact running contract sprint good
complete = record {
  claimed = inl refl;
  required = parts.0;
  shown = parts.1;
  covered = covered;
  consistent = consistent;
  rated = rated;
  checked = tt;
}

merge_evaluator_report-passed_status_example :
    let merged = merge_evaluator_report no_artifact format running contract sprint good in
    (merged.status ≡ "passed")
    × ((apply_evaluator_job_state running merged).status ≡ running.status)
merge_evaluator_report-passed_status_example =
    merge_evaluator_report-passed_status no_artifact format running contract sprint good (
      (merge_evaluator_report-passed_iff no_artifact format running contract sprint good).1
        complete)
