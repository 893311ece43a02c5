-- ===== src/Evaluator/Stages.antt =====
-- internal/orchestrator/evaluator.go: the stages of mergeEvaluatorReport one by one, what each asks
-- of a report that passes and what it keeps of the status.
use gorchera.Base.{
  ℕ, ◌≤◌, length, String, ◌≡◌, ◌≢◌, refl, ◌↔◌, ◌⊎◌, inl, inr, Bool, true, false, List, [], ◌∷◌, All,
  Option, none, some, arith, Bool-cases,
}
use gorchera.Base.Text.{◌is◌, is_iff, is_blank}
use gorchera.Base.Dict.{get, String_eq}
use gorchera.Domain.{
  Job, Step, RubricAxis, RubricScore, AutomatedCheckResult, SprintContract, EvaluatorReport,
}
use gorchera.Evaluator.Coverage.{
  successful_step_types, evaluator_text_contradicts, provider_blocked_only_on_optional_coverage,
}
use gorchera.Evaluator.Evidence.{VerificationContract, EngineCheckArtifact, verification_missing}
use gorchera.Evaluator.Score.{Succeeded}
use gorchera.Evaluator.Shown.{IsShown}
use gorchera.Evaluator.Merge.{
  failed_automated_check_names, thresholds, reaches, axis_passed, failed_axes, apply_rubric,
  apply_checks, apply_rules, settle, demote_contradicted, rule_passed, ignore_provider_missing,
  first_report, validate_evaluator_report, apply_evaluator_job_state,
}

-- The score reaches the threshold of its axis, where the axis has one.
abbrev pub MeetsThreshold : List RubricAxis → RubricScore → Type 0
MeetsThreshold axes rs =
    (threshold : ℕ) → get rs.axis (thresholds axes) ≡ some threshold → threshold ≤ rs.score

module _ (read_artifact : String → Option EngineCheckArtifact) where
  -- What the gate asks for before a job is complete.
  pub record IsComplete (job : Job) (verification : VerificationContract) (sprint : SprintContract)
      (report : EvaluatorReport) : Type 0 where
    pub claimed : (report.passed ≡ true) ⊎ (ignore_provider_missing sprint report ≡ true)
    pub required : All (λ kind. Succeeded kind job.steps) sprint.required_step_types
    pub shown : IsShown read_artifact job.steps
    pub covered : sprint.threshold_success_count ≤ length (successful_step_types job.steps)
    pub consistent : evaluator_text_contradicts report ≡ false
    pub rated : All (MeetsThreshold verification.rubric_axes) report.rubric_scores
    pub checked : All (λ (r : AutomatedCheckResult). r.status ≢ "failed") job.pre_check_results

pub no_failed_check_iff :
    (rs : List AutomatedCheckResult)
    → (length (failed_automated_check_names rs) ≡ 0)
      ↔ All (λ (r : AutomatedCheckResult). r.status ≢ "failed") rs
unfolding failed_automated_check_names
no_failed_check_iff [] = ((λ h. tt), λ h. refl)
no_failed_check_iff (r ∷ rs) = elim (Bool-cases ((r.status is "failed"))) [
  | inl failed ↦
      rw failed
        ((λ h. absurd (omega arith)), λ h. absurd (h.0 ((is_iff r.status "failed").0 failed)))
  | inr fine ↦ rw fine (
    (λ h. ((λ e. cc (fine, (is_iff r.status "failed").1 e)), (no_failed_check_iff rs).0 h)),
    λ h. (no_failed_check_iff rs).1 h.1,
  )
]

reaches_iff :
    (o : Option ℕ) (score : ℕ)
    → (reaches o score ≡ true) ↔ ((threshold : ℕ) → o ≡ some threshold → threshold ≤ score)
reaches_iff none score = ((λ h threshold e. cc), λ h. refl)
reaches_iff (some limit) score =
    ((λ h threshold e. ground arith), λ h. ground (arith, h limit refl))

pub rated_iff :
    (format_score : ℕ → String) (axes : List RubricAxis) (scores : List RubricScore)
    → (length (failed_axes format_score (thresholds axes) scores) ≡ 0)
      ↔ All (MeetsThreshold axes) scores
unfolding failed_axes axis_passed
rated_iff format_score axes [] = ((λ h. tt), λ h. refl)
rated_iff format_score axes (rs ∷ scores) =
    elim (Bool-cases (reaches (get rs.axis (thresholds axes)) rs.score)) [
      | inl fine ↦ rw fine (
        (λ h. ((reaches_iff _ rs.score).0 fine, (rated_iff format_score axes scores).0 h)),
        λ h. (rated_iff format_score axes scores).1 h.1,
      )
      | inr low ↦ rw low (
        (λ h. absurd (omega arith)),
        λ h. absurd (ground (arith, (reaches_iff _ rs.score).1 h.0)),
      )
    ]

pub apply_checks-passed_iff :
    (rs : List AutomatedCheckResult) (report : EvaluatorReport)
    → ((apply_checks rs report).passed ≡ true)
      ↔ ((length (failed_automated_check_names rs) ≡ 0) × (report.passed ≡ true))
unfolding apply_checks
apply_checks-passed_iff rs report = ((λ h. ground arith), λ h. ground arith)

pub apply_rules-passed_iff :
    (rules ignored : Bool) (missing : List String) (report : EvaluatorReport)
    → ((apply_rules rules ignored missing report).passed ≡ true)
      ↔ ((rules ≡ true) × (report.passed ≡ true))
unfolding apply_rules
apply_rules-passed_iff rules ignored missing report = ((λ h. ground arith), λ h. ground arith)

pub demote_contradicted-passed_iff :
    (contradicted : Bool) (report : EvaluatorReport)
    → ((demote_contradicted contradicted report).passed ≡ true)
      ↔ ((contradicted ≡ false) × (report.passed ≡ true))
unfolding demote_contradicted
demote_contradicted-passed_iff contradicted report = ((λ h. ground arith), λ h. ground arith)

pub settle-passed :
    (ignored : Bool) (report : EvaluatorReport) → (settle ignored report).passed ≡ report.passed
unfolding settle
settle-passed ignored report = refl

module _ (format_score : ℕ → String) where
  -- The rubric's part passes when it is skipped or every score reaches its threshold; without axes
  -- there are no thresholds.
  no_axes :
      (axes : List RubricAxis) (rs : List RubricScore)
      → (length axes ≡ 0) ⊎ (length rs ≡ 0)
      → length (failed_axes format_score (thresholds axes) rs) ≡ 0
  unfolding failed_axes thresholds axis_passed get
  no_axes [] [] h = refl
  no_axes [] (r ∷ rs) h = no_axes [] rs (inl refl)
  no_axes (a ∷ axes) [] h = refl
  no_axes (a ∷ axes) (r ∷ rs) h = absurd (ground arith)

  pub apply_rubric-passed_iff :
      (axes : List RubricAxis) (scores : List RubricScore) (report : EvaluatorReport)
      → ((apply_rubric format_score axes scores report).passed ≡ true) ↔ (
          (length (failed_axes format_score (thresholds axes) scores) ≡ 0) × (report.passed ≡ true))
  unfolding apply_rubric
  apply_rubric-passed_iff axes scores report =
      ((λ h. ground (arith, no_axes axes scores)), λ h. ground (arith, no_axes axes scores))

pub rule_passed_iff :
    (read_artifact : String → Option EngineCheckArtifact) (steps : List Step)
    (sprint : SprintContract)
    → (rule_passed read_artifact steps sprint ≡ true) ↔ (
        (verification_missing read_artifact steps sprint ≡ [])
        × (sprint.threshold_success_count ≤ length (successful_step_types steps)))
unfolding rule_passed
rule_passed_iff read_artifact steps sprint = ((λ h. ground arith), λ h. ground arith)

pub first_report-passed_iff :
    (read_artifact : String → Option EngineCheckArtifact) (job : Job)
    (verification : VerificationContract) (sprint : SprintContract) (report : EvaluatorReport)
    → ((first_report read_artifact job verification sprint report).passed ≡ true) ↔ (
        ((report.passed ≡ true) ⊎ (ignore_provider_missing sprint report ≡ true))
        × (rule_passed read_artifact job.steps sprint ≡ true))
unfolding first_report
first_report-passed_iff read_artifact job verification sprint report =
    ((λ h. ground arith), λ h. ground arith)

-- What a report that passes keeps as the stages run over it.
pub apply_checks-status :
    (rs : List AutomatedCheckResult) (report : EvaluatorReport)
    → (apply_checks rs report).passed ≡ true
    → (apply_checks rs report).status ≡ report.status
unfolding apply_checks
apply_checks-status rs report h = ground arith

pub apply_rubric-status :
    (format_score : ℕ → String) (axes : List RubricAxis) (scores : List RubricScore)
    (report : EvaluatorReport)
    → (apply_rubric format_score axes scores report).passed ≡ true
    → (apply_rubric format_score axes scores report).status ≡ report.status
unfolding apply_rubric
apply_rubric-status format_score axes scores report h = ground arith

pub demote_settle-status :
    (contradicted ignored : Bool) (report : EvaluatorReport)
    → (demote_contradicted contradicted (settle ignored report)).passed ≡ true
    → (demote_contradicted contradicted (settle ignored report)).status ≡ "passed"
unfolding demote_contradicted settle
demote_settle-status contradicted ignored report h = ground (arith, is_iff report.status "passed")

pub unchanged_of_passed :
    (job : Job) (report : EvaluatorReport)
    → report.status ≡ "passed"
    → (apply_evaluator_job_state job report).status ≡ job.status
unfolding apply_evaluator_job_state
unchanged_of_passed job report e = rw e

pub first_report-flag_off :
    (read_artifact : String → Option EngineCheckArtifact) (job : Job)
    (verification : VerificationContract) (sprint : SprintContract) (report : EvaluatorReport)
    → report.status ≡ "passed"
    → report.passed ≡ false
    → ((first_report read_artifact job verification sprint report).status ≡ "passed")
      × ((first_report read_artifact job verification sprint report).passed ≡ false)
unfolding first_report ignore_provider_missing provider_blocked_only_on_optional_coverage
first_report-flag_off read_artifact job verification sprint report e off = (rw e, rw (e, off))

pub apply_rules-rules :
    (rules ignored : Bool) (missing : List String) (report : EvaluatorReport)
    → rules ≡ true
    → apply_rules rules ignored missing report ≡ report
unfolding apply_rules
apply_rules-rules rules ignored missing report h = rw h

pub demote_settle-off :
    (contradicted ignored : Bool) (report : EvaluatorReport)
    → report.passed ≡ false
    → let out = demote_contradicted contradicted (settle ignored report) in
      (out.status ≡ report.status) × (out.passed ≡ false)
unfolding demote_contradicted settle
demote_settle-off contradicted ignored report h = (ground arith, ground arith)

pub checks_rubric-kept :
    (format_score : ℕ → String) (rs : List AutomatedCheckResult) (axes : List RubricAxis)
    (scores : List RubricScore) (report : EvaluatorReport)
    → length (failed_automated_check_names rs) ≡ 0
    → length (failed_axes format_score (thresholds axes) scores) ≡ 0
    → let out = apply_checks rs (apply_rubric format_score axes scores report) in
      (out.status ≡ report.status) × (out.passed ≡ report.passed)
unfolding apply_checks apply_rubric
checks_rubric-kept format_score rs axes scores report h k = (ground arith, ground arith)

pub valid_of_passed :
    (report : EvaluatorReport)
    → report.status ≡ "passed"
    → is_blank report.reason ≡ false
    → validate_evaluator_report report ≡ none
unfolding validate_evaluator_report
valid_of_passed report e said = rw (e, said)
