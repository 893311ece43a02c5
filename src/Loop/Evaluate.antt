-- ===== src/Loop/Evaluate.antt =====
-- internal/orchestrator/evaluator.go: the evaluator's phase and the evaluation of a completion.
use gorchera.Base.{
  ℕ, zero, suc, ◌-◌, ◌==◌, length, String, Bool, true, false, List, [], ◌∷◌, Option, none, some,
  if◌then◌else◌,
}
use gorchera.Base.Text.{◌is◌, ◌^^◌, first_non_empty, join, itoa, unique_strings}
use gorchera.Base.Result.{ok, err}
use gorchera.Domain.{Job, EvaluatorReport, SprintContract, AutomatedCheck}
use gorchera.Planning.{
  build_planning_artifact, build_sprint_contract, build_verification_contract, contract_path,
}
use gorchera.Provider.{Failure, ErrorKind}
use gorchera.Evaluator.{
  VerificationContract, EngineCheckArtifact, verification_missing, merge_evaluator_report,
  validate_evaluator_report, apply_evaluator_job_state, score_completion, summary_evidence,
}
use gorchera.Service.{
  Run, Act, ◌>>◌, done, fail_with, modify, add_event, touch, save, fail_job, interrupt_job,
}
use gorchera.Loop.Answers.{World, at_turn, on_answer, on_error, on_result}
use gorchera.Loop.Checks.{workspace_of}
use gorchera.Loop.Worker.{load_verification_contract, schema_retry_max, set_hint}

abbrev pub no_report : EvaluatorReport
no_report = record {
  status = "";
  passed = false;
  score = 0;
  reason = "";
  missing_step_types = [];
  evidence = [];
  contract_ref = "";
  rubric_scores = [];
}

-- unsupportedPhase.
unfoldable pub unsupported_phase : Failure → Bool
unsupported_phase f = elim f.provider_error [
  | none ↦ false
  | some e ↦ elim e.kind [ ErrorKind.unsupported_phase ↦ true | _ ↦ false ]
]

-- A report, or an error: whether it is a shutdown, whether it is an unsupported phase, and its text.
pub data EvaluatorEnd : Type 0 where
  reported : EvaluatorReport → EvaluatorEnd
  broken : Bool → Bool → String → EvaluatorEnd

-- deterministicEvaluatorReport.
unfoldable pub deterministic_evaluator_report :
    (String → Option EngineCheckArtifact)
    → Job
    → VerificationContract
    → SprintContract
    → EvaluatorReport
deterministic_evaluator_report read job verification sprint =
    let missing = unique_strings (verification_missing read job.steps sprint) in
    let passed = length missing == 0 in
    record {
      status = if passed then "passed" else "blocked";
      passed = passed;
      score = score_completion job.steps sprint.required_step_types;
      reason =
          if passed
          then "completion thresholds satisfied"
          else "verification contract not satisfied: " ^^ join missing ", ";
      missing_step_types = missing;
      evidence = summary_evidence job.steps;
      contract_ref = first_non_empty (
          verification.sprint_contract_ref
          ∷ job.sprint_contract_ref
          ∷ contract_path job.planning_artifacts
          ∷ []);
      rubric_scores = [];
    }

-- The report on an evaluation that did not take place.
abbrev pub absent_report : String → String → String → EvaluatorReport
absent_report status reason contract_ref = record no_report {
  status = status;
  reason = reason;
  contract_ref = contract_ref;
}

-- The sprint contract that evaluateCompletion builds from the job alone.
abbrev pub sprint_of : Job → SprintContract
sprint_of job = build_sprint_contract job (build_planning_artifact job none)

abbrev pub checks_of : Job → List AutomatedCheck
checks_of job = elim job.verification_contract [
  | none ↦ []
  | some contract ↦ contract.automated_checks
]

-- The job with the report's file and its effect on the status.
unfoldable pub with_report : EvaluatorReport → String → Job → Job
with_report report path job =
    apply_evaluator_job_state (record job { evaluator_report_ref = path }) report

-- What follows where there was no evaluation.
unfoldable pub absent : String → (Run → String) → (EvaluatorReport → Act) → Act
absent status reason k r = k (absent_report status (reason r) r.job.sprint_contract_ref) r

-- A decoded report is validated.
abbrev pub validated : EvaluatorReport × Option String → EvaluatorReport × Option String
validated (report, some e) = (report, some e)
validated (report, none) = (report, validate_evaluator_report report)

module _ (w : World) where
  -- The answer decoded into the value, and the error: the JSON's or the one of its check.
  abbrev parse_report : String → EvaluatorReport → EvaluatorReport × Option String
  parse_report text into = validated (w.decode_report text into)

  -- The last attempt is no valid report either.
  unfoldable pub reject_report : (EvaluatorEnd → Act) → String → Act
  reject_report k e =
      set_hint ""
      >> k (
          broken false false (
            "evaluator schema validation failed after "
            ^^ itoa (suc schema_retry_max)
            ^^ " attempts: "
            ^^ e))

  -- The call of a schema attempt fails.
  unfoldable pub fail_report : (EvaluatorEnd → Act) → ℕ → Failure → Act
  unfolding unsupported_phase
  fail_report k n f =
      set_hint ""
      >> k (
          broken (w.shut_down n) (unsupported_phase f)
            ("evaluator schema retry failed: " ^^ f.text))

  -- The evaluator is asked again, with a number of attempts left after that.
  unfoldable pub retry_report : ℕ → (String → Act) → (EvaluatorEnd → Act) → String → Act
  unfolding at_turn on_answer fail_report
  retry_report left again k e =
      add_event "schema_retry" (
        "evaluator schema retry "
        ^^ itoa (schema_retry_max - left)
        ^^ "/"
        ^^ itoa schema_retry_max
        ^^ ": "
        ^^ e)
      >> set_hint e
      >> at_turn λ n. on_answer (w.call n 0) again (fail_report k n)

  -- The loop over the schema attempts, with a number of them left.
  unfoldable pub settle_report : ℕ → String → EvaluatorReport → (EvaluatorEnd → Act) → Act
  unfolding on_error reject_report retry_report
  settle_report zero text into k =
      let (report, error) = parse_report text into in
      on_error error (reject_report k) (set_hint "" >> k (reported report))
  settle_report (suc left) text into k =
      let (report, error) = parse_report text into in
      on_error error (retry_report left (λ text'. settle_report left text' report k) k)
        (set_hint "" >> k (reported report))

  -- runEvaluatorPhase: the provider is called once.
  unfoldable pub run_evaluator_phase : (EvaluatorEnd → Act) → Act
  unfolding at_turn on_answer settle_report unsupported_phase
  run_evaluator_phase k = at_turn λ n.
      on_answer (w.call n 0) (λ text. settle_report schema_retry_max text no_report k)
        λ f. k (broken (w.shut_down n) (unsupported_phase f) f.text)

  -- The contract on disk, or else the one that is built from the job.
  unfoldable pub contract_for : ℕ → Job → VerificationContract
  unfolding load_verification_contract
  contract_for n job = elim (load_verification_contract w n job) [
    | ok (contract, path) ↦ contract
    | err e ↦
        build_verification_contract job (build_planning_artifact job none) (sprint_of job)
          job.planning_artifacts
  ]

  -- The checks are run in a directory.
  unfoldable pub check_in : String → List AutomatedCheck → ℕ → Act
  check_in dir checks n =
      modify λ job. record job { pre_check_results = w.run_checks n dir checks job.steps }

  -- The automated checks, where the job's contract has some.
  unfoldable pub run_automated_checks : Act
  unfolding at_turn check_in
  run_automated_checks r =
      (if length (checks_of r.job) == 0
          then done
          else at_turn (check_in (workspace_of r.job r) (checks_of r.job)))
        r

  -- The report goes into the job.
  unfoldable pub record_report : EvaluatorReport → String → Act
  unfolding with_report
  record_report report path =
      modify (with_report report path)
      >> (if report.status is "failed"
          then add_event "evaluation_failed" report.reason
          else if report.status is "passed"
          then add_event "evaluation_passed" report.reason
          else add_event "evaluation_blocked" report.reason)
      >> touch
      >> save w.env

  -- The merged report is written and told.
  unfoldable pub tell_report : EvaluatorReport → (EvaluatorReport → Act) → Act
  unfolding at_turn on_result record_report
  tell_report report k = at_turn λ n.
      on_result (w.report_written n report) fail_with λ path. record_report report path >> k report

  -- The provider's report merged with the rules, and told.
  unfoldable pub merge_report :
      VerificationContract
      → (ℕ → Job → EvaluatorReport)
      → SprintContract
      → (EvaluatorReport → Act)
      → Act
  unfolding at_turn tell_report
  merge_report verification provider_report sprint k = at_turn λ n r.
      tell_report
        (merge_evaluator_report (w.read_artifact n) w.format_score r.job verification sprint
          (provider_report n r.job))
        k r

  -- What follows on the evaluator's end.
  unfoldable pub end_evaluation :
      VerificationContract → SprintContract → EvaluatorEnd → (EvaluatorReport → Act) → Act
  unfolding merge_report absent deterministic_evaluator_report
  end_evaluation verification sprint (reported report) k =
      merge_report verification (λ n job. report) sprint k
  end_evaluation verification sprint (broken shut unsupported text) k =
      if shut
      then interrupt_job w.env "orchestrator shutdown interrupted the evaluator phase"
        >> absent "blocked" (λ r. r.job.blocked_reason) k
      else if unsupported
      then merge_report verification
          (λ n job. deterministic_evaluator_report (w.read_artifact n) job verification sprint)
          sprint k
      else fail_job w.env ("evaluator execution failed: " ^^ text)
        >> absent "failed" (λ r. "evaluator execution failed: " ^^ text) k

  -- evaluateCompletion with its two contracts.
  unfoldable pub evaluate_with :
      (EvaluatorReport → Act) → VerificationContract → SprintContract → Act
  unfolding run_automated_checks run_evaluator_phase end_evaluation
  evaluate_with k verification sprint =
      run_automated_checks >> run_evaluator_phase λ end. end_evaluation verification sprint end k

  -- evaluateCompletion, with what follows on its report.
  unfoldable pub evaluate_completion : (EvaluatorReport → Act) → Act
  unfolding at_turn contract_for evaluate_with
  evaluate_completion k = at_turn λ n r. evaluate_with k (contract_for n r.job) (sprint_of r.job) r
