-- ===== src/Loop/Worker.antt =====
-- internal/orchestrator/service.go: the worker step of a leader's message with one plan, from the new
-- step to the end that the worker's answer gives it.
use gorchera.Base.{
  ℕ, zero, suc, ◌-◌, length, String, Bool, true, false, List, [], ◌∷◌, ◌++◌, Option, none, some,
  if◌then◌else◌,
}
use gorchera.Base.Text.{◌is◌, ◌^^◌, is_blank, trim_space, equal_fold, first_non_empty, join, itoa}
use gorchera.Base.Result.{Result, ok, err, ◌>>=◌}
use gorchera.Domain.{
  Job, JobStatus, Step, StepStatus, ChangedFile, LeaderOutput, WorkerOutput, StructuredReason,
}
use gorchera.Evaluator.{VerificationContract}
use gorchera.Planning.{contract_path, verification_contract_prompt}
use gorchera.Schema.{validate_worker_output}
use gorchera.Provider.{PhaseEnd, answered, gave_up, ErrorAction}
use gorchera.Service.{
  Act, ◌>>◌, modify, add_event, touch, save, fail_job, block_job, block_worker_step, interrupt_job,
  change_last, sanitize_leader_context,
}
use gorchera.Loop.Answers.{
  World, is_blocking, at_turn, on_result, on_error, on_end, phase, classify_worker_failure,
}
use gorchera.Loop.Checks.{run_engine_verification_for_step, workspace_of}

abbrev pub schema_retry_max : ℕ
schema_retry_max = 2

abbrev new_step : ℕ → ℕ → String → String → String → Step
new_step now index target task_type task_text = record {
  index = index;
  target = target;
  task_type = task_type;
  task_text = task_text;
  status = StepStatus.active;
  summary = "";
  diff_summary = "";
  artifacts = [];
  changed_files = [];
  blocked_reason = "";
  error_reason = "";
  structured_reason = none;
  started_at = now;
  finished_at = 0;
}

-- The job with one more step, which is active.
unfoldable pub with_step : ℕ → LeaderOutput → Job → Job
with_step now task job = record job {
  status = JobStatus.waiting_worker;
  current_step = suc job.current_step;
  steps =
      job.steps
      ++ new_step now (suc job.current_step) task.target task.task_type task.task_text ∷ [];
}

-- The summary of the last step.
unfoldable pub last_summary : List Step → String
last_summary [] = ""
last_summary (s ∷ []) = s.summary
last_summary (s ∷ t ∷ steps) = last_summary (t ∷ steps)

-- A step that ends without a worker's answer.
abbrev pub stopped_step : StepStatus → ℕ → String → Option StructuredReason → Step → Step
stopped_step StepStatus.blocked now reason structured step = record step {
  status = StepStatus.blocked;
  blocked_reason = reason;
  structured_reason = structured;
  summary = reason;
  finished_at = now;
}
stopped_step status now reason structured step = record step {
  status = status;
  error_reason = reason;
  structured_reason = structured;
  summary = reason;
  finished_at = now;
}

abbrev pub reported_step : ℕ → WorkerOutput → List String → Step → Step
reported_step now worker paths step = record step {
  summary = worker.summary;
  artifacts = paths;
  blocked_reason = worker.blocked_reason;
  error_reason = worker.error_reason;
  structured_reason = none;
  finished_at = now;
}

abbrev pub no_worker_output : WorkerOutput
no_worker_output = record {
  status = "";
  summary = "";
  artifacts = [];
  file_contents = [];
  blocked_reason = "";
  error_reason = "";
  next_recommended_action = "";
}

abbrev pub set_hint : String → Act
set_hint hint = modify λ job. record job { schema_retry_hint = hint }

-- The texts of a worker that classifyWorkerFailure reads, on lines of their own.
abbrev said : String → WorkerOutput → String → Option StructuredReason
said reason worker raw =
    classify_worker_failure false false none (join (reason ∷ worker.summary ∷ raw ∷ []) "\n")

-- An assignment to fields of the job that needs the time.
abbrev pub now_modify : (ℕ → Job → Job) → Act
now_modify f r = modify (f r.service.now) r

module _ (w : World) where
  -- loadVerificationContract: the contract with its path.
  unfoldable pub load_verification_contract : ℕ → Job → Result (VerificationContract × String)
  load_verification_contract n job =
      let path = contract_path job.planning_artifacts in
      if is_blank path
      then err "verification contract is not available"
      else w.read_contract n path >>= λ contract. ok (contract, path)

  -- decorateTaskForVerification.
  unfoldable pub decorate_task_for_verification : ℕ → Job → LeaderOutput → LeaderOutput
  unfolding load_verification_contract
  decorate_task_for_verification n job task =
      if equal_fold task.task_type "test"
      then (elim (load_verification_contract n job) [
        | err e ↦ task
        | ok (contract, path) ↦ record task {
          task_text =
              trim_space
                (join (task.task_text ∷ verification_contract_prompt contract path ∷ []) "\n\n");
        }
      ])
      else task

  -- The worker step up to its first save.
  unfoldable pub begin_step : String → LeaderOutput → Act
  unfolding with_step
  begin_step kind task =
      now_modify (λ now. with_step now task)
      >> add_event kind (task.target ^^ ":" ^^ task.task_type)
      >> touch
      >> save w.env

  -- The step and the job fail.
  unfoldable pub fail_worker : String → Option StructuredReason → Act
  fail_worker reason structured =
      now_modify (λ now job. record job {
        steps = change_last (stopped_step StepStatus.failed now reason structured) job.steps;
      })
      >> add_event "worker_failed" (w.encode_failure reason structured)
      >> fail_job w.env reason

  -- The same for an error that blocks.
  unfoldable pub block_failed_worker : String → Option StructuredReason → Act
  block_failed_worker reason structured =
      now_modify (λ now job. record job {
        steps = change_last (stopped_step StepStatus.blocked now reason structured) job.steps;
      })
      >> add_event "worker_blocked" (w.encode_failure reason structured)
      >> block_job w.env reason

  -- The end of runWorkerStep.
  unfoldable pub finish_worker : WorkerOutput → Act
  finish_worker worker =
      modify (λ job. record job {
        leader_context_summary =
            sanitize_leader_context (
              if is_blank (last_summary job.steps) then worker.summary else last_summary job.steps);
      })
      >> touch
      >> save w.env

  -- The step succeeds with these changes, and its place is `i`.
  unfoldable pub succeed_with : String → List ChangedFile → ℕ → WorkerOutput → Act
  succeed_with diff files i worker =
      modify (λ job. record job {
        steps =
            change_last
              (λ step. record step {
                diff_summary = diff;
                changed_files = files;
                status = StepStatus.succeeded;
              })
              job.steps;
        status = JobStatus.running;
        failure_reason = "";
      })
      >> add_event "worker_succeeded" worker.summary
      >> run_engine_verification_for_step w i
      >> finish_worker worker

  -- The case "success".
  unfoldable pub worker_succeeded : WorkerOutput → Act
  unfolding at_turn succeed_with
  worker_succeeded worker = at_turn λ n r.
      let dir = workspace_of r.job r in
      succeed_with (w.diff_stat n dir) (w.changed_files n dir) (length r.job.steps - 1) worker r

  -- The case "failed".
  unfoldable pub worker_failed : String → WorkerOutput → Act
  worker_failed raw worker =
      let reason = first_non_empty (worker.error_reason ∷ worker.summary ∷ "worker failed" ∷ []) in
      let structured = said worker.error_reason worker raw in
      modify (λ job. record job {
        steps =
            change_last
              (λ step. record step {
                structured_reason = structured;
                status = StepStatus.failed;
                error_reason = reason;
              })
              job.steps;
        status = JobStatus.running;
        failure_reason = reason;
      })
      >> add_event "worker_failed" (w.encode_failure reason structured)
      >> finish_worker worker

  -- The switch over the worker's status.
  unfoldable pub by_status : String → WorkerOutput → Act
  unfolding worker_succeeded worker_failed
  by_status raw worker =
      if worker.status is "success"
      then worker_succeeded worker
      else if worker.status is "blocked"
      then block_worker_step w.env w.encode_failure worker.blocked_reason worker.summary
          (said worker.blocked_reason worker raw)
      else if worker.status is "failed"
      then worker_failed raw worker
      else finish_worker worker

  -- The answer is written into the step.
  unfoldable pub report_worker : String → WorkerOutput → List String → Act
  unfolding by_status
  report_worker raw worker paths =
      now_modify
        (λ now job. record job { steps = change_last (reported_step now worker paths) job.steps })
      >> by_status raw worker

  -- What follows on a worker's answer that is valid.
  unfoldable pub end_worker : String → WorkerOutput → Act
  unfolding at_turn on_result report_worker
  end_worker raw worker = at_turn λ n r.
      on_result (w.worker_written n r.job.current_step worker)
        (λ e. fail_job w.env ("artifact materialization failed: " ^^ e)) (report_worker raw worker)
        r

  -- The answer decoded into the value, and the error: the JSON's or the schema's.
  abbrev pub parse_worker : String → WorkerOutput → WorkerOutput × Option String
  parse_worker raw into =
      let (worker, e) = w.decode_worker raw into in
      elim e [ some text ↦ (worker, some text) | none ↦ (worker, validate_worker_output worker) ]

  abbrev is_json_error : String → WorkerOutput → Bool
  is_json_error raw into = elim ((w.decode_worker raw into).1) [ none ↦ false | some e ↦ true ]

  -- The last attempt is no valid answer either.
  unfoldable pub reject_worker : String → WorkerOutput → String → Act
  unfolding fail_worker
  reject_worker raw into e =
      set_hint ""
      >> fail_worker
          ("worker schema validation failed after "
            ^^ itoa (suc schema_retry_max)
            ^^ " attempts: "
            ^^ e)
          (classify_worker_failure false (is_json_error raw into) (some e) raw)

  -- The call of a schema attempt fails.
  unfoldable pub fail_retry : ℕ → ErrorAction → String → Act
  unfolding fail_worker
  fail_retry n action text =
      set_hint ""
      >> fail_worker ("worker schema retry failed: " ^^ text)
          (classify_worker_failure (w.is_deadline n) false (some text) "")

  -- The worker is asked again, with a number of attempts left after that.
  unfoldable pub retry_worker : ℕ → (String → Act) → String → Act
  unfolding phase on_end fail_retry
  retry_worker left again e =
      add_event "schema_retry" (
        "worker schema retry "
        ^^ itoa (schema_retry_max - left)
        ^^ "/"
        ^^ itoa schema_retry_max
        ^^ ": "
        ^^ e)
      >> set_hint e
      >> phase w "worker" λ n end. on_end end again (fail_retry n)

  -- The loop over the schema attempts, with a number of them left.
  unfoldable pub settle_worker : ℕ → String → WorkerOutput → Act
  unfolding on_error end_worker reject_worker retry_worker
  settle_worker zero raw into =
      let (worker, error) = parse_worker raw into in
      on_error error (reject_worker raw into) (set_hint "" >> end_worker raw worker)
  settle_worker (suc left) raw into =
      let (worker, error) = parse_worker raw into in
      on_error error (retry_worker left (λ raw'. settle_worker left raw' worker))
        (set_hint "" >> end_worker raw worker)

  -- What follows on the first call of the worker.
  unfoldable pub receive_worker : ℕ → PhaseEnd → Act
  unfolding settle_worker block_failed_worker fail_worker
  receive_worker n (answered raw) = settle_worker schema_retry_max raw no_worker_output
  receive_worker n (gave_up action text) =
      let structured = classify_worker_failure (w.is_deadline n) false (some text) "" in
      if w.shut_down n
      then interrupt_job w.env "orchestrator shutdown interrupted the worker phase"
      else if is_blocking action
      then block_failed_worker ("worker execution blocked: " ^^ text) structured
      else fail_worker ("worker execution failed: " ^^ text) structured

  -- The new step, and the call of its worker.
  unfoldable pub start_worker : LeaderOutput → Act
  unfolding begin_step phase receive_worker
  start_worker task = begin_step "worker_requested" task >> phase w "worker" receive_worker

  -- runWorkerStep where there is one plan, with its task.
  unfoldable pub run_one_worker : LeaderOutput → Act
  unfolding at_turn start_worker decorate_task_for_verification
  run_one_worker plan = at_turn λ n r. start_worker (decorate_task_for_verification n r.job plan) r
