-- ===== src/Loop/Fanout.antt =====
-- internal/orchestrator/parallel.go: the workers of several plans. They run at the same time on copies
-- of the job and share nothing, so each has a turn of its own, in the order of the plans.
use gorchera.Base.{
  ℕ, suc, length, String, Bool, true, false, List, [], ◌∷◌, Option, none, some, if◌then◌else◌,
  get_elem?,
}
use gorchera.Base.Text.{◌is◌, ◌^^◌, is_blank, first_non_empty, join, itoa}
use gorchera.Base.Result.{Result, ok, err}
use gorchera.Domain.{JobStatus, Step, StepStatus, LeaderOutput, WorkerOutput}
use gorchera.Parallel.{ParallelWorkerPlan, build_worker_plans}
use gorchera.Schema.{validate_worker_output}
use gorchera.Provider.{raw, failure}
use gorchera.Service.{Act, ◌>>◌, done, modify, add_event, touch, save, block_job}
use gorchera.Loop.Answers.{World, at_turn, on_result, on_error, change_at}
use gorchera.Loop.Checks.{run_engine_verification_for_step}
use gorchera.Loop.Worker.{
  with_step, now_modify, decorate_task_for_verification, no_worker_output, run_one_worker,
}

-- The reasons found so far, and whether a worker ended with an error.
pub record Tally : Type 0 where
  pub blocked : String
  pub failed : String
  pub errored : Bool

abbrev pub no_tally : Tally
no_tally = record { blocked = ""; failed = ""; errored = false }

abbrev keep_first : String → String → String
keep_first old new = if old is "" then new else old

abbrev pub is_failed_step : Option Step → Option String
is_failed_step none = none
is_failed_step (some step) = elim step.status [
  | StepStatus.failed ↦ some step.error_reason
  | _ ↦ none
]

abbrev pub Outcome : Type 0
Outcome = Result (WorkerOutput × List String)

-- A step whose worker ended with an error.
abbrev pub errored_step : ℕ → String → Step → Step
errored_step now e step = record step {
  finished_at = now;
  status = StepStatus.failed;
  error_reason = e;
  summary = e;
}

abbrev status_of : WorkerOutput → StepStatus → StepStatus
status_of worker old =
    if worker.status is "success"
    then StepStatus.succeeded
    else if worker.status is "blocked"
    then StepStatus.blocked
    else if worker.status is "failed"
    then StepStatus.failed
    else old

-- The step of a worker that answered.
abbrev pub settled_step : ℕ → WorkerOutput → List String → Step → Step
settled_step now worker paths step = record step {
  finished_at = now;
  artifacts = paths;
  summary = worker.summary;
  blocked_reason = worker.blocked_reason;
  error_reason = worker.error_reason;
  status = status_of worker step.status;
}

summaries : List Outcome → List String
summaries [] = []
summaries (err e ∷ results) = e ∷ summaries results
summaries (ok (worker, paths) ∷ results) =
    let rest = summaries results in if is_blank worker.summary then rest else worker.summary ∷ rest

-- summarizeParallelResults.
unfoldable pub summarize_parallel_results : List Outcome → String
unfolding summaries
summarize_parallel_results results = join (summaries results) " | "

-- The status after all workers: what the tally says.
unfoldable pub overall_status : Tally → JobStatus
overall_status t =
    if t.blocked is ""
    then (if t.failed is ""
        then JobStatus.running
        else if t.errored
        then JobStatus.failed
        else JobStatus.running)
    else JobStatus.blocked

-- A reason of a failure, unless there is one already.
abbrev pub failed_with : String → Tally → Tally
failed_with e t = record t { failed = keep_first t.failed e }

-- One more worker has ended with an error.
abbrev pub with_error : String → Tally → Tally
with_error e t = record t { failed = keep_first t.failed e; errored = true }

abbrev pub running_plan : ℕ → LeaderOutput → ParallelWorkerPlan → ParallelWorkerPlan
running_plan index task plan = record plan { step_index = index; task = task }

-- The reasons of a worker that answered.
abbrev pub with_worker : WorkerOutput → Tally → Tally
with_worker worker t =
    if worker.status is "blocked"
    then record t {
      blocked = keep_first t.blocked (
          first_non_empty
            (worker.blocked_reason ∷ worker.summary ∷ "parallel worker blocked" ∷ []));
    }
    else if worker.status is "failed"
    then record t {
      failed =
          keep_first t.failed (
            first_non_empty (worker.error_reason ∷ worker.summary ∷ "parallel worker failed" ∷ []));
    }
    else t

-- What the tally says of the workers.
unfoldable pub tell_tally : ℕ → Tally → Act
tell_tally count t =
    if t.blocked is ""
    then (if t.failed is ""
        then add_event "parallel_workers_succeeded"
            ("parallel fan-out with " ^^ itoa count ^^ " workers completed")
        else modify (λ job. record job { failure_reason = t.failed; blocked_reason = "" })
          >> add_event "parallel_workers_failed" t.failed)
    else modify (λ job. record job { blocked_reason = t.blocked; failure_reason = "" })
      >> add_event "parallel_workers_blocked" t.blocked

module _ (w : World) where
  -- executeParallelWorkerPlan: one call, with no retry.
  unfoldable pub execute_parallel_worker_plan : ℕ → ParallelWorkerPlan → Outcome
  execute_parallel_worker_plan n plan = elim (w.call n 0) [
    | failure f ↦ err ("worker execution failed: " ^^ f.text)
    | raw text ↦ elim ((w.decode_worker text no_worker_output).1) [
      | some e ↦ err ("invalid worker json: " ^^ e)
      | none ↦
          let worker = (w.decode_worker text no_worker_output).0 in
          elim (validate_worker_output worker) [
            | some e ↦ err ("worker schema validation failed: " ^^ e)
            | none ↦ elim (w.worker_written n plan.step_index worker) [
              | err e ↦ err ("artifact materialization failed: " ^^ e)
              | ok paths ↦ ok (worker, paths)
            ]
          ]
    ]
  ]

  -- The step of a plan, with what follows.
  unfoldable pub start_plan : LeaderOutput → Act → Act
  unfolding with_step
  start_plan task next = now_modify (λ now. with_step now task) >> next

  -- The steps of the plans, with the plans as they are run.
  unfoldable pub begin_plans : List ParallelWorkerPlan → (List ParallelWorkerPlan → Act) → Act
  unfolding at_turn start_plan decorate_task_for_verification
  begin_plans [] k = k []
  begin_plans (plan ∷ plans) k = at_turn λ n r.
      let task = decorate_task_for_verification w n r.job plan.task in
      start_plan task
        (begin_plans plans (λ rest. k (running_plan (suc r.job.current_step) task plan ∷ rest))) r

  unfoldable pub call_workers : List ParallelWorkerPlan → (List Outcome → Act) → Act
  unfolding at_turn execute_parallel_worker_plan
  call_workers [] k = k []
  call_workers (plan ∷ plans) k =
      at_turn λ n. call_workers plans (λ rest. k (execute_parallel_worker_plan n plan ∷ rest))

  -- After the engine's checks of a step: a step that failed them is saved at once.
  unfoldable pub after_checks : ℕ → Tally → (Tally → Act) → Act
  unfolding on_error
  after_checks i t k r =
      on_error (is_failed_step (get_elem? r.job.steps i)) (λ e. save w.env >> k (failed_with e t))
        (k t) r

  -- The loop over the results, from the step at a place.
  unfoldable pub settle_results : ℕ → List Outcome → Tally → (Tally → Act) → Act
  unfolding change_at run_engine_verification_for_step after_checks
  settle_results i [] t k = k t
  settle_results i (err e ∷ results) t k =
      now_modify (λ now job. record job { steps = change_at i (errored_step now e) job.steps })
      >> settle_results (suc i) results (with_error e t) k
  settle_results i (ok (worker, paths) ∷ results) t k =
      let rest = settle_results (suc i) results in
      now_modify
        (λ now job. record job { steps = change_at i (settled_step now worker paths) job.steps })
      >> (if worker.status is "success"
          then run_engine_verification_for_step w i >> after_checks i t (λ t'. rest t' k)
          else rest (with_worker worker t) k)

  -- The end of runParallelWorkerPlans.
  unfoldable pub finish_plans : ℕ → List Outcome → Tally → Act
  unfolding tell_tally overall_status summarize_parallel_results
  finish_plans count results t =
      tell_tally count t
      >> modify (λ job. record job {
        status = overall_status t;
        leader_context_summary = summarize_parallel_results results;
      })
      >> touch
      >> save w.env

  -- The workers are called, and their results go into the steps from a place.
  unfoldable pub run_plans : ℕ → ℕ → List ParallelWorkerPlan → Act
  unfolding call_workers settle_results finish_plans
  run_plans count start begun =
      add_event "parallel_workers_requested" ("parallel fan-out with " ^^ itoa count ^^ " workers")
      >> touch
      >> save w.env
      >> call_workers begun
          λ results. settle_results start results no_tally (finish_plans count results)

  -- runParallelWorkerPlans.
  unfoldable pub run_parallel_worker_plans : List ParallelWorkerPlan → Act
  unfolding begin_plans run_plans
  run_parallel_worker_plans plans r =
      begin_plans plans (run_plans (length plans) (length r.job.steps)) r

  -- runWorkerStep with its plans.
  unfoldable pub run_worker_plans : List ParallelWorkerPlan → Act
  unfolding run_parallel_worker_plans run_one_worker
  run_worker_plans [] = done
  run_worker_plans (plan ∷ []) = run_one_worker w plan.task
  run_worker_plans (p ∷ q ∷ plans) = run_parallel_worker_plans (p ∷ q ∷ plans)

  -- runWorkerStep.
  unfoldable pub run_worker_step : LeaderOutput → Act
  unfolding on_result run_worker_plans
  run_worker_step leader =
      on_result (build_worker_plans w.texts leader)
        (λ e. block_job w.env ("parallel fan-out blocked: " ^^ e)) run_worker_plans
