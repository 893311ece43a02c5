-- ===== src/Loop/Moves/Worker.antt =====
-- internal/orchestrator/service.go: the worker step begins one step.
use gorchera.Base.{ℕ, zero, suc, refl, length, ◌-◌, String, List, Option, arith}
use gorchera.Base.Text.{◌is◌, ◌^^◌}
use gorchera.Domain.{
  Job, Step, StepStatus, LeaderOutput, WorkerOutput, ChangedFile, StructuredReason,
}
use gorchera.Provider.{PhaseEnd, answered, gave_up, ErrorAction}
use gorchera.Service.{Act, change_last, block_job, fail_job}
use gorchera.Loop.{
  World, now_modify, with_step, begin_step, fail_worker, block_failed_worker, finish_worker,
  succeed_with, worker_succeeded, worker_failed, by_status, report_worker, end_worker,
  reject_worker, fail_retry, retry_worker, settle_worker, receive_worker, start_worker,
  run_one_worker, workspace_of, decorate_task_for_verification, set_hint, is_blocking, on_result,
  stopped_step, reported_step, schema_retry_max, no_worker_output,
}
use gorchera.Loop.Moves.{
  Keeps, ◌>>>◌, then-Keeps, Moves, moved, untouched, if-Keeps, turn-Keeps, on_result-Keeps,
  on_error-Keeps, on_end-Keeps, phase-Keeps, modify-Keeps, add_event-Keeps, touch-Keeps, save-Keeps,
}
use gorchera.Loop.Moves.Checks.{run_engine_verification_for_step-Keeps}
use gorchera.Loop.Stops.{
  KeepsIndex, change_last-NumberedFrom, append-NumberedFrom, fail_job-Keeps,
  block_job_with_event-Keeps, block_worker_step-Keeps, interrupt_job-Keeps,
}

pub now_modify-Keeps :
    {n : ℕ} {f : ℕ → Job → Job}
    → ((now : ℕ) (a : Job) → Moves n a (f now a))
    → Keeps n (now_modify f)
now_modify-Keeps h = record { moves = λ r. h r.service.now r.job }

-- A change of the last step.
pub change_last-Moves :
    (f : Step → Step) (a : Job)
    → KeepsIndex f
    → Moves 0 a (record a { steps = change_last f a.steps })
change_last-Moves f a h =
    moved a _ refl refl refl (change_last-NumberedFrom f 0 a.current_step a.steps h) λ d. d

pub set_hint-Keeps : (hint : String) → Keeps 0 (set_hint hint)
set_hint-Keeps hint = modify-Keeps λ a. untouched a _ refl refl refl refl refl

pub with_step-Moves : (now : ℕ) (task : LeaderOutput) (a : Job) → Moves 1 a (with_step now task a)
unfolding with_step
with_step-Moves now task a = record {
  fixed = refl;
  limit = refl;
  onward = omega arith;
  count = omega arith;
  numbered = λ i. append-NumberedFrom 0 a.current_step a.steps _ refl i;
  undone = λ d. refl;
}

stopped_step-KeepsIndex :
    (status : StepStatus) (now : ℕ) (reason : String) (structured : Option StructuredReason)
    → KeepsIndex (stopped_step status now reason structured)
stopped_step-KeepsIndex status now reason structured s = ground arith

module _ (w : World) where
  pub begin_step-Keeps : (kind : String) (task : LeaderOutput) → Keeps 1 (begin_step w kind task)
  unfolding begin_step
  begin_step-Keeps kind task =
      then-Keeps 1 (omega arith)
        (then-Keeps 1 (omega arith)
          (then-Keeps 1 (omega arith) (now_modify-Keeps λ now a. with_step-Moves now task a)
            (add_event-Keeps _ _))
          touch-Keeps)
        (save-Keeps w.env)

  fail_worker-Keeps :
      (reason : String) (structured : Option StructuredReason)
      → Keeps 0 (fail_worker w reason structured)
  unfolding fail_worker
  fail_worker-Keeps reason structured =
      now_modify-Keeps (λ now a.
        change_last-Moves (stopped_step StepStatus.failed now reason structured) a
          (stopped_step-KeepsIndex StepStatus.failed now reason structured))
      >>> add_event-Keeps _ _
      >>> fail_job-Keeps w.env reason

  block_failed_worker-Keeps :
      (reason : String) (structured : Option StructuredReason)
      → Keeps 0 (block_failed_worker w reason structured)
  unfolding block_failed_worker block_job
  block_failed_worker-Keeps reason structured =
      now_modify-Keeps (λ now a.
        change_last-Moves (stopped_step StepStatus.blocked now reason structured) a
          (stopped_step-KeepsIndex StepStatus.blocked now reason structured))
      >>> add_event-Keeps _ _
      >>> block_job_with_event-Keeps w.env _ reason

  finish_worker-Keeps : (worker : WorkerOutput) → Keeps 0 (finish_worker w worker)
  unfolding finish_worker
  finish_worker-Keeps worker =
      modify-Keeps (λ a. untouched a _ refl refl refl refl refl)
      >>> touch-Keeps
      >>> save-Keeps w.env

  succeed_with-Keeps :
      (diff : String) (files : List ChangedFile) (i : ℕ) (worker : WorkerOutput)
      → Keeps 0 (succeed_with w diff files i worker)
  unfolding succeed_with
  succeed_with-Keeps diff files i worker =
      modify-Keeps (λ a.
        moved a _ refl refl refl (change_last-NumberedFrom _ 0 a.current_step a.steps λ s. refl)
          λ d. refl)
      >>> add_event-Keeps _ _
      >>> run_engine_verification_for_step-Keeps w i
      >>> finish_worker-Keeps worker

  worker_succeeded-Keeps : (worker : WorkerOutput) → Keeps 0 (worker_succeeded w worker)
  unfolding worker_succeeded
  worker_succeeded-Keeps worker =
      turn-Keeps
        (λ i r.
          succeed_with w (w.diff_stat i (workspace_of r.job r))
            (w.changed_files i (workspace_of r.job r)) (length r.job.steps - 1) worker)
        λ i r. succeed_with-Keeps _ _ _ worker

  worker_failed-Keeps :
      (raw : String) (worker : WorkerOutput) → Keeps 0 (worker_failed w raw worker)
  unfolding worker_failed
  worker_failed-Keeps raw worker =
      modify-Keeps (λ a.
        moved a _ refl refl refl (change_last-NumberedFrom _ 0 a.current_step a.steps λ s. refl)
          λ d. refl)
      >>> add_event-Keeps _ _
      >>> finish_worker-Keeps worker

  by_status-Keeps : (raw : String) (worker : WorkerOutput) → Keeps 0 (by_status w raw worker)
  unfolding by_status
  by_status-Keeps raw worker =
      if-Keeps (worker.status is "success") (worker_succeeded-Keeps worker) (
        if-Keeps (worker.status is "blocked") (block_worker_step-Keeps w.env _ _ _ _) (
          if-Keeps (worker.status is "failed") (worker_failed-Keeps raw worker)
            (finish_worker-Keeps worker)))

  report_worker-Keeps :
      (raw : String) (worker : WorkerOutput) (paths : List String)
      → Keeps 0 (report_worker w raw worker paths)
  unfolding report_worker
  report_worker-Keeps raw worker paths =
      now_modify-Keeps (λ now a. change_last-Moves (reported_step now worker paths) a λ s. refl)
      >>> by_status-Keeps raw worker

  end_worker-Keeps : (raw : String) (worker : WorkerOutput) → Keeps 0 (end_worker w raw worker)
  unfolding end_worker
  end_worker-Keeps raw worker =
      turn-Keeps
        (λ i r.
          on_result (w.worker_written i r.job.current_step worker)
            (λ e. fail_job w.env ("artifact materialization failed: " ^^ e))
            (report_worker w raw worker))
        λ i r. on_result-Keeps _ (λ e. fail_job-Keeps w.env _) (report_worker-Keeps raw worker)

  reject_worker-Keeps :
      (raw : String) (into : WorkerOutput) (e : String) → Keeps 0 (reject_worker w raw into e)
  unfolding reject_worker
  reject_worker-Keeps raw into e = set_hint-Keeps "" >>> fail_worker-Keeps _ _

  fail_retry-Keeps :
      (i : ℕ) (action : ErrorAction) (text : String) → Keeps 0 (fail_retry w i action text)
  unfolding fail_retry
  fail_retry-Keeps i action text = set_hint-Keeps "" >>> fail_worker-Keeps _ _

  retry_worker-Keeps :
      (left : ℕ) (again : String → Act)
      → ((text : String) → Keeps 0 (again text))
      → (e : String) → Keeps 0 (retry_worker w left again e)
  unfolding retry_worker
  retry_worker-Keeps left again h e =
      add_event-Keeps _ _
      >>> set_hint-Keeps e
      >>> phase-Keeps w _ λ i end. on_end-Keeps end h (fail_retry-Keeps i)

  settle_worker-Keeps :
      (left : ℕ) (raw : String) (into : WorkerOutput) → Keeps 0 (settle_worker w left raw into)
  unfolding settle_worker
  settle_worker-Keeps zero raw into =
      on_error-Keeps _ (reject_worker-Keeps raw into) (set_hint-Keeps "" >>> end_worker-Keeps raw _)
  settle_worker-Keeps (suc left) raw into =
      on_error-Keeps _ (retry_worker-Keeps left _ (λ raw'. settle_worker-Keeps left raw' _))
        (set_hint-Keeps "" >>> end_worker-Keeps raw _)

  receive_worker-Keeps : (i : ℕ) (end : PhaseEnd) → Keeps 0 (receive_worker w i end)
  unfolding receive_worker
  receive_worker-Keeps i (answered raw) = settle_worker-Keeps schema_retry_max raw no_worker_output
  receive_worker-Keeps i (gave_up action text) =
      if-Keeps (w.shut_down i) (interrupt_job-Keeps w.env _)
        (if-Keeps (is_blocking action) (block_failed_worker-Keeps _ _) (fail_worker-Keeps _ _))

  pub run_one_worker-Keeps : (plan : LeaderOutput) → Keeps 1 (run_one_worker w plan)
  unfolding run_one_worker start_worker
  run_one_worker-Keeps plan =
      turn-Keeps (λ i r. start_worker w (decorate_task_for_verification w i r.job plan))
        λ i r.
          then-Keeps 1 (omega arith)
            (begin_step-Keeps _ (decorate_task_for_verification w i r.job plan))
            (phase-Keeps w _ receive_worker-Keeps)
