-- ===== src/Loop/Moves/Fanout.antt =====
-- internal/orchestrator/parallel.go: the workers of several plans begin one step each.
use gorchera.Base.{ℕ, suc, ◌≡◌, refl, inl, inr, length, get_elem?, false, List, [], ◌∷◌, arith}
use gorchera.Base.Text.{◌is◌}
use gorchera.Base.Result.{ok, err, Result-cases}
use gorchera.Domain.{Job, Step, LeaderOutput}
use gorchera.Parallel.{ParallelWorkerPlan, build_worker_plans}
use gorchera.Parallel.Bounds.{build_worker_plans-length}
use gorchera.Service.{Act, ◌>>◌, save, block_job, is_done}
use gorchera.Loop.{
  World, change_at, failed_with, Tally, Outcome, decorate_task_for_verification, running_plan,
  start_plan, begin_plans, call_workers, after_checks, settle_results, errored_step, settled_step,
  tell_tally, finish_plans, overall_status, run_plans, run_parallel_worker_plans, run_worker_plans,
  run_worker_step, no_tally, on_result, is_failed_step, execute_parallel_worker_plan,
}
use gorchera.Loop.Moves.{
  Keeps, ◌>>>◌, then-Keeps, weaken, Moves, moved, untouched, if-Keeps, turn-Keeps, reads-Keeps,
  at_turn-Keeps, on_error-Keeps, done-Keeps, modify-Keeps, add_event-Keeps, touch-Keeps, save-Keeps,
}
use gorchera.Loop.Moves.Checks.{run_engine_verification_for_step-Keeps}
use gorchera.Loop.Moves.Worker.{now_modify-Keeps, with_step-Moves, run_one_worker-Keeps}
use gorchera.Loop.Stops.{KeepsIndex, change_at-NumberedFrom, block_job_with_event-Keeps}

overall_status-undone : (t : Tally) → is_done (overall_status t) ≡ false
unfolding overall_status
overall_status-undone t = ground arith

change_at-Moves :
    (i : ℕ) (f : Step → Step) (a : Job)
    → KeepsIndex f
    → Moves 0 a (record a { steps = change_at i f a.steps })
change_at-Moves i f a h =
    moved a _ refl refl refl (change_at-NumberedFrom f i 0 a.current_step a.steps h) λ d. d

module _ (w : World) where
  start_plan-Keeps :
      (n : ℕ) (task : LeaderOutput) (next : Act)
      → Keeps n next
      → Keeps (suc n) (start_plan w task next)
  unfolding start_plan
  start_plan-Keeps n task next h =
      then-Keeps (suc n) (omega arith) (now_modify-Keeps λ now a. with_step-Moves now task a) h

  begin_plans-Keeps :
      (plans : List ParallelWorkerPlan) (k : List ParallelWorkerPlan → Act)
      → ((begun : List ParallelWorkerPlan) → Keeps 0 (k begun))
      → Keeps (length plans) (begin_plans w plans k)
  unfolding begin_plans
  begin_plans-Keeps [] k h = h []
  begin_plans-Keeps (plan ∷ plans) k h =
      turn-Keeps
        (λ i r.
          let task = decorate_task_for_verification w i r.job plan.task in
          start_plan w task (
            begin_plans w plans
              (λ rest. k (running_plan (suc r.job.current_step) task plan ∷ rest))))
        λ i r.
          let task = decorate_task_for_verification w i r.job plan.task in
          start_plan-Keeps (length plans) task _ (
            begin_plans-Keeps plans
              (λ rest. k (running_plan (suc r.job.current_step) task plan ∷ rest)) λ rest. h _)

  call_workers-Keeps :
      (plans : List ParallelWorkerPlan) (k : List Outcome → Act)
      → ((results : List Outcome) → Keeps 0 (k results))
      → Keeps 0 (call_workers w plans k)
  unfolding call_workers
  call_workers-Keeps [] k h = h []
  call_workers-Keeps (plan ∷ plans) k h = at_turn-Keeps λ i.
      call_workers-Keeps plans (λ rest. k (execute_parallel_worker_plan w i plan ∷ rest))
        λ rest. h _

  after_checks-Keeps :
      (i : ℕ) (t : Tally) (k : Tally → Act)
      → ((t' : Tally) → Keeps 0 (k t'))
      → Keeps 0 (after_checks w i t k)
  unfolding after_checks
  after_checks-Keeps i t k h = record {
    moves = λ r.
        (on_error-Keeps {f = λ e. save w.env >> k (failed_with e t)}
            (is_failed_step (get_elem? r.job.steps i)) (λ e. save-Keeps w.env >>> h _) (h t)).moves
          r;
  }

  settle_results-Keeps :
      (i : ℕ) (results : List Outcome) (t : Tally) (k : Tally → Act)
      → ((t' : Tally) → Keeps 0 (k t'))
      → Keeps 0 (settle_results w i results t k)
  unfolding settle_results
  settle_results-Keeps i [] t k h = h t
  settle_results-Keeps i (err e ∷ results) t k h =
      now_modify-Keeps (λ now a. change_at-Moves i (errored_step now e) a λ s. refl)
      >>> settle_results-Keeps (suc i) results _ k h
  settle_results-Keeps i (ok (worker, paths) ∷ results) t k h =
      now_modify-Keeps (λ now a. change_at-Moves i (settled_step now worker paths) a λ s. refl)
      >>> if-Keeps (worker.status is "success")
          (run_engine_verification_for_step-Keeps w i
            >>> after_checks-Keeps i t _ λ t'. settle_results-Keeps (suc i) results t' k h)
          (settle_results-Keeps (suc i) results _ k h)

  tell_tally-Keeps : (count : ℕ) (t : Tally) → Keeps 0 (tell_tally count t)
  unfolding tell_tally
  tell_tally-Keeps count t =
      if-Keeps (t.blocked is "")
        (if-Keeps (t.failed is "") (add_event-Keeps _ _)
          (modify-Keeps (λ a. untouched a _ refl refl refl refl refl) >>> add_event-Keeps _ _))
        (modify-Keeps (λ a. untouched a _ refl refl refl refl refl) >>> add_event-Keeps _ _)

  finish_plans-Keeps :
      (count : ℕ) (results : List Outcome) (t : Tally) → Keeps 0 (finish_plans w count results t)
  unfolding finish_plans
  finish_plans-Keeps count results t =
      tell_tally-Keeps count t
      >>> modify-Keeps (λ a. moved a _ refl refl refl (λ i. i) λ d. overall_status-undone t)
      >>> touch-Keeps
      >>> save-Keeps w.env

  run_plans-Keeps :
      (count start : ℕ) (begun : List ParallelWorkerPlan) → Keeps 0 (run_plans w count start begun)
  unfolding run_plans
  run_plans-Keeps count start begun =
      add_event-Keeps _ _
      >>> touch-Keeps
      >>> save-Keeps w.env
      >>> call_workers-Keeps begun _ λ results.
        settle_results-Keeps start results no_tally _ (finish_plans-Keeps count results)

  run_parallel_worker_plans-Keeps :
      (plans : List ParallelWorkerPlan) → Keeps (length plans) (run_parallel_worker_plans w plans)
  unfolding run_parallel_worker_plans
  run_parallel_worker_plans-Keeps plans =
      reads-Keeps (λ r. begin_plans w plans (run_plans w (length plans) (length r.job.steps)))
        λ r. begin_plans-Keeps plans _ (run_plans-Keeps (length plans) (length r.job.steps))

  run_worker_plans-Keeps :
      (plans : List ParallelWorkerPlan) → Keeps (length plans) (run_worker_plans w plans)
  unfolding run_worker_plans
  run_worker_plans-Keeps [] = done-Keeps
  run_worker_plans-Keeps (plan ∷ []) = run_one_worker-Keeps w plan.task
  run_worker_plans-Keeps (p ∷ q ∷ plans) = run_parallel_worker_plans-Keeps (p ∷ q ∷ plans)

  -- A worker step begins at most two steps.
  pub run_worker_step-Keeps : (leader : LeaderOutput) → Keeps 2 (run_worker_step w leader)
  unfolding run_worker_step block_job
  run_worker_step-Keeps leader = record {
    moves = λ r. elim (Result-cases (build_worker_plans w.texts leader)) [
      | inl (e, told) ↦
          rw (told, run_worker_step, on_result)
            ((weaken 2 (omega arith) (block_job_with_event-Keeps w.env "job_blocked" _)).moves r)
      | inr (plans, told) ↦
          rw (told, run_worker_step, on_result)
            ((weaken 2 (build_worker_plans-length w.texts leader plans told)
                (run_worker_plans-Keeps plans)).moves
              r)
    ];
  }
