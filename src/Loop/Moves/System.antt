-- ===== src/Loop/Moves/System.antt =====
-- internal/orchestrator/service.go: the system step begins one step.
use gorchera.Base.{ℕ, refl, String, Bool, List, [], arith}
use gorchera.Base.Text.{◌is◌, ◌^^◌}
use gorchera.Allowlist.{Request}
use gorchera.Domain.{LeaderOutput}
use gorchera.Service.{fail_job}
use gorchera.Loop.{
  World, RunEnd, hold_system, finish_system, system_failed, system_succeeded, system_refused,
  end_system, report_system, write_result, after_system, start_system, decide, decide_system,
  SystemRequest, run_system_step_with_approval, build_system_request, on_result, is_such, held_step,
}
use gorchera.Loop.Moves.{
  Keeps, ◌>>>◌, then-Keeps, moved, untouched, if-Keeps, turn-Keeps, reads-Keeps, on_result-Keeps,
  on_error-Keeps, modify-Keeps, add_event-Keeps, touch-Keeps, save-Keeps,
}
use gorchera.Loop.Moves.Checks.{run_command-Keeps}
use gorchera.Loop.Moves.Worker.{begin_step-Keeps, now_modify-Keeps, change_last-Moves}
use gorchera.Loop.Stops.{
  change_last-NumberedFrom, fail_job-Keeps, block_job_with_event-Keeps, interrupt_job-Keeps,
}

module _ (w : World) where
  hold_system-Keeps :
      (reason : String) (leader : LeaderOutput) → Keeps 0 (hold_system w reason leader)
  unfolding hold_system
  hold_system-Keeps reason leader =
      now_modify-Keeps (λ now a.
        moved a _ refl refl refl
          (change_last-NumberedFrom (held_step now reason) 0 a.current_step a.steps λ s. refl)
          λ d. refl)
      >>> block_job_with_event-Keeps w.env _ reason

  finish_system-Keeps : (summary : String) → Keeps 0 (finish_system w summary)
  unfolding finish_system
  finish_system-Keeps summary =
      modify-Keeps (λ a. untouched a _ refl refl refl refl refl)
      >>> touch-Keeps
      >>> save-Keeps w.env

  system_failed-Keeps : (e : String) → Keeps 0 (system_failed w e)
  unfolding system_failed
  system_failed-Keeps e =
      modify-Keeps (λ a.
        moved a _ refl refl refl (change_last-NumberedFrom _ 0 a.current_step a.steps λ s. refl)
          λ d. refl)
      >>> add_event-Keeps _ _

  system_succeeded-Keeps : (summary : String) → Keeps 0 (system_succeeded w summary)
  unfolding system_succeeded
  system_succeeded-Keeps summary =
      modify-Keeps (λ a.
        moved a _ refl refl refl (change_last-NumberedFrom _ 0 a.current_step a.steps λ s. refl)
          λ d. refl)
      >>> add_event-Keeps _ _

  system_refused-Keeps : (e : String) → Keeps 0 (system_refused w e)
  unfolding system_refused
  system_refused-Keeps e =
      modify-Keeps (λ a.
        moved a _ refl refl refl (change_last-NumberedFrom _ 0 a.current_step a.steps λ s. refl)
          λ d. d)
      >>> block_job_with_event-Keeps w.env _ e

  end_system-Keeps : (end : RunEnd) → Keeps 0 (end_system w end)
  unfolding end_system
  end_system-Keeps end =
      on_error-Keeps end.error
        (λ e.
          if-Keeps end.not_allowed (system_refused-Keeps e)
            (system_failed-Keeps e >>> finish_system-Keeps _))
        (system_succeeded-Keeps _ >>> finish_system-Keeps _)

  report_system-Keeps : (end : RunEnd) (paths : List String) → Keeps 0 (report_system w end paths)
  unfolding report_system
  report_system-Keeps end paths =
      now_modify-Keeps (λ now a. change_last-Moves _ a λ s. refl) >>> end_system-Keeps end

  write_result-Keeps : (end : RunEnd) (i index : ℕ) → Keeps 0 (write_result w end i index)
  unfolding write_result
  write_result-Keeps end i index =
      if-Keeps (end.result.command is "") (report_system-Keeps end [])
        (on_result-Keeps _ (λ e. fail_job-Keeps w.env _) (report_system-Keeps end))

  after_system-Keeps : (i : ℕ) (end : RunEnd) → Keeps 0 (after_system w i end)
  unfolding after_system
  after_system-Keeps i end = if-Keeps (is_such w w.shut_down i end) (interrupt_job-Keeps w.env _) (
      turn-Keeps (λ j r. write_result w end j r.job.current_step)
        λ j r. write_result-Keeps end j r.job.current_step)

  start_system-Keeps : (req : Request) → Keeps 0 (start_system w req)
  unfolding start_system
  start_system-Keeps req =
      modify-Keeps (λ a. untouched a _ refl refl refl refl refl)
      >>> run_command-Keeps w req (after_system w) after_system-Keeps

  decide-Keeps :
      (leader : LeaderOutput) (granted : Bool) (request : SystemRequest)
      → Keeps 0 (decide w leader granted request)
  unfolding decide
  decide-Keeps leader granted request =
      if-Keeps _ (hold_system-Keeps _ leader) (start_system-Keeps request.0)

  pub decide_system-Keeps :
      (leader : LeaderOutput) (granted : Bool) → Keeps 0 (decide_system w leader granted)
  unfolding decide_system
  decide_system-Keeps leader granted =
      reads-Keeps
        (λ r.
          on_result (build_system_request w.working_dir r.service.workspace_root r.job leader)
            (λ e. fail_job w.env ("invalid system action: " ^^ e)) (decide w leader granted))
        λ r. on_result-Keeps _ (λ e. fail_job-Keeps w.env _) (decide-Keeps leader granted)

  pub run_system_step_with_approval-Keeps :
      (leader : LeaderOutput) (granted : Bool)
      → Keeps 1 (run_system_step_with_approval w leader granted)
  unfolding run_system_step_with_approval
  run_system_step_with_approval-Keeps leader granted =
      then-Keeps 1 (omega arith) (begin_step-Keeps w _ leader) (decide_system-Keeps leader granted)
