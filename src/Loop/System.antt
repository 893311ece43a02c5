-- ===== src/Loop/System.antt =====
-- internal/orchestrator/service.go: the system step and its approval by the operator.
use gorchera.Base.{
  ℕ, String, Bool, true, false, ◌&&◌, ◌||◌, not, List, [], ◌∷◌, Option, none, some, if◌then◌else◌,
}
use gorchera.Base.Text.{◌is◌, ◌^^◌, first_non_empty, starts_with, quote, itoa}
use gorchera.Base.FilePath.{clean, join_path, rel, is_abs}
use gorchera.Base.Result.{Result, ok, err}
use gorchera.Domain.{Job, JobStatus, Step, StepStatus, LeaderOutput, PendingApproval, SystemAction}
use gorchera.Policy.{evaluate, Decision, ActionType, ResourceScope}
use gorchera.Policy
use gorchera.Allowlist
use gorchera.Service.{
  Service, Run, Act, Reply, handed_on, with_job, replied, ◌>>◌, modify, add_event, touch, save,
  fail_job, block_job_with_event, interrupt_job, change_last, sanitize_leader_context,
}
use gorchera.Loop.Answers.{World, RunResult, at_turn, on_result, on_error, is_stopped}
use gorchera.Loop.Engine.{RunEnd, run_command, is_such}
use gorchera.Loop.Worker.{begin_step, now_modify}

-- resolveSystemWorkdir.
unfoldable pub resolve_system_workdir : String → String → String
resolve_system_workdir root workdir =
    let path = first_non_empty (workdir ∷ root ∷ []) in
    if is_abs path then clean path else clean (join_path (first_non_empty (root ∷ "." ∷ [])) path)

-- `filepath.Abs`, with the working directory.
unfoldable pub abs : Result String → String → Result String
abs dir path =
    if is_abs path
    then ok (clean path)
    else elim dir [ err e ↦ err e | ok here ↦ ok (join_path here path) ]

-- classifyScope of two absolute paths.
unfoldable pub scope_of : String → String → ResourceScope
scope_of root target =
    if rel root target is "." || not (starts_with (rel root target) "..")
    then ResourceScope.workspace_local
    else ResourceScope.workspace_outside

-- classifyScope.
unfoldable pub classify_scope : Result String → String → String → ResourceScope
unfolding abs scope_of
classify_scope dir root target = elim (abs dir (first_non_empty (root ∷ "." ∷ []))) [
  | err e ↦ ResourceScope.unknown
  | ok root' ↦ elim (abs dir (first_non_empty (target ∷ root' ∷ []))) [
    | err e ↦ ResourceScope.unknown
    | ok target' ↦ scope_of root' target'
  ]
]

-- mapSystemTask; the category has the text of the task's type.
unfoldable pub map_system_task : String → Result (String × ActionType)
map_system_task task =
    if task is "build"
    then ok ("build", ActionType.build)
    else if task is "test"
    then ok ("test", ActionType.test)
    else if task is "lint"
    then ok ("lint", ActionType.lint)
    else if task is "search"
    then ok ("search", ActionType.search)
    else if task is "command"
    then ok ("command", ActionType.command)
    else err ("unsupported system task type " ^^ quote task)

-- summarizeSystemResult.
unfoldable pub summarize_system_result : RunResult → String
summarize_system_result result =
    if result.command is ""
    then "system action produced no runtime result"
    else result.category ^^ " " ^^ result.command ^^ " exited with code " ^^ itoa result.exit_code

abbrev pub SystemRequest : Type 0
SystemRequest = Allowlist.Request × Policy.Request

abbrev system_request :
    Result String → String → LeaderOutput → SystemAction → String → ActionType → SystemRequest
system_request dir root leader action category kind =
    let workdir = resolve_system_workdir root action.workdir in
    (
      record { category = category; command = action.command; args = action.args; dir = workdir },
      record {
        action = kind;
        target_scopes = classify_scope dir root workdir ∷ [];
        delete_count = 0;
        uses_network = false;
        touches_credential = false;
        command = action.command;
        details = leader.task_text;
      },
    )

-- buildSystemRequest.
unfoldable pub build_system_request :
    Result String → String → Job → LeaderOutput → Result SystemRequest
unfolding classify_scope resolve_system_workdir map_system_task
build_system_request dir workspace_root job leader = elim leader.system_action [
  | none ↦ err "system_action is required"
  | some action ↦ elim (map_system_task leader.task_type) [
    | err e ↦ err e
    | ok (category, kind) ↦ ok (
        system_request dir (first_non_empty (job.workspace_dir ∷ workspace_root ∷ [])) leader action
          category kind)
  ]
]

-- The step that waits for an approval.
abbrev pub held_step : ℕ → String → Step → Step
held_step now reason step = record step {
  status = StepStatus.blocked;
  blocked_reason = reason;
  summary = reason;
  finished_at = now;
}

abbrev approval_for : ℕ → ℕ → String → LeaderOutput → PendingApproval
approval_for now index reason leader = record {
  step_index = index;
  reason = reason;
  requested_at = now;
  target = leader.target;
  task_type = leader.task_type;
  task_text = leader.task_text;
  system_action = leader.system_action;
}

abbrev pub is_block : Decision → Bool
is_block Decision.block = true
is_block _ = false

module _ (w : World) where
  -- The block of an action that the policy does not allow.
  unfoldable pub hold_system : String → LeaderOutput → Act
  hold_system reason leader =
      now_modify (λ now job. record job {
        steps = change_last (held_step now reason) job.steps;
        status = JobStatus.blocked;
        blocked_reason = reason;
        pending_approval = some (approval_for now job.current_step reason leader);
      })
      >> block_job_with_event w.env "system_blocked" reason

  -- The end of the system step that is not blocked.
  unfoldable pub finish_system : String → Act
  finish_system summary =
      modify (λ job. record job { leader_context_summary = sanitize_leader_context summary })
      >> touch
      >> save w.env

  -- A command that was started and failed.
  unfoldable pub system_failed : String → Act
  system_failed e =
      modify (λ job. record job {
        steps =
            change_last (λ step. record step { status = StepStatus.failed; error_reason = e })
              job.steps;
        failure_reason = e;
        status = JobStatus.running;
      })
      >> add_event "system_failed" e

  -- A command that has succeeded.
  unfoldable pub system_succeeded : String → Act
  system_succeeded summary =
      modify (λ job. record job {
        steps = change_last (λ step. record step { status = StepStatus.succeeded }) job.steps;
        status = JobStatus.running;
      })
      >> add_event "system_succeeded" summary

  -- A command that the runner does not start.
  unfoldable pub system_refused : String → Act
  system_refused e =
      modify (λ job. record job {
        steps =
            change_last (λ step. record step { status = StepStatus.blocked; blocked_reason = e })
              job.steps;
      })
      >> block_job_with_event w.env "system_blocked" e

  -- The switch over the error of the command.
  unfoldable pub end_system : RunEnd → Act
  unfolding on_error finish_system system_succeeded system_refused system_failed
      summarize_system_result
  end_system end =
      let summary = summarize_system_result end.result in
      on_error end.error
        (λ e.
          if end.not_allowed then system_refused e else system_failed e >> finish_system summary)
        (system_succeeded summary >> finish_system summary)

  -- The step gets its artifacts, and its end.
  unfoldable pub report_system : RunEnd → List String → Act
  unfolding end_system
  report_system end paths =
      now_modify (λ now job. record job {
        steps =
            change_last
              (λ step. record step {
                artifacts = paths;
                finished_at = now;
                summary = summarize_system_result end.result;
              })
              job.steps;
      })
      >> end_system end

  -- The artifacts of the result, where there is one.
  unfoldable pub write_result : RunEnd → ℕ → ℕ → Act
  unfolding on_result report_system
  write_result end n index =
      if end.result.command is ""
      then report_system end []
      else on_result (w.system_written n index end.result)
          (λ e. fail_job w.env ("runtime artifact materialization failed: " ^^ e))
          (report_system end)

  -- What follows on the command.
  unfoldable pub after_system : ℕ → RunEnd → Act
  unfolding at_turn write_result
  after_system n end =
      if is_such w w.shut_down n end
      then interrupt_job w.env "orchestrator shutdown interrupted the system action"
      else at_turn λ m r. write_result end m r.job.current_step r

  -- The command, when nothing holds it back.
  unfoldable pub start_system : Allowlist.Request → Act
  unfolding run_command after_system
  start_system req =
      modify (λ job. record job { pending_approval = none }) >> run_command w req after_system

  -- The policy's decision on the action.
  unfoldable pub decide : LeaderOutput → Bool → SystemRequest → Act
  unfolding hold_system start_system
  decide leader approval_granted request =
      let decision = evaluate Policy.new request.1 in
      if not approval_granted && is_block decision.decision
      then hold_system decision.reason leader
      else start_system request.0

  -- runSystemStepWithApproval, after the new step is saved.
  unfoldable pub decide_system : LeaderOutput → Bool → Act
  unfolding on_result build_system_request decide
  decide_system leader approval_granted r =
      on_result (build_system_request w.working_dir r.service.workspace_root r.job leader)
        (λ e. fail_job w.env ("invalid system action: " ^^ e)) (decide leader approval_granted) r

  -- runSystemStepWithApproval.
  unfoldable pub run_system_step_with_approval : LeaderOutput → Bool → Act
  unfolding begin_step decide_system
  run_system_step_with_approval leader approval_granted =
      begin_step w "system_requested" leader >> decide_system leader approval_granted

  -- The message that an approval stands for.
  abbrev pub approved_leader : PendingApproval → LeaderOutput
  approved_leader pending = record {
    action = "run_system";
    target = pending.target;
    task_type = pending.task_type;
    task_text = pending.task_text;
    artifacts = [];
    reason = "";
    next_hint = "";
    system_action = pending.system_action;
    tasks = [];
  }

  -- Approve up to the system step.
  unfoldable pub approved : PendingApproval → Act
  unfolding run_system_step_with_approval
  approved pending =
      let text = "operator approved step " ^^ itoa pending.step_index in
      modify (λ job. record job {
        pending_approval = none;
        blocked_reason = "";
        failure_reason = "";
        status = JobStatus.running;
        leader_context_summary = text;
      })
      >> add_event "job_approved" text
      >> touch
      >> save w.env
      >> run_system_step_with_approval (approved_leader pending) true

  stop_or_go : Run × Option String → Service × Reply
  stop_or_go (r, none) =
      if is_stopped r.job.status then (r.service, replied r.job none) else handed_on (r, none)
  stop_or_go (r, some e) = handed_on (r, some e)

  -- Approve.
  unfoldable pub approve : String → Service → Service × Reply
  unfolding approved stop_or_go
  approve id s = with_job w.env id s λ job. elim job.pending_approval [
    | none ↦ (s, replied job (some "no pending approval for job"))
    | some pending ↦ stop_or_go (approved pending (record { service = s; job = job }))
  ]
