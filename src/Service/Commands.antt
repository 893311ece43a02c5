-- ===== src/Service/Commands.antt =====
-- internal/orchestrator/service.go: what an operator may do to a job. A command that ends in
-- `return s.runLoop(ctx, job)` hands the job on, which is the reply `runs`.
use gorchera.Base.{
  ℕ, suc, ◌+◌, ◌-◌, ltb, ◌==◌, String, Bool, true, false, ◌||◌, not, Option, none, some,
  if◌then◌else◌,
}
use gorchera.Base.Text.{◌is◌, ◌isn't◌, ◌^^◌, trim_space, itoa}
use gorchera.Base.Result.{ok, err}
use gorchera.Domain.{Job, JobStatus}
use gorchera.Service.State.{
  Env, Service, Run, Act, ◌>>◌, done, fail_with, modify, add_event, touch, clear_job_runtime_state,
  cache_update, save, load_job,
}
use gorchera.Service.Stop.{handle_chain_terminal_state}

-- `replied` is the job with the error, if there is one; `refused` an error with no job.
pub data Reply : Type 0 where
  replied : Job → Option String → Reply
  refused : String → Reply
  runs : Job → Reply

abbrev pub max_resume_extra_steps : ℕ
max_resume_extra_steps = 20

abbrev pub status_text : JobStatus → String
status_text JobStatus.queued = "queued"
status_text JobStatus.starting = "starting"
status_text JobStatus.planning = "planning"
status_text JobStatus.running = "running"
status_text JobStatus.waiting_leader = "waiting_leader"
status_text JobStatus.waiting_worker = "waiting_worker"
status_text JobStatus.blocked = "blocked"
status_text JobStatus.failed = "failed"
status_text JobStatus.done = "done"

abbrev pub is_blocked : JobStatus → Bool
is_blocked JobStatus.blocked = true
is_blocked _ = false

abbrev pub is_failed : JobStatus → Bool
is_failed JobStatus.failed = true
is_failed _ = false

abbrev pub is_done : JobStatus → Bool
is_done JobStatus.done = true
is_done _ = false

-- The statuses that Steer accepts.
abbrev pub takes_directive : JobStatus → Bool
takes_directive JobStatus.planning = true
takes_directive JobStatus.running = true
takes_directive JobStatus.waiting_leader = true
takes_directive JobStatus.waiting_worker = true
takes_directive _ = false

unfoldable pub finished : Run × Option String → Service × Reply
finished (r, none) = (r.service, replied r.job none)
finished (r, some e) = (r.service, refused e)

unfoldable pub handed_on : Run × Option String → Service × Reply
handed_on (r, none) = (r.service, runs r.job)
handed_on (r, some e) = (r.service, refused e)

abbrev pub or_default : String → String → String
or_default text default = if trim_space text is "" then default else trim_space text

-- The cache takes the job as it is now.
unfoldable pub cache : Act
cache r = (record r { service = cache_update r.job r.service }, none)

module _ (env : Env) where
  -- `job, err := s.state.LoadJob(ctx, jobID)`, with what follows on the job.
  unfoldable pub with_job : String → Service → (Job → Service × Reply) → Service × Reply
  with_job id s k = elim (load_job env id s) [ err e ↦ (s, refused e) | ok job ↦ k job ]

  unfoldable pub cancelled : String → Act
  unfolding cache
  cancelled reason =
      let text = "cancelled by operator: " ^^ or_default reason "operator cancelled job" in
      modify (λ job. record job {
        status = JobStatus.blocked;
        blocked_reason = text;
        failure_reason = "";
        pending_approval = none;
        leader_context_summary = text;
      })
      >> clear_job_runtime_state
      >> add_event "job_cancelled" text
      >> touch
      >> save env
      >> cache
      >> handle_chain_terminal_state env

  -- Cancel.
  unfoldable pub cancel : String → String → Service → Service × Reply
  unfolding cancelled
  cancel id reason s = with_job id s λ job. elim (is_done job.status) [
    | true ↦ (s, replied job (some "cannot cancel completed job"))
    | false ↦ finished (cancelled reason (record { service = s; job = job }))
  ]

  retried : ℕ → Act
  retried count =
      let text = "retry #" ^^ itoa count ^^ " requested" in
      modify (λ job. record job {
        retry_count = count;
        status = JobStatus.running;
        blocked_reason = "";
        failure_reason = "";
        pending_approval = none;
        leader_context_summary = text;
      })
      >> add_event "job_retry_requested" text
      >> touch
      >> save env

  -- Retry.
  unfoldable pub retry : String → Service → Service × Reply
  unfolding retried
  retry id s = with_job id s λ job. elim (is_blocked job.status || is_failed job.status) [
    | false ↦ (s, replied job (some "retry is only allowed for blocked or failed jobs"))
    | true ↦ handed_on (retried (suc job.retry_count) (record { service = s; job = job }))
  ]

  rejected : String → Act
  rejected text =
      modify (λ job. record job {
        status = JobStatus.blocked;
        blocked_reason = text;
        failure_reason = "";
        leader_context_summary = text;
        pending_approval = none;
      })
      >> add_event "job_rejected" text
      >> touch
      >> save env
      >> handle_chain_terminal_state env

  -- Reject.
  unfoldable pub reject : String → String → Service → Service × Reply
  unfolding rejected
  reject id reason s = with_job id s λ job. elim job.pending_approval [
    | none ↦ (s, replied job (some "no pending approval for job"))
    | some pending ↦ finished (
        rejected (or_default reason "operator rejected pending approval")
          (record { service = s; job = job }))
  ]

  steered : String → Act
  steered message =
      modify (λ job. record job { supervisor_directive = "[SUPERVISOR] " ^^ trim_space message })
      >> add_event "supervisor_steer" message
      >> touch
      >> save env

  -- Steer.
  unfoldable pub steer : String → String → Service → Service × Reply
  unfolding steered
  steer id message s = with_job id s λ job. elim (takes_directive job.status) [
    | false ↦ (s, replied job (some ("cannot steer job with status " ^^ status_text job.status)))
    | true ↦ finished (steered message (record { service = s; job = job }))
  ]

  unfoldable pub extended : ℕ → ℕ → Act
  extended extra max =
      modify (λ job. record job {
        max_steps = job.max_steps + extra;
        resume_extra_steps_used = job.resume_extra_steps_used + extra;
        blocked_reason = "";
        failure_reason = "";
      })
      >> add_event "job_resume_extra_steps"
          ("extended max steps by " ^^ itoa extra ^^ " to " ^^ itoa max)
      >> touch
      >> save env

  -- applyResumeExtraSteps. The budget is compared as numbers that may be negative in the source:
  -- nothing remains where the used steps reach the limit.
  unfoldable pub apply_resume_extra_steps : ℕ → Act
  unfolding extended
  apply_resume_extra_steps extra r =
      let used = r.job.resume_extra_steps_used in
      let remaining = max_resume_extra_steps - used in
      if extra == 0
      then done r
      else if not (is_blocked r.job.status) || r.job.blocked_reason isn't "max_steps_exceeded"
      then fail_with "extra_steps is only valid when resuming a max_steps_exceeded blocked job" r
      else if not (ltb used max_resume_extra_steps)
      then fail_with "resume extra step budget exhausted" r
      else if ltb remaining extra
      then fail_with
          ("extra_steps exceeds remaining budget: requested="
            ^^ itoa extra
            ^^ " remaining="
            ^^ itoa remaining)
          r
      else extended extra (r.job.max_steps + extra) r

  -- ResumeWithOptions.
  unfoldable pub resume_with_options : String → ℕ → Service → Service × Reply
  resume_with_options id extra s = with_job id s λ job.
      elim (is_done job.status || is_failed job.status) [
        | true ↦ (s, replied job none)
        | false ↦ elim job.pending_approval [
          | some pending ↦ (
            s,
            replied job
                (some "job has a pending approval; use approve or reject instead of resume"),
          )
          | none ↦ handed_on (
              (apply_resume_extra_steps extra >> add_event "job_resumed" "job resumed")
                (record { service = s; job = job }))
        ]
      ]
