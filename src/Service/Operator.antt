-- ===== src/Service/Operator.antt =====
-- internal/orchestrator/service.go: what an operator's cancellation leaves of a job.
use gorchera.Base.{
  ℕ, ◌≡◌, refl, ◌∙◌, ◌⊎◌, inl, inr, ◌||◌, Bool-cases, Option-cases, String, false, Option, none,
  some, arith,
}
use gorchera.Base.Text.{◌^^◌}
use gorchera.Base.Result.{Result, ok, err}
use gorchera.Domain.{Job, JobStatus}
use gorchera.Service.State.{
  Env, Run, Act, Service, ◌>>◌, add_event, touch, clear_job_runtime_state, save, resume_with,
  load_job,
}
use gorchera.Service.Stop.{handle_chain_terminal_state}
use gorchera.Service.Commands.{
  replied, runs, handed_on, resume_with_options, apply_resume_extra_steps, is_failed, cancel,
  cancelled, cache, finished, with_job, or_default, is_done,
}
use gorchera.Service.Ending.{ended, ready-job, resume_with-job, after_state-job}
use gorchera.Service.Budget.{IsGranted, zero_or_more, apply_resume_extra_steps-cases}

-- The text of a cancellation.
abbrev pub cancel_text : String → String
cancel_text reason = "cancelled by operator: " ^^ or_default reason "operator cancelled job"

-- The job that a cancellation leaves.
abbrev pub cancelled_job : String → Service → Job → Job
cancelled_job text s job = ended s "job_cancelled" text (record job {
  status = JobStatus.blocked;
  blocked_reason = text;
  failure_reason = "";
  pending_approval = none;
  leader_context_summary = text;
})

cancelled-job :
    (env : Env) (reason : String) (r : Run)
    → (cancelled env reason r).0.job ≡ cancelled_job (cancel_text reason) r.service r.job
unfolding cancelled cache add_event touch clear_job_runtime_state save resume_with
cancelled-job env reason r =
    let text = cancel_text reason in
    let r' : Run = record r {
      job = record r.job {
        status = JobStatus.blocked;
        blocked_reason = text;
        failure_reason = "";
        pending_approval = none;
        leader_context_summary = text;
      };
    } in
    let ready = ((clear_job_runtime_state >> add_event "job_cancelled" text >> touch) r').0 in
    resume_with-job (handle_chain_terminal_state env) (after_state-job env)
      (resume_with cache (save env ready))
    ∙ resume_with-job cache (λ x. refl) (save env ready)
    ∙ ready-job "job_cancelled" text r' refl

finished-job : (x : Run × Option String) (j : Job) → (finished x).1 ≡ replied j none → j ≡ x.0.job
unfolding finished
finished-job (r, none) j h = ground (arith, h)
finished-job (r, some e) j h = ground (arith, h)

-- Cancel of a job that is not done: where it answers with no error, the job that it answers with is
-- blocked with the reason, waits for no approval, has no owner and tells of the cancellation last.
-- This holds for a job that has failed, too.
pub cancel-job :
    (env : Env) (id reason : String) (s : Service) (job j : Job)
    → load_job env id s ≡ ok job
    → is_done job.status ≡ false
    → (cancel env id reason s).1 ≡ replied j none
    → j ≡ cancelled_job (cancel_text reason) s job
unfolding cancel with_job
cancel-job env id reason s job j l d h =
    let start : Run = record { service = s; job = job } in
    finished-job (cancelled env reason start) j (ground (arith, l, d, h))
    ∙ cancelled-job env reason start

-- Why a job may be handed to the run loop.
pub record IsResumable (extra : ℕ) (job : Job) : Type 0 where
  pub not_done : is_done job.status ≡ false
  pub not_failed : is_failed job.status ≡ false
  pub no_approval : job.pending_approval ≡ none
  pub steps : (extra ≡ 0) ⊎ IsGranted extra job

handed_on-runs :
    (k : Act) (x : Run × Option String) (j : Job)
    → (handed_on (resume_with k x)).1 ≡ runs j
    → x.1 ≡ none
unfolding handed_on resume_with
handed_on-runs k (r, none) j h = refl
handed_on-runs k (r, some e) j h = ground (arith, h)

load_cases : (x : Result Job) → ((e : String) × (x ≡ err e)) ⊎ ((job : Job) × (x ≡ ok job))
load_cases (err e) = inl (e, refl)
load_cases (ok job) = inr (job, refl)

IsGranted-of_none :
    (env : Env) (extra : ℕ) (r : Run)
    → (apply_resume_extra_steps env extra r).1 ≡ none
    → (extra ≡ 0) ⊎ IsGranted extra r.job
IsGranted-of_none env extra r h = elim (zero_or_more extra) [
  | inl zero ↦ inl zero
  | inr some_asked ↦ elim (apply_resume_extra_steps-cases env extra r some_asked) [
    | inl (g, m, u) ↦ inr g
    | inr (g, same, e) ↦ absurd (e h)
  ]
]

-- ResumeWithOptions hands a job to the run loop only where the stored job is neither done nor failed,
-- waits for no approval, and asks for no extra steps or for steps that it is granted.
pub resume_with_options-runs :
    (env : Env) (id : String) (extra : ℕ) (s : Service) (j : Job)
    → (resume_with_options env id extra s).1 ≡ runs j
    → (job : Job) × (load_job env id s ≡ ok job) × IsResumable extra job
unfolding resume_with_options with_job
resume_with_options-runs env id extra s j h = elim (load_cases (load_job env id s)) [
  | inl (e, l) ↦ absurd (ground (arith, l, h))
  | inr (job, l) ↦ elim (Bool-cases (is_done job.status || is_failed job.status)) [
    | inl stopped ↦ absurd (ground (arith, l, stopped, h))
    | inr live ↦ elim (Option-cases job.pending_approval) [
      | inr (pending, p) ↦ absurd (ground (arith, l, live, p, h))
      | inl p ↦
          let start : Run = record { service = s; job = job } in
          let begun =
            handed_on-runs (add_event "job_resumed" "job resumed")
              (apply_resume_extra_steps env extra start) j (ground (arith, l, live, p, h)) in
          (
            job,
            l,
            record {
              not_done = ground (arith, live);
              not_failed = ground (arith, live);
              no_approval = p;
              steps = IsGranted-of_none env extra start begun;
            },
          )
    ]
  ]
]
