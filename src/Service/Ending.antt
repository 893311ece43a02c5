-- ===== src/Service/Ending.antt =====
-- internal/orchestrator/service.go: the end that failing and blocking a job share, in memory and on
-- disk.
use gorchera.Base.{
  ℕ, ◌≡◌, refl, ap, ◌∙◌, String, Option, none, some, false, ◌∷◌, [], ◌++◌, if◌then◌else◌, arith,
}
use gorchera.Domain.{Job, JobStatus, Event, is_recoverable_job_status}
use gorchera.Service.State.{
  Env, Run, Act, Service, ◌>>◌, add_event, event_at, touched, touch, clear_job_runtime_state, save,
  resume_with, cache_update, notify,
}
use gorchera.Service.Stop.{fail_job, handle_chain_terminal_state}

-- The job with one more event.
abbrev pub with_event : Event → Job → Job
with_event e job = record job { events = job.events ++ e ∷ [] }

pub after_state-job : (env : Env) (r : Run) → (handle_chain_terminal_state env r).0.job ≡ r.job
unfolding handle_chain_terminal_state
after_state-job env r = ground arith

-- A step after which the job is as before.
abbrev pub KeepsJob : Act → Type 0
KeepsJob k = (r : Run) → (k r).0.job ≡ r.job

-- A part of the service that the events, the times and the lease of a job leave as it is.
ambient : Service → ℕ × String
ambient s = (s.now, s.instance_id)

pub resume_with-job :
    (k : Act) → KeepsJob k → (x : Run × Option String) → (resume_with k x).0.job ≡ x.0.job
unfolding resume_with
resume_with-job k h (r, none) = h r
resume_with-job k h (r, some e) = refl

save-KeepsJob : (env : Env) → KeepsJob (save env)
unfolding save
save-KeepsJob env r = refl

clear_job_runtime_state-ambient :
    (r : Run) → ambient (clear_job_runtime_state r).0.service ≡ ambient r.service
unfolding clear_job_runtime_state ambient
clear_job_runtime_state-ambient r = ground arith

add_event-ambient :
    (kind message : String) (r : Run)
    → ambient (add_event kind message r).0.service ≡ ambient r.service
unfolding add_event cache_update notify ambient
add_event-ambient kind message r = ground arith

touched-ambient :
    (s t : Service) (job : Job) → ambient s ≡ ambient t → touched s job ≡ touched t job
unfolding touched ambient
touched-ambient s t job h =
    ap
      (λ p.
        if is_recoverable_job_status job.status
        then record job { updated_at = p.0; run_owner_id = p.1; run_heartbeat_at = p.0 }
        else record job { updated_at = p.0; run_owner_id = ""; run_heartbeat_at = 0 })
      h

event_at-ambient :
    (s t : Service) (kind message : String)
    → ambient s ≡ ambient t
    → event_at s.now kind message ≡ event_at t.now kind message
unfolding ambient
event_at-ambient s t kind message h = ap (λ p. event_at p.0 kind message) h

-- The end that failing and blocking a job share.
unfoldable pub ending : Env → String → String → Act
ending env kind message =
    clear_job_runtime_state
    >> add_event kind message
    >> touch
    >> save env
    >> handle_chain_terminal_state env

-- The job after it.
abbrev pub ended : Service → String → String → Job → Job
ended s kind message job = record job {
  run_owner_id = "";
  run_heartbeat_at = 0;
  updated_at = s.now;
  events = job.events ++ record { time = s.now; kind = kind; message = message } ∷ [];
}

touched-ended :
    (s : Service) (kind message : String) (job : Job)
    → is_recoverable_job_status job.status ≡ false
    → touched s (
        with_event
          (event_at s.now kind message)
          (record job { run_owner_id = ""; run_heartbeat_at = 0 }))
      ≡ ended s kind message job
unfolding touched event_at
touched-ended s kind message job h = rw h refl

-- The job is ended once its lease, its last event and its time are set, where its status is none that
-- can be recovered.
pub ready-job :
    (kind message : String) (r : Run)
    → is_recoverable_job_status r.job.status ≡ false
    → ((clear_job_runtime_state >> add_event kind message >> touch) r).0.job
      ≡ ended r.service kind message r.job
unfolding add_event touch clear_job_runtime_state resume_with
ready-job kind message r stopped =
    let cleared = (clear_job_runtime_state r).0 in
    let told = (add_event kind message cleared).0 in
    touched-ambient told.service r.service told.job
      (add_event-ambient kind message cleared ∙ clear_job_runtime_state-ambient r)
    ∙ ap (λ e. touched r.service (with_event e cleared.job))
        (event_at-ambient cleared.service r.service kind message
          (clear_job_runtime_state-ambient r))
    ∙ touched-ended r.service kind message r.job stopped

pub ending-job :
    (env : Env) (kind message : String) (r : Run)
    → is_recoverable_job_status r.job.status ≡ false
    → (ending env kind message r).0.job ≡ ended r.service kind message r.job
unfolding ending add_event touch clear_job_runtime_state save resume_with
ending-job env kind message r stopped =
    resume_with-job (handle_chain_terminal_state env) (after_state-job env)
      (save env ((clear_job_runtime_state >> add_event kind message >> touch) r).0)
    ∙ ready-job kind message r stopped

-- failJob, whatever the store answers: the job is failed with the reason, its owner and heartbeat are
-- gone, and the last event tells the reason.
pub fail_job-job :
    (env : Env) (reason : String) (r : Run)
    → (fail_job env reason r).0.job
      ≡ ended r.service "job_failed" reason
          (record r.job { status = JobStatus.failed; failure_reason = reason })
unfolding fail_job ending resume_with clear_job_runtime_state
fail_job-job env reason r =
    ending-job env "job_failed" reason
      (record r { job = record r.job { status = JobStatus.failed; failure_reason = reason } }) refl
