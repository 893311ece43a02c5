-- ===== src/Examples/Commands.antt =====
-- An operator cancels a running job, resumes one at its limit and cancels a chain.
use gorchera.Base.{◌≡◌, refl, [], ◌∷◌, none}
use gorchera.Base.Text.{is_blank}
use gorchera.Base.Dict.{get, String_eq}
use gorchera.Base.Result.{ok}
use gorchera.Domain.{Job}
use gorchera.Service.{
  Service, replied, runs, load_job, validate_id, cancel, cancelled, finished, with_job,
  resume_with_options, resume_with, apply_resume_extra_steps, extended, handed_on, add_event, touch,
  clear_job_runtime_state, save, save_job, write_file, handle_chain_terminal_state, load_chain,
  save_chain, cache,
}
use gorchera.Service.Operator.{
  IsResumable, cancelled_job, cancel_text, cancel-job, resume_with_options-runs,
}
use gorchera.Examples.Samples.{env, service, running, at_limit}

abbrev holding : Job → Service
holding job = record service { jobs = ("job-1", job) ∷ [] }

loaded_running : load_job env "job-1" (holding running) ≡ ok running
unfolding load_job validate_id get
loaded_running = refl

-- The job that the cancellation answers with.
abbrev after : Job
after = (cancelled env "" (record { service = holding running; job = running })).0.job

answer : (cancel env "job-1" "" (holding running)).1 ≡ replied after none
unfolding cancel with_job load_job validate_id get finished cancelled resume_with
    clear_job_runtime_state add_event touch save save_job write_file cache
    handle_chain_terminal_state load_chain save_chain is_blank
answer = refl

cancel-job_example : after ≡ cancelled_job (cancel_text "") (holding running) running
cancel-job_example =
    cancel-job env "job-1" "" (holding running) running after loaded_running refl answer

-- The job that is handed on with five more steps.
abbrev longer : Job
longer =
    (resume_with (add_event "job_resumed" "job resumed") (
      apply_resume_extra_steps env 5 (record { service = holding at_limit; job = at_limit }))).0.job

handed : (resume_with_options env "job-1" 5 (holding at_limit)).1 ≡ runs longer
unfolding resume_with_options with_job load_job validate_id get handed_on resume_with
    apply_resume_extra_steps extended add_event touch save save_job write_file is_blank
handed = refl

resume_with_options-runs_example :
    (job : Job) × (load_job env "job-1" (holding at_limit) ≡ ok job) × IsResumable 5 job
resume_with_options-runs_example =
    resume_with_options-runs env "job-1" 5 (holding at_limit) longer handed
