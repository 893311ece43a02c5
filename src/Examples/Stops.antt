-- ===== src/Examples/Stops.antt =====
-- A job of a chain that is blocked with one reason, and the extra steps of one at its limit.
use gorchera.Base.{
  [], suc, ◌+◌, ◌≡◌, ◌≢◌, ◌≤◌, ◌⊎◌, refl, ltb, leb, String, true, false, Option, none, some,
  if◌then◌else◌, arith,
}
use gorchera.Base.Text.{◌^^◌, is_blank}
use gorchera.Base.Dict.{get, String_eq}
use gorchera.Base.Result.{ok}
use gorchera.Loop.{adopt_recommendation}
use gorchera.Domain.{PlanningArtifact, Job, JobChain, JobStatus, StructuredReason}
use gorchera.Service.{
  validate_id, load_chain, stored, fail_job, block_job_with_event, block_worker,
  blocked_event_reason, blocked_reason_strike_count, sanitize_leader_context,
  apply_resume_extra_steps, max_resume_extra_steps,
}
use gorchera.Service.Ending.{ended, fail_job-job}
use gorchera.Service.Saved.{IsFailedAt, block_job_with_event-saved, fail_job-chain}
use gorchera.Service.Strikes.{
  repeated, blocked_reason_strike_count-repeated, block_job_with_event-job, block_worker-twice,
}
use gorchera.Service.Budget.{
  IsGranted, apply_resume_extra_steps-cases, created, planned, resumed, Life-budget,
}
use gorchera.Examples.Samples.{env, run, running, at_limit, chain, service}

blocked_reason_strike_count-repeated_example :
    blocked_reason_strike_count env running "no access" ≡ suc (repeated env running "no access")
blocked_reason_strike_count-repeated_example =
    blocked_reason_strike_count-repeated env running "no access"

fail_job-job_example :
    (fail_job env "no provider" (run running)).0.job
    ≡ ended service "job_failed" "no provider"
        (record running { status = JobStatus.failed; failure_reason = "no provider" })
fail_job-job_example = fail_job-job env "no provider" (run running)

block_job_with_event-job_example :
    (block_job_with_event env "job_blocked" "no access" (run running)).0.job ≡ (
      if leb 2 (repeated env running "no access")
      then ended service "job_failed"
          ("blocked reason repeated 3 times: " ^^ "no access")
          (record running {
            status = JobStatus.failed;
            failure_reason = "blocked reason repeated 3 times: " ^^ "no access";
            pending_approval = none;
            blocked_reason = "";
          })
      else ended service "job_blocked" "no access" (record running {
        status = JobStatus.blocked;
        blocked_reason = "no access";
        failure_reason = "";
        leader_context_summary = sanitize_leader_context "no access";
      }))
block_job_with_event-job_example =
    block_job_with_event-job env "job_blocked" "no access" (run running)

-- A message that is no JSON is its own reason.
abbrev encode : String → Option StructuredReason → String
encode reason structured = reason

read_back : blocked_event_reason env "no access" ≡ "no access"
unfolding blocked_event_reason
read_back = refl

block_worker-twice_example :
    ((block_worker env encode "no access" none (run running)).0.job.status ≡ (
      if leb 2 (blocked_reason_strike_count env running "no access")
      then JobStatus.failed
      else JobStatus.blocked))
    × (ltb (blocked_reason_strike_count env running "no access") 2 ≡ true
        → blocked_reason_strike_count env
            (block_worker env encode "no access" none (run running)).0.job
            "no access"
          ≡ 2 + blocked_reason_strike_count env running "no access")
block_worker-twice_example =
    block_worker-twice env encode none (run running) "no access" read_back read_back

valid_job : validate_id "job-1" ≡ none
unfolding validate_id
valid_job = refl

valid_chain : validate_id "chain-1" ≡ none
unfolding validate_id
valid_chain = refl

loaded : load_chain env "chain-1" service ≡ ok chain
unfolding load_chain validate_id get
loaded = refl

named : is_blank "chain-1" ≡ false
unfolding is_blank
named = refl

block_job_with_event-saved_example :
    get "job-1" (block_job_with_event env "job_blocked" "no access" (run running)).0.service.jobs
    ≡ some (stored (block_job_with_event env "job_blocked" "no access" (run running)).0.job)
block_job_with_event-saved_example =
    block_job_with_event-saved env "job_blocked" "no access" (run running) valid_job refl

fail_job-chain_example :
    (c : JobChain) × (get "chain-1" (fail_job env "no provider" (run running)).0.service.chains
      ≡ some c)
    × IsFailedAt 0 chain c
fail_job-chain_example =
    fail_job-chain env "no provider" (run running) chain valid_job refl refl named loaded refl
      valid_chain

apply_resume_extra_steps-cases_example :
    (IsGranted 5 at_limit
      × ((apply_resume_extra_steps env 5 (run at_limit)).0.job.max_steps ≡ 8 + 5)
      × ((apply_resume_extra_steps env 5 (run at_limit)).0.job.resume_extra_steps_used ≡ 15 + 5))
    ⊎ (¬ IsGranted 5 at_limit
        × ((apply_resume_extra_steps env 5 (run at_limit)).0 ≡ run at_limit)
        × ((apply_resume_extra_steps env 5 (run at_limit)).1 ≢ none))
apply_resume_extra_steps-cases_example =
    apply_resume_extra_steps-cases env 5 (run at_limit) (omega arith)

abbrev fresh : Job
fresh = record at_limit { resume_extra_steps_used = 0 }

-- The planner recommends 30 steps.
abbrev plan : PlanningArtifact
plan = record {
  goal = "a parser";
  tech_stack = "go";
  workspace_dir = "/w";
  summary = "";
  product_scope = [];
  non_goals = [];
  proposed_steps = [];
  invariants_to_preserve = [];
  acceptance = [];
  success_signals = [];
  verification_contract = none;
  recommended_strictness = "strict";
  recommended_max_steps = 30;
}

abbrev adopted : Job
adopted = adopt_recommendation plan (record fresh { strictness_level = "auto" })

abbrev extended_once : Job
extended_once =
    (apply_resume_extra_steps env 12 (record { service = service; job = adopted })).0.job

Life-budget_example :
    (extended_once.max_steps + 0 ≡ adopted.max_steps + extended_once.resume_extra_steps_used)
    × (extended_once.resume_extra_steps_used ≤ max_resume_extra_steps)
Life-budget_example = Life-budget env adopted.max_steps 0 extended_once (
    resumed adopted.max_steps 0 adopted service 12 (
      planned 8 0 (record fresh { strictness_level = "auto" }) plan
        (created (record fresh { strictness_level = "auto" }) refl)))
