-- ===== src/Examples/Samples.antt =====
-- The jobs, the steps and the answers of the system that the examples share.
use gorchera.Base.{ℕ, String, false, true, [], ◌∷◌, none}
use gorchera.Domain.{
  Job, JobConfig, JobStatus, JobChain, ChainStatus, ChainGoal, ChainGoalStatus, Step, StepStatus,
  SprintContract,
}
use gorchera.Domain.Roles.{default_role_profiles}
use gorchera.Evaluator.{VerificationContract}
use gorchera.Service.{Env, Service, Run}

abbrev pub step : ℕ → String → StepStatus → Step
step n kind status = record {
  index = n;
  target = "B";
  task_type = kind;
  task_text = "write the parser";
  status = status;
  summary = "";
  diff_summary = "";
  artifacts = [];
  changed_files = [];
  blocked_reason = "";
  error_reason = "";
  structured_reason = none;
  started_at = 5;
  finished_at = 0;
}

abbrev pub config : String → JobConfig
config chain = record {
  id = "job-1";
  goal = "a parser";
  tech_stack = "go";
  workspace_dir = "/w";
  requested_workspace_dir = "/w";
  workspace_mode = "shared";
  done_criteria = [];
  pipeline_mode = "balanced";
  ambition_level = "medium";
  ambition_text = "";
  context_mode = "full";
  role_profiles = default_role_profiles "mock";
  role_overrides = [];
  prompt_overrides = [];
  pre_build_commands = [];
  engine_build_cmd = "";
  engine_test_cmd = "";
  skip_planning = false;
  skip_leader = false;
  max_eval_retries = 0;
  chain_id = chain;
  chain_goal_index = 0;
  provider = "mock";
  created_at = 1;
}

-- A running job of a chain with an implement step that has succeeded.
abbrev pub running : Job
running = record {
  config = config "chain-1";
  status = JobStatus.running;
  max_steps = 8;
  current_step = 1;
  retry_count = 0;
  resume_extra_steps_used = 0;
  strictness_level = "normal";
  constraints = [];
  planning_artifacts = [];
  sprint_contract_ref = "sprint.json";
  verification_contract = none;
  verification_contract_ref = "";
  evaluator_report_ref = "";
  chain_context = none;
  blocked_reason = "";
  failure_reason = "";
  pending_approval = none;
  summary = "";
  leader_context_summary = "";
  supervisor_directive = "";
  schema_retry_hint = "";
  pre_check_results = [];
  run_owner_id = "svc-1";
  run_heartbeat_at = 6;
  steps = step 1 "implement" StepStatus.succeeded ∷ [];
  events = [];
  updated_at = 6;
}

-- The same job, stopped at its limit with 15 of the 20 extra steps used.
abbrev pub at_limit : Job
at_limit = record running {
  status = JobStatus.blocked;
  blocked_reason = "max_steps_exceeded";
  resume_extra_steps_used = 15;
}

abbrev pub goal : ChainGoal
goal = record {
  goal = "a parser";
  provider = "mock";
  pipeline_mode = "balanced";
  strictness_level = "normal";
  ambition_level = "medium";
  ambition_text = "";
  context_mode = "full";
  max_steps = 8;
  role_overrides = [];
  prompt_overrides = [];
  pre_build_commands = [];
  engine_build_cmd = "";
  engine_test_cmd = "";
  job_id = "job-1";
  status = ChainGoalStatus.running;
}

abbrev pub chain : JobChain
chain = record {
  id = "chain-1";
  goals = goal ∷ goal ∷ [];
  current_index = 0;
  status = ChainStatus.running;
  created_at = 1;
  updated_at = 1;
}

abbrev pub service : Service
service = record {
  instance_id = "svc-1";
  workspace_root = "/w";
  now = 9;
  jobs = [];
  chains = ("chain-1", chain) ∷ [];
  leases = [];
  job_cache = [];
  event_chan = [];
  background = [];
  bg_closed = false;
  writes = 3;
  turn = 0;
  ran = [];
  running_jobs = [];
  removals = λ n. true;
}

-- Every write succeeds, and no message is the JSON of a reason.
abbrev pub env : Env
env = record { write_error = λ n. none; missing_file = λ id. id; decode_reason = λ message. none }

abbrev pub run : Job → Run
run job = record { service = service; job = job }

abbrev pub sprint : SprintContract
sprint = record {
  version = 1;
  goal = "a parser";
  required_step_types = "implement" ∷ [];
  acceptance_criteria = [];
  blocking_criteria = [];
  threshold_success_count = 1;
  threshold_min_steps = 1;
  threshold_require_eval = false;
  strictness_level = "normal";
}

-- One axis, which asks for a score of at least 7.
abbrev pub contract : VerificationContract
contract = record {
  version = 1;
  goal = "a parser";
  summary = "";
  sprint_contract_ref = "";
  planning_artifact_refs = [];
  required_step_types = "implement" ∷ [];
  acceptance_criteria = [];
  engine_instructions = [];
  evaluator_criteria = [];
  rubric_axes = record { name = "quality"; weight = 1; min_threshold = 7 } ∷ [];
}
