-- ===== src/Domain/Records.antt =====
-- internal/domain/types.go: the records. A slice is a list, a map an association list, a pointer
-- that may be nil an `Option`, a time a number with 0 for the zero time. A number that the program
-- only compares from above with 0 or a positive bound is a natural number: negative ones act as 0.
-- `Job` keeps the fields that the modelled code reads or writes, those that are fixed at creation
-- in `config`.
use gorchera.Base.{ℕ, String, Bool, List, Option}
use gorchera.Domain.Roles.{RoleProfiles}
use gorchera.Domain.Status.{JobStatus, StepStatus, ChainStatus, ChainGoalStatus}

pub record RoleOverride : Type 0 where
  pub provider : String
  pub model : String

pub record SystemAction : Type 0 where
  pub type : String
  pub command : String
  pub args : List String
  pub workdir : String
  pub description : String

pub record PendingApproval : Type 0 where
  pub step_index : ℕ
  pub reason : String
  pub requested_at : ℕ
  pub target : String
  pub task_type : String
  pub task_text : String
  pub system_action : Option SystemAction

pub record WorkerTask : Type 0 where
  pub target : String
  pub task_type : String
  pub task_text : String
  pub artifacts : List String
  pub reason : String
  pub next_hint : String

pub record LeaderOutput : Type 0 where
  pub action : String
  pub target : String
  pub task_type : String
  pub task_text : String
  pub artifacts : List String
  pub reason : String
  pub next_hint : String
  pub system_action : Option SystemAction
  pub tasks : List WorkerTask

pub record WorkerOutput : Type 0 where
  pub status : String
  pub summary : String
  pub artifacts : List String
  pub file_contents : List (String × String)
  pub blocked_reason : String
  pub error_reason : String
  pub next_recommended_action : String

pub record ChainGoal : Type 0 where
  pub goal : String
  pub provider : String
  pub pipeline_mode : String
  pub strictness_level : String
  pub ambition_level : String
  pub ambition_text : String
  pub context_mode : String
  pub max_steps : ℕ
  pub role_overrides : List (String × RoleOverride)
  pub prompt_overrides : List (String × String)
  pub pre_build_commands : List String
  pub engine_build_cmd : String
  pub engine_test_cmd : String
  pub job_id : String
  pub status : ChainGoalStatus

pub record JobChain : Type 0 where
  pub id : String
  pub goals : List ChainGoal
  pub current_index : ℕ
  pub status : ChainStatus
  pub created_at : ℕ
  pub updated_at : ℕ

pub record ChainContext : Type 0 where
  pub summary : String
  pub evaluator_report_ref : String

pub record SprintContract : Type 0 where
  pub version : ℕ
  pub goal : String
  pub required_step_types : List String
  pub acceptance_criteria : List String
  pub blocking_criteria : List String
  pub threshold_success_count : ℕ
  pub threshold_min_steps : ℕ
  pub threshold_require_eval : Bool
  pub strictness_level : String

-- A score or threshold is a finite double. The program compares and prints them: a number stands
-- for the double of that rank in the order of the finite doubles.
pub record RubricAxis : Type 0 where
  pub name : String
  pub weight : ℕ
  pub min_threshold : ℕ

pub record RubricScore : Type 0 where
  pub axis : String
  pub score : ℕ
  pub passed : Bool

pub record AutomatedCheckResult : Type 0 where
  pub description : String
  pub status : String
  pub detail : String

pub record AutomatedCheck : Type 0 where
  pub type : String
  pub pattern : String
  pub file : String
  pub path : String
  pub description : String

pub record ChangedFile : Type 0 where
  pub path : String
  pub action : String

pub record ContractOfJob : Type 0 where
  pub version : ℕ
  pub goal : String
  pub scope : List String
  pub required_commands : List String
  pub required_artifacts : List String
  pub required_checks : List String
  pub disallowed_actions : List String
  pub max_seconds : ℕ
  pub notes : String
  pub owner_role : String
  pub rubric_axes : List RubricAxis
  pub automated_checks : List AutomatedCheck

pub record PlanningArtifact : Type 0 where
  pub goal : String
  pub tech_stack : String
  pub workspace_dir : String
  pub summary : String
  pub product_scope : List String
  pub non_goals : List String
  pub proposed_steps : List String
  pub invariants_to_preserve : List String
  pub acceptance : List String
  pub success_signals : List String
  pub verification_contract : Option ContractOfJob
  pub recommended_strictness : String
  pub recommended_max_steps : ℕ

pub record VerificationReport : Type 0 where
  pub status : String
  pub passed : Bool
  pub reason : String
  pub evidence : List String
  pub missing_checks : List String
  pub artifacts : List String
  pub contract_ref : String

pub record EvaluatorReport : Type 0 where
  pub status : String
  pub passed : Bool
  pub score : ℕ
  pub reason : String
  pub missing_step_types : List String
  pub evidence : List String
  pub contract_ref : String
  pub rubric_scores : List RubricScore

pub record Event : Type 0 where
  pub time : ℕ
  pub kind : String
  pub message : String

pub record StructuredReason : Type 0 where
  pub category : String
  pub detail : String
  pub suggested_action : String

pub record Step : Type 0 where
  pub index : ℕ
  pub target : String
  pub task_type : String
  pub task_text : String
  pub status : StepStatus
  pub summary : String
  pub diff_summary : String
  pub artifacts : List String
  pub changed_files : List ChangedFile
  pub blocked_reason : String
  pub error_reason : String
  pub structured_reason : Option StructuredReason
  pub started_at : ℕ
  pub finished_at : ℕ

pub record JobConfig : Type 0 where
  pub id : String
  pub goal : String
  pub tech_stack : String
  pub workspace_dir : String
  pub requested_workspace_dir : String
  pub workspace_mode : String
  pub done_criteria : List String
  pub pipeline_mode : String
  pub ambition_level : String
  pub ambition_text : String
  pub context_mode : String
  pub role_profiles : RoleProfiles
  pub role_overrides : List (String × RoleOverride)
  pub prompt_overrides : List (String × String)
  pub pre_build_commands : List String
  pub engine_build_cmd : String
  pub engine_test_cmd : String
  pub skip_planning : Bool
  pub skip_leader : Bool
  pub max_eval_retries : ℕ
  pub chain_id : String
  pub chain_goal_index : ℕ
  pub provider : String
  pub created_at : ℕ

pub record Job : Type 0 where
  pub config : JobConfig
  pub open config use *
  pub status : JobStatus
  pub max_steps : ℕ
  pub current_step : ℕ
  pub retry_count : ℕ
  pub resume_extra_steps_used : ℕ
  pub strictness_level : String
  pub constraints : List String
  pub planning_artifacts : List String
  pub sprint_contract_ref : String
  pub verification_contract : Option ContractOfJob
  pub verification_contract_ref : String
  pub evaluator_report_ref : String
  pub chain_context : Option ChainContext
  pub blocked_reason : String
  pub failure_reason : String
  pub pending_approval : Option PendingApproval
  pub summary : String
  pub leader_context_summary : String
  pub supervisor_directive : String
  pub schema_retry_hint : String
  pub pre_check_results : List AutomatedCheckResult
  pub run_owner_id : String
  pub run_heartbeat_at : ℕ
  pub steps : List Step
  pub events : List Event
  pub updated_at : ℕ
