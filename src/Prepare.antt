-- ===== src/Prepare.antt =====
-- internal/orchestrator/service.go and workspace.go: a job is prepared from what it is created with,
-- and handed to a run loop of its own.
use gorchera.Base.{
  ℕ, ◌==◌, String, Bool, true, false, ◌&&◌, ◌||◌, not, List, [], ◌∷◌, Option, none, some,
  if◌then◌else◌,
}
use gorchera.Base.Text.{◌is◌, ◌^^◌, trim_space, fold_key, first_non_empty}
use gorchera.Base.Dict.{get, put, String_eq}
use gorchera.Base.Result.{Result, ok, ◌>>=◌, ◌>>◌}
use gorchera.Domain.{Job, JobStatus, RoleOverride}
use gorchera.Domain.Roles.{RoleProfiles, normalize}
use gorchera.Domain.Levels.{
  normalize_pipeline_mode, normalize_ambition_level, normalize_strictness_level,
  normalize_context_mode,
}
use gorchera.Service.{Env, Service, Run, Act, add_event, touch, save, fail_with}
use gorchera.Service

pub record CreateJobInput : Type 0 where
  pub goal : String
  pub tech_stack : String
  pub workspace_dir : String
  pub workspace_mode : String
  pub constraints : List String
  pub done_criteria : List String
  pub provider : String
  pub role_profiles : RoleProfiles
  pub role_overrides : List (String × RoleOverride)
  pub max_steps : ℕ
  pub pipeline_mode : String
  pub strictness_level : String
  pub ambition_level : String
  pub ambition_text : String
  pub context_mode : String
  pub pre_build_commands : List String
  pub engine_build_cmd : String
  pub engine_test_cmd : String
  pub prompt_overrides : List (String × String)
  pub skip_planning : Bool
  pub skip_leader : Bool
  pub max_eval_retries : ℕ
  pub chain_id : String
  pub chain_goal_index : ℕ

-- The id that a time is printed as, the error of ValidateWorkspaceDir, which looks at the disk, and
-- the directory that git makes for a job.
pub record Site : Type 0 where
  pub new_job_id : ℕ → String
  pub new_chain_id : ℕ → String
  pub invalid_dir : String → Option String
  pub worktree : String → String → Result String

-- normalizeWorkspaceMode.
unfoldable pub normalize_workspace_mode : String → String
unfolding fold_key
normalize_workspace_mode mode = if fold_key mode is "isolated" then "isolated" else "shared"

-- The override without blanks around it, unless it says nothing.
abbrev add_role_override :
    String → RoleOverride → List (String × RoleOverride) → List (String × RoleOverride)
add_role_override key value out =
    let value' : RoleOverride = record {
      provider = trim_space value.provider;
      model = trim_space value.model;
    } in
    if fold_key key is "" || value'.provider is "" && value'.model is ""
    then out
    else put (fold_key key) value' out

-- The loop over the overrides, with those kept so far.
role_overrides_from :
    List (String × RoleOverride) → List (String × RoleOverride) → List (String × RoleOverride)
role_overrides_from out [] = out
role_overrides_from out ((key, value) ∷ rest) =
    role_overrides_from (add_role_override key value out) rest

-- The director's override for a role that has none.
abbrev inherit : String → RoleOverride → List (String × RoleOverride) → List (String × RoleOverride)
inherit role director out = elim (get role out) [ some own ↦ out | none ↦ put role director out ]

-- canonicalizeRoleOverrides; keys that are the same without blanks and case are taken in order.
unfoldable pub canonicalize_role_overrides :
    List (String × RoleOverride) → List (String × RoleOverride)
unfolding role_overrides_from
canonicalize_role_overrides overrides =
    let out = role_overrides_from [] overrides in
    elim (get "director" out) [
      | none ↦ out
      | some director ↦ inherit "leader" director (inherit "planner" director out)
    ]

prompt_overrides_from : List (String × String) → List (String × String) → List (String × String)
prompt_overrides_from out [] = out
prompt_overrides_from out ((key, value) ∷ rest) =
    prompt_overrides_from
      (if fold_key key is "" || trim_space value is ""
        then out
        else put (fold_key key) (trim_space value) out)
      rest

-- canonicalizePromptOverrides.
unfoldable pub canonicalize_prompt_overrides : List (String × String) → List (String × String)
unfolding prompt_overrides_from
canonicalize_prompt_overrides = prompt_overrides_from []

-- The workspace of a job: its directory, the one that was asked for, and the mode.
pub record Workspace : Type 0 where
  pub dir : String
  pub requested : String
  pub mode : String

module _ (site : Site) where
  -- prepareWorkspaceDir.
  unfoldable pub prepare_workspace_dir : String → String → String → String → Result Workspace
  unfolding normalize_workspace_mode
  prepare_workspace_dir root requested id mode =
      let source = first_non_empty (trim_space requested ∷ root ∷ []) in
      let kind = normalize_workspace_mode mode in
      site.invalid_dir source
      >> (if not (kind is "isolated")
          then ok (record { dir = source; requested = source; mode = kind })
          else site.worktree source id >>= λ dir.
              site.invalid_dir dir >> ok (record { dir = dir; requested = source; mode = kind }))

  -- The job that prepareJob builds.
  unfoldable pub created_job : CreateJobInput → ℕ → Workspace → Job
  unfolding canonicalize_role_overrides canonicalize_prompt_overrides
  created_job input now workspace =
      let provider = if input.provider is "" then "mock" else input.provider in
      record {
        config = record {
          id = site.new_job_id now;
          goal = trim_space input.goal;
          tech_stack = trim_space input.tech_stack;
          workspace_dir = workspace.dir;
          requested_workspace_dir = workspace.requested;
          workspace_mode = workspace.mode;
          done_criteria = input.done_criteria;
          pipeline_mode = normalize_pipeline_mode input.pipeline_mode;
          ambition_level = normalize_ambition_level input.ambition_level;
          ambition_text = trim_space input.ambition_text;
          context_mode = normalize_context_mode input.context_mode;
          role_profiles = normalize input.role_profiles provider;
          role_overrides = canonicalize_role_overrides input.role_overrides;
          prompt_overrides = canonicalize_prompt_overrides input.prompt_overrides;
          pre_build_commands = input.pre_build_commands;
          engine_build_cmd = trim_space input.engine_build_cmd;
          engine_test_cmd = trim_space input.engine_test_cmd;
          skip_planning = input.skip_planning;
          skip_leader = input.skip_leader;
          max_eval_retries = input.max_eval_retries;
          chain_id = trim_space input.chain_id;
          chain_goal_index = input.chain_goal_index;
          provider = provider;
          created_at = now;
        };
        status = JobStatus.starting;
        max_steps = if input.max_steps == 0 then 8 else input.max_steps;
        current_step = 0;
        retry_count = 0;
        resume_extra_steps_used = 0;
        strictness_level = normalize_strictness_level input.strictness_level;
        constraints = input.constraints;
        planning_artifacts = [];
        sprint_contract_ref = "";
        verification_contract = none;
        verification_contract_ref = "";
        evaluator_report_ref = "";
        chain_context = none;
        blocked_reason = "";
        failure_reason = "";
        pending_approval = none;
        summary = "";
        leader_context_summary = "Goal: " ^^ trim_space input.goal;
        supervisor_directive = "";
        schema_retry_hint = "";
        pre_check_results = [];
        run_owner_id = "";
        run_heartbeat_at = 0;
        steps = [];
        events = [];
        updated_at = now;
      }

  -- prepareJob.
  unfoldable pub prepare_job : CreateJobInput → Service → Result Job
  unfolding prepare_workspace_dir created_job
  prepare_job input s =
      (if input.skip_leader && not input.skip_planning
        then some
            "skip_leader requires skip_planning: the planner output is unused when the leader is skipped; set skip_planning=true to avoid wasting tokens"
        else none)
      >> (prepare_workspace_dir s.workspace_root input.workspace_dir (site.new_job_id s.now)
            input.workspace_mode
          >>= λ workspace.
              let job = created_job input s.now workspace in
              site.invalid_dir job.workspace_dir >> ok job)

-- The job is handed to a run loop of its own.
unfoldable pub hand_over : Act
hand_over r =
    (record r { service = record r.service { background = r.job ∷ r.service.background } }, none)

-- startPreparedJobAsync.
unfoldable pub start_prepared_job_async : Env → Act
unfolding hand_over
start_prepared_job_async env r = elim r.service.bg_closed [
  | true ↦ (r, some "service is shutting down")
  | false ↦
      Service.◌>>◌
        (Service.◌>>◌ (Service.◌>>◌ (add_event "job_created" "job created") touch) (save env))
        hand_over r
]
