-- ===== src/Chain/Start.antt =====
-- internal/orchestrator/service.go: the goals of a chain are started one after the other, each when
-- the job of the one before it is done, or when an operator skips it.
use gorchera.Base.{
  ℕ, suc, ◌==◌, ltb, length, get_elem?, set, String, Bool, true, false, ◌&&◌, ◌||◌, List, [], ◌∷◌,
  map, Option, none, some, if◌then◌else◌,
}
use gorchera.Base.Text.{◌is◌, ◌^^◌, is_blank, trim_space, itoa}
use gorchera.Base.Result.{Result, ok, err}
use gorchera.Domain.{Job, JobChain, ChainGoal, ChainGoalStatus, ChainStatus, ChainContext}
use gorchera.Domain.Roles.{default_role_profiles}
use gorchera.Domain.Levels.{
  normalize_pipeline_mode, normalize_ambition_level, normalize_strictness_level,
  normalize_context_mode,
}
use gorchera.Prepare.{
  CreateJobInput, Site, prepare_job, canonicalize_role_overrides, start_prepared_job_async,
}
use gorchera.Service.{
  Env, Service, Act, save_chain, load_chain, load_job, set_goal_status, failed_chain, is_done,
  is_failed, is_blocked, keep_service,
}
use gorchera.Chain.{ChainReply, replied, refused, with_open_chain, interrupt_chain_goal_job}

-- What startChainGoal creates the job of a goal with.
abbrev pub goal_input : JobChain → ℕ → String → ChainGoal → CreateJobInput
goal_input chain index dir goal = record {
  goal = goal.goal;
  tech_stack = "";
  workspace_dir = dir;
  workspace_mode = "";
  constraints = [];
  done_criteria = [];
  provider = goal.provider;
  role_profiles = default_role_profiles goal.provider;
  role_overrides = goal.role_overrides;
  max_steps = goal.max_steps;
  pipeline_mode = goal.pipeline_mode;
  strictness_level = goal.strictness_level;
  ambition_level = goal.ambition_level;
  ambition_text = goal.ambition_text;
  context_mode = goal.context_mode;
  pre_build_commands = goal.pre_build_commands;
  engine_build_cmd = goal.engine_build_cmd;
  engine_test_cmd = goal.engine_test_cmd;
  prompt_overrides = goal.prompt_overrides;
  skip_planning = false;
  skip_leader = false;
  max_eval_retries = 0;
  chain_id = chain.id;
  chain_goal_index = index;
}

-- The chain with the goal at a place running under a job.
abbrev pub started_chain : ℕ → ℕ → String → ChainGoal → JobChain → JobChain
started_chain now index id goal chain = record chain {
  goals = set chain.goals index (record goal { job_id = id; status = ChainGoalStatus.running });
  current_index = index;
  status = ChainStatus.running;
  updated_at = now;
}

-- A chain that may not go on: closed or paused.
abbrev pub is_halted : ChainStatus → Bool
is_halted ChainStatus.running = false
is_halted _ = true

abbrev pub is_last : ℕ → List ChainGoal → Bool
is_last i goals = suc i == length goals

abbrev context_of : Job → Option ChainContext
context_of job =
    if job.summary is "" && job.evaluator_report_ref is ""
    then none
    else some (record { summary = job.summary; evaluator_report_ref = job.evaluator_report_ref })

-- The goal of a new chain.
abbrev new_goal : ChainGoal → ChainGoal
new_goal goal = record {
  goal = trim_space goal.goal;
  provider = if goal.provider is "" then "mock" else goal.provider;
  pipeline_mode = normalize_pipeline_mode goal.pipeline_mode;
  strictness_level = normalize_strictness_level goal.strictness_level;
  ambition_level = normalize_ambition_level goal.ambition_level;
  ambition_text = "";
  context_mode = normalize_context_mode goal.context_mode;
  max_steps = if goal.max_steps == 0 then 8 else goal.max_steps;
  role_overrides = canonicalize_role_overrides goal.role_overrides;
  prompt_overrides = [];
  pre_build_commands = [];
  engine_build_cmd = "";
  engine_test_cmd = "";
  job_id = "";
  status = ChainGoalStatus.pending;
}

-- The error of the first goal that has no text, from a number.
unfoldable pub goal_error : ℕ → List ChainGoal → Option String
goal_error i [] = none
goal_error i (goal ∷ goals) =
    let rest = goal_error (suc i) goals in
    if trim_space goal.goal is "" then some ("goals[" ^^ itoa i ^^ "].goal is required") else rest

module _ (env : Env) (site : Site) where
  -- The chain and the goal fail, whatever the store answers.
  abbrev pub give_up : ℕ → JobChain → String → Service → Service × Option String
  give_up index chain e s = ((save_chain env (failed_chain s.now index chain) s).0, some e)

  unfoldable pub launch : ℕ → JobChain → Job → Service × Option String → Service × Option String
  launch index chain job (s, some e) = (s, some e)
  launch index chain job (s, none) =
      let (r, e) = start_prepared_job_async env (record { service = s; job = job }) in
      elim e [ none ↦ (r.service, none) | some text ↦ give_up index chain text r.service ]

  -- startChainGoal.
  unfoldable pub start_chain_goal :
      JobChain → String → ℕ → Option ChainContext → Service → Service × Option String
  unfolding launch
  start_chain_goal chain dir index context s = elim (get_elem? chain.goals index) [
    | none ↦ (s, some ("chain goal index out of range: " ^^ itoa index))
    | some goal ↦ elim (prepare_job site (goal_input chain index dir goal) s) [
      | err e ↦ give_up index chain e s
      | ok job ↦
          let chain' = started_chain s.now index job.id goal chain in
          launch index chain' (record job { chain_context = context }) (save_chain env chain' s)
    ]
  ]

  abbrev pub done_chain : ℕ → JobChain → JobChain
  done_chain now chain = record chain {
    goals = set_goal_status chain.current_index ChainGoalStatus.done chain.goals;
    updated_at = now;
  }

  -- What follows on the save of a chain whose current goal is done.
  unfoldable pub start_next : JobChain → Job → Service × Option String → Service × Option String
  start_next chain job (s, some e) = (s, some e)
  start_next chain job (s, none) = elim (load_chain env chain.id s) [
    | err e ↦ (s, some e)
    | ok latest ↦
        if is_halted latest.status
        then (s, none)
        else start_chain_goal latest job.workspace_dir (suc latest.current_index) (context_of job) s
  ]

  -- advanceChain with the job of the current goal.
  unfoldable pub advance_with : JobChain → Job → Service → Service × Option String
  unfolding start_next set_goal_status
  advance_with chain job s =
      if is_done job.status
      then (if is_last chain.current_index chain.goals
          then save_chain env (record (done_chain s.now chain) { status = ChainStatus.done }) s
          else start_next chain job (save_chain env (done_chain s.now chain) s))
      else if is_blocked job.status || is_failed job.status
      then save_chain env (failed_chain s.now chain.current_index chain) s
      else (s, none)

  -- advanceChain.
  unfoldable pub advance_chain : JobChain → Service → Service × Option String
  unfolding advance_with
  advance_chain chain s = elim (is_halted chain.status) [
    | true ↦ (s, none)
    | false ↦ elim (get_elem? chain.goals chain.current_index) [
      | none ↦ (s, some ("chain current index out of range: " ^^ itoa chain.current_index))
      | some goal ↦
          if goal.job_id is ""
          then (s, some ("chain goal " ^^ itoa chain.current_index ^^ " has no job id"))
          else elim (load_job env goal.job_id s) [
            | err e ↦ (s, some e)
            | ok job ↦ advance_with chain job s
          ]
    ]
  ]

  -- The chain of a job that is done, by its status: only its goal is marked where the chain is paused.
  abbrev pub complete_at : ChainStatus → JobChain → Job → Service → Service × Option String
  complete_at ChainStatus.cancelled chain job s = (s, none)
  complete_at ChainStatus.paused chain job s =
      if ltb job.chain_goal_index (length chain.goals)
      then save_chain env
          (record chain {
            goals = set_goal_status job.chain_goal_index ChainGoalStatus.done chain.goals;
            updated_at = s.now;
          })
          s
      else (s, none)
  complete_at _ chain job s = advance_chain chain s

  -- handleChainCompletion.
  unfoldable pub handle_chain_completion : Act
  unfolding advance_chain set_goal_status
  handle_chain_completion r = elim (is_blank r.job.chain_id) [
    | true ↦ (r, none)
    | false ↦ elim (load_chain env r.job.chain_id r.service) [
      | err e ↦ (r, some e)
      | ok chain ↦ keep_service r (complete_at chain.status chain r.job r.service)
    ]
  ]

  -- chainCurrentGoalHasCompleted.
  unfoldable pub chain_current_goal_has_completed : JobChain → Service → Bool
  chain_current_goal_has_completed chain s = elim (get_elem? chain.goals chain.current_index) [
    | none ↦ false
    | some goal ↦ elim goal.status [
      | ChainGoalStatus.done ↦ true
      | _ ↦
          if is_blank goal.job_id
          then false
          else elim (load_job env goal.job_id s) [ err e ↦ false | ok job ↦ is_done job.status ]
    ]
  ]

  -- `return s.state.LoadChain(ctx, chain.ID)` after a step with an error.
  abbrev pub reloaded : String → Service × Option String → Service × ChainReply
  reloaded id (s, some e) = (s, refused e)
  reloaded id (s, none) = elim (load_chain env id s) [
    | err e ↦ (s, refused e)
    | ok chain ↦ (s, replied chain)
  ]

  abbrev pub replied_unless : JobChain → Service × Option String → Service × ChainReply
  replied_unless chain (s, some e) = (s, refused e)
  replied_unless chain (s, none) = (s, replied chain)

  unfoldable pub resume_saved : JobChain → Service × Option String → Service × ChainReply
  resume_saved chain (s, some e) = (s, refused e)
  resume_saved chain (s, none) =
      if chain_current_goal_has_completed chain s
      then reloaded chain.id (advance_chain chain s)
      else (s, replied chain)

  -- ResumeChain.
  unfoldable pub resume_chain : String → Service → Service × ChainReply
  unfolding resume_saved
  resume_chain id s = with_open_chain env id s λ chain.
      let chain' : JobChain = record chain { status = ChainStatus.running; updated_at = s.now } in
      resume_saved chain' (save_chain env chain' s)

  unfoldable pub start_after_skip :
      JobChain → String → Service × Option String → Service × Option String
  start_after_skip chain dir (s, some e) = (s, some e)
  start_after_skip chain dir (s, none) = start_chain_goal chain dir (suc chain.current_index) none s

  -- SkipChainGoal with what the interruption of the current job answers.
  unfoldable pub skip_interrupted : JobChain → Service × Result String → Service × ChainReply
  unfolding start_after_skip set_goal_status
  skip_interrupted chain (s, err e) = (s, refused e)
  skip_interrupted chain (s, ok dir) =
      let last = is_last chain.current_index chain.goals in
      let chain' : JobChain = record chain {
        goals = set_goal_status chain.current_index ChainGoalStatus.skipped chain.goals;
        status = if last then ChainStatus.done else ChainStatus.running;
        updated_at = s.now;
      } in
      if last
      then replied_unless chain' (save_chain env chain' s)
      else reloaded chain.id (start_after_skip chain' dir (save_chain env chain' s))

  -- SkipChainGoal.
  unfoldable pub skip_chain_goal : String → Service → Service × ChainReply
  unfolding skip_interrupted
  skip_chain_goal id s = with_open_chain env id s λ chain.
      if ltb chain.current_index (length chain.goals)
      then skip_interrupted chain
          (interrupt_chain_goal_job env chain "chain goal skipped by operator" s)
      else (s, refused ("chain current index out of range: " ^^ itoa chain.current_index))

  start_first : JobChain → String → Service × Option String → Service × Option String
  start_first chain dir (s, some e) = (s, some e)
  start_first chain dir (s, none) = start_chain_goal chain dir 0 none s

  abbrev new_chain : List ChainGoal → ℕ → JobChain
  new_chain goals now = record {
    id = site.new_chain_id now;
    goals = map new_goal goals;
    current_index = 0;
    status = ChainStatus.running;
    created_at = now;
    updated_at = now;
  }

  -- StartChain; of what it returns, the error alone.
  unfoldable pub start_chain : List ChainGoal → String → Service → Service × Option String
  unfolding start_first goal_error
  start_chain goals dir s = elim (site.invalid_dir dir) [
    | some e ↦ (s, some e)
    | none ↦
        if length goals == 0
        then (s, some "at least one chain goal is required")
        else elim (goal_error 0 goals) [
          | some e ↦ (s, some e)
          | none ↦
              let chain = new_chain goals s.now in start_first chain dir (save_chain env chain s)
        ]
  ]
