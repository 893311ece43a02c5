-- ===== src/Planning.antt =====
-- internal/orchestrator/planning.go and verification.go: the documents that are made of a job and of
-- what the planner wrote, and the prompt of the verification contract.
use gorchera.Base.{
  length, ◌==◌, String, true, List, [], ◌∷◌, ◌++◌, Option, none, some, if◌then◌else◌,
}
use gorchera.Base.Text.{◌is◌, ◌^^◌, trim_space, is_blank, unique_strings, join}
use gorchera.Base.FilePath.{base}
use gorchera.Domain.{Job, ContractOfJob, PlanningArtifact, SprintContract}
use gorchera.Domain.Levels.{normalize_strictness_level}
use gorchera.Evaluator.{VerificationContract}

-- firstNonEmptyValue, on the text that it extracts.
unfoldable pub first_non_empty_value : Option String → String → String
first_non_empty_value none fallback = fallback
first_non_empty_value (some text) fallback = if is_blank text then fallback else trim_space text

-- A field of the seed, or else the empty list.
abbrev seed_list : Option PlanningArtifact → (PlanningArtifact → List String) → List String
seed_list none f = []
seed_list (some p) f = f p

abbrev seed_text : Option PlanningArtifact → (PlanningArtifact → String) → Option String
seed_text none f = none
seed_text (some p) f = some (f p)

-- planningSummary.
unfoldable pub planning_summary : Job → Option PlanningArtifact → String
planning_summary job none = "Plan for " ^^ job.goal
planning_summary job (some p) = if p.summary is "" then "Plan for " ^^ job.goal else p.summary

-- cloneVerificationContract: the clone of a value is the value.
abbrev clone_verification_contract : Option PlanningArtifact → Option ContractOfJob
clone_verification_contract none = none
clone_verification_contract (some p) = p.verification_contract

-- buildPlanningArtifact; the fields that it leaves out are empty.
unfoldable pub build_planning_artifact : Job → Option PlanningArtifact → PlanningArtifact
unfolding planning_summary first_non_empty_value
build_planning_artifact job seed = record {
  goal = first_non_empty_value (seed_text seed λ p. p.goal) job.goal;
  tech_stack = first_non_empty_value (seed_text seed λ p. p.tech_stack) job.tech_stack;
  workspace_dir = first_non_empty_value (seed_text seed λ p. p.workspace_dir) job.workspace_dir;
  summary = planning_summary job seed;
  product_scope = seed_list seed λ p. p.product_scope;
  non_goals = seed_list seed λ p. p.non_goals;
  proposed_steps = seed_list seed λ p. p.proposed_steps;
  invariants_to_preserve =
      unique_strings (job.constraints ++ seed_list seed λ p. p.invariants_to_preserve);
  acceptance = job.done_criteria;
  success_signals = seed_list seed λ p. p.success_signals;
  verification_contract = clone_verification_contract seed;
  recommended_strictness = "";
  recommended_max_steps = 0;
}

-- pipelineRequiredStepTypes.
abbrev pub pipeline_required_step_types : Job → List String
pipeline_required_step_types job = "implement" ∷ []

-- buildSprintContract.
unfoldable pub build_sprint_contract : Job → PlanningArtifact → SprintContract
build_sprint_contract job planning =
    let level = normalize_strictness_level job.strictness_level in
    let required = pipeline_required_step_types job in
    record {
      version = 1;
      goal = job.goal;
      required_step_types = required;
      acceptance_criteria = planning.acceptance;
      blocking_criteria =
          "missing required director coverage" ∷ "engine build/test verification not satisfied"
          ∷ "thresholds not satisfied" ∷ [];
      threshold_success_count = length required;
      threshold_min_steps = if length required == 0 then 1 else length required;
      threshold_require_eval = true;
      strictness_level = if level is "auto" then "normal" else level;
    }

-- verificationSummary.
unfoldable pub verification_summary : Job → PlanningArtifact → SprintContract → String
unfolding first_non_empty_value
verification_summary job planning sprint =
    let required = join sprint.required_step_types ", " in
    "Verify "
    ^^ first_non_empty_value (some planning.summary) job.goal
    ^^ " with required worker steps: "
    ^^ (if required is "" then "implement" else required)
    ^^ " and engine-managed go build/go test evidence"

-- buildVerificationContract. It sets no rubric axes.
unfoldable pub build_verification_contract :
    Job → PlanningArtifact → SprintContract → List String → VerificationContract
unfolding verification_summary first_non_empty_value
build_verification_contract job planning sprint refs = record {
  version = 1;
  goal = first_non_empty_value (some planning.goal) job.goal;
  summary = verification_summary job planning sprint;
  sprint_contract_ref = job.sprint_contract_ref;
  planning_artifact_refs = refs;
  required_step_types = sprint.required_step_types;
  acceptance_criteria = sprint.acceptance_criteria;
  engine_instructions =
      "Engine runs go build ./... and go test ./... after each successful implement step when a Go workspace is configured."
      ∷ "Treat skipped engine checks as informational when the workspace is not configured for Go or the go tool is unavailable."
      ∷ "Treat failed engine checks as unresolved regression evidence until a later implement step replaces them."
      ∷ [];
  evaluator_criteria =
      "latest successful implement step contains engine build/test evidence"
      ∷ "required step coverage matches the sprint contract"
      ∷ "review coverage matches the selected pipeline mode" ∷ [];
  rubric_axes = [];
}

-- The path, unless it is blank.
abbrev with_path : List String → String → List String
with_path refs path = if is_blank path then refs else refs ++ path ∷ []

-- buildPersistedVerificationContract.
unfoldable pub build_persisted_verification_contract :
    Job → PlanningArtifact → VerificationContract → String → ContractOfJob
unfolding first_non_empty_value
build_persisted_verification_contract job planning contract path =
    elim planning.verification_contract [
      | some stated ↦ record stated {
        required_artifacts = unique_strings (
            with_path
              (if length stated.required_artifacts == 0
                then contract.planning_artifact_refs
                else stated.required_artifacts)
              path);
      }
      | none ↦ record {
        version = contract.version;
        goal = first_non_empty_value (some planning.goal) job.goal;
        scope = contract.acceptance_criteria;
        required_commands = contract.engine_instructions;
        required_artifacts = unique_strings (with_path contract.planning_artifact_refs path);
        required_checks =
            unique_strings (contract.required_step_types ++ contract.evaluator_criteria);
        disallowed_actions = "self-approval" ∷ "unbounded parallel fan-out" ∷ [];
        max_seconds = 0;
        notes = contract.summary;
        owner_role = "evaluator";
        rubric_axes = [];
        automated_checks = [];
      }
    ]

-- validatePlanningArtifact: the artifact with its default, or the error.
unfoldable pub validate_planning_artifact :
    PlanningArtifact → Job → PlanningArtifact × Option String
validate_planning_artifact plan job =
    if is_blank plan.goal
    then (plan, some "planner output requires goal")
    else if is_blank plan.summary
    then (plan, some "planner output requires summary")
    else (
      (if length plan.acceptance == 0
          then record plan { acceptance = job.done_criteria }
          else plan),
      none,
    )

bullets : List String → String
bullets [] = ""
bullets (x ∷ xs) = "- " ^^ x ^^ "\n" ^^ bullets xs

-- planningMarkdown.
unfoldable pub planning_markdown : PlanningArtifact → String
unfolding bullets
planning_markdown plan =
    "# Product Spec\n\nGoal: "
    ^^ plan.goal
    ^^ "\n\n## Scope\n"
    ^^ bullets plan.product_scope
    ^^ "\n## Non-Goals\n"
    ^^ bullets plan.non_goals
    ^^ "\n## Proposed Steps\n"
    ^^ bullets plan.proposed_steps
    ^^ "\n## Invariants To Preserve\n"
    ^^ bullets plan.invariants_to_preserve
    ^^ "\n## Acceptance\n"
    ^^ bullets plan.acceptance

-- verificationContractPath: the first reference to a file of that name.
unfoldable pub contract_path : List String → String
contract_path [] = ""
contract_path (ref ∷ refs) =
    let later = contract_path refs in
    if base ref is "verification_contract.json" then ref else later

titled : String → List String → String
titled title [] = ""
titled title (x ∷ xs) = title ^^ bullets (x ∷ xs)

-- verificationContractPrompt.
unfoldable pub verification_contract_prompt : VerificationContract → String → String
unfolding titled bullets
verification_contract_prompt contract path = trim_space (
    "Verification contract ref: "
    ^^ path
    ^^ "\nVerification contract summary: "
    ^^ contract.summary
    ^^ "\n"
    ^^ (if length contract.required_step_types == 0
        then ""
        else "Required worker steps: " ^^ join contract.required_step_types ", " ^^ "\n")
    ^^ titled "Acceptance criteria:\n" contract.acceptance_criteria
    ^^ titled "Engine verification instructions:\n" contract.engine_instructions)
