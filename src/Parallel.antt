-- ===== src/Parallel.antt =====
-- internal/orchestrator/parallel.go: the plans of a worker step. What encoding/json makes of a
-- parallel worker's payload and `strings.ToLower` are the parameter `texts`.
pub mod Disjoint
pub mod Validated
pub mod Bounds
use Prim.Native.String
use gorchera.Base.{
  ℕ, zero, suc, ltb, ◌==◌, length, String, Bool, true, false, ◌&&◌, ◌||◌, not, List, [], ◌∷◌,
  Option, none, some, if◌then◌else◌,
}
use gorchera.Base.Text.{
  ◌is◌, ◌^^◌, trim_space, to_lower, fold_key, is_blank, quote, one_of, starts_with, ◌or_else◌,
  first_non_empty,
}
use gorchera.Base.Result.{Result, ok, err, ◌>>=◌, ◌>>◌}
use gorchera.Domain.{LeaderOutput, WorkerTask}

abbrev pub max_parallel_workers : ℕ
max_parallel_workers = 2

pub record ParallelWorkerSpec : Type 0 where
  pub target : String
  pub task_type : String
  pub task_text : String
  pub write_scope : String
  pub artifact_refs : List String

-- `StepIndex` is set when the plan runs.
pub record ParallelWorkerPlan : Type 0 where
  pub step_index : ℕ
  pub scope_key : String
  pub task : LeaderOutput

-- What the libraries do with texts: `strings.ToLower`, and the decoding of a spec from JSON.
pub record Texts : Type 0 where
  pub lower : String → String
  pub decode_spec : String → Result ParallelWorkerSpec

-- normalizeKey.
abbrev pub normalize_key : Texts → String → String
normalize_key texts value = texts.lower (trim_space value)

unfoldable pub scope_key : Texts → String → String → String → String
scope_key texts prefix scope task_type =
    prefix ^^ ":" ^^ normalize_key texts scope ^^ ":" ^^ normalize_key texts task_type

-- `domain.LeaderOutput{Action: "run_worker", ...}`.
unfoldable pub run_worker : String → String → String → List String → LeaderOutput
run_worker target task_type task_text artifacts = record {
  action = "run_worker";
  target = target;
  task_type = task_type;
  task_text = task_text;
  artifacts = artifacts;
  reason = "";
  next_hint = "";
  system_action = none;
  tasks = [];
}

-- `text[n:]` for a text that begins with `n` ASCII characters.
drop : ℕ → String → String
drop zero s = s
drop (suc n) String.[] = ""
drop (suc n) (String.◌∷◌ c s) = drop n s

pub data Parsed : Type 0 where
  plain : Parsed
  bad : String → Parsed
  spec : ParallelWorkerSpec → Parsed

-- The checks on the target and the write scope of one more worker, by their keys.
unfoldable pub overlap_error : Texts → List String → List String → String → String → Option String
overlap_error texts targets scopes target scope =
    if one_of (normalize_key texts target) targets
    then some ("parallel fan-out requires disjoint targets; duplicate target " ^^ quote target)
    else if one_of (normalize_key texts target) scopes
    then some (
        "parallel fan-out requires disjoint targets and scopes; target "
        ^^ quote target
        ^^ " overlaps a write scope")
    else if one_of (normalize_key texts scope) targets
    then some ("parallel fan-out requires disjoint write scopes; duplicate scope " ^^ quote scope)
    else if one_of (normalize_key texts scope) scopes
    then some ("parallel fan-out requires disjoint write scopes; duplicate scope " ^^ quote scope)
    else none

unfoldable pub validate_parallel_spec : ParallelWorkerSpec → Option String
validate_parallel_spec s =
    if is_blank s.target
    then some "parallel worker requires target"
    else if is_blank s.task_type
    then some "parallel worker requires task_type"
    else if is_blank s.task_text
    then some "parallel worker requires task_text"
    else if is_blank s.write_scope
    then some "parallel worker requires write_scope"
    else none

unfoldable pub validate_task : WorkerTask → Option String
validate_task task =
    if is_blank task.target
    then some "parallel fan-out requires target"
    else if is_blank task.task_type
    then some "parallel fan-out requires task_type"
    else if is_blank task.task_text
    then some "parallel fan-out requires task_text"
    else none

-- The plan of the leader's own task.
abbrev pub primary_plan : Texts → LeaderOutput → List String → ParallelWorkerPlan
primary_plan texts leader artifacts = record {
  step_index = 0;
  scope_key = scope_key texts "primary" leader.target leader.task_type;
  task = run_worker leader.target leader.task_type leader.task_text artifacts;
}

module _ (texts : Texts) where
  unfoldable pub parse_parallel_spec : String → Parsed
  unfolding drop trim_space to_lower
  parse_parallel_spec raw =
      let trimmed = trim_space raw in
      let payload = trim_space (drop 9 trimmed) in
      if not (starts_with (to_lower trimmed) "parallel:")
      then plain
      else if payload is ""
      then bad "parallel worker spec payload is empty"
      else elim (texts.decode_spec payload) [
        | ok s ↦ spec s
        | err e ↦ bad ("invalid parallel worker spec: " ^^ e)
      ]

  unfoldable pub extract_write_scope : List String → String
  extract_write_scope [] = ""
  extract_write_scope (raw ∷ rest) = elim (parse_parallel_spec raw) [
    | plain ↦ extract_write_scope rest
    | bad e ↦ extract_write_scope rest
    | spec s ↦ s.write_scope
  ]

  -- The write scope of a task: the one that its artifacts name, or its target.
  unfoldable pub task_scope : WorkerTask → String
  task_scope task = first_non_empty (extract_write_scope task.artifacts ∷ task.target ∷ [])

  abbrev pub task_plan : WorkerTask → ParallelWorkerPlan
  task_plan task = record {
    step_index = 0;
    scope_key = scope_key texts "parallel" (task_scope task) task.task_type;
    task = run_worker task.target task.task_type task.task_text task.artifacts;
  }

  -- The loop over the tasks; the lists hold the keys of the targets and scopes used before.
  unfoldable pub plan_tasks :
      List String → List String → List WorkerTask → Result (List ParallelWorkerPlan)
  plan_tasks targets scopes [] = ok []
  plan_tasks targets scopes (task ∷ tasks) =
      let scope = task_scope task in
      let rest =
        plan_tasks (normalize_key texts task.target ∷ targets) (normalize_key texts scope ∷ scopes)
          tasks in
      validate_task task
      >> overlap_error texts targets scopes task.target scope
      >> (rest >>= λ plans. ok (task_plan task ∷ plans))

  unfoldable pub build_parallel_worker_plans_from_tasks :
      List WorkerTask → Result (List ParallelWorkerPlan)
  build_parallel_worker_plans_from_tasks tasks =
      if length tasks == 0
      then err "parallel fan-out requires worker tasks"
      else if ltb max_parallel_workers (length tasks)
      then err "parallel fan-out exceeds max_parallel_workers=2"
      else plan_tasks [] [] tasks

  -- The plain artifacts and the specs among the artifacts.
  unfoldable pub split_parallel_artifacts :
      List String → Result (List String × List ParallelWorkerSpec)
  unfolding trim_space
  split_parallel_artifacts [] = ok ([], [])
  split_parallel_artifacts (raw ∷ rest) =
      let later = split_parallel_artifacts rest in
      elim (parse_parallel_spec raw) [
        | bad e ↦ err e
        | spec s ↦ later >>= λ parts. ok (parts.0, s ∷ parts.1)
        | plain ↦ later >>= λ parts.
            ok ((if is_blank raw then parts.0 else trim_space raw ∷ parts.0), parts.1)
      ]

  abbrev spec_plan : ParallelWorkerSpec → ParallelWorkerPlan
  spec_plan s = record {
    step_index = 0;
    scope_key = scope_key texts "parallel" s.write_scope s.task_type;
    task = run_worker s.target s.task_type s.task_text s.artifact_refs;
  }

  unfoldable pub plan_specs :
      List String → List String → List ParallelWorkerSpec → Result (List ParallelWorkerPlan)
  plan_specs targets scopes [] = ok []
  plan_specs targets scopes (s ∷ specs) =
      let rest =
        plan_specs (normalize_key texts s.target ∷ targets)
          (normalize_key texts s.write_scope ∷ scopes) specs in
      validate_parallel_spec s
      >> overlap_error texts targets scopes s.target s.write_scope
      >> (rest >>= λ plans. ok (spec_plan s ∷ plans))

  -- The plan of the leader's own task, with the others behind it.
  unfoldable pub plan_primary :
      LeaderOutput → List String → List ParallelWorkerSpec → Result (List ParallelWorkerPlan)
  plan_primary leader artifacts specs =
      let primary = primary_plan texts leader artifacts in
      let key = normalize_key texts leader.target in
      if length specs == 0
      then ok (primary ∷ [])
      else if ltb max_parallel_workers (suc (length specs))
      then err "parallel fan-out exceeds max_parallel_workers=2"
      else plan_specs (key ∷ []) (key ∷ []) specs >>= λ plans. ok (primary ∷ plans)

  unfoldable pub build_worker_plans : LeaderOutput → Result (List ParallelWorkerPlan)
  build_worker_plans leader =
      if leader.action is "run_workers"
      then build_parallel_worker_plans_from_tasks leader.tasks
      else split_parallel_artifacts leader.artifacts >>= λ parts.
          plan_primary leader parts.0 parts.1
