-- ===== src/Examples/Requests.antt =====
-- The gate, the allowlist, the messages' validators and the planning of parallel workers.
use gorchera.Base.{
  ◌≡◌, ◌≢◌, ◌≤◌, refl, ◌↔◌, ◌⊎◌, String, false, true, List, length, [], ◌∷◌, map, none, some, All,
}
use gorchera.Base.Text.{to_lower, is_blank, one_of}
use gorchera.Base.Result.{ok, err}
use gorchera.Domain.{LeaderOutput, WorkerOutput, VerificationReport, WorkerTask, SystemAction}
use gorchera.Policy
use gorchera.Policy.Gate.{IsPermitted, evaluate-allow_iff}
use gorchera.Allowlist
use gorchera.Allowlist.Rules.{allows-allow_iff, default-command_iff}
use gorchera.Schema.{
  validate_leader_output, validate_worker_output, validate_verification_report, check_action,
  check_run_workers, check_tasks, check_reason, clear_system_action,
}
use gorchera.Schema.Leader.{
  IsWellFormed, validate_leader_output-none_iff, validate_leader_output-system_action,
}
use gorchera.Schema.Reports.{
  IsReport, IsVerdict, validate_worker_output-none_iff, validate_verification_report-none_iff,
}
use gorchera.Parallel.{
  Texts, ParallelWorkerPlan, task_plan, extract_write_scope, build_worker_plans,
  build_parallel_worker_plans_from_tasks, max_parallel_workers,
}
use gorchera.Parallel.Disjoint.{IsPlannable, build_parallel_worker_plans_from_tasks-ok_iff}
use gorchera.Parallel.Bounds.{build_worker_plans-length}
use gorchera.Parallel.Validated.{LowersTargets, Unscoped, build_worker_plans-validated}

abbrev delete_nine : Policy.Request
delete_nine = record {
  action = Policy.ActionType.delete;
  target_scopes = Policy.ResourceScope.workspace_local ∷ [];
  delete_count = 9;
  uses_network = false;
  touches_credential = false;
  command = "rm";
  details = "";
}

evaluate-allow_iff_example :
    ((Policy.evaluate Policy.new delete_nine).decision ≡ Policy.Decision.allow)
    ↔ IsPermitted Policy.new delete_nine
evaluate-allow_iff_example = evaluate-allow_iff Policy.new delete_nine

abbrev go_vet : Allowlist.Request
go_vet = record { category = "command"; command = "/usr/bin/Go"; args = "vet" ∷ []; dir = "/w" }

allows-allow_iff_example :
    (Allowlist.allows (Allowlist.allow Allowlist.new_default_policy "command" "git") go_vet ≡ none)
    ↔ ((Allowlist.allows Allowlist.new_default_policy go_vet ≡ none)
        ⊎ ((is_blank go_vet.command ≡ false)
            × ("command" ≡ go_vet.category)
            × (Allowlist.normalize_executable "git"
                ≡ Allowlist.normalize_executable go_vet.command)))
allows-allow_iff_example = allows-allow_iff Allowlist.new_default_policy "command" "git" go_vet

default-command_iff_example :
    (Allowlist.allows Allowlist.new_default_policy go_vet ≡ none)
    ↔ ((is_blank go_vet.command ≡ false) × ("go" ≡ Allowlist.normalize_executable go_vet.command))
default-command_iff_example = default-command_iff go_vet refl

abbrev task : String → String → WorkerTask
task target kind = record {
  target = target;
  task_type = kind;
  task_text = "do it";
  artifacts = [];
  reason = "";
  next_hint = "";
}

abbrev two_workers : LeaderOutput
two_workers = record {
  action = "run_workers";
  target = "none";
  task_type = "none";
  task_text = "";
  artifacts = [];
  reason = "";
  next_hint = "";
  system_action = none;
  tasks = task "B" "implement" ∷ task "C" "test" ∷ [];
}

validate_leader_output-none_iff_example :
    ((validate_leader_output two_workers).1 ≡ none) ↔ IsWellFormed two_workers
validate_leader_output-none_iff_example = validate_leader_output-none_iff two_workers

accepted : (validate_leader_output two_workers).1 ≡ none
unfolding validate_leader_output check_action check_run_workers check_tasks check_reason one_of
    is_blank clear_system_action
accepted = refl

validate_leader_output-system_action_example :
    ((two_workers.action ≡ "run_system")
      × ((validate_leader_output two_workers).0 ≡ two_workers)
      × (a : SystemAction) × (two_workers.system_action ≡ some a))
    ⊎ ((two_workers.action ≢ "run_system")
        × ((validate_leader_output two_workers).0 ≡ record two_workers { system_action = none }))
validate_leader_output-system_action_example =
    validate_leader_output-system_action two_workers accepted

abbrev blocked_worker : WorkerOutput
blocked_worker = record {
  status = "blocked";
  summary = "no access";
  artifacts = [];
  file_contents = [];
  blocked_reason = "no access";
  error_reason = "";
  next_recommended_action = "";
}

validate_worker_output-none_iff_example :
    (validate_worker_output blocked_worker ≡ none) ↔ IsReport blocked_worker
validate_worker_output-none_iff_example = validate_worker_output-none_iff blocked_worker

abbrev passed : VerificationReport
passed = record {
  status = "passed";
  passed = true;
  reason = "all checks hold";
  evidence = "go test" ∷ [];
  missing_checks = [];
  artifacts = [];
  contract_ref = "";
}

validate_verification_report-none_iff_example :
    (validate_verification_report passed ≡ none) ↔ IsVerdict passed
validate_verification_report-none_iff_example = validate_verification_report-none_iff passed

abbrev no_spec : Texts
no_spec = record { lower = to_lower; decode_spec = λ payload. err "unexpected end of JSON input" }

lowers : LowersTargets no_spec
unfolding to_lower
lowers = (refl, refl, refl)

abbrev plans : List ParallelWorkerPlan
plans = map (task_plan no_spec) two_workers.tasks

build_parallel_worker_plans_from_tasks-ok_iff_example :
    (build_parallel_worker_plans_from_tasks no_spec two_workers.tasks ≡ ok plans)
    ↔ (IsPlannable no_spec two_workers.tasks × (plans ≡ map (task_plan no_spec) two_workers.tasks))
build_parallel_worker_plans_from_tasks-ok_iff_example =
    build_parallel_worker_plans_from_tasks-ok_iff no_spec two_workers.tasks plans

unscoped : All (Unscoped no_spec) two_workers.tasks
unfolding extract_write_scope is_blank
unscoped = (refl, (refl, tt))

build_worker_plans-validated_example :
    build_worker_plans no_spec two_workers ≡ ok (map (task_plan no_spec) two_workers.tasks)
build_worker_plans-validated_example =
    build_worker_plans-validated no_spec two_workers lowers accepted refl unscoped

build_worker_plans-length_example : length plans ≤ max_parallel_workers
build_worker_plans-length_example =
    build_worker_plans-length no_spec two_workers plans
      (build_worker_plans-validated no_spec two_workers lowers accepted refl unscoped)
