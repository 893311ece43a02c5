-- ===== src/Schema.antt =====
-- internal/schema/validate.go: the checks on what a leader, a worker or a verifier sent. `none` is
-- the nil error, `some` its text.
pub mod Orders
pub mod Leader
pub mod Reports
use gorchera.Base.{
  ℕ, ◌==◌, length, String, Bool, true, false, ◌&&◌, ◌||◌, not, List, [], ◌∷◌, Option, none, some,
  if◌then◌else◌,
}
use gorchera.Base.Text.{◌is◌, ◌isn't◌, ◌^^◌, is_blank, quote, one_of, ◌or_else◌}
use gorchera.Domain.{
  LeaderOutput, WorkerTask, WorkerOutput, SystemAction, ContractOfJob, VerificationReport,
}

abbrev pub leader_actions : List String
leader_actions =
    "run_worker" ∷ "run_workers" ∷ "run_system" ∷ "summarize" ∷ "complete" ∷ "fail" ∷ "blocked" ∷ []

abbrev pub leader_targets : List String
leader_targets = "B" ∷ "C" ∷ "D" ∷ "SYS" ∷ "none" ∷ []

abbrev pub leader_task_types : List String
leader_task_types =
    "implement" ∷ "test" ∷ "search" ∷ "build" ∷ "lint" ∷ "command" ∷ "summarize" ∷ "none" ∷ []

abbrev pub worker_targets : List String
worker_targets = "B" ∷ "C" ∷ "D" ∷ []

abbrev pub worker_task_types : List String
worker_task_types =
    "implement" ∷ "review" ∷ "audit" ∷ "test" ∷ "search" ∷ "build" ∷ "lint" ∷ "command" ∷ []

abbrev pub worker_statuses : List String
worker_statuses = "success" ∷ "failed" ∷ "blocked" ∷ []

abbrev pub verification_statuses : List String
verification_statuses = "passed" ∷ "blocked" ∷ "failed" ∷ []

unfoldable pub check_run_worker : LeaderOutput → Option String
check_run_worker msg =
    if not (one_of msg.target leader_targets) || msg.target is "none"
    then some "run_worker requires a valid target"
    else if not (one_of msg.task_type leader_task_types) || msg.task_type is "none"
    then some "run_worker requires a valid task_type"
    else if is_blank msg.task_text
    then some "run_worker requires task_text"
    else none

-- The loop over the tasks; the list holds the targets seen before.
unfoldable pub check_tasks : List String → List WorkerTask → Option String
check_tasks seen [] = none
check_tasks seen (t ∷ ts) =
    let rest = check_tasks (t.target ∷ seen) ts in
    if not (one_of t.target worker_targets)
    then some "run_workers requires valid worker targets"
    else if one_of t.target seen
    then some "run_workers requires distinct worker targets"
    else if not (one_of t.task_type worker_task_types)
    then some "run_workers requires valid worker task_type"
    else if is_blank t.task_text
    then some "run_workers requires task_text"
    else rest

unfoldable pub check_run_workers : List WorkerTask → Option String
check_run_workers tasks =
    if not (length tasks == 2)
    then some "run_workers requires exactly 2 tasks"
    else check_tasks [] tasks

unfoldable pub check_run_system : LeaderOutput → Option String
check_run_system msg =
    if msg.target isn't "SYS"
    then some "run_system requires SYS target"
    else if not (one_of msg.task_type leader_task_types)
        || msg.task_type is "none"
        || msg.task_type is "summarize"
        || msg.task_type is "implement"
        || msg.task_type is "review"
        || msg.task_type is "test"
    then some "run_system requires a system task_type"
    else elim msg.system_action [
      | none ↦ some "run_system requires system_action"
      | some action ↦
          if is_blank action.type
          then some "run_system requires system_action.type"
          else if is_blank action.command
          then some "run_system requires system_action.command"
          else none
    ]

-- A system action that came with another action is dropped.
unfoldable pub clear_system_action : LeaderOutput → LeaderOutput
clear_system_action msg =
    if msg.action isn't "run_system" then record msg { system_action = none } else msg

unfoldable pub check_reason : LeaderOutput → Option String
check_reason msg =
    if (msg.action is "complete" || msg.action is "fail" || msg.action is "blocked")
      && is_blank msg.reason
    then some (msg.action ^^ " requires reason")
    else none

-- The checks before the system action is dropped.
unfoldable pub check_action : LeaderOutput → Option String
check_action msg =
    if not (one_of msg.action leader_actions)
    then some ("invalid action: " ^^ quote msg.action)
    else (if msg.action is "run_worker" then check_run_worker msg else none)
      or_else (if msg.action is "run_workers" then check_run_workers msg.tasks else none)
      or_else (if msg.action is "run_system" then check_run_system msg else none)

-- The message as it stands after the call, and the error.
unfoldable pub validate_leader_output : LeaderOutput → LeaderOutput × Option String
validate_leader_output msg = elim (check_action msg) [
  | some e ↦ (msg, some e)
  | none ↦ (clear_system_action msg, check_reason (clear_system_action msg))
]

unfoldable pub validate_worker_output : WorkerOutput → Option String
validate_worker_output msg =
    if not (one_of msg.status worker_statuses)
    then some ("invalid status: " ^^ quote msg.status)
    else if is_blank msg.summary
    then some "summary is required"
    else if msg.status is "blocked" && is_blank msg.blocked_reason
    then some "blocked requires blocked_reason"
    else if msg.status is "failed" && is_blank msg.error_reason
    then some "failed requires error_reason"
    else none

abbrev no_items : List String → Bool
no_items [] = true
no_items (x ∷ xs) = false

unfoldable pub validate_verification_contract : ContractOfJob → Option String
validate_verification_contract msg =
    if msg.version == 0
    then some "version must be positive"
    else if is_blank msg.goal
    then some "goal is required"
    else if no_items msg.scope
    then some "scope is required"
    else if no_items msg.required_checks
    then some "required_checks is required"
    else if no_items msg.required_commands
    then some "required_commands is required"
    else none

unfoldable pub validate_verification_report : VerificationReport → Option String
validate_verification_report msg =
    if not (one_of msg.status verification_statuses)
    then some ("invalid verification status: " ^^ quote msg.status)
    else if msg.status is "passed" && not msg.passed
    then some "passed status requires passed=true"
    else if msg.status isn't "passed" && msg.passed
    then some "non-passed status requires passed=false"
    else if is_blank msg.reason
    then some "reason is required"
    else if no_items msg.evidence
    then some "evidence is required"
    else none
