-- ===== src/Loop/Answers.antt =====
-- internal/orchestrator/service.go: what the run of a job asks of providers, processes, files and
-- encoding/json. Each question has its number, the turn, so that any sequence of answers is possible.
use gorchera.Base.{
  ℕ, suc, String, Bool, true, false, ◌||◌, List, [], ◌∷◌, Option, none, some, if◌then◌else◌, set,
  get_elem?,
}
use gorchera.Base.Text.{trim_space, to_lower, contains, first_non_empty, join}
use gorchera.Base.Result.{Result, ok, err}
use gorchera.Domain.{
  JobStatus, Step, LeaderOutput, WorkerOutput, EvaluatorReport, PlanningArtifact, StructuredReason,
  ChangedFile, AutomatedCheck, AutomatedCheckResult,
}
use gorchera.Allowlist.{Request}
use gorchera.Evaluator.{VerificationContract, EngineCheckArtifact}
use gorchera.Parallel.{Texts}
use gorchera.Prepare.{Site}
use gorchera.Provider.{
  Answer, raw, failure, Failure, PhaseEnd, answered, gave_up, ErrorAction, execute_provider_phase,
}
use gorchera.Service.{Env, Act}

-- The fields of runtime.Result that the program reads.
pub record RunResult : Type 0 where
  pub category : String
  pub command : String
  pub exit_code : ℕ
  pub stdout : String
  pub stderr : String
  pub timed_out : Bool

-- `error` of a process that was started: a text, which is not that of a command that is not allowed.
pub record CommandEnd : Type 0 where
  pub result : RunResult
  pub error : Option String

-- `call n k` is the k-th call of the phase of turn n, `wait n k` the error of the context in the wait
-- after it; `context_error n` is `ctx.Err()`; `shut_down n` is `isShutdownInterruption` for the error
-- of turn n, `is_over n` says that the context is over and that error a cancellation or an exceeded
-- deadline, `is_context_error n` that it is `ctx.Err()`; `is_deadline n` says
-- that the error of turn n is an exceeded deadline. The decoders take the value that they decode into
-- and return it as they leave it. `command` is a process, the `..._written` are the paths that the
-- artifact store returns, and the rest are files, git and the environment.
pub record World : Type 0 where
  pub env : Env
  pub site : Site
  pub call : ℕ → ℕ → Answer
  pub wait : ℕ → ℕ → Option String
  pub format_duration : ℕ → String
  pub format_score : ℕ → String
  pub context_error : ℕ → Option String
  pub shut_down : ℕ → Bool
  pub is_over : ℕ → Bool
  pub is_context_error : ℕ → Bool
  pub is_deadline : ℕ → Bool
  pub decode_leader : String → LeaderOutput → LeaderOutput × Option String
  pub decode_worker : String → WorkerOutput → WorkerOutput × Option String
  pub decode_report : String → EvaluatorReport → EvaluatorReport × Option String
  pub decode_plan : String → Result PlanningArtifact
  pub texts : Texts
  pub encode_failure : String → Option StructuredReason → String
  pub worker_written : ℕ → ℕ → WorkerOutput → Result (List String)
  pub system_written : ℕ → ℕ → RunResult → Result (List String)
  pub check_written : ℕ → String → EngineCheckArtifact → Result String
  pub report_written : ℕ → EvaluatorReport → Result String
  pub document_written : ℕ → String → Result String
  pub read_contract : ℕ → String → Result VerificationContract
  pub read_artifact : ℕ → String → Option EngineCheckArtifact
  pub command : ℕ → Request → CommandEnd
  pub look_path : ℕ → String → Bool
  pub file_exists : ℕ → String → Bool
  pub working_dir : Result String
  pub lease_error : ℕ → Option String
  pub diff_stat : ℕ → String → String
  pub changed_files : ℕ → String → List ChangedFile
  pub run_checks : ℕ → String → List AutomatedCheck → List Step → List AutomatedCheckResult

-- A step of the service that is told the number of its turn.
unfoldable pub at_turn : (ℕ → Act) → Act
at_turn k r =
    k r.service.turn (record r { service = record r.service { turn = suc r.service.turn } })

-- `v, err := x`, with what follows on the error and on the value.
unfoldable pub on_result : {A : Type 0} → Result A → (String → Act) → (A → Act) → Act
on_result (err e) f g = f e
on_result (ok a) f g = g a

-- The same where there is an error alone.
unfoldable pub on_error : Option String → (String → Act) → Act → Act
on_error (some e) f k = f e
on_error none f k = k

-- What follows on the text and on the error of a call.
unfoldable pub on_answer : Answer → (String → Act) → (Failure → Act) → Act
on_answer (raw text) k f = k text
on_answer (failure e) k f = f e

abbrev pub is_blocking : ErrorAction → Bool
is_blocking ErrorAction.block = true
is_blocking _ = false

-- What follows on the text and on the error of a phase.
unfoldable pub on_end : PhaseEnd → (String → Act) → (ErrorAction → String → Act) → Act
on_end (answered text) k f = k text
on_end (gave_up action text) k f = f action text

-- executeProviderPhase with what follows on its end.
unfoldable pub phase : World → String → (ℕ → PhaseEnd → Act) → Act
unfolding at_turn
phase w name k = at_turn λ n r.
    let (r', end) = execute_provider_phase (w.call n) (w.wait n) w.format_duration name r in
    k n end r'

-- `job.Status == domain.JobStatusBlocked || job.Status == domain.JobStatusFailed`
abbrev pub is_stopped : JobStatus → Bool
is_stopped JobStatus.blocked = true
is_stopped JobStatus.failed = true
is_stopped _ = false

-- The step goes on unless the job is blocked or failed.
unfoldable pub unless_stopped : Act → Act
unless_stopped k r = elim (is_stopped r.job.status) [ true ↦ (r, none) | false ↦ k r ]

-- `step := &job.Steps[i]` changed by `f`.
unfoldable pub change_at : ℕ → (Step → Step) → List Step → List Step
change_at i f steps = elim (get_elem? steps i) [ none ↦ steps | some s ↦ set steps i (f s) ]

reason_of : String → String → String → String → Option StructuredReason
reason_of category detail default action = some (record {
  category = category;
  detail = first_non_empty (detail ∷ default ∷ []);
  suggested_action = action;
})

-- classifyWorkerFailure. `error` is none for the nil error; `deadline` says that it is an exceeded
-- deadline, `json` that it is one of encoding/json.
unfoldable pub classify_worker_failure :
    Bool → Bool → Option String → String → Option StructuredReason
unfolding reason_of
classify_worker_failure deadline json error output =
    let detail : String = elim error [ none ↦ trim_space output | some e ↦ trim_space e ] in
    let combined = to_lower (trim_space (join (detail ∷ output ∷ []) "\n")) in
    if deadline || contains combined "context deadline exceeded"
    then reason_of "timeout" detail "worker execution timed out" "increase_timeout"
    else if json
        || contains combined "json unmarshal"
        || contains combined "schema validation"
        || contains combined "is required"
        || contains combined "invalid"
        || contains combined "validation failed"
    then reason_of "schema_violation" detail "worker output schema violation" "retry"
    else if contains combined "permission" || contains combined "access"
    then reason_of "file_access" detail "worker file access failure" "check_permissions"
    else if contains combined "test"
    then reason_of "test_failure" detail "worker test failure" "fix_code"
    else if contains combined "build" || contains combined "compile"
    then reason_of "build_failure" detail "worker build failure" "fix_code"
    else none
