-- ===== src/Loop/Engine.antt =====
-- internal/orchestrator/service.go and internal/runtime/runner.go: the start of a command and the
-- build and test that the engine runs after an implement step.
use gorchera.Base.{
  ℕ, ltb, ◌==◌, length, String, Bool, true, false, ◌&&◌, not, List, [], ◌∷◌, Option, none, some,
  if◌then◌else◌,
}
use gorchera.Base.Text.{◌is◌, ◌^^◌, is_space, is_blank, trim_space, first_non_empty, join, itoa}
use gorchera.Allowlist.{Request, allows, new_default_policy}
use gorchera.Domain.{Job}
use gorchera.Evaluator.{EngineCheckArtifact}
use gorchera.Service.{Run, Act, done}
use gorchera.Loop.Answers.{World, RunResult, at_turn}

-- What runner.Run returns; `not_allowed` says that the error is ErrNotAllowed.
pub record RunEnd : Type 0 where
  pub result : RunResult
  pub error : Option String
  pub not_allowed : Bool

abbrev pub no_result : RunResult
no_result = record {
  category = "";
  command = "";
  exit_code = 0;
  stdout = "";
  stderr = "";
  timed_out = false;
}

-- `strings.Fields`; `part` is the field so far.
fields_from : String → String → List String
fields_from part String.[] = if part is "" then [] else part ∷ []
fields_from part (String.◌∷◌ c s) = elim (is_space c) [
  | true ↦ (let rest = fields_from "" s in if part is "" then rest else part ∷ rest)
  | false ↦ fields_from (part ^^ String.◌∷◌ c "") s
]

unfoldable pub fields : String → List String
unfolding fields_from
fields = fields_from ""

abbrev pub head_of : List String → String
head_of [] = ""
head_of (x ∷ xs) = x

abbrev pub tail_of : List String → List String
tail_of [] = []
tail_of (x ∷ xs) = xs

pub record Resolved : Type 0 where
  pub exe : String
  pub args : List String
  pub text : String

-- resolveEngineCommand.
unfoldable pub resolve_engine_command : String → String → List String → Resolved
unfolding fields
resolve_engine_command custom default_cmd default_args =
    let parts = fields custom in
    if is_blank custom
    then record {
      exe = default_cmd;
      args = default_args;
      text = join (default_cmd ∷ default_args) " ";
    }
    else if length parts == 1
    then record { exe = head_of parts; args = []; text = head_of parts }
    else record { exe = head_of parts; args = tail_of parts; text = custom }

abbrev pub build_command : Job → Resolved
build_command job = resolve_engine_command job.engine_build_cmd "go" ("build" ∷ "./..." ∷ [])

abbrev pub test_command : Job → Resolved
test_command job = resolve_engine_command job.engine_test_cmd "go" ("test" ∷ "./..." ∷ [])

abbrev pub check_record : String → String → String → String → EngineCheckArtifact
check_record kind status command reason = record {
  kind = kind;
  status = status;
  command = command;
  reason = reason;
}

-- engineSkippedArtifacts.
unfoldable pub engine_skipped_artifacts : Job → String → List EngineCheckArtifact
unfolding resolve_engine_command
engine_skipped_artifacts job reason =
    check_record "build" "skipped" (build_command job).text reason
    ∷ check_record "test" "skipped" (test_command job).text reason
    ∷ []

-- engineCheckFromResult.
unfoldable pub engine_check_from_result : String → Request → RunEnd → EngineCheckArtifact
engine_check_from_result kind req end =
    let command = trim_space (join (req.command ∷ req.args) " ") in
    elim end.error [
      | none ↦ check_record kind "passed" command ""
      | some e ↦
          check_record kind "failed" command
            (first_non_empty (trim_space end.result.stderr ∷ trim_space end.result.stdout ∷ e ∷ []))
    ]

-- formatEngineCheckSummary.
unfoldable pub format_engine_check_summary : EngineCheckArtifact → String
format_engine_check_summary c =
    if c.status is "skipped"
    then c.kind ^^ " skipped (" ^^ c.reason ^^ ")"
    else if c.status is "failed"
    then c.kind ^^ " failed (" ^^ c.reason ^^ ")"
    else c.kind ^^ " passed"

-- appendStepSummary.
unfoldable pub append_step_summary : String → String → String
append_step_summary base extra =
    if trim_space base is ""
    then trim_space extra
    else if trim_space extra is ""
    then trim_space base
    else trim_space base ^^ "\nEngine verification: " ^^ trim_space extra

-- `%02d`
abbrev two_digits : ℕ → String
two_digits n = if ltb n 10 then "0" ^^ itoa n else itoa n

-- engineVerificationArtifactName.
unfoldable pub engine_verification_artifact_name : ℕ → String → String
engine_verification_artifact_name index kind =
    "step-" ^^ two_digits index ^^ "-engine_" ^^ kind ^^ ".json"

-- What executeEngineVerification returns: the records, their summary and the reason of a failure, or
-- the error of the turn.
pub data EngineEnd : Type 0 where
  checked : List EngineCheckArtifact → String → String → EngineEnd
  gone : ℕ → String → EngineEnd

abbrev pub skipped : Job → String → EngineEnd
skipped job reason =
    checked (engine_skipped_artifacts job reason) ("engine verification skipped: " ^^ reason) ""

abbrev pub error_text : Option String → String
error_text none = ""
error_text (some e) = e

abbrev pub is_error : Option String → Bool
is_error none = false
is_error (some e) = true

-- The command is started, so it is the last one of those that were.
abbrev pub started : Request → Run → Run
started req r = record r { service = record r.service { ran = req ∷ r.service.ran } }

module _ (w : World) where
  -- Runner.Run: a command that the allowlist refuses is not started.
  unfoldable pub run_command : Request → (ℕ → RunEnd → Act) → Act
  unfolding at_turn
  run_command req k = at_turn λ n r. elim (allows new_default_policy req) [
    | some e ↦
        k n
          (record {
            result = no_result;
            error = some ("runtime command not allowed: " ^^ e);
            not_allowed = true;
          })
          r
    | none ↦
        let end = w.command n req in
        k n (record { result = end.result; error = end.error; not_allowed = false }) (started req r)
  ]

  -- The test on the error of the command of a turn.
  abbrev pub is_such : (ℕ → Bool) → ℕ → RunEnd → Bool
  is_such test n end = is_error end.error && not end.not_allowed && test n

  -- What follows on a command of the preparation.
  unfoldable pub after_pre_build : Act → ℕ → RunEnd → Act
  after_pre_build rest n end =
      if is_error end.error && is_error (w.context_error n) then done else rest

  -- runPreBuildCommands.
  unfoldable pub run_pre_build_commands : String → List String → Act
  unfolding run_command fields after_pre_build
  run_pre_build_commands dir [] = done
  run_pre_build_commands dir (raw ∷ cmds) =
      let rest = run_pre_build_commands dir cmds in
      let parts = fields (trim_space raw) in
      let req : Request = record {
        category = "build";
        command = head_of parts;
        args = tail_of parts;
        dir = dir;
      } in
      if is_blank raw then rest else run_command req (after_pre_build rest)
