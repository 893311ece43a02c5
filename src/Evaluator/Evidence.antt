-- ===== src/Evaluator/Evidence.antt =====
-- internal/orchestrator/verification.go: the evidence that the engine left for the latest implement
-- step. Reading an artifact and decoding it is the parameter `read_artifact`.
use gorchera.Base.{
  ℕ, ◌==◌, length, String, Bool, true, false, ◌&&◌, ◌||◌, not, List, [], ◌∷◌, ◌++◌, Option, none,
  some, if◌then◌else◌,
}
use gorchera.Base.Text.{◌is◌, ◌^^◌, trim_space, to_lower, contains, equal_fold, unique_strings}
use gorchera.Base.FilePath.{base}
use gorchera.Base.Dict.{get, put, String_eq}
use gorchera.Domain.{Step, RubricAxis, SprintContract}
use gorchera.Evaluator.Coverage.{missing_required_steps}

-- VerificationContract of package orchestrator.
pub record VerificationContract : Type 0 where
  pub version : ℕ
  pub goal : String
  pub summary : String
  pub sprint_contract_ref : String
  pub planning_artifact_refs : List String
  pub required_step_types : List String
  pub acceptance_criteria : List String
  pub engine_instructions : List String
  pub evaluator_criteria : List String
  pub rubric_axes : List RubricAxis

-- The result of the command is left out: nothing here reads it.
pub record EngineCheckArtifact : Type 0 where
  pub kind : String
  pub status : String
  pub command : String
  pub reason : String

last_implement : Option Step → List Step → Option Step
last_implement found [] = found
last_implement found (s ∷ steps) =
    last_implement (if equal_fold s.task_type "implement" then some s else found) steps

-- latestImplementStep.
unfoldable pub latest_implement_step : List Step → Option Step
unfolding last_implement
latest_implement_step = last_implement none

unfoldable pub is_engine_artifact : String → Bool
is_engine_artifact path =
    let name = to_lower (base path) in contains name "engine_build" || contains name "engine_test"

-- The kind that an artifact states, or else that of its file's name.
unfoldable pub artifact_kind : String → EngineCheckArtifact → String
artifact_kind path artifact =
    let stated = trim_space (to_lower artifact.kind) in
    let name = to_lower (base path) in
    if not (stated is "")
    then stated
    else if contains name "engine_build"
    then "build"
    else if contains name "engine_test"
    then "test"
    else ""

-- What the switch on an artifact's status adds to the missing evidence.
unfoldable pub artifact_missing : String → Option EngineCheckArtifact → List String
artifact_missing kind none = (kind ^^ " evidence") ∷ []
artifact_missing kind (some artifact) =
    let status = trim_space (to_lower artifact.status) in
    if status is "passed" || status is "skipped"
    then []
    else if not (artifact.reason is "")
    then (kind ^^ " failed: " ^^ artifact.reason) ∷ []
    else (kind ^^ " failed") ∷ []

unfoldable pub any_engine_artifact : List String → Bool
any_engine_artifact [] = false
any_engine_artifact (path ∷ paths) =
    let later = any_engine_artifact paths in if is_engine_artifact path then true else later

module _ (read_artifact : String → Option EngineCheckArtifact) where
  -- The loop of loadEngineCheckArtifacts.
  unfoldable pub load_from :
      List (String × EngineCheckArtifact) → List String → List (String × EngineCheckArtifact)
  load_from out [] = out
  load_from out (path ∷ paths) =
      let kept : List (String × EngineCheckArtifact) = elim (read_artifact path) [
        | none ↦ out
        | some artifact ↦
            let kind = artifact_kind path artifact in
            if kind is "" then out else put kind artifact out
      ] in
      load_from (if is_engine_artifact path then kept else out) paths

  unfoldable pub load_engine_check_artifacts : Step → List (String × EngineCheckArtifact)
  unfolding load_from
  load_engine_check_artifacts step = load_from [] step.artifacts

  -- engineVerificationSatisfied: the evidence that is missing, `[]` where the source returns true.
  unfoldable pub engine_missing : Option Step → List String
  unfolding any_engine_artifact
  engine_missing none = "implement step" ∷ []
  engine_missing (some step) =
      let artifacts = load_engine_check_artifacts step in
      if length artifacts == 0 && not (any_engine_artifact step.artifacts)
      then []
      else artifact_missing "build" (get "build" artifacts)
        ++ artifact_missing "test" (get "test" artifacts)

  -- What verificationSatisfiedForPipeline collects; it returns true when this is empty, and the
  -- texts of it without repetitions.
  unfoldable pub verification_missing : List Step → SprintContract → List String
  verification_missing steps sprint =
      missing_required_steps steps sprint.required_step_types
      ++ unique_strings (engine_missing (latest_implement_step steps))
