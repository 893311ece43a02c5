-- ===== src/Evaluator/Coverage.antt =====
-- internal/orchestrator/evaluator.go: which kinds of step have succeeded, and which are missing.
use gorchera.Base.{
  ℕ, ◌==◌, ◌-◌, ◌*◌, ◌/◌, length, String, Bool, true, false, ◌&&◌, not, List, [], ◌∷◌, any,
  if◌then◌else◌,
}
use gorchera.Base.Text.{◌is◌, ◌^^◌, trim_space, to_lower, contains, one_of, unique_strings}
use gorchera.Domain.{Step, is_succeeded, EvaluatorReport}

-- successfulStepTypes: each kind once, in the order of its first success.
unfoldable pub successful_from : List String → List Step → List String
successful_from seen [] = []
successful_from seen (s ∷ steps) = elim (is_succeeded s.status && not (one_of s.task_type seen)) [
  | false ↦ successful_from seen steps
  | true ↦ s.task_type ∷ successful_from (s.task_type ∷ seen) steps
]

abbrev pub successful_step_types : List Step → List String
successful_step_types = successful_from []

unfoldable pub has_succeeded : String → List Step → Bool
has_succeeded kind [] = false
has_succeeded kind (s ∷ steps) =
    let later = has_succeeded kind steps in
    if is_succeeded s.status && s.task_type is kind then true else later

-- missingRequiredSteps.
unfoldable pub missing_required_steps : List Step → List String → List String
missing_required_steps steps [] = []
missing_required_steps steps (kind ∷ kinds) =
    let later = missing_required_steps steps kinds in
    if has_succeeded kind steps then later else kind ∷ later

-- scoreCompletion.
unfoldable pub score_completion : List Step → List String → ℕ
score_completion steps required =
    if length required == 0
    then 0
    else (length required - length (missing_required_steps steps required)) * 100 / length required

-- summaryEvidence.
unfoldable pub summary_evidence : List Step → List String
summary_evidence [] = []
summary_evidence (s ∷ steps) =
    let later = summary_evidence steps in
    if is_succeeded s.status then (s.target ^^ ":" ^^ s.task_type) ∷ later else later

abbrev pub failure_phrases : List String
failure_phrases =
    "gate failure" ∷ "not a pass" ∷ "requirements not satisfied" ∷ "contract not satisfied"
    ∷ "did not pass" ∷ "does not pass" ∷ "cannot pass" ∷ "not passing" ∷ "fails the gate" ∷ []

-- evaluatorTextContradicts.
unfoldable pub evaluator_text_contradicts : EvaluatorReport → Bool
unfolding trim_space to_lower contains
evaluator_text_contradicts report =
    let reason = to_lower (trim_space report.reason) in
    if not report.passed then false else any (contains reason) failure_phrases

keep_required : List String → List String → List String
keep_required required [] = []
keep_required required (item ∷ items) =
    let later = keep_required required items in
    if one_of (to_lower (trim_space item)) required then item ∷ later else later

map_keys : List String → List String
map_keys [] = []
map_keys (item ∷ items) = to_lower (trim_space item) ∷ map_keys items

-- filterProviderMissingStepTypes.
unfoldable pub filter_provider_missing_step_types : List String → List String → List String
unfolding keep_required map_keys
filter_provider_missing_step_types missing required =
    keep_required (map_keys required) (unique_strings missing)

-- providerBlockedOnlyOnOptionalCoverage.
unfoldable pub provider_blocked_only_on_optional_coverage : EvaluatorReport → List String → Bool
provider_blocked_only_on_optional_coverage report filtered =
    report.status is "blocked"
    && not report.passed
    && not (length report.missing_step_types == 0)
    && length filtered == 0
