-- ===== src/Evaluator/Score.antt =====
-- internal/orchestrator/evaluator.go: what the coverage of the required steps says of a job.
use gorchera.Base.{
  ℕ, ◌-◌, ◌*◌, ◌/◌, ◌≤◌, ◌<◌, length, String, ◌≡◌, ◌≢◌, refl, ◌↔◌, inl, inr, true, List, [], ◌∷◌,
  All, arith, Bool-cases,
}
use gorchera.Base.Text.{is_iff}
use gorchera.Domain.{Step, StepStatus, is_succeeded}
use gorchera.Evaluator.Coverage.{has_succeeded, missing_required_steps, score_completion}

-- Some step of the kind has succeeded.
pub data Succeeded (kind : String) : List Step → Type 0 where
  now :
      {s : Step} {steps : List Step}
      → s.status ≡ StepStatus.succeeded
      → s.task_type ≡ kind
      → Succeeded kind (s ∷ steps)
  later : {s : Step} {steps : List Step} → Succeeded kind steps → Succeeded kind (s ∷ steps)

succeeded_status : (s : StepStatus) → is_succeeded s ≡ true → s ≡ StepStatus.succeeded
succeeded_status StepStatus.succeeded h = refl
succeeded_status StepStatus.pending h = cc
succeeded_status StepStatus.active h = cc
succeeded_status StepStatus.blocked h = cc
succeeded_status StepStatus.failed h = cc
succeeded_status StepStatus.skipped h = cc

Succeeded-of :
    (kind : String) (steps : List Step) → has_succeeded kind steps ≡ true → Succeeded kind steps
unfolding has_succeeded
Succeeded-of kind [] h = cc
Succeeded-of kind (s ∷ steps) h = elim (Bool-cases (has_succeeded kind steps)) [
  | inl found ↦ later (Succeeded-of kind steps found)
  | inr none ↦
      now (succeeded_status s.status (ground arith)) (ground (arith, is_iff s.task_type kind))
]

of_Succeeded :
    (kind : String) (steps : List Step) → Succeeded kind steps → has_succeeded kind steps ≡ true
unfolding has_succeeded
of_Succeeded kind [] h = elim h [ ]
of_Succeeded kind (s ∷ steps) (now done same) = ground (arith, is_iff s.task_type kind)
of_Succeeded kind (s ∷ steps) (later h) = ground (arith, of_Succeeded kind steps h)

missing-le :
    (steps : List Step) (required : List String)
    → length (missing_required_steps steps required) ≤ length required
unfolding missing_required_steps
missing-le steps [] = omega arith
missing-le steps (kind ∷ kinds) = ground (arith, missing-le steps kinds)

pub All-of_none :
    (steps : List Step) (required : List String)
    → length (missing_required_steps steps required) ≡ 0
    → All (λ kind. Succeeded kind steps) required
unfolding missing_required_steps
All-of_none steps [] h = tt
All-of_none steps (kind ∷ kinds) h = elim (Bool-cases (has_succeeded kind steps)) [
  | inl found ↦ (Succeeded-of kind steps found, All-of_none steps kinds (ground arith))
  | inr absent ↦ absurd (ground arith)
]

pub none_of_All :
    (steps : List Step) (required : List String)
    → All (λ kind. Succeeded kind steps) required
    → length (missing_required_steps steps required) ≡ 0
unfolding missing_required_steps
none_of_All steps [] h = refl
none_of_All steps (kind ∷ kinds) h =
    ground (arith, of_Succeeded kind steps h.0, none_of_All steps kinds h.1)

share_le : (n m : ℕ) → 0 < n → (n - m) * 100 / n ≤ 100
share_le n m h = grind arith

share_full : (n m : ℕ) → 0 < n → m ≤ n → ((n - m) * 100 / n ≡ 100) ↔ (m ≡ 0)
share_full n m h le = ((λ e. ground arith), λ e. rw e (grind arith))

score_completion-cons :
    (steps : List Step) (kind : String) (kinds : List String)
    → score_completion steps (kind ∷ kinds)
      ≡ (length (kind ∷ kinds) - length (missing_required_steps steps (kind ∷ kinds)))
        * 100
        / length (kind ∷ kinds)
unfolding score_completion
score_completion-cons steps kind kinds = ground arith

-- The score never passes 100, and with steps required it is 100 exactly when a step of each required
-- kind has succeeded.
pub score_completion_bounds :
    (steps : List Step) (required : List String)
    → (score_completion steps required ≤ 100)
      × (required ≢ []
          → (score_completion steps required ≡ 100) ↔ All (λ kind. Succeeded kind steps) required)
score_completion_bounds steps [] = (unfold score_completion in omega arith, λ h. absurd (h refl))
score_completion_bounds steps (kind ∷ kinds) =
    let required : List String = kind ∷ kinds in
    let n : ℕ = length required in
    let m : ℕ = length (missing_required_steps steps required) in
    let full = share_full n m (omega arith) (missing-le steps required) in
    rw (score_completion-cons steps kind kinds) (
      share_le n m (omega arith),
      λ _. (
        (λ e. All-of_none steps required (full.0 e)),
        λ all. full.1 (none_of_All steps required all),
      ),
    )
