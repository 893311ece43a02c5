-- ===== src/Evaluator/Shown.antt =====
-- internal/orchestrator/verification.go: what verificationSatisfiedForPipeline asks for, said without
-- the texts of what is missing.
use gorchera.Base.{
  ◌≡◌, refl, subst, sym, ap, ◌∙◌, ◌↔◌, ◌⊎◌, inl, inr, String, false, List, [], ◌∷◌, ◌++◌, All,
  Option, none, some, arith, Bool-cases, Option-cases, length, ◌==◌, ◌&&◌, ◌||◌, not,
}
use Prim.Native.Char.{Char}
use gorchera.Base.Text.{is_space}
use gorchera.Base.Text.{
  ◌is◌, ◌^^◌, is_iff, is_blank, is_blank-cons, one_of, trim_space, to_lower, unique_strings,
  unique_from,
}
use text.Mathlib.TextLemmas.{cons-append}
use gorchera.Base.Dict.{get, String_eq}
use gorchera.Domain.{Step, SprintContract}
use gorchera.Evaluator.Coverage.{missing_required_steps}
use gorchera.Evaluator.Score.{Succeeded, All-of_none, none_of_All}
use gorchera.Evaluator.Evidence.{
  EngineCheckArtifact, verification_missing, engine_missing, latest_implement_step,
  load_engine_check_artifacts, is_engine_artifact, artifact_missing, load_from, any_engine_artifact,
}

-- The engine's check of a kind is there, and passed or was skipped.
abbrev pub IsGood : Option EngineCheckArtifact → Type 0
IsGood o =
    (a : EngineCheckArtifact) × (o ≡ some a)
    × ((trim_space (to_lower a.status) ≡ "passed") ⊎ (trim_space (to_lower a.status) ≡ "skipped"))

-- The latest implement step has no artifact that is named as one of the engine's, or the engine's
-- build and test among its artifacts are good.
pub record IsShown (read_artifact : String → Option EngineCheckArtifact) (steps : List Step)
    : Type 0 where
  pub step : Step
  pub latest : latest_implement_step steps ≡ some step
  pub engine :
      All (λ path. is_engine_artifact path ≡ false) step.artifacts
      ⊎ (IsGood (get "build" (load_engine_check_artifacts read_artifact step))
          × IsGood (get "test" (load_engine_check_artifacts read_artifact step)))

artifact_missing-nil_iff :
    (kind : String) (o : Option EngineCheckArtifact) → (artifact_missing kind o ≡ []) ↔ IsGood o
unfolding artifact_missing
artifact_missing-nil_iff kind none =
    ((λ h. absurd (ground (arith, h))), λ h. absurd (ground (arith, h)))
artifact_missing-nil_iff kind (some a) =
    let status = trim_space (to_lower a.status) in
    (
      (λ h. (a, refl, ground (arith, h, is_iff status "passed", is_iff status "skipped"))),
      λ (b, e, good).
          let same : b ≡ a = ground (arith, e) in
          ground (arith, same, good, is_iff status "passed", is_iff status "skipped"),
    )

append-nil_iff : (xs ys : List String) → (xs ++ ys ≡ []) ↔ ((xs ≡ []) × (ys ≡ []))
append-nil_iff [] ys = ((λ h. (refl, h)), λ h. h.1)
append-nil_iff (x ∷ xs) ys = ((λ h. absurd (ground (arith, h))), λ h. absurd (ground (arith, h.0)))

unique_strings-nil :
    (x : String) (xs : List String) → is_blank x ≡ false → unique_strings (x ∷ xs) ≡ [] → ⊥
unfolding unique_from one_of
unique_strings-nil x xs h e = ground (arith, h, e)

begins-filled :
    (c : Char) (k y : String) → is_space c ≡ false → is_blank (String.◌∷◌ c k ^^ y) ≡ false
begins-filled c k y h =
    subst (λ t. is_blank t ≡ false) (sym (cons-append c k y)) (is_blank-cons c (k ^^ y) h)

-- What is missing of a kind is nothing or a text that is not blank.
artifact_missing-cases :
    (c : Char) (k : String) (o : Option EngineCheckArtifact)
    → is_space c ≡ false
    → (artifact_missing (String.◌∷◌ c k) o ≡ [])
      ⊎ ((x : String) × (artifact_missing (String.◌∷◌ c k) o ≡ x ∷ []) × (is_blank x ≡ false))
unfolding artifact_missing
artifact_missing-cases c k none h = inr (_, refl, begins-filled c k " evidence" h)
artifact_missing-cases c k (some a) h =
    let status = trim_space (to_lower a.status) in
    elim (Bool-cases (status is "passed" || status is "skipped")) [
      | inl good ↦ inl (ground (arith, good))
      | inr bad ↦ elim (Bool-cases (a.reason is "")) [
        | inl quiet ↦
            inr (String.◌∷◌ c k ^^ " failed", ground (arith, bad, quiet), begins-filled c k _ h)
        | inr told ↦ inr (
          String.◌∷◌ c k ^^ (" failed: " ^^ a.reason),
          ground (arith, bad, told),
          begins-filled c k _ h,
        )
      ]
    ]

-- A list that is empty or begins with a text that is not blank.
abbrev IsFilled : List String → Type 0
IsFilled xs = (xs ≡ []) ⊎ ((x : String) × (xs ≡ x ∷ []) × (is_blank x ≡ false))

unique_strings-append_nil :
    (xs ys : List String)
    → IsFilled xs
    → IsFilled ys
    → unique_strings (xs ++ ys) ≡ []
    → (xs ≡ []) × (ys ≡ [])
unique_strings-append_nil xs ys (inr (x, e, said)) g h =
    absurd (unique_strings-nil x ys said (ap (λ zs. unique_strings (zs ++ ys)) (sym e) ∙ h))
unique_strings-append_nil xs ys (inl e) (inl f) h = (e, f)
unique_strings-append_nil xs ys (inl e) (inr (y, f, said)) h =
    absurd (unique_strings-nil y [] said (ap unique_strings (sym (ap (λ zs. zs ++ ys) e ∙ f)) ∙ h))

any_engine_artifact-All :
    (paths : List String)
    → (any_engine_artifact paths ≡ false) ↔ All (λ path. is_engine_artifact path ≡ false) paths
unfolding any_engine_artifact
any_engine_artifact-All [] = ((λ h. tt), λ h. refl)
any_engine_artifact-All (p ∷ paths) =
    let rest = any_engine_artifact-All paths in
    elim (Bool-cases (is_engine_artifact p)) [
      | inl named ↦
          ((λ h. absurd (ground (arith, h, named))), λ h. absurd (ground (arith, h.0, named)))
      | inr plain ↦ (
        (λ h. (plain, rest.0 (ground (arith, h, plain)))),
        λ h. ground (arith, plain, rest.1 h.1),
      )
    ]

nil_of_length : (xs : List String) → length xs ≡ 0 → xs ≡ []
nil_of_length [] h = refl
nil_of_length (x ∷ xs) h = absurd (omega (arith, h))

module _ (read_artifact : String → Option EngineCheckArtifact) where
  load_from-plain :
      (out : List (String × EngineCheckArtifact)) (paths : List String)
      → All (λ path. is_engine_artifact path ≡ false) paths
      → load_from read_artifact out paths ≡ out
  unfolding load_from
  load_from-plain out [] h = refl
  load_from-plain out (p ∷ paths) h = rw (h.0, load_from) (load_from-plain out paths h.1)

  both_kinds :
      (step : Step)
      → (length (load_engine_check_artifacts read_artifact step) == 0
          && not (any_engine_artifact step.artifacts))
        ≡ false
      → engine_missing read_artifact (some step)
        ≡ artifact_missing "build" (get "build" (load_engine_check_artifacts read_artifact step))
          ++ artifact_missing "test" (get "test" (load_engine_check_artifacts read_artifact step))
  unfolding engine_missing
  both_kinds step h = rw (h, engine_missing) refl

  to_shown :
      (steps : List Step)
      → unique_strings (engine_missing read_artifact (latest_implement_step steps)) ≡ []
      → IsShown read_artifact steps
  unfolding engine_missing is_space
  to_shown steps h = elim (Option-cases (latest_implement_step steps)) [
    | inl e ↦ absurd (
        unique_strings-nil "implement step" [] (begins-filled "i" "mplement step" "" refl)
          (ap (λ o. unique_strings (engine_missing read_artifact o)) (sym e) ∙ h))
    | inr (step, e) ↦
        let arts = load_engine_check_artifacts read_artifact step in
        let h' = ap (λ o. unique_strings (engine_missing read_artifact o)) (sym e) ∙ h in
        elim (Bool-cases (length arts == 0 && not (any_engine_artifact step.artifacts))) [
          | inl plain ↦ record {
            step = step;
            latest = e;
            engine = inl ((any_engine_artifact-All step.artifacts).0 (ground (arith, plain)));
          }
          | inr some_there ↦
              let both =
                unique_strings-append_nil (artifact_missing "build" (get "build" arts))
                  (artifact_missing "test" (get "test" arts))
                  (artifact_missing-cases "b" "uild" (get "build" arts) refl)
                  (artifact_missing-cases "t" "est" (get "test" arts) refl)
                  (ap unique_strings (sym (both_kinds step some_there)) ∙ h') in
              record {
                step = step;
                latest = e;
                engine = inr (
                  (artifact_missing-nil_iff "build" _).0 both.0,
                  (artifact_missing-nil_iff "test" _).0 both.1,
                );
              }
        ]
  ]

  of_step :
      (step : Step)
      → All (λ path. is_engine_artifact path ≡ false) step.artifacts
        ⊎ (IsGood (get "build" (load_engine_check_artifacts read_artifact step))
            × IsGood (get "test" (load_engine_check_artifacts read_artifact step)))
      → engine_missing read_artifact (some step) ≡ []
  unfolding engine_missing load_engine_check_artifacts
  of_step step (inl plain) = ground (
    arith,
    (any_engine_artifact-All step.artifacts).1 plain,
    load_from-plain [] step.artifacts plain,
  )
  of_step step (inr (build, test)) = ground (
    arith,
    (artifact_missing-nil_iff "build"
          (get "build" (load_engine_check_artifacts read_artifact step))).1
        build,
    (artifact_missing-nil_iff "test"
          (get "test" (load_engine_check_artifacts read_artifact step))).1
        test,
  )

  of_shown :
      (steps : List Step)
      → IsShown read_artifact steps
      → engine_missing read_artifact (latest_implement_step steps) ≡ []
  of_shown steps s = ap (engine_missing read_artifact) s.latest ∙ of_step s.step s.engine

  -- Nothing is missing exactly when a step of each required kind has succeeded and the evidence is
  -- shown.
  pub verification_missing-nil_iff :
      (steps : List Step) (sprint : SprintContract)
      → (verification_missing read_artifact steps sprint ≡ []) ↔ (
          All (λ kind. Succeeded kind steps) sprint.required_step_types
          × IsShown read_artifact steps)
  unfolding verification_missing unique_from
  verification_missing-nil_iff steps sprint =
      let parts =
        append-nil_iff (missing_required_steps steps sprint.required_step_types)
          (unique_strings (engine_missing read_artifact (latest_implement_step steps))) in
      (
        (λ h. (
          All-of_none steps sprint.required_step_types (ap length (parts.0 h).0),
          to_shown steps (parts.0 h).1,
        )),
        λ h. parts.1 (
          nil_of_length _ (none_of_All steps sprint.required_step_types h.0),
          ap unique_strings (of_shown steps h.1),
        ),
      )
