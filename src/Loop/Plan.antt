-- ===== src/Loop/Plan.antt =====
-- internal/orchestrator/planning.go: the planner's phase and the documents that are written before
-- the first step of a job.
use gorchera.Base.{
  ltb, ◌==◌, length, String, Bool, ◌&&◌, ◌||◌, not, List, [], ◌∷◌, ◌++◌, none, some, if◌then◌else◌,
}
use gorchera.Base.Text.{◌is◌, ◌^^◌, is_blank, unique_strings}
use gorchera.Base.Result.{ok, err}
use gorchera.Domain.{Job, PlanningArtifact}
use gorchera.Planning.{
  build_planning_artifact, build_sprint_contract, build_verification_contract,
  build_persisted_verification_contract, validate_planning_artifact,
}
use gorchera.Provider.{raw, failure}
use gorchera.Service.{Act, ◌>>◌, fail_with, modify, add_event, touch, save, fail_job, interrupt_job}
use gorchera.Loop.Answers.{World, at_turn}
use gorchera.Loop.Evaluate.{unsupported_phase}

-- The level and the limit that an adaptive job takes from the planner.
unfoldable pub adopt_recommendation : PlanningArtifact → Job → Job
adopt_recommendation plan job =
    let level = plan.recommended_strictness in
    if job.strictness_level is "auto"
    then record job {
      strictness_level =
          if level is "strict" || level is "normal" || level is "lenient" then level else "normal";
      max_steps =
          if plan.recommended_max_steps == 0 then job.max_steps else plan.recommended_max_steps;
    }
    else job

unfoldable pub fall_back_strictness : Job → Job
fall_back_strictness job =
    if job.strictness_level is "auto" then record job { strictness_level = "normal" } else job

-- The job with its documents.
unfoldable pub planned : PlanningArtifact → List String → String → Job → Job
unfolding build_sprint_contract build_verification_contract build_persisted_verification_contract
planned planning refs path job =
    let contract = build_sprint_contract job planning in
    let verification = build_verification_contract job planning contract refs in
    record job {
      verification_contract =
          some (build_persisted_verification_contract job planning verification path);
      verification_contract_ref = path;
      planning_artifacts = refs ++ path ∷ [];
      constraints = unique_strings (job.constraints ++ planning.invariants_to_preserve);
      summary = planning.summary;
      leader_context_summary = planning.summary;
    }

-- `len(job.PlanningArtifacts) > 0 && strings.TrimSpace(job.SprintContractRef) != ""`
abbrev pub is_planned : Job → Bool
is_planned job = ltb 0 (length job.planning_artifacts) && not (is_blank job.sprint_contract_ref)

module _ (w : World) where
  -- One document is written, or the step fails with the error.
  unfoldable pub write_document : String → (String → Act) → Act
  unfolding at_turn
  write_document name k =
      at_turn λ n. elim (w.document_written n name) [ err e ↦ fail_with e | ok path ↦ k path ]

  -- persistPlanning.
  unfoldable pub persist_planning : PlanningArtifact → Act
  unfolding write_document planned
  persist_planning planning = write_document "product_spec.md" λ spec.
      write_document "execution_plan.json" λ plan. write_document "sprint_contract.json" λ contract.
        modify (λ job. record job { sprint_contract_ref = contract })
        >> write_document "verification_contract.json" λ path.
          modify (planned planning (spec ∷ plan ∷ contract ∷ []) path)
          >> add_event "job_planned" "planned 4 artifacts"
          >> touch
          >> save w.env

  fail_planner : String → Act
  fail_planner e = fail_job w.env ("planner execution failed: " ^^ e)

  -- What follows on the planner's text.
  unfoldable pub receive_plan : String → Act
  unfolding fail_planner adopt_recommendation
  receive_plan text r = elim (w.decode_plan text) [
    | err e ↦ fail_planner e r
    | ok out ↦
        let (plan, error) = validate_planning_artifact out r.job in
        elim error [
          | some e ↦ fail_planner e r
          | none ↦
              (modify (adopt_recommendation plan)
                  >> (λ r'. persist_planning (build_planning_artifact r'.job (some plan)) r'))
                r
        ]
  ]

  -- The planner's phase, with what ensurePlanning does on its end.
  unfoldable pub run_planner : Act
  unfolding at_turn receive_plan fail_planner
  run_planner = at_turn λ n. elim (w.call n 0) [
    | raw text ↦ receive_plan text
    | failure f ↦ λ r.
        (if w.shut_down n
            then interrupt_job w.env "orchestrator shutdown interrupted the planner phase"
            else if unsupported_phase f
            then persist_planning (build_planning_artifact r.job none)
            else fail_planner f.text)
          r
  ]

  -- ensurePlanning.
  unfoldable pub ensure_planning : Act
  unfolding run_planner fall_back_strictness
  ensure_planning r =
      if is_planned r.job
      then (r, none)
      else if r.job.skip_planning
      then (modify fall_back_strictness
            >> (λ r'. persist_planning (build_planning_artifact r'.job none) r'))
          r
      else run_planner r
