-- ===== src/Loop/Checks.antt =====
-- internal/orchestrator/service.go: the engine's build and test after an implement step that has
-- succeeded, and what they do to the step.
use gorchera.Base.{
  ℕ, String, Bool, true, false, ◌&&◌, ◌||◌, not, List, [], ◌∷◌, ◌++◌, none, some, if◌then◌else◌,
  get_elem?,
}
use gorchera.Base.Text.{◌is◌, ◌^^◌, is_blank, equal_fold, first_non_empty, join}
use gorchera.Base.FilePath.{join_path}
use gorchera.Allowlist.{Request}
use gorchera.Domain.{Job, JobStatus, Step, StepStatus, is_succeeded}
use gorchera.Evaluator.{EngineCheckArtifact}
use gorchera.Service.{Run, Act, ◌>>◌, done, modify, add_event, fail_job, interrupt_job}
use gorchera.Loop.Answers.{World, at_turn, on_result, change_at}
use gorchera.Loop.Engine.{
  EngineEnd, RunEnd, checked, gone, Resolved, build_command, test_command, check_record,
  engine_check_from_result, format_engine_check_summary, append_step_summary,
  engine_verification_artifact_name, skipped, error_text, is_error, is_such, run_command,
  run_pre_build_commands, resolve_engine_command, engine_skipped_artifacts,
}

abbrev pub check_request : String → Resolved → String → Request
check_request category c dir = record {
  category = category;
  command = c.exe;
  args = c.args;
  dir = dir;
}

abbrev summary_of : List EngineCheckArtifact → String
summary_of [] = ""
summary_of (a ∷ []) = format_engine_check_summary a
summary_of (a ∷ b ∷ rest) =
    join (format_engine_check_summary a ∷ format_engine_check_summary b ∷ []) "; "

-- What a step gets from its records.
unfoldable pub with_checks : List String → String → Step → Step
unfolding append_step_summary
with_checks paths summary step = record step {
  artifacts = step.artifacts ++ paths;
  summary = append_step_summary step.summary summary;
}

unfoldable pub fail_step : String → Step → Step
fail_step reason step = record step { status = StepStatus.failed; error_reason = reason }

abbrev pub workspace_of : Job → Run → String
workspace_of job r = first_non_empty (job.workspace_dir ∷ r.service.workspace_root ∷ [])

abbrev pub is_checked : Step → Bool
is_checked step = equal_fold step.task_type "implement" && is_succeeded step.status

module _ (w : World) where
  -- What follows on the test.
  unfoldable pub after_test : Request → EngineCheckArtifact → (EngineEnd → Act) → ℕ → RunEnd → Act
  unfolding engine_check_from_result
  after_test req build k n end =
      let this = engine_check_from_result "test" req end in
      let records = build ∷ this ∷ [] in
      if is_such w w.is_over n end
      then k (gone n (error_text end.error))
      else k (checked records (summary_of records) (if is_error end.error then this.reason else ""))

  -- The test after a build that has passed.
  unfoldable pub run_test : Job → String → EngineCheckArtifact → (EngineEnd → Act) → Act
  unfolding run_command after_test resolve_engine_command
  run_test job dir build k =
      let req = check_request "test" (test_command job) dir in
      run_command w req (after_test req build k)

  -- What follows on the build: the test, or its record as skipped.
  unfoldable pub after_build : Job → String → (EngineEnd → Act) → ℕ → RunEnd → Act
  unfolding run_test resolve_engine_command engine_check_from_result
  after_build job dir k n end =
      let this =
        engine_check_from_result "build" (check_request "build" (build_command job) dir) end in
      let skipped_test =
        check_record "test" "skipped" (test_command job).text
          ((build_command job).text ^^ " failed") in
      let records = this ∷ skipped_test ∷ [] in
      if is_such w w.is_over n end
      then k (gone n (error_text end.error))
      else if is_error end.error
      then k (checked records (summary_of records) this.reason)
      else run_test job dir this k

  -- The build, and the test behind it.
  unfoldable pub run_build : Job → String → (EngineEnd → Act) → Act
  unfolding run_command after_build resolve_engine_command
  run_build job dir k =
      run_command w (check_request "build" (build_command job) dir) (after_build job dir k)

  -- hasGoWorkspace.
  unfoldable pub has_go_workspace : ℕ → String → Bool
  has_go_workspace n dir =
      w.file_exists n (join_path dir "go.mod") || w.file_exists n (join_path dir "go.work")

  -- executeEngineVerification, in a directory.
  unfoldable pub verify_in : Job → (EngineEnd → Act) → ℕ → String → Act
  unfolding run_build run_pre_build_commands has_go_workspace engine_skipped_artifacts
  verify_in job k n dir =
      if is_blank dir
      then k (skipped job "workspace directory is not available")
      else if job.engine_build_cmd is "" && not (w.look_path n "go")
      then k (skipped job "go executable is not available")
      else if job.engine_build_cmd is "" && not (has_go_workspace n dir)
      then k (skipped job "workspace is not configured for Go")
      else run_pre_build_commands w dir job.pre_build_commands >> run_build job dir k

  -- executeEngineVerification on a copy of the job, with what follows on its end.
  unfoldable pub execute_engine_verification : Job → (EngineEnd → Act) → Act
  unfolding at_turn verify_in
  execute_engine_verification job k = at_turn λ n r. verify_in job k n (workspace_of job r) r

  -- The records are written one by one, until a write fails.
  unfoldable pub write_checks :
      ℕ → List String → List EngineCheckArtifact → (List String → Act) → Act
  unfolding at_turn on_result engine_verification_artifact_name
  write_checks index paths [] k = k paths
  write_checks index paths (made ∷ records) k = at_turn λ n.
      on_result (w.check_written n (engine_verification_artifact_name index made.kind) made)
        (λ e. fail_job w.env ("engine verification artifact materialization failed: " ^^ e))
        λ path. write_checks index (paths ++ path ∷ []) records k

  -- What runEngineVerificationForStep does with the records.
  unfoldable pub record_checks : ℕ → Step → List EngineCheckArtifact → String → String → Act
  unfolding write_checks with_checks change_at fail_step
  record_checks i step [] summary failure = done
  record_checks i step (c ∷ cs) summary failure = write_checks step.index [] (c ∷ cs) λ paths.
      modify (λ job. record job { steps = change_at i (with_checks paths summary) job.steps })
      >> (if failure is ""
          then add_event "engine_verification_recorded" summary
          else modify (λ job. record job {
            steps = change_at i (fail_step failure) job.steps;
            status = JobStatus.running;
            failure_reason = failure;
          })
            >> add_event "engine_verification_failed" failure)

  -- What follows on the end of the engine's checks of a step.
  unfoldable pub end_checks : ℕ → Step → EngineEnd → Act
  unfolding record_checks
  end_checks i step (gone n e) =
      if w.shut_down n || w.is_context_error n
      then interrupt_job w.env "orchestrator shutdown interrupted engine verification"
      else fail_job w.env ("engine verification failed: " ^^ e)
  end_checks i step (checked records summary failure) = record_checks i step records summary failure

  -- runEngineVerificationForStep, for the step at a place.
  unfoldable pub run_engine_verification_for_step : ℕ → Act
  unfolding execute_engine_verification end_checks
  run_engine_verification_for_step i r = elim (get_elem? r.job.steps i) [
    | none ↦ (r, none)
    | some step ↦ elim (is_checked step) [
      | false ↦ (r, none)
      | true ↦ execute_engine_verification r.job (end_checks i step) r
    ]
  ]
