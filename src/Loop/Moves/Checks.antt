-- ===== src/Loop/Moves/Checks.antt =====
-- internal/orchestrator/service.go: commands and the engine's checks begin no step.
use gorchera.Base.{
  ℕ, suc, refl, inl, inr, get_elem?, String, ◌&&◌, not, List, [], ◌∷◌, ◌++◌, Bool-cases,
  Option-cases,
}
use gorchera.Base.Text.{◌is◌, is_blank}
use gorchera.Allowlist.{Request, allows, new_default_policy}
use gorchera.Domain.{Job, Step}
use gorchera.Evaluator.{EngineCheckArtifact}
use gorchera.Service.{Run, Act, modify}
use gorchera.Loop.{
  World, RunEnd, run_command, run_pre_build_commands, run_build, run_test, check_request,
  test_command, after_build, after_test, after_pre_build, execute_engine_verification, EngineEnd,
  checked, gone, write_checks, record_checks, with_checks, fail_step, at_turn, is_error, is_such,
  has_go_workspace, verify_in, workspace_of, is_checked, end_checks, started,
  run_engine_verification_for_step, change_at,
}
use gorchera.Loop.Moves.{
  Keeps, ◌>>>◌, Moves-refl, moved, if-Keeps, turn-Keeps, at_turn-Keeps, on_result-Keeps, done-Keeps,
  modify-Keeps, add_event-Keeps,
}
use gorchera.Loop.Stops.{change_at-NumberedFrom, KeepsIndex, fail_job-Keeps, interrupt_job-Keeps}

-- The step at a place is changed.
pub change_at-Keeps :
    (i : ℕ) (f : Step → Step)
    → KeepsIndex f
    → Keeps 0 (modify (λ job. record job { steps = change_at i f job.steps }))
change_at-Keeps i f h =
    modify-Keeps
      λ a. moved a _ refl refl refl (change_at-NumberedFrom f i 0 a.current_step a.steps h) λ d. d

module _ (w : World) where
  pub run_command-Keeps :
      {n : ℕ} (req : Request) (k : ℕ → RunEnd → Act)
      → ((i : ℕ) (end : RunEnd) → Keeps n (k i end))
      → Keeps n (run_command w req k)
  unfolding run_command at_turn
  run_command-Keeps {n} req k h = record {
    moves = λ r.
        let asked : Run = record r { service = record r.service { turn = suc r.service.turn } } in
        elim (Option-cases (allows new_default_policy req)) [
          | inl e ↦ rw (e, run_command) ((h r.service.turn _).moves (started req asked))
          | inr (text, e) ↦ rw (e, run_command) ((h r.service.turn _).moves asked)
        ];
  }

  after_pre_build-Keeps :
      (rest : Act) (i : ℕ) (end : RunEnd) → Keeps 0 rest → Keeps 0 (after_pre_build w rest i end)
  unfolding after_pre_build
  after_pre_build-Keeps rest i end h = if-Keeps _ done-Keeps h

  pre_build-Keeps :
      (dir : String) (cmds : List String) → Keeps 0 (run_pre_build_commands w dir cmds)
  unfolding run_pre_build_commands
  pre_build-Keeps dir [] = done-Keeps
  pre_build-Keeps dir (raw ∷ cmds) =
      let rest = pre_build-Keeps dir cmds in
      if-Keeps (is_blank raw) rest (
        run_command-Keeps _ (after_pre_build w (run_pre_build_commands w dir cmds))
          λ i end. after_pre_build-Keeps _ i end rest)

  module _ {n : ℕ} (k : EngineEnd → Act) (h : (end : EngineEnd) → Keeps n (k end)) where
    after_test-Keeps :
        (req : Request) (build : EngineCheckArtifact) (i : ℕ) (end : RunEnd)
        → Keeps n (after_test w req build k i end)
    unfolding after_test
    after_test-Keeps req build i end = if-Keeps _ (h _) (h _)

    run_test-Keeps :
        (job : Job) (dir : String) (build : EngineCheckArtifact)
        → Keeps n (run_test w job dir build k)
    unfolding run_test
    run_test-Keeps job dir build =
        run_command-Keeps _ (after_test w (check_request "test" (test_command job) dir) build k)
          (after_test-Keeps (check_request "test" (test_command job) dir) build)

    after_build-Keeps :
        (job : Job) (dir : String) (i : ℕ) (end : RunEnd) → Keeps n (after_build w job dir k i end)
    unfolding after_build
    after_build-Keeps job dir i end =
        if-Keeps (is_such w w.is_over i end) (h _)
          (if-Keeps (is_error end.error) (h _) (run_test-Keeps job dir _))

    run_build-Keeps : (job : Job) (dir : String) → Keeps n (run_build w job dir k)
    unfolding run_build
    run_build-Keeps job dir =
        run_command-Keeps _ (after_build w job dir k) (after_build-Keeps job dir)

    verify_in-Keeps : (job : Job) (i : ℕ) (dir : String) → Keeps n (verify_in w job k i dir)
    unfolding verify_in
    verify_in-Keeps job i dir = if-Keeps (is_blank dir) (h _) (
        if-Keeps (job.engine_build_cmd is "" && not (w.look_path i "go")) (h _) (
          if-Keeps (job.engine_build_cmd is "" && not (has_go_workspace w i dir)) (h _)
            (pre_build-Keeps dir job.pre_build_commands >>> run_build-Keeps job dir)))

    pub execute_engine_verification-Keeps :
        (job : Job) → Keeps n (execute_engine_verification w job k)
    unfolding execute_engine_verification
    execute_engine_verification-Keeps job =
        turn-Keeps (λ i r. verify_in w job k i (workspace_of job r))
          λ i r. verify_in-Keeps job i (workspace_of job r)

  write_checks-Keeps :
      (index : ℕ) (paths : List String) (records : List EngineCheckArtifact) (k : List String → Act)
      → ((ps : List String) → Keeps 0 (k ps))
      → Keeps 0 (write_checks w index paths records k)
  unfolding write_checks
  write_checks-Keeps index paths [] k h = h paths
  write_checks-Keeps index paths (c ∷ cs) k h = at_turn-Keeps λ i.
      on_result-Keeps _ (λ e. fail_job-Keeps w.env _)
        λ path. write_checks-Keeps index (paths ++ path ∷ []) cs k h

  record_checks-Keeps :
      (i : ℕ) (step : Step) (records : List EngineCheckArtifact) (summary failure : String)
      → Keeps 0 (record_checks w i step records summary failure)
  unfolding record_checks with_checks fail_step
  record_checks-Keeps i step [] summary failure = done-Keeps
  record_checks-Keeps i step (c ∷ cs) summary failure =
      write_checks-Keeps step.index [] (c ∷ cs) _ λ paths.
        change_at-Keeps i (with_checks paths summary) (λ s. refl)
        >>> if-Keeps _ (add_event-Keeps _ _) (
            modify-Keeps (λ a.
              moved a _ refl refl refl
                (change_at-NumberedFrom (fail_step failure) i 0 a.current_step a.steps λ s. refl)
                λ d. refl)
            >>> add_event-Keeps _ _)

  end-Keeps : (i : ℕ) (step : Step) (end : EngineEnd) → Keeps 0 (end_checks w i step end)
  unfolding end_checks
  end-Keeps i step (gone n e) = if-Keeps _ (interrupt_job-Keeps w.env _) (fail_job-Keeps w.env _)
  end-Keeps i step (checked records summary failure) =
      record_checks-Keeps i step records summary failure

  pub run_engine_verification_for_step-Keeps :
      (i : ℕ) → Keeps 0 (run_engine_verification_for_step w i)
  unfolding run_engine_verification_for_step
  run_engine_verification_for_step-Keeps i = record {
    moves = λ r. elim (Option-cases (get_elem? r.job.steps i)) [
      | inl e ↦ rw (e, run_engine_verification_for_step) (Moves-refl 0 r.job)
      | inr (step, e) ↦ elim (Bool-cases (is_checked step)) [
        | inr d ↦ rw (e, d, run_engine_verification_for_step) (Moves-refl 0 r.job)
        | inl d ↦
            rw (e, d, run_engine_verification_for_step)
              ((execute_engine_verification-Keeps _ (end-Keeps i step) r.job).moves r)
      ]
    ];
  }
