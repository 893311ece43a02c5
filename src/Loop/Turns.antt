-- ===== src/Loop/Turns.antt =====
-- internal/orchestrator/service.go: a round of the leader's loop, and any number of rounds.
use gorchera.Base.{
  ℕ, zero, suc, ◌≤◌, ◌≡◌, refl, inl, inr, ltb, ◌==◌, length, String, true, false, ◌&&◌, ◌||◌, arith,
  Bool-cases,
}
use gorchera.Base.Text.{◌is◌}
use gorchera.Domain.{JobStatus, LeaderOutput, EvaluatorReport}
use gorchera.Provider.{PhaseEnd, answered, gave_up}
use gorchera.Service.{Run, Act, done, is_done}
use gorchera.Loop.{
  World, LoopState, first_state, retry_completion, after_rejection, after_report, complete,
  summarize, act_on, dispatch, is_capped, count_summaries, capped, clear_retry, cleared,
  receive_leader, request_leader, enter_turn, leader_turn, leader_loop, is_blocking,
  schema_retry_max, no_leader_output,
}
use gorchera.Loop.Moves.{
  Keeps, ◌>>>◌, weaken, IsNumbered, moved, untouched, modify-Keeps, add_event-Keeps, touch-Keeps,
  save-Keeps, if-Keeps, done-Keeps, fail_with-Keeps,
}
use gorchera.Loop.Moves.System.{run_system_step_with_approval-Keeps}
use gorchera.Loop.Moves.Fanout.{run_worker_step-Keeps}
use gorchera.Loop.Stops.{fail_job-Keeps, block_job_with_event-Keeps}
use gorchera.Loop.Earned.{
  Earned, Sound, Fits, Runs, Keeps-Runs, then-Runs, if-Runs, at_turn-Runs, unless_stopped-Runs,
}
use gorchera.Loop.Gate.{on_error-Runs, evaluate_completion-Runs}
use gorchera.Loop.Ends.{complete_job-Sound, phase-Runs, settle_leader-Runs}

module _ (w : World) where
  -- A step that begins no step ends the job as soundly as it was.
  abbrev quiet-Runs : {n : ℕ} {m : Act} → Keeps 0 m → Runs w n m
  quiet-Runs {n} h = Keeps-Runs w (weaken n (omega arith) h)

  clear_retry-Keeps : (st : LoopState) → Keeps 0 (clear_retry st)
  unfolding clear_retry
  clear_retry-Keeps st =
      if-Keeps st.completion_retry_pending
        (modify-Keeps (λ a. untouched a _ refl refl refl refl refl)) done-Keeps

  summarize-Keeps : (leader : LeaderOutput) → Keeps 0 (summarize w leader)
  unfolding summarize
  summarize-Keeps leader =
      modify-Keeps (λ a. untouched a _ refl refl refl refl refl)
      >>> add_event-Keeps _ _
      >>> touch-Keeps
      >>> save-Keeps w.env

  module _ (next : LoopState → Act) (h : (st : LoopState) → Runs w 0 (next st)) where
    retry_completion-Runs : (st : LoopState) → Runs w 0 (retry_completion next st)
    unfolding retry_completion
    retry_completion-Runs st = record { sound = λ r f. (h _).sound r f }

    after_rejection-Runs :
        (st : LoopState) (report : EvaluatorReport) → Runs w 2 (after_rejection next st report)
    unfolding after_rejection
    after_rejection-Runs st report =
        if-Runs w (report.status is "blocked" || report.status is "failed")
          (then-Runs w 2 (omega arith) (modify-Keeps λ a. untouched a _ refl refl refl refl refl)
            (retry_completion-Runs st))
          (quiet-Runs done-Keeps)

    after_report-Sound :
        (st : LoopState) (reason : String) (report : EvaluatorReport) (r : Run)
        → (report.passed ≡ true → Earned w r.job)
        → Fits 2 r.job
        → Sound w r.job (after_report w next st reason report r).0.job
    unfolding after_report
    after_report-Sound st reason report r g f = elim (Bool-cases report.passed) [
      | inl pass ↦ rw (pass, after_report) (complete_job-Sound w 2 reason r (g pass) f)
      | inr off ↦ rw (off, after_report) ((after_rejection-Runs st report).sound r f)
    ]

    complete-Runs : (st : LoopState) (leader : LeaderOutput) → Runs w 2 (complete w next st leader)
    unfolding complete
    complete-Runs st leader = record {
      sound = λ r f.
          (if-Runs w
              (st.completion_retry_pending && length r.job.steps == st.completion_retry_step_count)
              (quiet-Runs (
                modify-Keeps (λ a.
                  moved a (record a { status = JobStatus.blocked }) refl refl refl (λ i. i)
                    λ d. refl)
                >>> touch-Keeps
                >>> save-Keeps w.env))
              (evaluate_completion-Runs w 2 (after_report w next st leader.reason)
                λ report r'. after_report-Sound st leader.reason report r')).sound
            r f;
    }

    act_on-Runs : (st : LoopState) (leader : LeaderOutput) → Runs w 2 (act_on w next st leader)
    unfolding act_on
    act_on-Runs st leader =
        if-Runs w (leader.action is "run_worker" || leader.action is "run_workers")
          (then-Runs w 2 (omega arith) (clear_retry-Keeps st >>> run_worker_step-Keeps w leader)
            (unless_stopped-Runs w (h (cleared st))))
          (if-Runs w (leader.action is "run_system")
            (then-Runs w 2 (omega arith)
              (clear_retry-Keeps st >>> run_system_step_with_approval-Keeps w leader false)
              (unless_stopped-Runs w (h (cleared st))))
            (if-Runs w (leader.action is "summarize")
              (then-Runs w 2 (omega arith) (clear_retry-Keeps st >>> summarize-Keeps leader)
                (h (cleared st)))
              (if-Runs w (leader.action is "complete") (complete-Runs st leader) (
                if-Runs w (leader.action is "fail") (quiet-Runs (fail_job-Keeps w.env _)) (
                  if-Runs w (leader.action is "blocked")
                    (quiet-Runs (block_job_with_event-Keeps w.env _ _))
                    (quiet-Runs (fail_job-Keeps w.env _)))))))

    dispatch-Runs : (st : LoopState) (leader : LeaderOutput) → Runs w 2 (dispatch w next st leader)
    unfolding dispatch
    dispatch-Runs st leader =
        then-Runs w 2 (omega arith)
          (if-Keeps (is_capped st leader) (add_event-Keeps _ _) done-Keeps)
          (act_on-Runs (count_summaries st leader) (capped st leader))

    receive_leader-Runs :
        (st : LoopState) (i : ℕ) (end : PhaseEnd) → Runs w 2 (receive_leader w next st i end)
    unfolding receive_leader
    receive_leader-Runs st i (answered raw) =
        then-Runs w 2 (omega arith) (modify-Keeps (λ a. untouched a _ refl refl refl refl refl)) (
          settle_leader-Runs w (dispatch w next st) (dispatch-Runs st) schema_retry_max raw
            no_leader_output)
    receive_leader-Runs st i (gave_up action text) =
        if-Runs w (w.shut_down i) (quiet-Runs (block_job_with_event-Keeps w.env _ _)) (
          if-Runs w (is_blocking action) (quiet-Runs (block_job_with_event-Keeps w.env _ _))
            (quiet-Runs (fail_job-Keeps w.env _)))

    request_leader-Runs : (st : LoopState) → Runs w 2 (request_leader w next st)
    unfolding request_leader
    request_leader-Runs st =
        then-Runs w 2 (omega arith)
          (modify-Keeps (λ a. moved a _ refl refl refl (λ i. i) λ d. refl)
            >>> touch-Keeps
            >>> add_event-Keeps _ _
            >>> if-Keeps st.leader_retry_pending done-Keeps (save-Keeps w.env))
          (phase-Runs w _ (receive_leader-Runs (record st { leader_retry_pending = false })))

    enter_turn-Runs : (st : LoopState) (i : ℕ) → Runs w 2 (enter_turn w next st i)
    unfolding enter_turn
    enter_turn-Runs st i =
        on_error-Runs w _ (λ e. quiet-Runs (fail_with-Keeps e)) (request_leader-Runs st)

    leader_turn-Runs : (st : LoopState) → Runs w 0 (leader_turn w next st)
    unfolding leader_turn
    leader_turn-Runs st = record {
      sound = λ r f. elim (Bool-cases (ltb r.job.current_step r.job.max_steps)) [
        | inl more ↦
            rw (more, leader_turn)
              ((at_turn-Runs w (enter_turn-Runs st)).sound r
                (record { room = ground (arith, more); undone = f.undone }))
        | inr over ↦
            rw (over, leader_turn)
              ((Keeps-Runs w (block_job_with_event-Keeps w.env _ "max_steps_exceeded")).sound r f)
      ];
    }

  pub leader_loop-Runs :
      (rest : LoopState → Act) (rounds : ℕ) (st : LoopState)
      → ((st' : LoopState) → Runs w 0 (rest st'))
      → Runs w 0 (leader_loop w rest rounds st)
  unfolding leader_loop
  leader_loop-Runs rest zero st h = h st
  leader_loop-Runs rest (suc rounds) st h =
      leader_turn-Runs (leader_loop w rest rounds) (λ st'. leader_loop-Runs rest rounds st' h) st

  -- The loop that is cut off after a number of rounds.
  abbrev pub rounds_of : ℕ → Act
  rounds_of rounds = leader_loop w (λ st. done) rounds first_state

  -- Whatever the leader, the workers, the evaluator and the files answer: a job that is not done and
  -- within its limit has, after any number of rounds of the leader's loop, the configuration and the
  -- limit that it had, steps that are numbered if they were, and a current step that is at most one
  -- past the limit.
  pub leader_loop-steps :
      (rounds : ℕ) (r : Run)
      → r.job.current_step ≤ suc r.job.max_steps
      → is_done r.job.status ≡ false
      → let job = (rounds_of rounds r).0.job in
        (job.config ≡ r.job.config)
        × (job.max_steps ≡ r.job.max_steps)
        × (IsNumbered r.job → IsNumbered job)
        × (job.current_step ≤ suc job.max_steps)
  leader_loop-steps rounds r within going =
      let s =
        (leader_loop-Runs (λ st. done) rounds first_state λ st'. quiet-Runs done-Keeps).sound r
          (record { room = omega (arith, within); undone = going }) in
      (s.fixed, s.limit, s.numbered, s.within)
