-- ===== src/Loop/SkipLeader.antt =====
-- internal/orchestrator/skip_leader.go: the loop without a leader, which lets a worker try until the
-- evaluator is content or the attempts are used up.
use gorchera.Base.{
  ℕ, zero, suc, ◌-◌, ltb, ◌==◌, length, String, true, false, List, [], ◌∷◌, ◌++◌, none,
  if◌then◌else◌,
}
use gorchera.Base.Text.{◌is◌, ◌^^◌, itoa}
use gorchera.Domain.{Job, JobStatus, LeaderOutput, EvaluatorReport}
use gorchera.Service.{
  Act, ◌>>◌, done, fail_with, modify, add_event, touch, save, block_job_with_event,
}
use gorchera.Loop.Answers.{World, at_turn, on_error, unless_stopped}
use gorchera.Loop.Fanout.{run_worker_step}
use gorchera.Loop.Evaluate.{evaluate_completion}
use gorchera.Loop.Leader.{complete_job}

abbrev pub default_max_eval_retries : ℕ
default_max_eval_retries = 3

-- Each entry between a text before it and a line's end.
lines_of : String → List String → String
lines_of before [] = ""
lines_of before (x ∷ xs) = before ^^ x ^^ "\n" ^^ lines_of before xs

titled : String → String → List String → String
unfolding lines_of
titled title before [] = ""
titled title before (x ∷ xs) = title ^^ lines_of before (x ∷ xs)

-- buildSkipLeaderTask.
unfoldable pub build_skip_leader_task : Job → ℕ → List String → LeaderOutput
unfolding titled
build_skip_leader_task job attempt history = record {
  action = "run_worker";
  target = "B";
  task_type = "implement";
  task_text =
      job.goal
      ^^ titled "\n\nDone criteria:\n" "- " job.done_criteria
      ^^ titled
          "\nPrevious attempts were rejected -- fix the issues below WITHOUT regressing earlier fixes:\n"
          "  " history;
  artifacts = [];
  reason = "skip_leader attempt " ^^ itoa attempt;
  next_hint = "";
  system_action = none;
  tasks = [];
}

-- The last three entries.
unfoldable pub last_three : List String → List String
last_three [] = []
last_three (x ∷ xs) = let rest = last_three xs in if ltb 3 (suc (length xs)) then rest else x ∷ xs

abbrev pub attempt_entry : ℕ → String → String
attempt_entry attempt reason = "Attempt " ^^ itoa (suc attempt) ^^ ": " ^^ reason

unfoldable pub max_retries : Job → ℕ
max_retries job =
    if job.max_eval_retries == 0 then default_max_eval_retries else job.max_eval_retries

-- An attempt is rejected, and another one follows.
unfoldable pub retry_attempt : ℕ → ℕ → EvaluatorReport → Act
retry_attempt retries attempt report =
    modify (λ job. record job { status = JobStatus.running; failure_reason = "" })
    >> add_event "skip_leader_retry"
        ("retry " ^^ itoa (suc attempt) ^^ "/" ^^ itoa retries ^^ ": " ^^ report.reason)

-- A report that has not passed.
unfoldable pub reject_attempt : (EvaluatorReport → Act) → EvaluatorReport → Act
reject_attempt again report = if report.status is "blocked" then done else again report

module _ (w : World) where
  -- What follows on a report: `again` is what a rejection leads to.
  unfoldable pub after_attempt : (EvaluatorReport → Act) → EvaluatorReport → Act
  unfolding complete_job reject_attempt
  after_attempt again report =
      if report.passed then complete_job w report.reason else reject_attempt again report

  -- The worker's step of an attempt, and its evaluation.
  unfoldable pub try_once : ℕ → List String → (EvaluatorReport → Act) → Act
  unfolding run_worker_step build_skip_leader_task evaluate_completion after_attempt
  try_once attempt history again r =
      (run_worker_step w (build_skip_leader_task r.job (suc attempt) history)
          >> unless_stopped (evaluate_completion w (after_attempt again)))
        r

  -- An attempt, unless the context is over.
  unfoldable pub enter_attempt : ℕ → List String → (EvaluatorReport → Act) → ℕ → Act
  unfolding on_error try_once
  enter_attempt attempt history again n =
      on_error (w.context_error n) fail_with (try_once attempt history again)

  -- One attempt.
  unfoldable pub attempt_once : ℕ → List String → (EvaluatorReport → Act) → Act
  unfolding at_turn enter_attempt
  attempt_once attempt history again r = elim (ltb r.job.current_step r.job.max_steps) [
    | true ↦ at_turn (enter_attempt attempt history again) r
    | false ↦ block_job_with_event w.env "job_blocked" "max_steps_exceeded" r
  ]

  -- The last attempt is rejected.
  unfoldable pub give_up_attempts : ℕ → EvaluatorReport → Act
  give_up_attempts retries report =
      modify (λ job. record job {
        failure_reason = "evaluator failed after " ^^ itoa retries ^^ " retries: " ^^ report.reason;
      })
      >> touch
      >> save w.env

  -- The loop, with the attempts that are left after this one.
  unfoldable pub attempts : ℕ → ℕ → ℕ → List String → Act
  unfolding attempt_once give_up_attempts retry_attempt last_three
  attempts retries zero attempt history = attempt_once attempt history (give_up_attempts retries)
  attempts retries (suc left) attempt history = attempt_once attempt history λ report.
      retry_attempt retries attempt report
      >> attempts retries left (suc attempt)
          (last_three (history ++ attempt_entry attempt report.reason ∷ []))

  -- runSkipLeaderLoop.
  unfoldable pub run_skip_leader_loop : Act
  unfolding attempts max_retries
  run_skip_leader_loop r = let retries = max_retries r.job in attempts retries (retries - 1) 0 [] r
