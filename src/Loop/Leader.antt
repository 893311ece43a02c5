-- ===== src/Loop/Leader.antt =====
-- internal/orchestrator/service.go: the loop of runLoop, in which a leader's messages choose the steps
-- of a job until it is done, blocked or failed.
use gorchera.Base.{
  ℕ, zero, suc, ◌-◌, ltb, leb, ◌==◌, length, String, Bool, true, false, ◌&&◌, ◌||◌, not, [], Option,
  none, some, if◌then◌else◌,
}
use gorchera.Base.Text.{◌is◌, ◌^^◌, quote, itoa}
use gorchera.Domain.{JobStatus, LeaderOutput, EvaluatorReport}
use gorchera.Chain.Start.{handle_chain_completion}
use gorchera.Schema.{validate_leader_output}
use gorchera.Provider.{PhaseEnd, answered, gave_up, ErrorAction}
use gorchera.Service.{
  Act, ◌>>◌, done, fail_with, modify, add_event, touch, save, fail_job, block_job_with_event,
  clear_job_runtime_state,
}
use gorchera.Loop.Answers.{World, at_turn, on_error, on_end, is_blocking, phase, unless_stopped}
use gorchera.Loop.Worker.{schema_retry_max, set_hint}
use gorchera.Loop.Fanout.{run_worker_step}
use gorchera.Loop.System.{run_system_step_with_approval}
use gorchera.Loop.Evaluate.{evaluate_completion}

-- The variables of the loop.
pub record LoopState : Type 0 where
  pub leader_retry_pending : Bool
  pub completion_retry_pending : Bool
  pub completion_retry_step_count : ℕ
  pub consecutive_summarizes : ℕ

abbrev pub first_state : LoopState
first_state = record {
  leader_retry_pending = false;
  completion_retry_pending = false;
  completion_retry_step_count = 0;
  consecutive_summarizes = 0;
}

abbrev pub no_leader_output : LeaderOutput
no_leader_output = record {
  action = "";
  target = "";
  task_type = "";
  task_text = "";
  artifacts = [];
  reason = "";
  next_hint = "";
  system_action = none;
  tasks = [];
}

-- The third summary in a row counts as a completion.
abbrev pub is_capped : LoopState → LeaderOutput → Bool
is_capped st leader = leader.action is "summarize" && leb 2 st.consecutive_summarizes

unfoldable pub count_summaries : LoopState → LeaderOutput → LoopState
count_summaries st leader = record st {
  consecutive_summarizes =
      if leader.action is "summarize" && not (is_capped st leader)
      then suc st.consecutive_summarizes
      else 0;
}

unfoldable pub capped : LoopState → LeaderOutput → LeaderOutput
capped st leader = if is_capped st leader then record leader { action = "complete" } else leader

-- The reason of an evaluation that is tried again goes as soon as the leader does something else.
unfoldable pub clear_retry : LoopState → Act
clear_retry st =
    if st.completion_retry_pending then modify (λ job. record job { blocked_reason = "" }) else done

abbrev pub cleared : LoopState → LoopState
cleared st = record st { completion_retry_pending = false }

-- The leader is asked again, and has to begin a step before it completes again.
unfoldable pub retry_completion : (LoopState → Act) → LoopState → Act
retry_completion next st r =
    next
      (record st {
        completion_retry_pending = true;
        completion_retry_step_count = length r.job.steps;
        leader_retry_pending = true;
      })
      r

-- A report that has not passed.
unfoldable pub after_rejection : (LoopState → Act) → LoopState → EvaluatorReport → Act
unfolding retry_completion
after_rejection next st report =
    if report.status is "blocked" || report.status is "failed"
    then modify (λ job. record job { leader_context_summary = report.reason })
      >> retry_completion next st
    else done

module _ (w : World) where
  -- The answer decoded into the value, and the error: the JSON's or the schema's.
  abbrev parse_leader : String → LeaderOutput → LeaderOutput × Option String
  parse_leader raw into =
      let (leader, error) = w.decode_leader raw into in
      elim error [ some e ↦ (leader, some e) | none ↦ validate_leader_output leader ]

  -- The last attempt is no valid message either.
  unfoldable pub reject_leader : String → Act
  reject_leader e =
      set_hint ""
      >> fail_job w.env (
          "leader schema validation failed after "
          ^^ itoa (suc schema_retry_max)
          ^^ " attempts: "
          ^^ e)

  -- The call of a schema attempt fails.
  unfoldable pub fail_leader : ErrorAction → String → Act
  fail_leader action text = set_hint "" >> fail_job w.env ("leader schema retry failed: " ^^ text)

  -- The leader is asked again, with a number of attempts left after that.
  unfoldable pub retry_leader : ℕ → (String → Act) → String → Act
  unfolding phase on_end fail_leader
  retry_leader left again e =
      add_event "schema_retry" (
        "leader schema retry "
        ^^ itoa (schema_retry_max - left)
        ^^ "/"
        ^^ itoa schema_retry_max
        ^^ ": "
        ^^ e)
      >> set_hint e
      >> phase w "leader" λ n end. on_end end again fail_leader

  -- The loop over the schema attempts, with a number of them left.
  unfoldable pub settle_leader : ℕ → String → LeaderOutput → (LeaderOutput → Act) → Act
  unfolding on_error reject_leader retry_leader
  settle_leader zero raw into k =
      let (leader, error) = parse_leader raw into in
      on_error error reject_leader (set_hint "" >> k leader)
  settle_leader (suc left) raw into k =
      let (leader, error) = parse_leader raw into in
      on_error error (retry_leader left λ raw'. settle_leader left raw' leader k)
        (set_hint "" >> k leader)

  -- The end of a job whose report has passed.
  unfoldable pub complete_job : String → Act
  unfolding handle_chain_completion
  complete_job reason =
      modify (λ job. record job { status = JobStatus.done; summary = reason })
      >> clear_job_runtime_state
      >> add_event "job_completed" reason
      >> touch
      >> save w.env
      >> handle_chain_completion w.env w.site

  -- What follows on the report of an evaluation.
  unfoldable pub after_report : (LoopState → Act) → LoopState → String → EvaluatorReport → Act
  unfolding complete_job after_rejection
  after_report next st reason report =
      if report.passed then complete_job reason else after_rejection next st report

  -- The action "complete".
  unfoldable pub complete : (LoopState → Act) → LoopState → LeaderOutput → Act
  unfolding evaluate_completion after_report
  complete next st leader r =
      (if st.completion_retry_pending && length r.job.steps == st.completion_retry_step_count
          then modify (λ job. record job { status = JobStatus.blocked }) >> touch >> save w.env
          else evaluate_completion w (after_report next st leader.reason))
        r

  -- The action "summarize".
  unfoldable pub summarize : LeaderOutput → Act
  summarize leader =
      modify
        (λ job. record job { summary = leader.reason; leader_context_summary = leader.next_hint })
      >> add_event "leader_summary" "leader emitted a summary"
      >> touch
      >> save w.env

  -- The switch over the action.
  unfoldable pub act_on : (LoopState → Act) → LoopState → LeaderOutput → Act
  unfolding clear_retry run_worker_step run_system_step_with_approval summarize complete
  act_on next st leader =
      if leader.action is "run_worker" || leader.action is "run_workers"
      then clear_retry st >> run_worker_step w leader >> unless_stopped (next (cleared st))
      else if leader.action is "run_system"
      then clear_retry st
        >> run_system_step_with_approval w leader false
        >> unless_stopped (next (cleared st))
      else if leader.action is "summarize"
      then clear_retry st >> summarize leader >> next (cleared st)
      else if leader.action is "complete"
      then complete next st leader
      else if leader.action is "fail"
      then fail_job w.env leader.reason
      else if leader.action is "blocked"
      then block_job_with_event w.env "job_blocked" leader.reason
      else fail_job w.env ("unrecognized leader action: " ^^ quote leader.action)

  -- What follows on a leader's message that is valid.
  unfoldable pub dispatch : (LoopState → Act) → LoopState → LeaderOutput → Act
  unfolding act_on count_summaries capped
  dispatch next st leader =
      (if is_capped st leader
        then add_event "leader_summarize_capped"
            "leader summarize capped; forcing completion evaluation"
        else done)
      >> act_on next (count_summaries st leader) (capped st leader)

  -- What follows on the first call of the leader.
  unfoldable pub receive_leader : (LoopState → Act) → LoopState → ℕ → PhaseEnd → Act
  unfolding settle_leader dispatch
  receive_leader next st n (answered raw) =
      modify (λ job. record job { supervisor_directive = "" })
      >> settle_leader schema_retry_max raw no_leader_output (dispatch next st)
  receive_leader next st n (gave_up action text) =
      if w.shut_down n
      then block_job_with_event w.env "job_interrupted"
          "orchestrator shutdown interrupted the leader phase"
      else if is_blocking action
      then block_job_with_event w.env "job_blocked" ("leader execution blocked: " ^^ text)
      else fail_job w.env ("leader execution failed: " ^^ text)

  -- The loop's round, behind its two tests.
  unfoldable pub request_leader : (LoopState → Act) → LoopState → Act
  unfolding phase receive_leader
  request_leader next st =
      modify (λ job. record job { status = JobStatus.waiting_leader })
      >> touch
      >> add_event "leader_requested" "requesting leader action"
      >> (if st.leader_retry_pending then done else save w.env)
      >> phase w "leader" (receive_leader next (record st { leader_retry_pending = false }))

  -- The round, unless the context is over.
  unfoldable pub enter_turn : (LoopState → Act) → LoopState → ℕ → Act
  unfolding on_error request_leader
  enter_turn next st n = on_error (w.context_error n) fail_with (request_leader next st)

  -- One round of the loop.
  unfoldable pub leader_turn : (LoopState → Act) → LoopState → Act
  unfolding at_turn enter_turn
  leader_turn next st r = elim (ltb r.job.current_step r.job.max_steps) [
    | true ↦ at_turn (enter_turn next st) r
    | false ↦ block_job_with_event w.env "job_blocked" "max_steps_exceeded" r
  ]

  -- The loop for a number of rounds, with `rest` for what is left of it after them.
  unfoldable pub leader_loop : (LoopState → Act) → ℕ → LoopState → Act
  unfolding leader_turn
  leader_loop rest zero st = rest st
  leader_loop rest (suc n) st = leader_turn (leader_loop rest n) st
