-- ===== src/Service/Stop.antt =====
-- internal/orchestrator/service.go and job_runtime.go: failing, blocking and interrupting a job.
use Prim.Native.Char.{code}
use gorchera.Base.{
  ℕ, suc, leb, ◌==◌, set, get_elem?, any, String, true, false, ◌&&◌, not, List, [], ◌∷◌, Option,
  none, some, if◌then◌else◌,
}
use gorchera.Base.Text.{
  ◌is◌, ◌^^◌, is_blank, trim_space, has_suffix, first_non_empty, starts_with, join,
}
use gorchera.Base.Result.{ok, err}
use mathlib.Core.List.{reverse}
use gorchera.Domain.{
  Job, JobStatus, Step, StepStatus, StructuredReason, Event, ChainGoal, ChainGoalStatus, JobChain,
  ChainStatus, is_recoverable_job_status, is_closed_chain, is_active,
}
use gorchera.Service.State.{
  Env, Service, Run, Act, ◌>>◌, modify, add_event, touch, clear_job_runtime_state, save, save_chain,
  load_chain,
}

-- The goal at a place with another status; out of range nothing changes.
unfoldable pub set_goal_status : ℕ → ChainGoalStatus → List ChainGoal → List ChainGoal
set_goal_status i status goals = elim (get_elem? goals i) [
  | none ↦ goals
  | some goal ↦ set goals i (record goal { status = status })
]

-- `strings.ReplaceAll(text, "\r\n", "\n")`.
replace_crlf : String → String
replace_crlf String.[] = ""
replace_crlf (String.◌∷◌ c s) =
    let rest = replace_crlf s in
    if code c == 13 && starts_with s "\n" then rest else String.◌∷◌ c rest

-- `strings.Split(text, "\n")`; `line` is the line so far.
split_lines : String → String → List String
split_lines line String.[] = line ∷ []
split_lines line (String.◌∷◌ c s) = elim (code c == 10) [
  | true ↦ line ∷ split_lines "" s
  | false ↦ split_lines (line ^^ String.◌∷◌ c "") s
]

without_directives : List String → List String
without_directives [] = []
without_directives (line ∷ lines) =
    let rest = without_directives lines in
    if starts_with line "[SUPERVISOR]" then rest else line ∷ rest

-- sanitizeLeaderContext.
unfoldable pub sanitize_leader_context : String → String
unfolding replace_crlf split_lines without_directives join
sanitize_leader_context text =
    if text is "" then "" else join (without_directives (split_lines "" (replace_crlf text))) "\n"

-- activeStep: the last step that is active, changed by `f`.
unfoldable pub change_active_step : (Step → Step) → List Step → List Step
change_active_step f [] = []
change_active_step f (s ∷ steps) =
    let rest = change_active_step f steps in
    if is_active s.status && not (any (λ (t : Step). is_active t.status) steps)
    then f s ∷ steps
    else s ∷ rest

-- `job.Steps[len(job.Steps)-1]` changed by `f`.
unfoldable pub change_last : (Step → Step) → List Step → List Step
change_last f [] = []
change_last f (s ∷ []) = f s ∷ []
change_last f (s ∷ t ∷ steps) = s ∷ change_last f (t ∷ steps)

unfoldable pub block_step : String → Option StructuredReason → Step → Step
block_step reason structured step = record step {
  status = StepStatus.blocked;
  blocked_reason = reason;
  structured_reason = structured;
}

abbrev pub keep_service : Run → Service × Option String → Run × Option String
keep_service r (s, e) = (record r { service = s }, e)

-- The chain with its goal and itself failed.
abbrev pub failed_chain : ℕ → ℕ → JobChain → JobChain
failed_chain now index chain = record chain {
  goals = set_goal_status index ChainGoalStatus.failed chain.goals;
  status = ChainStatus.failed;
  updated_at = now;
}

module _ (env : Env) where
  -- blockedEventReason.
  unfoldable pub blocked_event_reason : String → String
  blocked_event_reason message = elim (env.decode_reason message) [
    | none ↦ message
    | some reason ↦ if is_blank reason then message else reason
  ]

  -- The loop of blockedReasonStrikeCount, from the newest event.
  unfoldable pub strikes_back : String → List Event → ℕ
  strikes_back reason [] = 1
  strikes_back reason (e ∷ events) =
      let older = strikes_back reason events in
      if not (has_suffix e.kind "_blocked")
      then older
      else if not (blocked_event_reason e.message is reason)
      then 1
      else suc older

  -- blockedReasonStrikeCount.
  unfoldable pub blocked_reason_strike_count : Job → String → ℕ
  blocked_reason_strike_count job reason = strikes_back reason (reverse job.events)

  -- handleChainTerminalState.
  unfoldable pub handle_chain_terminal_state : Act
  unfolding set_goal_status
  handle_chain_terminal_state r = elim (is_blank r.job.chain_id) [
    | true ↦ (r, none)
    | false ↦ elim (load_chain env r.job.chain_id r.service) [
      | err e ↦ (r, some e)
      | ok chain ↦ elim (is_closed_chain chain.status) [
        | true ↦ (r, none)
        | false ↦
            keep_service r
              (save_chain env (failed_chain r.service.now r.job.chain_goal_index chain) r.service)
      ]
    ]
  ]

  -- failJob.
  unfoldable pub fail_job : String → Act
  fail_job reason =
      modify (λ job. record job { status = JobStatus.failed; failure_reason = reason })
      >> clear_job_runtime_state
      >> add_event "job_failed" reason
      >> touch
      >> save env
      >> handle_chain_terminal_state

  -- blockJobWithEvent.
  unfoldable pub block_job_with_event : String → String → Act
  unfolding sanitize_leader_context
  block_job_with_event kind reason r = elim (leb 3 (blocked_reason_strike_count r.job reason)) [
    | true ↦
        (modify (λ job. record job { pending_approval = none; blocked_reason = "" })
            >> fail_job ("blocked reason repeated 3 times: " ^^ reason))
          r
    | false ↦
        (modify (λ job. record job {
          status = JobStatus.blocked;
          blocked_reason = reason;
          failure_reason = "";
          leader_context_summary = sanitize_leader_context reason;
        })
            >> clear_job_runtime_state
            >> add_event kind reason
            >> touch
            >> save env
            >> handle_chain_terminal_state)
          r
  ]

  -- blockJob.
  unfoldable pub block_job : String → Act
  block_job = block_job_with_event "job_blocked"

  -- The case "blocked" of runWorkerStep with its reason; `encode` is formatWorkerFailureEventMessage,
  -- which is the JSON of its arguments.
  unfoldable pub block_worker :
      (String → Option StructuredReason → String) → String → Option StructuredReason → Act
  unfolding block_step
  block_worker encode reason structured =
      modify (λ job. record job { steps = change_last (block_step reason structured) job.steps })
      >> add_event "worker_blocked" (encode reason structured)
      >> block_job reason

  -- The same from the worker's two texts.
  unfoldable pub block_worker_step :
      (String → Option StructuredReason → String) → String → String → Option StructuredReason → Act
  block_worker_step encode blocked_reason summary =
      block_worker encode (first_non_empty (blocked_reason ∷ summary ∷ "worker blocked" ∷ []))

  unfoldable pub interrupt_step : ℕ → String → Step → Step
  interrupt_step now reason step = record step {
    status = StepStatus.blocked;
    blocked_reason = reason;
    summary = reason;
    finished_at = if step.finished_at == 0 then now else step.finished_at;
  }

  -- interruptJob.
  unfoldable pub interrupt_job : String → Act
  unfolding change_active_step interrupt_step sanitize_leader_context
  interrupt_job text r =
      let reason =
        first_non_empty (trim_space text ∷ "job interrupted by orchestrator shutdown" ∷ []) in
      elim (is_recoverable_job_status r.job.status) [
        | false ↦ (r, none)
        | true ↦
            (modify (λ job. record job {
              steps = change_active_step (interrupt_step r.service.now reason) job.steps;
              status = JobStatus.blocked;
              blocked_reason = reason;
              failure_reason = "";
              pending_approval = none;
              leader_context_summary = sanitize_leader_context reason;
            })
                >> clear_job_runtime_state
                >> add_event "job_interrupted" reason
                >> touch
                >> save env
                >> handle_chain_terminal_state)
              r
      ]
