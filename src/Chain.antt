-- ===== src/Chain.antt =====
-- internal/orchestrator/service.go: what an operator does to a chain of goals: reading, pausing and
-- cancelling it.
pub mod Ops
pub mod Progress
pub mod Writes
pub mod Closed
pub mod Cancel
pub mod Start
pub mod Advance
use gorchera.Base.{
  ℕ, get_elem?, set, String, Bool, true, false, ◌||◌, List, [], ◌∷◌, Option, none, some,
  if◌then◌else◌,
}
use gorchera.Base.Text.{◌is◌, ◌^^◌, is_blank, trim_space, first_non_empty}
use gorchera.Base.Result.{Result, ok, err}
use gorchera.Domain.{
  Job, JobStatus, JobChain, ChainGoal, ChainGoalStatus, ChainStatus, is_closed_chain,
}
use gorchera.Service.{
  Env, Service, Run, modify, ◌>>◌, add_event, touch, save, save_chain, load_chain, load_job,
  handle_chain_terminal_state, or_default, is_done, is_failed, is_blocked,
}

pub data ChainReply : Type 0 where
  replied : JobChain → ChainReply
  refused : String → ChainReply

-- The goal runs or waits to run.
abbrev pub is_open_goal : ChainGoalStatus → Bool
is_open_goal ChainGoalStatus.pending = true
is_open_goal ChainGoalStatus.running = true
is_open_goal _ = false

-- The goal at a place failed if it is open; out of range nothing changes.
unfoldable pub fail_open_goal : ℕ → List ChainGoal → List ChainGoal
fail_open_goal i goals = elim (get_elem? goals i) [
  | none ↦ goals
  | some goal ↦
      if is_open_goal goal.status
      then set goals i (record goal { status = ChainGoalStatus.failed })
      else goals
]

abbrev pub paused_chain : ℕ → JobChain → JobChain
paused_chain now chain = record chain { status = ChainStatus.paused; updated_at = now }

abbrev pub cancelled_chain : ℕ → JobChain → JobChain
cancelled_chain now chain = record chain {
  goals = fail_open_goal chain.current_index chain.goals;
  status = ChainStatus.cancelled;
  updated_at = now;
}

unfoldable pub replied_with : JobChain → Service × Option String → Service × ChainReply
replied_with chain (s, none) = (s, replied chain)
replied_with chain (s, some e) = (s, refused e)

unfoldable pub workdir_of : String → Run × Option String → Service × Result String
workdir_of dir (r, none) = (r.service, ok dir)
workdir_of dir (r, some e) = (r.service, err e)

abbrev pub interrupted_job : String → Job → Job
interrupted_job reason job = record job {
  status = JobStatus.blocked;
  blocked_reason = reason;
  failure_reason = "";
  pending_approval = none;
  leader_context_summary = reason;
}

module _ (env : Env) where
  -- The service with the chain that was loaded; a chain that is closed is returned as it is.
  unfoldable pub with_open_chain :
      String → Service → (JobChain → Service × ChainReply) → Service × ChainReply
  with_open_chain id s k = elim (load_chain env id s) [
    | err e ↦ (s, refused e)
    | ok chain ↦ elim (is_closed_chain chain.status) [ true ↦ (s, replied chain) | false ↦ k chain ]
  ]

  -- PauseChain.
  unfoldable pub pause_chain : String → Service → Service × ChainReply
  pause_chain id s =
      with_open_chain id s λ chain.
        replied_with (paused_chain s.now chain) (save_chain env (paused_chain s.now chain) s)

  -- The end of interruptChainGoalJob, for a job that has not stopped.
  unfoldable pub interrupted : String → Job → Service → Service × Result String
  interrupted reason job s =
      workdir_of (first_non_empty (job.workspace_dir ∷ s.workspace_root ∷ [])) (
        (modify (interrupted_job reason) >> add_event "job_cancelled" reason >> touch >> save env)
          (record { service = s; job = job }))

  -- interruptChainGoalJob.
  unfoldable pub interrupt_chain_goal_job : JobChain → String → Service → Service × Result String
  unfolding interrupted
  interrupt_chain_goal_job chain reason s = elim (get_elem? chain.goals chain.current_index) [
    | none ↦ (s, ok s.workspace_root)
    | some goal ↦ elim (is_blank goal.job_id) [
      | true ↦ (s, ok s.workspace_root)
      | false ↦ elim (load_job env goal.job_id s) [
        | err e ↦ (s, err e)
        | ok job ↦ elim (is_done job.status || is_failed job.status || is_blocked job.status) [
          | true ↦ (s, ok (first_non_empty (job.workspace_dir ∷ s.workspace_root ∷ [])))
          | false ↦ interrupted reason job s
        ]
      ]
    ]
  ]

  -- What CancelChain does when the job is interrupted.
  unfoldable pub cancel_interrupted : JobChain → Service × Result String → Service × ChainReply
  cancel_interrupted chain (s, err e) = (s, refused e)
  cancel_interrupted chain (s, ok dir) =
      replied_with (cancelled_chain s.now chain) (save_chain env (cancelled_chain s.now chain) s)

  -- CancelChain.
  unfoldable pub cancel_chain : String → String → Service → Service × ChainReply
  cancel_chain id reason s = with_open_chain id s λ chain. cancel_interrupted chain (
      interrupt_chain_goal_job chain
        ("cancelled by chain operator: " ^^ or_default reason "operator cancelled chain") s)
