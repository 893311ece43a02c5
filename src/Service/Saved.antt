-- ===== src/Service/Saved.antt =====
-- internal/orchestrator/service.go: what is on disk after a job has failed, was blocked or was
-- cancelled, where the writes succeed.
use gorchera.Base.{
  ℕ, suc, leb, ◌≢◌, inl, inr, Option-cases, get_elem?, ◌≡◌, refl, ap, ◌∙◌, sym, String, Bool, true,
  false, List, Option, none, some, arith,
}
use gorchera.Base.Lists.{get_elem?-set_here, get_elem?-set_there}
use gorchera.Base.Text.{is_blank, ◌^^◌}
use gorchera.Base.Dict.{get, put, get-put_same, String_eq}
use gorchera.Base.Result.{ok}
use gorchera.Domain.{
  Job, JobStatus, JobChain, ChainStatus, ChainGoal, ChainGoalStatus, is_closed_chain,
}
use gorchera.Service.State.{
  Env, Run, Service, ◌>>◌, add_event, touched, touch, clear_job_runtime_state, save, resume_with,
  cache_update, notify, validate_id, save_job, stored, load_chain, save_chain, write_file,
}
use gorchera.Service.Stop.{
  fail_job, block_job_with_event, blocked_reason_strike_count, sanitize_leader_context,
  handle_chain_terminal_state, failed_chain, keep_service, set_goal_status,
}
use gorchera.Service.Ending.{ending, after_state-job}

-- The files that the events, the times and the lease of a job leave as they are.
abbrev files : Service → List (String × Job) × List (String × JobChain) × ℕ
files s = (s.jobs, s.chains, s.writes)

prefix-files :
    (kind message : String) (r : Run)
    → files ((clear_job_runtime_state >> add_event kind message >> touch) r).0.service
      ≡ files r.service
unfolding clear_job_runtime_state add_event touch cache_update notify resume_with
prefix-files kind message r = ground arith

prefix-id :
    (kind message : String) (r : Run)
    → ((clear_job_runtime_state >> add_event kind message >> touch) r).0.job.id ≡ r.job.id
unfolding clear_job_runtime_state add_event touch touched resume_with
prefix-id kind message r = ground arith

after_state-jobs :
    (env : Env) (r : Run) → (handle_chain_terminal_state env r).0.service.jobs ≡ r.service.jobs
unfolding handle_chain_terminal_state save_chain
after_state-jobs env r = ground arith

-- The run once its job is written.
abbrev written : Run → Run
written r = record r {
  service = record r.service {
    jobs = put r.job.id (stored r.job) r.service.jobs;
    writes = suc r.service.writes;
  };
}

-- The job told, before it is written.
abbrev ready : String → String → Run → Run
ready kind message r = ((clear_job_runtime_state >> add_event kind message >> touch) r).0

prefix-place :
    (kind message : String) (r : Run)
    → ((ready kind message r).job.chain_id ≡ r.job.chain_id)
      × ((ready kind message r).job.chain_goal_index ≡ r.job.chain_goal_index)
      × ((ready kind message r).service.now ≡ r.service.now)
unfolding clear_job_runtime_state add_event touch touched cache_update notify resume_with
prefix-place kind message r = ground arith

save-written :
    (env : Env) (r : Run)
    → validate_id r.job.id ≡ none
    → env.write_error r.service.writes ≡ none
    → save env r ≡ (written r, none)
unfolding save save_job write_file
save-written env r v w = ground (arith, v, w)

ending-written :
    (env : Env) (kind message : String) (r : Run)
    → validate_id r.job.id ≡ none
    → env.write_error r.service.writes ≡ none
    → ending env kind message r ≡ handle_chain_terminal_state env (written (ready kind message r))
unfolding ending clear_job_runtime_state add_event touch resume_with
ending-written env kind message r v w = ap (resume_with (handle_chain_terminal_state env)) (
    save-written env (ready kind message r) (ap validate_id (prefix-id kind message r) ∙ v)
      (ap (λ f. env.write_error f.2) (prefix-files kind message r) ∙ w))

ending-saved :
    (env : Env) (kind message : String) (r : Run)
    → validate_id r.job.id ≡ none
    → env.write_error r.service.writes ≡ none
    → get r.job.id (ending env kind message r).0.service.jobs
      ≡ some (stored (ending env kind message r).0.job)
ending-saved env kind message r v w =
    let x = ready kind message r in
    let e = ending-written env kind message r v w in
    ap (λ y. get r.job.id y.0.service.jobs) e
    ∙ ap (get r.job.id) (after_state-jobs env (written x))
    ∙ get-put_same x.job.id r.job.id (stored x.job) x.service.jobs (prefix-id kind message r)
    ∙ sym (
        ap (λ y. some (stored y.0.job)) e
        ∙ ap (λ job. some (stored job)) (after_state-job env (written x)))

-- The service once a chain is written.
abbrev chain_written : JobChain → Service → Service
chain_written chain s = record s { chains = put chain.id chain s.chains; writes = suc s.writes }

save_chain-written :
    (env : Env) (chain : JobChain) (s : Service)
    → validate_id chain.id ≡ none
    → env.write_error s.writes ≡ none
    → save_chain env chain s ≡ (chain_written chain s, none)
unfolding save_chain write_file
save_chain-written env chain s v w = ground (arith, v, w)

terminal-chain :
    (env : Env) (r : Run) (chain : JobChain)
    → env.write_error r.service.writes ≡ none
    → is_blank r.job.chain_id ≡ false
    → load_chain env r.job.chain_id r.service ≡ ok chain
    → is_closed_chain chain.status ≡ false
    → validate_id chain.id ≡ none
    → handle_chain_terminal_state env r
      ≡ keep_service r
          (chain_written (failed_chain r.service.now r.job.chain_goal_index chain) r.service, none)
unfolding handle_chain_terminal_state
terminal-chain env r chain w b l o v =
    let failed = failed_chain r.service.now r.job.chain_goal_index chain in
    ground (arith, b, l, o, save_chain-written env failed r.service v w)

load_chain-files :
    (env : Env) (id : String) (s t : Service)
    → s.chains ≡ t.chains
    → load_chain env id s ≡ load_chain env id t
unfolding load_chain
load_chain-files env id s t h = ground (arith, h)

ending-chain :
    (env : Env) (kind message : String) (r : Run) (chain : JobChain)
    → validate_id r.job.id ≡ none
    → env.write_error r.service.writes ≡ none
    → env.write_error (suc r.service.writes) ≡ none
    → is_blank r.job.chain_id ≡ false
    → load_chain env r.job.chain_id r.service ≡ ok chain
    → is_closed_chain chain.status ≡ false
    → validate_id chain.id ≡ none
    → get chain.id (ending env kind message r).0.service.chains
      ≡ some (failed_chain r.service.now r.job.chain_goal_index chain)
ending-chain env kind message r chain v w w2 b l o c =
    let x = ready kind message r in
    let y = written x in
    let place = prefix-place kind message r in
    let kept = prefix-files kind message r in
    let failed = failed_chain x.service.now x.job.chain_goal_index chain in
    let loaded =
      ap (λ id. load_chain env id y.service) place.0
      ∙ load_chain-files env r.job.chain_id y.service r.service (ap (λ f. f.1) kept)
      ∙ l in
    ap (λ z. get chain.id z.0.service.chains)
      (ending-written env kind message r v w
        ∙ terminal-chain env y chain (ap (λ f. env.write_error (suc f.2)) kept ∙ w2)
            (ap is_blank place.0 ∙ b) loaded o c)
    ∙ get-put_same chain.id chain.id failed y.service.chains refl
    ∙ ap (λ n. some (failed_chain n x.job.chain_goal_index chain)) place.2
    ∙ ap (λ i. some (failed_chain r.service.now i chain)) place.1

-- The file of the job of an id holds the job as it is in memory.
abbrev IsOnDisk : String → Run × Option String → Type 0
IsOnDisk id x = get id x.0.service.jobs ≡ some (stored x.0.job)

either_way :
    (b : Bool) (id : String) (x y : Run × Option String)
    → IsOnDisk id x
    → IsOnDisk id y
    → IsOnDisk id (elim b [ true ↦ x | false ↦ y ])
either_way true id x y h k = h
either_way false id x y h k = k

-- After blockJobWithEvent the file of the job holds the job as it is in memory, its automated checks
-- left out, whichever way it ended, where the id is a valid one and the job's write succeeds; also
-- where its chain cannot be read or saved.
pub block_job_with_event-saved :
    (env : Env) (kind reason : String) (r : Run)
    → validate_id r.job.id ≡ none
    → env.write_error r.service.writes ≡ none
    → get r.job.id (block_job_with_event env kind reason r).0.service.jobs
      ≡ some (stored (block_job_with_event env kind reason r).0.job)
unfolding block_job_with_event fail_job ending clear_job_runtime_state resume_with
block_job_with_event-saved env kind reason r v w =
    let third = "blocked reason repeated 3 times: " ^^ reason in
    let failing = record r {
      job = record r.job {
        status = JobStatus.failed;
        failure_reason = third;
        pending_approval = none;
        blocked_reason = "";
      };
    } in
    let blocking = record r {
      job = record r.job {
        status = JobStatus.blocked;
        blocked_reason = reason;
        failure_reason = "";
        leader_context_summary = sanitize_leader_context reason;
      };
    } in
    either_way (leb 3 (blocked_reason_strike_count env r.job reason)) r.job.id
      (ending env "job_failed" third failing) (ending env kind reason blocking)
      (ending-saved env "job_failed" third failing v w) (ending-saved env kind reason blocking v w)

-- A chain that has failed with its goal at a place: that goal has failed, and the others are as before.
pub record IsFailedAt (index : ℕ) (chain c : JobChain) : Type 0 where
  pub status : c.status ≡ ChainStatus.failed
  pub goal :
      (g : ChainGoal)
      → get_elem? chain.goals index ≡ some g
      → get_elem? c.goals index ≡ some (record g { status = ChainGoalStatus.failed })
  pub others : (j : ℕ) → j ≢ index → get_elem? c.goals j ≡ get_elem? chain.goals j

failed_chain-IsFailedAt :
    (now index : ℕ) (chain : JobChain) → IsFailedAt index chain (failed_chain now index chain)
unfolding set_goal_status
failed_chain-IsFailedAt now index chain = record {
  status = refl;
  goal = λ g h. rw (h, set_goal_status) (get_elem?-set_here chain.goals index _ g h);
  others = λ j h. elim (Option-cases (get_elem? chain.goals index)) [
    | inl out ↦ rw (out, set_goal_status) refl
    | inr (g, here) ↦ rw (here, set_goal_status) (get_elem?-set_there chain.goals index j _ h)
  ];
}

-- A job of an open chain that fails, fails its chain: where the two writes succeed, the chain's file
-- has the chain as failed, with the job's goal in it failed, where it has that goal, and its other
-- goals as they were.
pub fail_job-chain :
    (env : Env) (reason : String) (r : Run) (chain : JobChain)
    → validate_id r.job.id ≡ none
    → env.write_error r.service.writes ≡ none
    → env.write_error (suc r.service.writes) ≡ none
    → is_blank r.job.chain_id ≡ false
    → load_chain env r.job.chain_id r.service ≡ ok chain
    → is_closed_chain chain.status ≡ false
    → validate_id chain.id ≡ none
    → (c : JobChain) × (get chain.id (fail_job env reason r).0.service.chains ≡ some c)
      × IsFailedAt r.job.chain_goal_index chain c
unfolding fail_job ending clear_job_runtime_state resume_with
fail_job-chain env reason r chain v w w2 b l o c = (
  failed_chain r.service.now r.job.chain_goal_index chain,
  ending-chain env "job_failed" reason
      (record r { job = record r.job { status = JobStatus.failed; failure_reason = reason } }) chain
      v w w2 b l o c,
  failed_chain-IsFailedAt r.service.now r.job.chain_goal_index chain,
)
