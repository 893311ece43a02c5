-- ===== src/Chain/Cancel.antt =====
-- internal/orchestrator/service.go: what CancelChain answers.
use gorchera.Base.{
  ℕ, get_elem?, ◌≢◌, ◌⊎◌, ◌||◌, false, Option-cases, ◌≡◌, refl, sym, subst, ap, ◌∙◌, inl, inr,
  Bool-cases, String, true, Option, none, some, arith,
}
use gorchera.Base.Lists.{get_elem?-set_here, get_elem?-set_there}
use gorchera.Base.Text.{◌^^◌, is_blank}
use gorchera.Base.Dict.{get, put, get-put_same, String_eq}
use gorchera.Base.Result.{Result, ok, err}
use gorchera.Domain.{
  Job, JobStatus, JobChain, ChainGoal, ChainGoalStatus, ChainStatus, is_closed_chain,
}
use gorchera.Service.{
  Env, Service, Run, load_chain, load_job, save_chain, save_job, save, stored, write_file,
  or_default, is_done, is_failed, is_blocked, add_event, touch, touched, resume_with,
}
use gorchera.Chain.{
  ChainReply, replied, cancel_chain, with_open_chain, cancel_interrupted, interrupt_chain_goal_job,
  cancelled_chain, replied_with, interrupted, interrupted_job, workdir_of, fail_open_goal,
  is_open_goal,
}
use gorchera.Chain.Closed.{IsKeyed}
use gorchera.Chain.Writes.{load_chain-found, save_chain-none, Result-cases, workdir_of-service}

-- A cancelled chain: the goal that it was at has failed if it was pending or running, and the others
-- are as before.
pub record IsCancelled (chain c : JobChain) : Type 0 where
  pub status : c.status ≡ ChainStatus.cancelled
  pub goal :
      (g : ChainGoal)
      → get_elem? chain.goals chain.current_index ≡ some g
      → (g.status ≡ ChainGoalStatus.pending) ⊎ (g.status ≡ ChainGoalStatus.running)
      → get_elem? c.goals chain.current_index ≡ some (record g { status = ChainGoalStatus.failed })
  pub ended :
      (g : ChainGoal)
      → get_elem? chain.goals chain.current_index ≡ some g
      → g.status ≢ ChainGoalStatus.pending
      → g.status ≢ ChainGoalStatus.running
      → c.goals ≡ chain.goals
  pub others : (j : ℕ) → j ≢ chain.current_index → get_elem? c.goals j ≡ get_elem? chain.goals j

-- A job that is live is on disk as blocked with a reason.
abbrev pub IsStopped : String → Job → Service → Type 0
IsStopped text job t =
    (j : Job) × (get job.id t.jobs ≡ some j)
    × (j.status ≡ JobStatus.blocked)
    × (j.blocked_reason ≡ text)

-- The job of the goal that the chain is at was not live in the first service, or is stopped in the
-- second.
abbrev pub Stops : Env → JobChain → String → Service → Service → Type 0
Stops env chain text s t =
    (goal : ChainGoal) (job : Job)
    → get_elem? chain.goals chain.current_index ≡ some goal
    → is_blank goal.job_id ≡ false
    → load_job env goal.job_id s ≡ ok job
    → (is_done job.status || is_failed job.status || is_blocked job.status) ≡ false
    → IsStopped text job t

-- The answer is the chain that was closed before, or one that is cancelled now with its job stopped.
abbrev pub IsCancellation : Env → String → JobChain → JobChain → Service → Service → Type 0
IsCancellation env text chain c s t =
    (get c.id t.chains ≡ some c)
    × (((is_closed_chain chain.status ≡ true) × (c ≡ chain))
        ⊎ (IsCancelled chain c × Stops env chain text s t))

cancelled_chain-IsCancelled :
    (now : ℕ) (chain : JobChain) → IsCancelled chain (cancelled_chain now chain)
unfolding fail_open_goal
cancelled_chain-IsCancelled now chain = record {
  status = refl;
  goal = λ g h live.
      let live' : is_open_goal g.status ≡ true = ground (arith, live) in
      rw (h, fail_open_goal, live') (get_elem?-set_here chain.goals chain.current_index _ g h);
  ended = λ g h p q.
      let over : is_open_goal g.status ≡ false = ground (arith, p, q) in
      rw (h, fail_open_goal, over) refl;
  others = λ j h. elim (Option-cases (get_elem? chain.goals chain.current_index)) [
    | inl out ↦ rw (out, fail_open_goal) refl
    | inr (g, here) ↦ elim (Bool-cases (is_open_goal g.status)) [
      | inl live ↦
          rw (here, fail_open_goal, live)
            (get_elem?-set_there chain.goals chain.current_index j _ h)
      | inr over ↦ rw (here, fail_open_goal, over) refl
    ]
  ];
}

save_job-none :
    (env : Env) (job : Job) (s : Service)
    → (save_job env job s).1 ≡ none
    → (save_job env job s).0.jobs ≡ put job.id (stored job) s.jobs
unfolding save_job write_file
save_job-none env job s h = ground (arith, h)

save_chain-jobs : (env : Env) (c : JobChain) (s : Service) → (save_chain env c s).0.jobs ≡ s.jobs
unfolding save_chain write_file
save_chain-jobs env c s = ground arith

workdir_of-ok :
    (dir d : String) (x : Run × Option String) → (workdir_of dir x).1 ≡ ok d → x.1 ≡ none
unfolding workdir_of
workdir_of-ok dir d (r, none) h = refl
workdir_of-ok dir d (r, some e) h = absurd (ground (arith, h))

-- The job told of the interruption, before it is saved.
abbrev told : String → Job → Service → Run
told reason job s =
    (touch
      (add_event "job_cancelled" reason
        (record { service = s; job = interrupted_job reason job })).0).0

told-job :
    (reason : String) (job : Job) (s : Service)
    → ((told reason job s).job.id ≡ job.id)
      × ((told reason job s).job.status ≡ JobStatus.blocked)
      × ((told reason job s).job.blocked_reason ≡ reason)
unfolding add_event touch touched
told-job reason job s = ground arith

interrupted-IsStopped :
    (env : Env) (reason d : String) (job : Job) (s : Service)
    → (interrupted env reason job s).1 ≡ ok d
    → IsStopped reason job (interrupted env reason job s).0
unfolding interrupted add_event touch resume_with save
interrupted-IsStopped env reason d job s h =
    let r = told reason job s in
    let (named, status, why) = told-job reason job s in
    let saved = workdir_of-ok _ d (save env r) h in
    (
      stored r.job,
      ap (λ (t : Service). get job.id t.jobs) (workdir_of-service _ (save env r))
          ∙ ap (get job.id) (save_job-none env r.job r.service saved)
          ∙ get-put_same r.job.id job.id (stored r.job) r.service.jobs named,
      status,
      why,
    )

interrupt_chain_goal_job-Stops :
    (env : Env) (chain : JobChain) (reason d : String) (s : Service)
    → (interrupt_chain_goal_job env chain reason s).1 ≡ ok d
    → Stops env chain reason s (interrupt_chain_goal_job env chain reason s).0
unfolding interrupt_chain_goal_job
interrupt_chain_goal_job-Stops env chain reason d s h goal job here named loaded live =
    let e : interrupt_chain_goal_job env chain reason s ≡ interrupted env reason job s =
      rw (here, named, loaded, live, interrupt_chain_goal_job) refl in
    subst (λ x. IsStopped reason job x.0) (sym e)
      (interrupted-IsStopped env reason d job s (ap (λ x. x.1) (sym e) ∙ h))

replied_with-none :
    (new c : JobChain) (y : Service × Option String)
    → (replied_with new y).1 ≡ replied c
    → (y.1 ≡ none) × (c ≡ new) × ((replied_with new y).0 ≡ y.0)
unfolding replied_with
replied_with-none new c (s, none) h = (refl, ground (arith, h), refl)
replied_with-none new c (s, some e) h = absurd (ground (arith, h))

cancel_interrupted-IsCancellation :
    (env : Env) (text : String) (chain c : JobChain) (s : Service) (x : Service × Result String)
    → ((d : String) → x.1 ≡ ok d → Stops env chain text s x.0)
    → (cancel_interrupted env chain x).1 ≡ replied c
    → IsCancellation env text chain c s (cancel_interrupted env chain x).0
unfolding cancel_interrupted
cancel_interrupted-IsCancellation env text chain c s (t, err e) stop h = absurd (ground (arith, h))
cancel_interrupted-IsCancellation env text chain c s (t, ok dir) stop h =
    let new = cancelled_chain t.now chain in
    let (saved, answer, after) = replied_with-none new c (save_chain env new t) h in
    let jobs = ap (λ (u : Service). u.jobs) after ∙ save_chain-jobs env new t in
    subst (λ d. IsCancellation env text chain d s (replied_with new (save_chain env new t)).0)
      (sym answer)
      (
        ap (λ (u : Service). get new.id u.chains) after
            ∙ ap (get new.id) (save_chain-none env new t saved)
            ∙ get-put_same new.id new.id new t.chains refl,
        inr (
          cancelled_chain-IsCancelled t.now chain,
          λ goal job here named loaded live.
              let (j, found, status, why) = stop dir refl goal job here named loaded live in
              (j, ap (get job.id) jobs ∙ found, status, why),
        ),
      )

answer_at :
    (env : Env) (text : String) (chain c : JobChain) (s : Service) (x y : Service × ChainReply)
    → x ≡ y
    → (y.1 ≡ replied c → IsCancellation env text chain c s y.0)
    → x.1 ≡ replied c
    → IsCancellation env text chain c s x.0
answer_at env text chain c s x y e f =
    subst (λ z. z.1 ≡ replied c → IsCancellation env text chain c s z.0) (sym e) f

closed_before :
    (env : Env) (id text : String) (c chain : JobChain) (s : Service)
    → IsKeyed s
    → get id s.chains ≡ some chain
    → is_closed_chain chain.status ≡ true
    → replied chain ≡ replied c
    → IsCancellation env text chain c s s
closed_before env id text c chain s keyed found shut h =
    let same : chain ≡ c = ground (arith, h) in
    subst (λ d. IsCancellation env text chain d s s) same
      (ap (λ n. get n s.chains) (keyed id chain found) ∙ found, inl (shut, refl))

-- The text of a cancellation.
abbrev pub chain_cancel_text : String → String
chain_cancel_text reason =
    "cancelled by chain operator: " ^^ or_default reason "operator cancelled chain"

-- A chain that CancelChain answers with is what the chain's file holds. It is the chain that was loaded
-- where that was closed; otherwise it is cancelled, the goal that it was at has failed if it was
-- pending or running, the other goals are as before, and the file of that goal's job has the job as
-- blocked with the operator's reason, if it was neither done, failed nor blocked. Every file is named
-- for its chain.
pub cancel_chain-IsCancellation :
    (env : Env) (id reason : String) (s : Service) (c : JobChain)
    → IsKeyed s
    → (cancel_chain env id reason s).1 ≡ replied c
    → (chain : JobChain) × (load_chain env id s ≡ ok chain)
      × IsCancellation env (chain_cancel_text reason) chain c s (cancel_chain env id reason s).0
unfolding cancel_chain with_open_chain
cancel_chain-IsCancellation env id reason s c keyed h =
    let text = chain_cancel_text reason in
    elim (Result-cases (load_chain env id s)) [
      | inl (e, l) ↦ absurd (ground (arith, l, h))
      | inr (chain, l) ↦
          let found = load_chain-found env id s chain l in
          (
            chain,
            l,
            elim (Bool-cases (is_closed_chain chain.status)) [
              | inl shut ↦
                  answer_at env text chain c s (cancel_chain env id reason s) (s, replied chain)
                    (ground (arith, l, shut)) (closed_before env id text c chain s keyed found shut)
                    h
              | inr fresh ↦
                  let x = interrupt_chain_goal_job env chain text s in
                  answer_at env text chain c s (cancel_chain env id reason s)
                    (cancel_interrupted env chain x) (ground (arith, l, fresh))
                    (cancel_interrupted-IsCancellation env text chain c s x
                      λ d. interrupt_chain_goal_job-Stops env chain text d s)
                    h
            ],
          )
    ]
