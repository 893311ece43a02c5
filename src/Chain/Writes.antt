-- ===== src/Chain/Writes.antt =====
-- internal/orchestrator/service.go: what the operations on chains do to the files of the chains.
use gorchera.Base.{
  ◌≡◌, subst, Bool-cases, sym, ◌⊎◌, inl, inr, String, Bool, true, false, Option, none, some, arith,
  refl, ap, ◌∙◌,
}
use gorchera.Base.Text.{is_blank}
use gorchera.Base.Dict.{get, put, String_eq}
use gorchera.Base.Result.{Result, ok, err}
use gorchera.Domain.{Job, JobChain, is_closed_chain}
use gorchera.Service.{
  Env, Service, Run, add_event, touch, save, save_job, cache_update, notify, resume_with,
  load_chain, save_chain, write_file, handle_chain_terminal_state, failed_chain,
}
use gorchera.Chain.{
  ChainReply, replied, refused, pause_chain, cancel_chain, with_open_chain, cancel_interrupted,
  interrupted, interrupted_job, workdir_of, interrupt_chain_goal_job, paused_chain, cancelled_chain,
  replied_with,
}

-- An operation leaves the files of the chains, or rewrites the one of an open chain, any number of
-- times.
pub data Writes : Service → Service → Type 0 where
  same : {s t : Service} → t.chains ≡ s.chains → Writes s t
  rewrites :
      {s t : Service} (name : String) (old new : JobChain)
      → get name s.chains ≡ some old
      → is_closed_chain old.status ≡ false
      → new.id ≡ old.id
      → t.chains ≡ put new.id new s.chains
      → Writes s t
  both : {s t : Service} (u : Service) → Writes s u → Writes u t → Writes s t

save_chain-cases :
    (env : Env) (c : JobChain) (s : Service)
    → ((save_chain env c s).0.chains ≡ s.chains)
      ⊎ ((save_chain env c s).0.chains ≡ put c.id c s.chains)
unfolding save_chain write_file
save_chain-cases env c s = ground arith

pub save_chain-none :
    (env : Env) (c : JobChain) (s : Service)
    → (save_chain env c s).1 ≡ none
    → (save_chain env c s).0.chains ≡ put c.id c s.chains
unfolding save_chain write_file
save_chain-none env c s h = ground (arith, h)

pub save_chain-Writes :
    (env : Env) (name : String) (old new : JobChain) (s t : Service)
    → t.chains ≡ s.chains
    → get name s.chains ≡ some old
    → is_closed_chain old.status ≡ false
    → new.id ≡ old.id
    → Writes s (save_chain env new t).0
save_chain-Writes env name old new s t h found fresh e = elim (save_chain-cases env new t) [
  | inl kept ↦ same (kept ∙ h)
  | inr put_in ↦ rewrites name old new found fresh e (put_in ∙ ap (put new.id new) h)
]

pub load_chain-found :
    (env : Env) (id : String) (s : Service) (c : JobChain)
    → load_chain env id s ≡ ok c
    → get id s.chains ≡ some c
unfolding load_chain
load_chain-found env id s c h = ground (arith, h)

pub with_open_chain-Writes :
    (env : Env) (id : String) (s : Service) (k : JobChain → Service × ChainReply)
    → ((chain : JobChain)
        → get id s.chains ≡ some chain
        → is_closed_chain chain.status ≡ false
        → Writes s (k chain).0)
    → Writes s (with_open_chain env id s k).0
unfolding with_open_chain
with_open_chain-Writes env id s k h = go (load_chain env id s) refl
  where
    opened :
        (chain : JobChain) (b : Bool)
        → load_chain env id s ≡ ok chain
        → is_closed_chain chain.status ≡ b
        → Writes s
            (elim b as (λ _. Service × ChainReply) [
              | true ↦ (s, replied chain)
              | false ↦ k chain
            ]).0
    opened chain true l e = same refl
    opened chain false l e = h chain (load_chain-found env id s chain l) e

    go :
        (x : Result JobChain)
        → load_chain env id s ≡ x
        → Writes s
            (elim x as (λ _. Service × ChainReply) [
              | err e ↦ (s, refused e)
              | ok chain ↦ elim (is_closed_chain chain.status) [
                | true ↦ (s, replied chain)
                | false ↦ k chain
              ]
            ]).0
    go (err e) l = same refl
    go (ok chain) l = opened chain (is_closed_chain chain.status) l refl

pub replied_with-service :
    (chain : JobChain) (x : Service × Option String) → (replied_with chain x).0 ≡ x.0
unfolding replied_with
replied_with-service chain (s, none) = refl
replied_with-service chain (s, some e) = refl

pub pause_chain-Writes : (env : Env) (id : String) (s : Service) → Writes s (pause_chain env id s).0
unfolding pause_chain
pause_chain-Writes env id s = with_open_chain-Writes env id s _ λ chain found fresh.
    subst (Writes s) (sym (replied_with-service _ _))
      (save_chain-Writes env id chain (paused_chain s.now chain) s s refl found fresh refl)

pub workdir_of-service :
    (dir : String) (x : Run × Option String) → (workdir_of dir x).0 ≡ x.0.service
unfolding workdir_of
workdir_of-service dir (r, none) = refl
workdir_of-service dir (r, some e) = refl

pub save-chains : (env : Env) (r : Run) → (save env r).0.service.chains ≡ r.service.chains
unfolding save save_job write_file
save-chains env r = ground arith

pub told-chains :
    (kind message : String) (r : Run)
    → (touch (add_event kind message r).0).0.service.chains ≡ r.service.chains
unfolding add_event touch cache_update notify
told-chains kind message r = ground arith

interrupted-chains :
    (env : Env) (reason : String) (job : Job) (s : Service)
    → (interrupted env reason job s).0.chains ≡ s.chains
unfolding interrupted add_event touch resume_with
interrupted-chains env reason job s =
    let r : Run = record { service = s; job = interrupted_job reason job } in
    ap (λ (t : Service). t.chains) (workdir_of-service _ _)
    ∙ save-chains env (touch (add_event "job_cancelled" reason r).0).0
    ∙ told-chains "job_cancelled" reason r

pub interrupt_chain_goal_job-chains :
    (env : Env) (chain : JobChain) (reason : String) (s : Service)
    → (interrupt_chain_goal_job env chain reason s).0.chains ≡ s.chains
unfolding interrupt_chain_goal_job
interrupt_chain_goal_job-chains env chain reason s = grind (arith, interrupted-chains env reason)

cancel_interrupted-Writes :
    (env : Env) (name : String) (chain : JobChain) (s : Service) (x : Service × Result String)
    → x.0.chains ≡ s.chains
    → get name s.chains ≡ some chain
    → is_closed_chain chain.status ≡ false
    → Writes s (cancel_interrupted env chain x).0
unfolding cancel_interrupted
cancel_interrupted-Writes env name chain s (t, err e) h found fresh = same h
cancel_interrupted-Writes env name chain s (t, ok dir) h found fresh =
    subst (Writes s) (sym (replied_with-service _ _))
      (save_chain-Writes env name chain (cancelled_chain t.now chain) s t h found fresh refl)

pub cancel_chain-Writes :
    (env : Env) (id reason : String) (s : Service) → Writes s (cancel_chain env id reason s).0
unfolding cancel_chain
cancel_chain-Writes env id reason s = with_open_chain-Writes env id s _ λ chain found fresh.
    cancel_interrupted-Writes env id chain s _ (interrupt_chain_goal_job-chains env chain _ s) found
      fresh

pub Result-cases :
    (x : Result JobChain) → ((e : String) × (x ≡ err e)) ⊎ ((chain : JobChain) × (x ≡ ok chain))
Result-cases (err e) = inl (e, refl)
Result-cases (ok chain) = inr (chain, refl)

pub terminal-Writes :
    (env : Env) (r : Run) → Writes r.service (handle_chain_terminal_state env r).0.service
unfolding handle_chain_terminal_state
terminal-Writes env r = elim (Bool-cases (is_blank r.job.chain_id)) [
  | inl blank ↦ same (ground (arith, blank))
  | inr present ↦ elim (Result-cases (load_chain env r.job.chain_id r.service)) [
    | inl (e, l) ↦ same (ground (arith, present, l))
    | inr (chain, l) ↦ elim (Bool-cases (is_closed_chain chain.status)) [
      | inl shut ↦ same (ground (arith, present, l, shut))
      | inr fresh ↦
          let failed = failed_chain r.service.now r.job.chain_goal_index chain in
          let saved : (handle_chain_terminal_state env r).0.service
              ≡ (save_chain env failed r.service).0 =
            ground (arith, present, l, fresh) in
          subst (Writes r.service) (sym saved) (
            save_chain-Writes env r.job.chain_id chain failed r.service r.service refl
              (load_chain-found env r.job.chain_id r.service chain l) fresh refl)
    ]
  ]
]
