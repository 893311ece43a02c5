-- ===== src/Chain/Progress.antt =====
-- internal/orchestrator/service.go: starting, advancing, resuming and skipping the goals of a chain
-- only writes the files of open chains.
use gorchera.Base.{
  ◌≡◌, refl, sym, subst, ap, ◌∙◌, ℕ, inl, inr, String, Bool, true, false, Option, none, some, arith,
  Bool-cases, Option-cases, get_elem?, if◌then◌else◌, suc, ltb, length, ◌==◌, ◌||◌,
}
use gorchera.Base.Text.{◌is◌, ◌^^◌, itoa, is_blank}
use gorchera.Base.Dict.{get, get-put_same, String_eq}
use gorchera.Base.Result.{Result, ok, err, Result-cases}
use gorchera.Domain.{Job, JobChain, ChainContext, ChainStatus, is_closed_chain}
use gorchera.Prepare.{Site, start_prepared_job_async, prepare_job, hand_over}
use gorchera.Service.{
  Env, Service, Run, save_chain, load_chain, add_event, touch, save, save_job, write_file,
  cache_update, notify, resume_with, failed_chain, is_done, is_blocked, is_failed, load_job,
}
use gorchera.Chain.{refused, interrupt_chain_goal_job}
use gorchera.Chain.Start.{
  launch, start_chain_goal, start_next, advance_with, advance_chain, complete_at,
  handle_chain_completion, resume_saved, resume_chain, start_after_skip, skip_interrupted,
  skip_chain_goal, is_halted, reloaded, replied_unless, chain_current_goal_has_completed, give_up,
  goal_input, started_chain, done_chain,
}
use gorchera.Chain.Ops.{Op, pauses, cancels, resumes, skips, stops, completes, apply}
use gorchera.Chain.Writes.{
  Writes, same, both, save_chain-none, save_chain-Writes, load_chain-found, with_open_chain-Writes,
  pause_chain-Writes, cancel_chain-Writes, terminal-Writes, interrupt_chain_goal_job-chains,
}

start_prepared_job_async-chains :
    (env : Env) (r : Run) → (start_prepared_job_async env r).0.service.chains ≡ r.service.chains
unfolding start_prepared_job_async hand_over add_event touch save save_job write_file cache_update
    notify resume_with
start_prepared_job_async-chains env r = ground arith

open_of_going : (status : ChainStatus) → is_halted status ≡ false → is_closed_chain status ≡ false
open_of_going ChainStatus.running h = refl
open_of_going ChainStatus.paused h = refl
open_of_going ChainStatus.done h = absurd (ground (arith, h))
open_of_going ChainStatus.failed h = absurd (ground (arith, h))
open_of_going ChainStatus.cancelled h = absurd (ground (arith, h))

module _ (env : Env) (site : Site) where
  -- The write of an open chain under its name, and what follows on it where it succeeds.
  save_then-Writes :
      (name : String) (old new : JobChain) (s : Service) (k : Service × Option String → Service)
      → get name s.chains ≡ some old
      → is_closed_chain old.status ≡ false
      → new.id ≡ old.id
      → ((t : Service) (e : String) → Writes t (k (t, some e)))
      → ((t : Service) → get new.id t.chains ≡ some new → Writes t (k (t, none)))
      → Writes s (k (save_chain env new s))
  save_then-Writes name old new s k found fresh same_id failing going =
      both (save_chain env new s).0
        (save_chain-Writes env name old new s s refl found fresh same_id)
        (after (save_chain env new s) λ h.
          ap (get new.id) (save_chain-none env new s h)
          ∙ get-put_same new.id new.id new s.chains refl)
    where
      after :
          (x : Service × Option String)
          → (x.1 ≡ none → get new.id x.0.chains ≡ some new)
          → Writes x.0 (k x)
      after (t, none) h = going t (h refl)
      after (t, some e) h = failing t e

  started-Writes :
      (index : ℕ) (chain : JobChain) (s : Service) (r : Run) (e : Option String)
      → r.service.chains ≡ s.chains
      → get chain.id s.chains ≡ some chain
      → is_closed_chain chain.status ≡ false
      → Writes s
          (elim e as (λ _. Service × Option String) [
            | none ↦ (r.service, none)
            | some text ↦ give_up env site index chain text r.service
          ]).0
  started-Writes index chain s r none kept found fresh = same kept
  started-Writes index chain s r (some e) kept found fresh =
      save_chain-Writes env chain.id chain (failed_chain r.service.now index chain) s r.service kept
        found fresh refl

  launch-Writes :
      (index : ℕ) (chain : JobChain) (job : Job) (s : Service)
      → get chain.id s.chains ≡ some chain
      → is_closed_chain chain.status ≡ false
      → Writes s (launch env site index chain job (s, none)).0
  unfolding launch
  launch-Writes index chain job s found fresh =
      let start : Run = record { service = s; job = job } in
      let x = start_prepared_job_async env start in
      started-Writes index chain s x.0 x.1 (start_prepared_job_async-chains env start) found fresh

  start_chain_goal-Writes :
      (name : String) (chain : JobChain) (dir : String) (index : ℕ) (context : Option ChainContext)
      (s : Service)
      → get name s.chains ≡ some chain
      → is_closed_chain chain.status ≡ false
      → Writes s (start_chain_goal env site chain dir index context s).0
  unfolding start_chain_goal launch
  start_chain_goal-Writes name chain dir index context s found fresh =
      elim (Option-cases (get_elem? chain.goals index)) [
        | inl out ↦ same (rw (out, start_chain_goal) refl)
        | inr (goal, here) ↦
            elim (Result-cases (prepare_job site (goal_input chain index dir goal) s)) [
              | inl (e, bad) ↦
                  rw (here, bad, start_chain_goal)
                    (save_chain-Writes env name chain (failed_chain s.now index chain) s s refl
                      found fresh refl)
              | inr (job, good) ↦
                  let chain' = started_chain s.now index job.id goal chain in
                  let job' : Job = record job { chain_context = context } in
                  rw (here, good, start_chain_goal)
                    (save_then-Writes name chain chain' s
                      (λ x. (launch env site index chain' job' x).0) found fresh refl
                      (λ t e. same refl) λ t f. launch-Writes index chain' job' t f refl)
            ]
      ]

  start_next-Writes :
      (chain : JobChain) (job : Job) (s : Service)
      → Writes s (start_next env site chain job (s, none)).0
  unfolding start_next
  start_next-Writes chain job s = elim (Result-cases (load_chain env chain.id s)) [
    | inl (e, lost) ↦ same (rw (lost, start_next) refl)
    | inr (latest, loaded) ↦ elim (Bool-cases (is_halted latest.status)) [
      | inl halted ↦ same (rw (loaded, start_next, halted) refl)
      | inr going ↦
          rw (loaded, start_next, going)
            (start_chain_goal-Writes chain.id latest _ _ _ s
              (load_chain-found env chain.id s latest loaded) (open_of_going latest.status going))
    ]
  ]

  if-Writes :
      {A : Type 0} {s : Service} (c : Bool) (x y : Service × A)
      → Writes s x.0
      → Writes s y.0
      → Writes s (if c then x else y).0
  if-Writes true x y p q = p
  if-Writes false x y p q = q

  advance_with-Writes :
      (name : String) (chain : JobChain) (job : Job) (s : Service)
      → get name s.chains ≡ some chain
      → is_closed_chain chain.status ≡ false
      → Writes s (advance_with env site chain job s).0
  unfolding advance_with start_next
  advance_with-Writes name chain job s found fresh =
      let write = λ (c : JobChain) (same_id : c.id ≡ chain.id).
        save_chain-Writes env name chain c s s refl found fresh same_id in
      if-Writes (is_done job.status) _ _
        (if-Writes (suc chain.current_index == length chain.goals) _ _ (write _ refl) (
          save_then-Writes name chain (done_chain env site s.now chain) s
            (λ x. (start_next env site chain job x).0) found fresh refl (λ t e. same refl)
            λ t f. start_next-Writes chain job t))
        (if-Writes (is_blocked job.status || is_failed job.status) _ _ (write _ refl) (same refl))

  advance_chain-Writes :
      (name : String) (chain : JobChain) (s : Service)
      → get name s.chains ≡ some chain
      → Writes s (advance_chain env site chain s).0
  unfolding advance_chain
  advance_chain-Writes name chain s found = elim (Bool-cases (is_halted chain.status)) [
    | inl halted ↦ same (rw (halted, advance_chain) refl)
    | inr going ↦ elim (Option-cases (get_elem? chain.goals chain.current_index)) [
      | inl out ↦ same (rw (going, out, advance_chain) refl)
      | inr (goal, here) ↦
          rw (going, here, advance_chain)
            (if-Writes (goal.job_id is "") _ _ (same refl)
              (loaded_job (load_job env goal.job_id s) going))
    ]
  ]
    where
      loaded_job :
          (x : Result Job)
          → is_halted chain.status ≡ false
          → Writes s
              (elim x as (λ _. Service × Option String) [
                | err e ↦ (s, some e)
                | ok job ↦ advance_with env site chain job s
              ]).0
      loaded_job (err e) going = same refl
      loaded_job (ok job) going =
          advance_with-Writes name chain job s found (open_of_going chain.status going)

  complete_at-Writes :
      (name : String) (chain : JobChain) (job : Job) (s : Service)
      → get name s.chains ≡ some chain
      → (status : ChainStatus) → chain.status ≡ status
      → Writes s (complete_at env site status chain job s).0
  complete_at-Writes name chain job s found ChainStatus.cancelled e = same refl
  complete_at-Writes name chain job s found ChainStatus.paused e =
      if-Writes (ltb job.chain_goal_index (length chain.goals)) _ _
        (save_chain-Writes env name chain _ s s refl found (ap is_closed_chain e) refl) (same refl)
  complete_at-Writes name chain job s found ChainStatus.running e =
      advance_chain-Writes name chain s found
  complete_at-Writes name chain job s found ChainStatus.done e =
      advance_chain-Writes name chain s found
  complete_at-Writes name chain job s found ChainStatus.failed e =
      advance_chain-Writes name chain s found

  handle_chain_completion-Writes :
      (r : Run) → Writes r.service (handle_chain_completion env site r).0.service
  unfolding handle_chain_completion
  handle_chain_completion-Writes r = elim (Bool-cases (is_blank r.job.chain_id)) [
    | inl alone ↦ same (rw (alone, handle_chain_completion) refl)
    | inr within ↦ elim (Result-cases (load_chain env r.job.chain_id r.service)) [
      | inl (e, lost) ↦ same (rw (within, lost, handle_chain_completion) refl)
      | inr (chain, loaded) ↦
          rw (within, loaded, handle_chain_completion)
            (complete_at-Writes r.job.chain_id chain r.job r.service
              (load_chain-found env r.job.chain_id r.service chain loaded) chain.status refl)
    ]
  ]

  reloaded-service : (id : String) (x : Service × Option String) → (reloaded env site id x).0 ≡ x.0
  reloaded-service id (s, some e) = refl
  reloaded-service id (s, none) = elim (Result-cases (load_chain env id s)) [
    | inl (e, l) ↦ rw (l, reloaded) refl
    | inr (c, l) ↦ rw (l, reloaded) refl
  ]

  resume_saved-Writes :
      (chain : JobChain) (s : Service)
      → get chain.id s.chains ≡ some chain
      → Writes s (resume_saved env site chain (s, none)).0
  unfolding resume_saved
  resume_saved-Writes chain s found =
      elim (Bool-cases (chain_current_goal_has_completed env site chain s)) [
        | inl over ↦
            rw (over, resume_saved)
              (subst (Writes s) (sym (reloaded-service chain.id (advance_chain env site chain s)))
                (advance_chain-Writes chain.id chain s found))
        | inr going ↦ rw (going, resume_saved) (same refl)
      ]

  resume_chain-Writes : (id : String) (s : Service) → Writes s (resume_chain env site id s).0
  unfolding resume_chain resume_saved
  resume_chain-Writes id s = with_open_chain-Writes env id s _ λ chain found fresh.
      let going : JobChain = record chain { status = ChainStatus.running; updated_at = s.now } in
      save_then-Writes id chain going s (λ x. (resume_saved env site going x).0) found fresh refl
        (λ t e. same refl) λ t f. resume_saved-Writes going t f

  replied_unless-service :
      (chain : JobChain) (x : Service × Option String) → (replied_unless env site chain x).0 ≡ x.0
  replied_unless-service chain (s, some e) = refl
  replied_unless-service chain (s, none) = refl

  start_after_skip-Writes :
      (id : String) (chain new : JobChain) (dir : String) (s : Service)
      → get id s.chains ≡ some chain
      → is_closed_chain chain.status ≡ false
      → new.id ≡ chain.id
      → is_closed_chain new.status ≡ false
      → Writes s (start_after_skip env site new dir (save_chain env new s)).0
  unfolding start_after_skip
  start_after_skip-Writes id chain new dir s found fresh same_id going =
      save_then-Writes id chain new s (λ x. (start_after_skip env site new dir x).0) found fresh
        same_id (λ t e. same refl) λ t f. start_chain_goal-Writes new.id new dir _ none t f going

  skip_interrupted-Writes :
      (id : String) (chain : JobChain) (s : Service) (x : Service × Result String)
      → x.0.chains ≡ s.chains
      → get id s.chains ≡ some chain
      → is_closed_chain chain.status ≡ false
      → Writes s (skip_interrupted env site chain x).0
  unfolding skip_interrupted
  skip_interrupted-Writes id chain s (t, err e) h found fresh = same h
  skip_interrupted-Writes id chain s (t, ok dir) h found fresh =
      elim (Bool-cases (suc chain.current_index == length chain.goals)) [
        | inl last ↦
            rw (last, skip_interrupted)
              (subst (Writes s) (sym (replied_unless-service _ _))
                (save_chain-Writes env id chain _ s t h found fresh refl))
        | inr more ↦
            rw (more, skip_interrupted)
              (subst (Writes s) (sym (reloaded-service chain.id _)) (
                both t (same h) (
                  start_after_skip-Writes id chain _ dir t (ap (get id) h ∙ found) fresh refl
                    refl)))
      ]

  skip_chain_goal-Writes : (id : String) (s : Service) → Writes s (skip_chain_goal env site id s).0
  unfolding skip_chain_goal
  skip_chain_goal-Writes id s = with_open_chain-Writes env id s _ λ chain found fresh.
      let x = interrupt_chain_goal_job env chain "chain goal skipped by operator" s in
      if-Writes (ltb chain.current_index (length chain.goals)) (skip_interrupted env site chain x)
        (s, refused ("chain current index out of range: " ^^ itoa chain.current_index))
        (skip_interrupted-Writes id chain s x
          (interrupt_chain_goal_job-chains env chain "chain goal skipped by operator" s) found
          fresh)
        (same refl)

  pub apply-Writes : (s : Service) (op : Op) → Writes s (apply env site s op)
  unfolding apply
  apply-Writes s (pauses id) = pause_chain-Writes env id s
  apply-Writes s (cancels id reason) = cancel_chain-Writes env id reason s
  apply-Writes s (resumes id) = resume_chain-Writes id s
  apply-Writes s (skips id) = skip_chain_goal-Writes id s
  apply-Writes s (stops job) = terminal-Writes env (record { service = s; job = job })
  apply-Writes s (completes job) =
      handle_chain_completion-Writes (record { service = s; job = job })
