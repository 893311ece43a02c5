-- ===== src/Chain/Advance.antt =====
-- advanceChain of internal/orchestrator/service.go: when a chain goes on to its next goal.
use gorchera.Base.{
  suc, ◌≡◌, refl, length, ◌==◌, get_elem?, inl, inr, String, Bool, false, true, ◌||◌, Option, none,
  some, arith, if◌then◌else◌, Bool-cases, Option-cases,
}
use gorchera.Base.Text.{◌is◌}
use gorchera.Base.Result.{ok, Result-cases}
use gorchera.Domain.{Job, JobChain, ChainGoal}
use gorchera.Service.{
  Env, Service, save_chain, write_file, load_job, is_done, is_blocked, is_failed,
}
use gorchera.Prepare.{Site}
use gorchera.Chain.Start.{advance_chain, advance_with, is_halted}

-- Either no job is handed to a run, or the chain may go on: it runs, the goal it is at is not the last
-- one, and the job of that goal is in the store and done.
pub data Advances (env : Env) (chain : JobChain) (s t : Service) : Type 0 where
  stays : t.background ≡ s.background → Advances env chain s t
  goes_on :
      (goal : ChainGoal) (job : Job)
      → is_halted chain.status ≡ false
      → get_elem? chain.goals chain.current_index ≡ some goal
      → (goal.job_id is "") ≡ false
      → load_job env goal.job_id s ≡ ok job
      → is_done job.status ≡ true
      → (suc chain.current_index == length chain.goals) ≡ false
      → Advances env chain s t

save_chain-background :
    (env : Env) (chain : JobChain) (s : Service)
    → (save_chain env chain s).0.background ≡ s.background
unfolding save_chain write_file
save_chain-background env chain s = ground arith

if-background :
    (c : Bool) (s : Service) (x : Service × Option String)
    → x.0.background ≡ s.background
    → (if c then x else (s, none)).0.background ≡ s.background
if-background true s x h = h
if-background false s x h = refl

module _ (env : Env) (site : Site) (chain : JobChain) (s : Service) where
  advance_with-Advances :
      (goal : ChainGoal) (job : Job)
      → is_halted chain.status ≡ false
      → get_elem? chain.goals chain.current_index ≡ some goal
      → (goal.job_id is "") ≡ false
      → load_job env goal.job_id s ≡ ok job
      → Advances env chain s (advance_with env site chain job s).0
  unfolding advance_with
  advance_with-Advances goal job awake here named loaded = elim (Bool-cases (is_done job.status)) [
    | inl over ↦ elim (Bool-cases (suc chain.current_index == length chain.goals)) [
      | inl last ↦ stays (rw (over, last, advance_with) (save_chain-background env _ s))
      | inr more ↦ goes_on goal job awake here named loaded over more
    ]
    | inr going ↦ stays (
        rw (going, advance_with)
          (if-background (is_blocked job.status || is_failed job.status) s _
            (save_chain-background env _ s)))
  ]

  -- Whatever the store answers: advanceChain hands a job to a run only where the chain runs, the goal
  -- it is at is not the last one, and the job of that goal is loaded and done.
  pub advance_chain-Advances : Advances env chain s (advance_chain env site chain s).0
  unfolding advance_chain
  advance_chain-Advances = elim (Bool-cases (is_halted chain.status)) [
    | inl halted ↦ stays (rw (halted, advance_chain) refl)
    | inr awake ↦ elim (Option-cases (get_elem? chain.goals chain.current_index)) [
      | inl out ↦ stays (rw (awake, out, advance_chain) refl)
      | inr (goal, here) ↦ elim (Bool-cases (goal.job_id is "")) [
        | inl blank ↦ stays (rw (awake, here, blank, advance_chain) refl)
        | inr named ↦ elim (Result-cases (load_job env goal.job_id s)) [
          | inl (e, lost) ↦ stays (rw (awake, here, named, lost, advance_chain) refl)
          | inr (job, loaded) ↦
              rw (awake, here, named, loaded, advance_chain)
                (advance_with-Advances goal job awake here named loaded)
        ]
      ]
    ]
  ]
