-- ===== src/Loop/Closing.antt =====
-- runLoop of internal/orchestrator/service.go: what a run of a job leaves behind.
use gorchera.Base.{
  ℕ, ◌≡◌, ◌∙◌, ap, refl, ◌⊎◌, inl, inr, String, Bool, true, false, Option, none, arith,
  Option-cases, List, if◌then◌else◌,
}
use gorchera.Base.Text.{is_blank}
use gorchera.Base.Dict.{get, del, get-del, String_eq}
use gorchera.Domain.{is_recoverable_job_status}
use gorchera.Service.{
  Run, Service, Act, ◌>>◌, resume_with, clear_job_runtime_state, save, save_job, write_file,
  cache_remove,
}
use gorchera.Loop.{
  World, LoopState, run_loop, close_run, finalize_job_lease, forget, drop_run, logged,
  release_job_run, claim_job_run, absorb, keeping_error, start_job_lease, drive,
}

-- The job is no longer marked as running, has no owner and no heartbeat, and has left the
-- cache where it cannot be recovered.
pub record IsTidy (r : Run) : Type 0 where
  pub unmarked : is_blank r.job.id ≡ false → get r.job.id r.service.running_jobs ≡ none
  pub unowned : r.job.run_owner_id ≡ ""
  pub still : r.job.run_heartbeat_at ≡ 0
  pub forgotten :
      is_recoverable_job_status r.job.status ≡ false → get r.job.id r.service.job_cache ≡ none

-- The job has no owner and no heartbeat.
record IsFreed (r : Run) : Type 0 where
  pub unowned : r.job.run_owner_id ≡ ""
  pub still : r.job.run_heartbeat_at ≡ 0

get-del_self : {V : Type 0} (k : String) (m : List (String × V)) → get k (del k m) ≡ none
get-del_self k m = get-del k k m ∙ ground (arith, String_eq.same_iff k k)

release_job_run-job_cache :
    (id : String) (s : Service) → (release_job_run id s).job_cache ≡ s.job_cache
unfolding release_job_run
release_job_run-job_cache id s = ground arith

release_job_run-marks :
    (id : String) (s : Service)
    → is_blank id ≡ false
    → get id (release_job_run id s).running_jobs ≡ none
unfolding release_job_run
release_job_run-marks id s h = ground (arith, h, get-del_self id s.running_jobs)

module _ (w : World) where
  drop_run-IsTidy :
      (r : Run)
      → IsFreed r
      → (is_recoverable_job_status r.job.status ≡ false → get r.job.id r.service.job_cache ≡ none)
      → IsTidy (drop_run w r).0
  unfolding drop_run
  drop_run-IsTidy r f out = record {
    unmarked = λ h. release_job_run-marks r.job.id r.service h;
    unowned = f.unowned;
    still = f.still;
    forgotten = λ h. ap (get r.job.id) (release_job_run-job_cache r.job.id r.service) ∙ out h;
  }

  forget-IsTidy :
      (r : Run) (c : Bool)
      → is_recoverable_job_status r.job.status ≡ c
      → IsFreed r
      → IsTidy
          (resume_with (drop_run w) (
            if c
            then (r, none)
            else (record r { service = cache_remove r.job.id r.service }, none))).0
  unfolding resume_with cache_remove
  forget-IsTidy r true h f = drop_run-IsTidy r f λ e. absurd (ground (arith, h, e))
  forget-IsTidy r false h f =
      drop_run-IsTidy (record r { service = cache_remove r.job.id r.service })
        (record { unowned = f.unowned; still = f.still })
        λ e. get-del_self r.job.id r.service.job_cache

  finalize_job_lease-IsFreed : (r : Run) → IsFreed (finalize_job_lease w r).0
  unfolding finalize_job_lease logged resume_with clear_job_runtime_state save save_job write_file
  finalize_job_lease-IsFreed r = record { unowned = refl; still = refl }

  closed-IsTidy : (r : Run) → IsTidy ((finalize_job_lease w >> forget w >> drop_run w) r).0
  unfolding finalize_job_lease forget logged resume_with clear_job_runtime_state
  closed-IsTidy r = forget-IsTidy (finalize_job_lease w r).0 _ refl (finalize_job_lease-IsFreed r)

  kept-IsTidy :
      (x : Run × Option String)
      → IsTidy (keeping_error w (finalize_job_lease w >> forget w >> drop_run w) x).0
  kept-IsTidy (r, e) = closed-IsTidy r

  -- Whatever the world answers and after any number of rounds: a run of a job that is already
  -- marked as running leaves the service as it was. Any other run, one that stops with an error
  -- too, ends with the mark gone, where the job's id is not blank, without owner and heartbeat, and
  -- out of the cache unless the job's status is one that can be recovered.
  pub run_loop-IsTidy :
      (rest : LoopState → Act) (rounds : ℕ) (r : Run)
      → ((claim_job_run r.job.id r.service ≡ none)
          × ((run_loop w rest rounds r).0.service ≡ r.service))
        ⊎ IsTidy (run_loop w rest rounds r).0
  unfolding run_loop close_run
  run_loop-IsTidy rest rounds r = elim (Option-cases (claim_job_run r.job.id r.service)) [
    | inl taken ↦ inl (taken, rw (taken, run_loop) refl)
    | inr (s, fresh) ↦
        let driven : Run × Option String =
          (start_job_lease w >> drive w rest rounds) (record r { service = s }) in
        inr (rw (fresh, run_loop) (kept-IsTidy (absorb w driven)))
  ]
