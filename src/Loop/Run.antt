-- ===== src/Loop/Run.antt =====
-- internal/orchestrator/service.go and job_runtime.go: a run of a job, with its claim, its lease and
-- what is tidied up behind it. The ticker that refreshes the lease is left out, since the clock stands
-- still.
use gorchera.Base.{ℕ, String, Bool, true, false, ◌&&◌, Option, none, some, if◌then◌else◌}
use gorchera.Base.Text.{is_blank, trim_space}
use gorchera.Base.Dict.{get, put, del, String_eq}
use gorchera.Base.Result.{ok, err}
use gorchera.Domain.{Job, JobStatus, is_recoverable_job_status}
use gorchera.Service.{
  Service, Run, Act, ◌>>◌, modify, interrupt_job, clear_job_runtime_state, save, cache,
  cache_remove, validate_id, load_job,
}
use gorchera.Loop.Answers.{World, at_turn, unless_stopped}
use gorchera.Loop.Plan.{ensure_planning, is_planned}
use gorchera.Loop.Leader.{LoopState, first_state, leader_loop}
use gorchera.Loop.SkipLeader.{run_skip_leader_loop}

abbrev is_some : {A : Type 0} → Option A → Bool
is_some none = false
is_some (some a) = true

-- claimJobRun; none where the run is claimed already.
unfoldable pub claim_job_run : String → Service → Option Service
claim_job_run id s = if is_blank id then some s else elim (get id s.running_jobs) [
  | some mark ↦ none
  | none ↦ some (record s { running_jobs = put id tt s.running_jobs })
]

-- releaseJobRun.
unfoldable pub release_job_run : String → Service → Service
release_job_run id s = if is_blank id then s else record s { running_jobs = del id s.running_jobs }

-- The step, of which an error is only logged.
unfoldable pub logged : Act → Act
logged k r = ((k r).0, none)

module _ (w : World) where
  -- latestJobSnapshot.
  unfoldable pub latest_job_snapshot : Job → Service → Job
  latest_job_snapshot job s = if is_blank job.id then job else elim (get job.id s.job_cache) [
    | some cached ↦ cached
    | none ↦ elim (load_job w.env job.id s) [ err e ↦ job | ok latest ↦ latest ]
  ]

  -- writeLease.
  unfoldable pub write_lease : Act
  unfolding at_turn
  write_lease = at_turn λ n r. elim (validate_id r.job.id) [
    | some e ↦ (r, some e)
    | none ↦ elim (w.lease_error n) [
      | some e ↦ (r, some e)
      | none ↦ (
        record r {
          service = record r.service {
            leases =
                put r.job.id
                  (record {
                    job_id = trim_space r.job.id;
                    run_owner_id = r.service.instance_id;
                    heartbeat_at = r.service.now;
                    workspace_dir = trim_space r.job.workspace_dir;
                  })
                  r.service.leases;
          };
        },
        none,
      )
    ]
  ]

  -- startJobLease, but for its ticker.
  unfoldable pub start_job_lease : Act
  unfolding write_lease logged
  start_job_lease r =
      if is_blank r.job.id
      then (r, none)
      else (modify (λ job. record job {
        run_owner_id = r.service.instance_id;
        run_heartbeat_at = r.service.now;
      })
            >> logged (save w.env)
            >> logged write_lease)
          r

  -- finalizeJobLease.
  unfoldable pub finalize_job_lease : Act
  unfolding logged
  finalize_job_lease = clear_job_runtime_state >> logged (save w.env)

  -- The loop of the job, behind its planning where it has none.
  unfoldable pub plan_first : Act → Act
  unfolding ensure_planning
  plan_first k r =
      if is_planned r.job
      then k r
      else (modify (λ job. record job { status = JobStatus.planning })
            >> cache
            >> ensure_planning w
            >> unless_stopped k)
          r

  -- The body of runLoop, with a number of rounds of the leader's loop.
  unfoldable pub drive : (LoopState → Act) → ℕ → Act
  unfolding plan_first leader_loop run_skip_leader_loop
  drive rest rounds = plan_first λ r.
      if r.job.skip_leader
      then run_skip_leader_loop w r
      else leader_loop w rest rounds first_state r

  -- An error that comes from the context interrupts a job that could be recovered, and is gone when
  -- that succeeds.
  unfoldable pub absorb : Run × Option String → Run × Option String
  unfolding at_turn
  absorb (r, none) = (r, none)
  absorb (r, some e) =
      at_turn
        (λ n r'.
          if w.is_over n && is_recoverable_job_status r'.job.status
          then (let (r'', e') =
                interrupt_job w.env "job interrupted while orchestrator context was cancelled" r' in
              elim e' [ none ↦ (r'', none) | some text ↦ (r'', some e) ])
          else (r', some e))
        r

  -- A job that has stopped leaves the cache.
  unfoldable pub forget : Act
  forget r =
      if is_recoverable_job_status r.job.status
      then (r, none)
      else (record r { service = cache_remove r.job.id r.service }, none)

  abbrev pub keeping_error : Act → Run × Option String → Run × Option String
  keeping_error k (r, e) = ((k r).0, e)

  unfoldable pub drop_run : Act
  drop_run r = (record r { service = release_job_run r.job.id r.service }, none)

  -- What runLoop has deferred.
  unfoldable pub close_run : Run × Option String → Run × Option String
  unfolding absorb finalize_job_lease forget drop_run
  close_run x = keeping_error (finalize_job_lease >> forget >> drop_run) (absorb x)

  -- runLoop.
  unfoldable pub run_loop : (LoopState → Act) → ℕ → Act
  unfolding claim_job_run start_job_lease drive close_run latest_job_snapshot
  run_loop rest rounds r = elim (claim_job_run r.job.id r.service) [
    | none ↦ (record r { job = latest_job_snapshot r.job r.service }, none)
    | some s ↦ close_run ((start_job_lease >> drive rest rounds) (record r { service = s }))
  ]
