-- ===== src/Loop/Ends.antt =====
-- internal/orchestrator/service.go and skip_leader.go: the loops number the steps, end within one step
-- of the limit, and end a job as done only where it has earned it.
use gorchera.Base.{ℕ, zero, suc, ◌≡◌, refl, String, arith}
use gorchera.Domain.{JobStatus, LeaderOutput}
use gorchera.Chain.Start.{handle_chain_completion}
use gorchera.Provider.{
  PhaseEnd, answered, gave_up, ErrorAction, execute_provider_phase, provider_retry_limit,
}
use gorchera.Service.{
  Env, Run, Act, ◌>>◌, resume_with, clear_job_runtime_state, add_event, touch, save,
}
use gorchera.Prepare.{Site}
use gorchera.Loop.{
  World, set_hint, on_end, phase, reject_leader, fail_leader, retry_leader, settle_leader,
  complete_job, at_turn,
}
use gorchera.Loop.Moves.{
  Keeps, ◌>>>◌, weaken, Moves-refl, add_event-Keeps, touch-Keeps, save-Keeps,
  clear_job_runtime_state-Keeps, execute_from-Moves,
}
use gorchera.Loop.Moves.Worker.{set_hint-Keeps}
use gorchera.Loop.Stops.{fail_job-Keeps}
use gorchera.Loop.Earned.{
  Earned, Earned-Shows, Leaves, ◌>>>>◌, add_event-Leaves, touch-Leaves, save-Leaves,
  clear_job_runtime_state-Leaves, Sound, Fits, Runs, Moves-Fits, Moves-then-Sound, Keeps-Runs,
  then-Runs,
}
use gorchera.Loop.Gate.{on_error-Runs}

completion-job :
    (env : Env) (site : Site) (r : Run) → (handle_chain_completion env site r).0.job ≡ r.job
unfolding handle_chain_completion
completion-job env site r = ground arith

module _ (w : World) where
  on_end-Runs :
      {n : ℕ} {k : String → Act} {f : ErrorAction → String → Act} (end : PhaseEnd)
      → ((text : String) → Runs w n (k text))
      → ((action : ErrorAction) (text : String) → Runs w n (f action text))
      → Runs w n (on_end end k f)
  unfolding on_end
  on_end-Runs (answered text) p q = p text
  on_end-Runs (gave_up action text) p q = q action text

  pub phase-Runs :
      {n : ℕ} {k : ℕ → PhaseEnd → Act} (name : String)
      → ((i : ℕ) (end : PhaseEnd) → Runs w n (k i end))
      → Runs w n (phase w name k)
  unfolding phase at_turn execute_provider_phase
  phase-Runs {n} name h = record {
    sound = λ r f.
        let asked : Run = record r { service = record r.service { turn = suc r.service.turn } } in
        let i = r.service.turn in
        let x = execute_provider_phase (w.call i) (w.wait i) w.format_duration name asked in
        let p =
          execute_from-Moves (w.call i) (w.wait i) w.format_duration name provider_retry_limit 0
            asked in
        Moves-then-Sound w 0 r.job x.0.job _ p
          ((h i x.1).sound x.0 (Moves-Fits 0 n n r.job x.0.job (omega arith) p f));
  }

  -- What follows when a job is done leaves its steps.
  after_done-Keeps :
      (reason : String)
      → Keeps 0 (
          clear_job_runtime_state
          >> add_event "job_completed" reason
          >> touch
          >> save w.env
          >> handle_chain_completion w.env w.site)
  after_done-Keeps reason =
      clear_job_runtime_state-Keeps
      >>> add_event-Keeps _ _
      >>> touch-Keeps
      >>> save-Keeps w.env
      >>> record { moves = λ r. rw (completion-job w.env w.site r) (Moves-refl 0 r.job) }

  after_done-Leaves :
      (reason : String)
      → Leaves (
          clear_job_runtime_state
          >> add_event "job_completed" reason
          >> touch
          >> save w.env
          >> handle_chain_completion w.env w.site)
  after_done-Leaves reason =
      clear_job_runtime_state-Leaves
      >>>> add_event-Leaves _ _
      >>>> touch-Leaves
      >>>> save-Leaves w.env
      >>>> record {
        shows = λ r. rw (completion-job w.env w.site r) (record { steps = refl; checks = refl });
      }

  pub complete_job-Sound :
      (n : ℕ) (reason : String) (r : Run)
      → Earned w r.job
      → Fits n r.job
      → Sound w r.job (complete_job w reason r).0.job
  unfolding complete_job resume_with
  complete_job-Sound n reason r e f =
      let finished = record r.job { status = JobStatus.done; summary = reason } in
      let start : Run = record r { job = finished } in
      let p = (after_done-Keeps reason).moves start in
      let q = (after_done-Leaves reason).shows start in
      record {
        fixed = p.fixed;
        limit = p.limit;
        numbered = p.numbered;
        within = omega (arith, p.count, p.limit, f.room);
        earned = λ d.
            Earned-Shows w finished _ q
              (Earned-Shows w r.job finished (record { steps = refl; checks = refl }) e);
      }

  abbrev hint-Runs : {n : ℕ} {m : Act} → Runs w n m → Runs w n (set_hint "" >> m)
  hint-Runs {n} h = then-Runs w n (omega arith) (set_hint-Keeps "") h

  fail_leader-Runs : (action : ErrorAction) (text : String) → Runs w 2 (fail_leader w action text)
  unfolding fail_leader
  fail_leader-Runs action text =
      hint-Runs (Keeps-Runs w (weaken 2 (omega arith) (fail_job-Keeps w.env _)))

  reject_leader-Runs : (e : String) → Runs w 2 (reject_leader w e)
  unfolding reject_leader
  reject_leader-Runs e = hint-Runs (Keeps-Runs w (weaken 2 (omega arith) (fail_job-Keeps w.env _)))

  module _ (k : LeaderOutput → Act) (h : (leader : LeaderOutput) → Runs w 2 (k leader)) where
    retry_leader-Runs :
        (left : ℕ) (again : String → Act)
        → ((text : String) → Runs w 2 (again text))
        → (e : String) → Runs w 2 (retry_leader w left again e)
    unfolding retry_leader
    retry_leader-Runs left again g e =
        then-Runs w 2 (omega arith) (add_event-Keeps _ _ >>> set_hint-Keeps e)
          (phase-Runs _ λ i end. on_end-Runs end g fail_leader-Runs)

    pub settle_leader-Runs :
        (left : ℕ) (raw : String) (into : LeaderOutput) → Runs w 2 (settle_leader w left raw into k)
    unfolding settle_leader
    settle_leader-Runs zero raw into = on_error-Runs w _ reject_leader-Runs (hint-Runs (h _))
    settle_leader-Runs (suc left) raw into =
        on_error-Runs w _ (retry_leader-Runs left _ λ raw'. settle_leader-Runs left raw' _)
          (hint-Runs (h _))
