-- ===== src/Loop/Stops.antt =====
-- internal/orchestrator/service.go: the ways a job stops, and the changes of single steps, keep the
-- numbers of the steps.
use gorchera.Base.{
  ℕ, zero, suc, ◌≡◌, refl, ap, inl, inr, any, get_elem?, set, String, ◌&&◌, not, List, [], ◌∷◌,
  ◌++◌, Option, none, some, arith, Bool-cases, Option-cases, leb,
}
use gorchera.Base.Text.{first_non_empty, trim_space}
use gorchera.Domain.{Job, JobStatus, Step, StructuredReason, is_recoverable_job_status, is_active}
use gorchera.Service.{
  Env, change_last, change_active_step, fail_job, block_job_with_event, block_job,
  block_worker_step, block_worker, block_step, interrupt_job, interrupt_step,
  sanitize_leader_context, blocked_reason_strike_count,
}
use gorchera.Loop.{change_at}
use gorchera.Loop.Moves.{
  NumberedFrom, Moves-refl, Keeps, ◌>>>◌, moved, untouched, modify-Keeps, add_event-Keeps,
  touch-Keeps, clear_job_runtime_state-Keeps, save-Keeps, handle_chain_terminal_state-Keeps,
}

-- A change of a step that leaves its number.
abbrev pub KeepsIndex : (Step → Step) → Type 0
KeepsIndex f = (s : Step) → (f s).index ≡ s.index

pub change_last-NumberedFrom :
    (f : Step → Step) (n m : ℕ) (steps : List Step)
    → KeepsIndex f
    → NumberedFrom n steps m
    → NumberedFrom n (change_last f steps) m
unfolding change_last
change_last-NumberedFrom f n m [] h i = i
change_last-NumberedFrom f n m (s ∷ []) h i = (omega (arith, h s, i.0), i.1)
change_last-NumberedFrom f n m (s ∷ t ∷ steps) h i =
    (i.0, change_last-NumberedFrom f (suc n) m (t ∷ steps) h i.1)

pub set-NumberedFrom :
    (i n m : ℕ) (s s' : Step) (steps : List Step)
    → get_elem? steps i ≡ some s
    → s'.index ≡ s.index
    → NumberedFrom n steps m
    → NumberedFrom n (set steps i s') m
set-NumberedFrom i n m s s' [] e h k = k
set-NumberedFrom zero n m s s' (t ∷ steps) e h k = (ground (arith, e, h, k.0), k.1)
set-NumberedFrom (suc i) n m s s' (t ∷ steps) e h k =
    (k.0, set-NumberedFrom i (suc n) m s s' steps e h k.1)

pub change_at-NumberedFrom :
    (f : Step → Step) (i n m : ℕ) (steps : List Step)
    → KeepsIndex f
    → NumberedFrom n steps m
    → NumberedFrom n (change_at i f steps) m
unfolding change_at
change_at-NumberedFrom f i n m steps h k = elim (Option-cases (get_elem? steps i)) [
  | inl e ↦ rw (e, change_at) k
  | inr (s, e) ↦ rw (e, change_at) (set-NumberedFrom i n m s (f s) steps e (h s) k)
]

pub change_active_step-NumberedFrom :
    (f : Step → Step) (n m : ℕ) (steps : List Step)
    → KeepsIndex f
    → NumberedFrom n steps m
    → NumberedFrom n (change_active_step f steps) m
unfolding change_active_step
change_active_step-NumberedFrom f n m [] h k = k
change_active_step-NumberedFrom f n m (s ∷ steps) h k =
    elim (Bool-cases (is_active s.status && not (any (λ (t : Step). is_active t.status) steps))) [
      | inl e ↦ rw e (omega (arith, h s, k.0), k.1)
      | inr e ↦ rw e (k.0, change_active_step-NumberedFrom f (suc n) m steps h k.1)
    ]

pub append-NumberedFrom :
    (n m : ℕ) (steps : List Step) (s : Step)
    → s.index ≡ suc m
    → NumberedFrom n steps m
    → NumberedFrom n (steps ++ s ∷ []) (suc m)
append-NumberedFrom n m [] s h k = (omega (arith, h, k), ap suc k)
append-NumberedFrom n m (t ∷ steps) s h k = (k.0, append-NumberedFrom (suc n) m steps s h k.1)

module _ (env : Env) where
  pub fail_job-Keeps : (reason : String) → Keeps 0 (fail_job env reason)
  unfolding fail_job
  fail_job-Keeps reason =
      modify-Keeps (λ a. moved a _ refl refl refl (λ i. i) λ d. refl)
      >>> clear_job_runtime_state-Keeps
      >>> add_event-Keeps "job_failed" reason
      >>> touch-Keeps
      >>> save-Keeps env
      >>> handle_chain_terminal_state-Keeps env

  pub block_job_with_event-Keeps :
      (kind reason : String) → Keeps 0 (block_job_with_event env kind reason)
  unfolding block_job_with_event
  block_job_with_event-Keeps kind reason = record {
    moves = λ r. elim (Bool-cases (leb 3 (blocked_reason_strike_count env r.job reason))) [
      | inl e ↦
          rw (e, block_job_with_event)
            ((modify-Keeps (λ a.
                  untouched a (record a { pending_approval = none; blocked_reason = "" }) refl refl
                    refl refl refl)
                >>> fail_job-Keeps _).moves
              r)
      | inr e ↦
          rw (e, block_job_with_event)
            ((modify-Keeps (λ a.
                  moved a
                    (record a {
                      status = JobStatus.blocked;
                      blocked_reason = reason;
                      failure_reason = "";
                      leader_context_summary = sanitize_leader_context reason;
                    })
                    refl refl refl (λ i. i) λ d. refl)
                >>> clear_job_runtime_state-Keeps
                >>> add_event-Keeps kind reason
                >>> touch-Keeps
                >>> save-Keeps env
                >>> handle_chain_terminal_state-Keeps env).moves
              r)
    ];
  }

  pub block_worker_step-Keeps :
      (encode : String → Option StructuredReason → String) (reason summary : String)
      (structured : Option StructuredReason)
      → Keeps 0 (block_worker_step env encode reason summary structured)
  unfolding block_worker_step block_worker block_job block_step
  block_worker_step-Keeps encode reason summary structured =
      modify-Keeps (λ a.
        moved a _ refl refl refl
          (λ i. change_last-NumberedFrom _ 0 a.current_step a.steps (λ s. refl) i) λ d. d)
      >>> add_event-Keeps _ _
      >>> block_job_with_event-Keeps _ _

  interrupt_reason : String → String
  interrupt_reason text =
      first_non_empty (trim_space text ∷ "job interrupted by orchestrator shutdown" ∷ [])

  -- What interruptJob makes of the job.
  moved_to_blocked : ℕ → String → Job → Job
  moved_to_blocked now reason job = record job {
    steps = change_active_step (interrupt_step env now reason) job.steps;
    status = JobStatus.blocked;
    blocked_reason = reason;
    failure_reason = "";
    pending_approval = none;
    leader_context_summary = sanitize_leader_context reason;
  }

  pub interrupt_job-Keeps : (reason : String) → Keeps 0 (interrupt_job env reason)
  unfolding interrupt_job interrupt_step interrupt_reason moved_to_blocked
  interrupt_job-Keeps reason = record {
    moves = λ r. elim (Bool-cases (is_recoverable_job_status r.job.status)) [
      | inr e ↦ rw (e, interrupt_job) (Moves-refl 0 r.job)
      | inl e ↦
          rw (e, interrupt_job)
            ((modify-Keeps (λ a.
                  moved a (moved_to_blocked r.service.now (interrupt_reason reason) a) refl refl
                    refl
                    (λ i.
                      change_active_step-NumberedFrom
                        (interrupt_step env r.service.now (interrupt_reason reason)) 0
                        a.current_step a.steps (λ s. refl) i)
                    λ d. refl)
                >>> clear_job_runtime_state-Keeps
                >>> add_event-Keeps _ _
                >>> touch-Keeps
                >>> save-Keeps env
                >>> handle_chain_terminal_state-Keeps env).moves
              r)
    ];
  }
