-- ===== src/Service/Budget.antt =====
-- internal/orchestrator/service.go: the steps that resuming may add to a job's limit.
use gorchera.Base.{ℕ, ◌≡◌, refl, ap, ◌∙◌, ◌≤◌, ◌<◌, ◌+◌, ◌⊎◌, ◌↔◌, ◌≢◌, inl, inr, true, none, arith}
use gorchera.Base.Text.{is_iff}
use gorchera.Domain.{Job, JobStatus, PlanningArtifact}
use gorchera.Loop.{adopt_recommendation}
use gorchera.Service.State.{Env, Run, Service, add_event, touched, touch, save, resume_with}
use gorchera.Service.Commands.{
  apply_resume_extra_steps, max_resume_extra_steps, extended, is_blocked,
}

-- The job stopped at its limit, and the steps asked for fit in what is left of the budget.
abbrev pub IsGranted : ℕ → Job → Type 0
IsGranted extra job =
    (job.status ≡ JobStatus.blocked)
    × (job.blocked_reason ≡ "max_steps_exceeded")
    × (job.resume_extra_steps_used + extra ≤ max_resume_extra_steps)

extended-counts :
    (env : Env) (extra max : ℕ) (r : Run)
    → ((extended env extra max r).0.job.max_steps ≡ r.job.max_steps + extra)
      × ((extended env extra max r).0.job.resume_extra_steps_used
          ≡ r.job.resume_extra_steps_used + extra)
unfolding extended add_event touch touched save resume_with
extended-counts env extra max r = ground arith

is_blocked_iff : (status : JobStatus) → (is_blocked status ≡ true) ↔ (status ≡ JobStatus.blocked)
is_blocked_iff status = ((λ h. ground (arith, h)), λ h. ground (arith, h))

IsGranted-cases : (extra : ℕ) (job : Job) → IsGranted extra job ⊎ (¬ IsGranted extra job)
IsGranted-cases extra job =
    ground (arith, is_blocked_iff job.status, is_iff job.blocked_reason "max_steps_exceeded")

granted :
    (env : Env) (extra : ℕ) (r : Run)
    → 0 < extra
    → IsGranted extra r.job
    → apply_resume_extra_steps env extra r ≡ extended env extra (r.job.max_steps + extra) r
unfolding apply_resume_extra_steps
granted env extra r p g = ground (arith, p, g, is_iff r.job.blocked_reason "max_steps_exceeded")

denied :
    (env : Env) (extra : ℕ) (r : Run)
    → 0 < extra
    → ¬ IsGranted extra r.job
    → ((apply_resume_extra_steps env extra r).0 ≡ r)
      × ((apply_resume_extra_steps env extra r).1 ≢ none)
unfolding apply_resume_extra_steps
denied env extra r p g = (
  ground (arith, p, g, is_iff r.job.blocked_reason "max_steps_exceeded"),
  λ h. ground (arith, p, g, h, is_iff r.job.blocked_reason "max_steps_exceeded"),
)

-- applyResumeExtraSteps with a positive number, whatever the store answers: the job's limit and its
-- used budget grow by that number if the job is blocked with "max_steps_exceeded" and the budget of 20
-- has room for all of it; otherwise the job stays as it is, and there is an error.
pub apply_resume_extra_steps-cases :
    (env : Env) (extra : ℕ) (r : Run)
    → 0 < extra
    → (IsGranted extra r.job
        × ((apply_resume_extra_steps env extra r).0.job.max_steps ≡ r.job.max_steps + extra)
        × ((apply_resume_extra_steps env extra r).0.job.resume_extra_steps_used
            ≡ r.job.resume_extra_steps_used + extra))
      ⊎ (¬ IsGranted extra r.job
          × ((apply_resume_extra_steps env extra r).0 ≡ r)
          × ((apply_resume_extra_steps env extra r).1 ≢ none))
apply_resume_extra_steps-cases env extra r p = elim (IsGranted-cases extra r.job) [
  | inl g ↦
      let e = granted env extra r p g in
      let counts = extended-counts env extra (r.job.max_steps + extra) r in
      inl (
        g,
        ap (λ x. x.0.job.max_steps) e ∙ counts.0,
        ap (λ x. x.0.job.resume_extra_steps_used) e ∙ counts.1,
      )
  | inr g ↦ let d = denied env extra r p g in inr (g, d.0, d.1)
]

-- What becomes of a job: it is created with nothing used, it is resumed with extra steps, any number
-- of times, the planner's recommendation is adopted, and between these anything happens to it that
-- leaves its limit and its used budget alone. The first number is the limit that was set last, by the
-- creation or at a recommendation, and the second what was used by then.
pub data Life (env : Env) : ℕ → ℕ → Job → Type 0 where
  created : (job : Job) → job.resume_extra_steps_used ≡ 0 → Life env job.max_steps 0 job
  went_on :
      (base spent : ℕ) (job next : Job)
      → Life env base spent job
      → next.max_steps ≡ job.max_steps
      → next.resume_extra_steps_used ≡ job.resume_extra_steps_used
      → Life env base spent next
  planned :
      (base spent : ℕ) (job : Job) (plan : PlanningArtifact)
      → Life env base spent job
      → Life env
          (adopt_recommendation plan job).max_steps
          job.resume_extra_steps_used
          (adopt_recommendation plan job)
  resumed :
      (base spent : ℕ) (job : Job) (s : Service) (extra : ℕ)
      → Life env base spent job
      → Life env base spent
          (apply_resume_extra_steps env extra (record { service = s; job = job })).0.job

adopt_recommendation-used :
    (plan : PlanningArtifact) (job : Job)
    → (adopt_recommendation plan job).resume_extra_steps_used ≡ job.resume_extra_steps_used
unfolding adopt_recommendation
adopt_recommendation-used plan job = ground arith

pub zero_or_more : (n : ℕ) → (n ≡ 0) ⊎ (0 < n)
zero_or_more n = ground arith

nothing_asked : (env : Env) (r : Run) → (apply_resume_extra_steps env 0 r).0.job ≡ r.job
unfolding apply_resume_extra_steps
nothing_asked env r = refl

resumed-counts :
    (env : Env) (extra base spent : ℕ) (r : Run)
    → r.job.max_steps + spent ≡ base + r.job.resume_extra_steps_used
    → r.job.resume_extra_steps_used ≤ max_resume_extra_steps
    → ((apply_resume_extra_steps env extra r).0.job.max_steps + spent
        ≡ base + (apply_resume_extra_steps env extra r).0.job.resume_extra_steps_used)
      × ((apply_resume_extra_steps env extra r).0.job.resume_extra_steps_used
          ≤ max_resume_extra_steps)
resumed-counts env extra base spent r total bound = elim (zero_or_more extra) [
  | inl e ↦
      let h = ap (λ n. (apply_resume_extra_steps env n r).0.job) e ∙ nothing_asked env r in
      ground (arith, h, total, bound)
  | inr p ↦ elim (apply_resume_extra_steps-cases env extra r p) [
    | inl (g, m, u) ↦ (omega (arith, m, u, total), omega (arith, u, g.2))
    | inr (g, same, e) ↦ let h = ap (λ (x : Run). x.job) same in ground (arith, h, total, bound)
  ]
]

-- Whatever becomes of a job that is created with nothing used: its limit is the one that was set last,
-- by its creation or at the planner's recommendation, and the extra steps used since, and over its
-- whole life at most 20 extra steps are used.
pub Life-budget :
    (env : Env) (base spent : ℕ) (job : Job)
    → Life env base spent job
    → (job.max_steps + spent ≡ base + job.resume_extra_steps_used)
      × (job.resume_extra_steps_used ≤ max_resume_extra_steps)
Life-budget env base spent job (created j e) = (omega (arith, e), omega (arith, e))
Life-budget env base spent job (went_on b n before next l m u) =
    let h = Life-budget env b n before l in (omega (arith, h.0, m, u), omega (arith, h.1, u))
Life-budget env base spent job (planned b n before plan l) =
    let h = Life-budget env b n before l in
    let u = adopt_recommendation-used plan before in (omega (arith, u), omega (arith, h.1, u))
Life-budget env base spent job (resumed b n before s extra l) =
    let h = Life-budget env b n before l in
    resumed-counts env extra b n (record { service = s; job = before }) h.0 h.1
