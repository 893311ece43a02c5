-- ===== src/Parallel/Bounds.antt =====
-- internal/orchestrator/parallel.go: how many workers a step has.
use gorchera.Base.{
  suc, ◌≡◌, ◌≤◌, refl, sym, ap, ◌∙◌, inl, inr, length, ltb, ◌==◌, String, Bool, true, false, ◌⊎◌,
  if◌then◌else◌, List, [], ◌∷◌, Option, none, some, arith,
}
use gorchera.Base.Text.{◌is◌}
use gorchera.Base.Result.{Result, ok, err, ◌>>=◌, ◌>>◌}
use gorchera.Domain.{LeaderOutput, WorkerTask}
use gorchera.Parallel.{
  Texts, ParallelWorkerSpec, ParallelWorkerPlan, max_parallel_workers, plan_tasks, plan_specs,
  plan_primary, primary_plan, task_scope, normalize_key, build_parallel_worker_plans_from_tasks,
  build_worker_plans, split_parallel_artifacts,
}

then_ok : {W : Type 0} (o : Option String) (x : Result W) (b : W) → (o >> x) ≡ ok b → x ≡ ok b
then_ok none x b h = h
then_ok (some e) x b h = absurd (ground (arith, h))

bind_ok :
    {V W : Type 0} (x : Result V) (f : V → Result W) (b : W)
    → (x >>= f) ≡ ok b
    → (a : V) × (x ≡ ok a) × (f a ≡ ok b)
bind_ok (ok a) f b h = (a, refl, h)
bind_ok (err e) f b h = absurd (ground (arith, h))

if_ok :
    {W : Type 0} (c : Bool) (x y : Result W) (b : W)
    → (if c then x else y) ≡ ok b
    → ((c ≡ true) × (x ≡ ok b)) ⊎ ((c ≡ false) × (y ≡ ok b))
if_ok true x y b h = inl (refl, h)
if_ok false x y b h = inr (refl, h)

ok_same : {V : Type 0} (a b : V) → ok a ≡ ok b → a ≡ b
ok_same a b h = ground (arith, h)

module _ (texts : Texts) where
  plan_tasks-length :
      (targets scopes : List String) (tasks : List WorkerTask) (plans : List ParallelWorkerPlan)
      → plan_tasks texts targets scopes tasks ≡ ok plans
      → length plans ≡ length tasks
  unfolding plan_tasks
  plan_tasks-length targets scopes [] plans h = ap length (sym (ok_same [] plans h))
  plan_tasks-length targets scopes (task ∷ tasks) plans h =
      let (rest, e, g) = bind_ok _ _ plans (then_ok _ _ plans (then_ok _ _ plans h)) in
      ap length (sym (ok_same _ plans g))
      ∙ ap suc (
          plan_tasks-length (normalize_key texts task.target ∷ targets)
            (normalize_key texts (task_scope texts task) ∷ scopes) tasks rest e)

  plan_specs-length :
      (targets scopes : List String) (specs : List ParallelWorkerSpec)
      (plans : List ParallelWorkerPlan)
      → plan_specs texts targets scopes specs ≡ ok plans
      → length plans ≡ length specs
  unfolding plan_specs
  plan_specs-length targets scopes [] plans h = ap length (sym (ok_same [] plans h))
  plan_specs-length targets scopes (s ∷ specs) plans h =
      let (rest, e, g) = bind_ok _ _ plans (then_ok _ _ plans (then_ok _ _ plans h)) in
      ap length (sym (ok_same _ plans g))
      ∙ ap suc (
          plan_specs-length (normalize_key texts s.target ∷ targets)
            (normalize_key texts s.write_scope ∷ scopes) specs rest e)

  from_tasks-length :
      (tasks : List WorkerTask) (plans : List ParallelWorkerPlan)
      → build_parallel_worker_plans_from_tasks texts tasks ≡ ok plans
      → length plans ≤ max_parallel_workers
  unfolding build_parallel_worker_plans_from_tasks
  from_tasks-length tasks plans h = ground (arith, h, plan_tasks-length [] [] tasks plans)

  plan_primary-length :
      (leader : LeaderOutput) (artifacts : List String) (specs : List ParallelWorkerSpec)
      (plans : List ParallelWorkerPlan)
      → plan_primary texts leader artifacts specs ≡ ok plans
      → length plans ≤ max_parallel_workers
  unfolding plan_primary
  plan_primary-length leader artifacts specs plans h =
      let primary = primary_plan texts leader artifacts in
      let key = normalize_key texts leader.target in
      let others = plan_specs texts (key ∷ []) (key ∷ []) specs in
      let refusal : Result (List ParallelWorkerPlan) =
        err "parallel fan-out exceeds max_parallel_workers=2" in
      let both = others >>= λ plans'. ok (primary ∷ plans') in
      let too_many = ltb max_parallel_workers (suc (length specs)) in
      elim (if_ok (length specs == 0) (ok (primary ∷ [])) (if too_many then refusal else both) plans
        h) [
          | inl (alone, one) ↦ omega (arith, ap length (ok_same _ plans one))
          | inr (several, h') ↦ elim (if_ok too_many refusal both plans h') [
            | inl (more, refused) ↦ absurd (ground (arith, refused))
            | inr (fits, made) ↦
                let (rest, e, g) = bind_ok others (λ plans'. ok (primary ∷ plans')) plans made in
                ground (
                  arith,
                  fits,
                  ap length (ok_same (primary ∷ rest) plans g),
                  plan_specs-length (key ∷ []) (key ∷ []) specs rest e,
                )
          ]
        ]

  -- A worker step has at most two plans.
  pub build_worker_plans-length :
      (leader : LeaderOutput) (plans : List ParallelWorkerPlan)
      → build_worker_plans texts leader ≡ ok plans
      → length plans ≤ max_parallel_workers
  unfolding build_worker_plans
  build_worker_plans-length leader plans h =
      let parts_of = split_parallel_artifacts texts leader.artifacts in
      let go : List String × List ParallelWorkerSpec → Result (List ParallelWorkerPlan) =
        λ parts. plan_primary texts leader parts.0 parts.1 in
      elim (if_ok (leader.action is "run_workers")
        (build_parallel_worker_plans_from_tasks texts leader.tasks) (parts_of >>= go) plans h) [
          | inl (tasks, made) ↦ from_tasks-length leader.tasks plans made
          | inr (single, made) ↦
              let (parts, e, g) = bind_ok parts_of go plans made in
              plan_primary-length leader parts.0 parts.1 plans g
        ]
