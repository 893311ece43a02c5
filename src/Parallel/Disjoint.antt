-- ===== src/Parallel/Disjoint.antt =====
-- internal/orchestrator/parallel.go: workers that run at once have disjoint targets and write
-- scopes.
use gorchera.Base.{
  String, ◌≡◌, ◌≢◌, refl, sym, ap, ◌∙◌, ◌↔◌, false, List, [], ◌∷◌, map, none, arith,
}
use gorchera.Base.Text.{is_iff, is_blank, one_of}
use gorchera.Base.Result.{ok}
use gorchera.Domain.{WorkerTask}
use gorchera.Parallel.{
  Texts, ParallelWorkerPlan, normalize_key, overlap_error, validate_task, task_scope, task_plan,
  plan_tasks, build_parallel_worker_plans_from_tasks,
}

pub record IsComplete (t : WorkerTask) : Type 0 where
  pub has_target : is_blank t.target ≡ false
  pub has_type : is_blank t.task_type ≡ false
  pub has_text : is_blank t.task_text ≡ false

-- Neither the targets nor the scopes of the two share a key, nor one's target the other's scope.
pub record AreApart (texts : Texts) (target scope target' scope' : String) : Type 0 where
  pub targets : normalize_key texts target ≢ normalize_key texts target'
  pub scope_target : normalize_key texts scope ≢ normalize_key texts target'
  pub target_scope : normalize_key texts target ≢ normalize_key texts scope'
  pub scopes : normalize_key texts scope ≢ normalize_key texts scope'

module _ (texts : Texts) where
  -- One task, or two that are apart, each with all it needs.
  pub data IsPlannable : List WorkerTask → Type 0 where
    one : {a : WorkerTask} → IsComplete a → IsPlannable (a ∷ [])
    two :
        {a b : WorkerTask}
        → IsComplete a
        → IsComplete b
        → AreApart texts a.target (task_scope texts a) b.target (task_scope texts b)
        → IsPlannable (a ∷ b ∷ [])

IsComplete-iff : (t : WorkerTask) → (validate_task t ≡ none) ↔ IsComplete t
unfolding validate_task
IsComplete-iff t = ((λ h. ground arith), λ h. ground arith)

no_overlap : (texts : Texts) (t s : String) → overlap_error texts [] [] t s ≡ none
unfolding overlap_error one_of
no_overlap texts t s = refl

AreApart-iff :
    (texts : Texts) (t s t' s' : String)
    → (overlap_error texts (normalize_key texts t ∷ []) (normalize_key texts s ∷ []) t' s' ≡ none)
      ↔ AreApart texts t s t' s'
unfolding overlap_error one_of
AreApart-iff texts t s t' s' = (to_spec, of_spec)
  where
    to_spec :
        overlap_error texts (normalize_key texts t ∷ []) (normalize_key texts s ∷ []) t' s' ≡ none
        → AreApart texts t s t' s'
    to_spec h = record {
      targets = λ e. ground (arith, is_iff (normalize_key texts t) (normalize_key texts t'));
      scope_target = λ e. ground (arith, is_iff (normalize_key texts s) (normalize_key texts t'));
      target_scope = λ e. ground (arith, is_iff (normalize_key texts t) (normalize_key texts s'));
      scopes = λ e. ground (arith, is_iff (normalize_key texts s) (normalize_key texts s'));
    }

    of_spec :
        AreApart texts t s t' s'
        → overlap_error texts (normalize_key texts t ∷ []) (normalize_key texts s ∷ []) t' s' ≡ none
    of_spec h = ground (
      arith,
      is_iff (normalize_key texts t) (normalize_key texts t'),
      is_iff (normalize_key texts s) (normalize_key texts t'),
      is_iff (normalize_key texts t) (normalize_key texts s'),
      is_iff (normalize_key texts s) (normalize_key texts s'),
    )

module _ (texts : Texts) where
  -- One round of the loop succeeds when the task is complete, nothing overlaps, and the rest does.
  plan_round :
      (targets scopes : List String) (t : WorkerTask) (ts : List WorkerTask)
      (plans : List ParallelWorkerPlan)
      → plan_tasks texts targets scopes (t ∷ ts) ≡ ok plans
      → (validate_task t ≡ none)
        × (overlap_error texts targets scopes t.target (task_scope texts t) ≡ none)
        × (later : List ParallelWorkerPlan) × (plan_tasks texts
              (normalize_key texts t.target ∷ targets)
              (normalize_key texts (task_scope texts t) ∷ scopes)
              ts
            ≡ ok later)
        × (plans ≡ task_plan texts t ∷ later)
  unfolding plan_tasks
  plan_round targets scopes t ts plans h = ground arith

  plan_round_of :
      (targets scopes : List String) (t : WorkerTask) (ts : List WorkerTask)
      (later : List ParallelWorkerPlan)
      → validate_task t ≡ none
      → overlap_error texts targets scopes t.target (task_scope texts t) ≡ none
      → plan_tasks texts
          (normalize_key texts t.target ∷ targets)
          (normalize_key texts (task_scope texts t) ∷ scopes)
          ts
        ≡ ok later
      → plan_tasks texts targets scopes (t ∷ ts) ≡ ok (task_plan texts t ∷ later)
  unfolding plan_tasks
  plan_round_of targets scopes t ts later complete free rest = rw (complete, free, rest)

  no_more :
      (targets scopes : List String) (plans : List ParallelWorkerPlan)
      → plan_tasks texts targets scopes [] ≡ ok plans
      → plans ≡ []
  unfolding plan_tasks
  no_more targets scopes plans h = cc

  none_left : (targets scopes : List String) → plan_tasks texts targets scopes [] ≡ ok []
  unfolding plan_tasks
  none_left targets scopes = refl

  IsPlannable-of_ok :
      (tasks : List WorkerTask) (plans : List ParallelWorkerPlan)
      → build_parallel_worker_plans_from_tasks texts tasks ≡ ok plans
      → IsPlannable texts tasks × (plans ≡ map (task_plan texts) tasks)
  unfolding build_parallel_worker_plans_from_tasks
  IsPlannable-of_ok [] plans h = cc
  IsPlannable-of_ok (a ∷ b ∷ c ∷ ts) plans h = absurd (ground arith)
  IsPlannable-of_ok (a ∷ []) plans h =
      let (complete, _, later, rest, e) = plan_round [] [] a [] plans h in
      (one ((IsComplete-iff a).0 complete), cc (e, no_more _ _ later rest))
  IsPlannable-of_ok (a ∷ b ∷ []) plans h =
      let (complete, _, later, rest, e) = plan_round [] [] a (b ∷ []) plans h in
      let (complete', free, last, rest', e') = plan_round _ _ b [] later rest in
      (
        two ((IsComplete-iff a).0 complete) ((IsComplete-iff b).0 complete') (
            (AreApart-iff texts a.target (task_scope texts a) b.target (task_scope texts b)).0
              free),
        cc (e, e', no_more _ _ last rest'),
      )

  ok_of_plannable :
      (tasks : List WorkerTask)
      → IsPlannable texts tasks
      → build_parallel_worker_plans_from_tasks texts tasks ≡ ok (map (task_plan texts) tasks)
  unfolding build_parallel_worker_plans_from_tasks
  ok_of_plannable [] p = elim p [ ]
  ok_of_plannable (a ∷ b ∷ c ∷ ts) p = elim p [ ]
  ok_of_plannable (a ∷ []) (one complete) =
      plan_round_of [] [] a [] [] ((IsComplete-iff a).1 complete) (no_overlap texts _ _)
        (none_left _ _)
  ok_of_plannable (a ∷ b ∷ []) (two complete complete' apart) =
      plan_round_of [] [] a (b ∷ []) _ ((IsComplete-iff a).1 complete) (no_overlap texts _ _) (
        plan_round_of _ _ b [] [] ((IsComplete-iff b).1 complete')
          ((AreApart-iff texts a.target (task_scope texts a) b.target (task_scope texts b)).1 apart)
          (none_left _ _))

  -- A list of tasks is planned exactly when it has one task, or two whose targets and write scopes
  -- are pairwise different as keys, each task with its target, type and text; the plans are then
  -- those of the tasks, in their order.
  pub build_parallel_worker_plans_from_tasks-ok_iff :
      (tasks : List WorkerTask) (plans : List ParallelWorkerPlan)
      → (build_parallel_worker_plans_from_tasks texts tasks ≡ ok plans)
        ↔ (IsPlannable texts tasks × (plans ≡ map (task_plan texts) tasks))
  build_parallel_worker_plans_from_tasks-ok_iff tasks plans =
      (IsPlannable-of_ok tasks plans, λ h. ok_of_plannable tasks h.0 ∙ ap ok (sym h.1))
