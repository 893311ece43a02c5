-- ===== src/Parallel/Validated.antt =====
-- internal/orchestrator/parallel.go behind internal/schema/validate.go: what the loop plans after a
-- leader message was accepted.
use gorchera.Base.{
  String, ◌≡◌, ◌≢◌, refl, ap, sym, ◌∙◌, true, false, List, [], ◌∷◌, All, map, none, if◌then◌else◌,
}
use gorchera.Base.Text.{◌is◌, is_iff, is_blank, trim_space, OneOf, OneOf-each, first_non_empty}
use gorchera.Base.Result.{ok}
use gorchera.Domain.{LeaderOutput, WorkerTask}
use gorchera.Schema.{worker_targets, worker_task_types, validate_leader_output}
use gorchera.Schema.Orders.{IsTask, IsPair, pair}
use gorchera.Schema.Leader.{validate_leader_output-none_iff}
use gorchera.Parallel.{
  Texts, normalize_key, extract_write_scope, task_scope, task_plan, build_worker_plans,
}
use gorchera.Parallel.Disjoint.{
  IsComplete, IsPlannable, two, build_parallel_worker_plans_from_tasks-ok_iff,
}

-- The worker target of a key.
target_of : String → String
target_of k = if k is "b" then "B" else if k is "c" then "C" else "D"

-- `strings.ToLower` on the targets.
abbrev pub LowersTargets : Texts → Type 0
LowersTargets texts = (texts.lower "B" ≡ "b") × (texts.lower "C" ≡ "c") × (texts.lower "D" ≡ "d")

target_of-key :
    (texts : Texts) (x : String)
    → LowersTargets texts
    → OneOf x worker_targets
    → target_of (normalize_key texts x) ≡ x
unfolding target_of trim_space
target_of-key texts x (b, c, d) =
    OneOf-each (λ t. target_of (normalize_key texts t) ≡ t) x worker_targets
      (ap target_of b, (ap target_of c, (ap target_of d, tt)))

keys_apart :
    (texts : Texts) (x y : String)
    → LowersTargets texts
    → OneOf x worker_targets
    → OneOf y worker_targets
    → x ≢ y
    → normalize_key texts x ≢ normalize_key texts y
keys_apart texts x y lowers known known' apart e = apart (
    sym (target_of-key texts x lowers known) ∙ ap target_of e ∙ target_of-key texts y lowers known')

target_not_blank : (x : String) → OneOf x worker_targets → is_blank x ≡ false
unfolding is_blank
target_not_blank x =
    OneOf-each (λ t. is_blank t ≡ false) x worker_targets (refl, (refl, (refl, tt)))

type_not_blank : (x : String) → OneOf x worker_task_types → is_blank x ≡ false
unfolding is_blank
type_not_blank x =
    OneOf-each (λ t. is_blank t ≡ false) x worker_task_types
      (refl, (refl, (refl, (refl, (refl, (refl, (refl, (refl, tt))))))))

IsComplete-of_task : (t : WorkerTask) → IsTask t → IsComplete t
IsComplete-of_task t h = record {
  has_target = target_not_blank t.target h.known_target;
  has_type = type_not_blank t.task_type h.known_type;
  has_text = h.has_text;
}

module _ (texts : Texts) where
  -- The artifacts of the task name no write scope.
  abbrev pub Unscoped : WorkerTask → Type 0
  Unscoped t = is_blank (extract_write_scope texts t.artifacts) ≡ true

  scope_is_target : (t : WorkerTask) → IsTask t → Unscoped t → task_scope texts t ≡ t.target
  unfolding task_scope first_non_empty
  scope_is_target t h u = rw (u, target_not_blank t.target h.known_target)

  IsPlannable-of_pair :
      (ts : List WorkerTask)
      → LowersTargets texts
      → IsPair ts
      → All Unscoped ts
      → IsPlannable texts ts
  IsPlannable-of_pair [] lowers p u = elim p [ ]
  IsPlannable-of_pair (a ∷ []) lowers p u = elim p [ ]
  IsPlannable-of_pair (a ∷ b ∷ c ∷ ts) lowers p u = elim p [ ]
  IsPlannable-of_pair (a ∷ b ∷ []) lowers (pair ta tb apart) u =
      two (IsComplete-of_task a ta) (IsComplete-of_task b tb) (
        rw (scope_is_target a ta u.0, scope_is_target b tb u.1.0)
          (let e =
              keys_apart texts a.target b.target lowers ta.known_target tb.known_target apart in
            record { targets = e; scope_target = e; target_scope = e; scopes = e }))

  -- An accepted run_workers message whose tasks name no write scope is planned: one plan for each
  -- of its tasks, in order; `strings.ToLower` takes the targets B, C and D to b, c and d.
  pub build_worker_plans-validated :
      (msg : LeaderOutput)
      → LowersTargets texts
      → (validate_leader_output msg).1 ≡ none
      → msg.action ≡ "run_workers"
      → All Unscoped msg.tasks
      → build_worker_plans texts msg ≡ ok (map (task_plan texts) msg.tasks)
  unfolding build_worker_plans
  build_worker_plans-validated msg lowers h e u = rw ((is_iff msg.action "run_workers").1 e) (
      (build_parallel_worker_plans_from_tasks-ok_iff texts msg.tasks _).1 (
        IsPlannable-of_pair msg.tasks lowers
            (((validate_leader_output-none_iff msg).0 h).two_workers e) u,
        refl,
      ))
