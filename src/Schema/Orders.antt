-- ===== src/Schema/Orders.antt =====
-- internal/schema/validate.go: what each of the three actions that start something asks of its
-- message.
use gorchera.Base.{
  String, ◌≡◌, ◌≢◌, refl, ◌↔◌, true, false, List, [], ◌∷◌, Option, none, some, arith, Bool, not,
  ◌||◌,
}
use gorchera.Base.Text.{
  ◌is◌, ◌isn't◌, is_iff, is_blank, one_of, OneOf, one_of_iff, keep, one_of-keep_iff,
}
use gorchera.Domain.{LeaderOutput, WorkerTask, SystemAction}
use gorchera.Schema.{
  leader_targets, leader_task_types, worker_targets, worker_task_types, check_run_worker,
  check_tasks, check_run_workers, check_run_system,
}

abbrev pub HasText : String → Type 0
HasText s = is_blank s ≡ false

-- A task for one worker, with its target, its kind and its text.
pub record IsWorkerOrder (msg : LeaderOutput) : Type 0 where
  pub known_target : OneOf msg.target ("B" ∷ "C" ∷ "D" ∷ "SYS" ∷ [])
  pub known_type :
      OneOf msg.task_type
        ("implement" ∷ "test" ∷ "search" ∷ "build" ∷ "lint" ∷ "command" ∷ "summarize" ∷ [])
  pub has_text : HasText msg.task_text

pub record IsTask (t : WorkerTask) : Type 0 where
  pub known_target : OneOf t.target worker_targets
  pub known_type : OneOf t.task_type worker_task_types
  pub has_text : HasText t.task_text

-- Two tasks for two workers.
pub data IsPair : List WorkerTask → Type 0 where
  pair : {a b : WorkerTask} → IsTask a → IsTask b → a.target ≢ b.target → IsPair (a ∷ b ∷ [])

pub record IsRunnable (a : SystemAction) : Type 0 where
  pub has_type : HasText a.type
  pub has_command : HasText a.command

pub record IsSystemOrder (msg : LeaderOutput) : Type 0 where
  pub to_system : msg.target ≡ "SYS"
  pub known_type : OneOf msg.task_type ("search" ∷ "build" ∷ "lint" ∷ "command" ∷ [])
  pub runnable : (a : SystemAction) × (msg.system_action ≡ some a) × IsRunnable a

abbrev not_none : String → Bool
not_none s = s isn't "none"

abbrev for_system : String → Bool
for_system s =
    not (s is "none" || s is "summarize" || s is "implement" || s is "review" || s is "test")

-- The tests of `check_run_worker` that must all pass.
run_worker_tests :
    (msg : LeaderOutput)
    → (check_run_worker msg ≡ none) ↔ (
        ((one_of msg.target leader_targets ≡ true) × (not_none msg.target ≡ true))
        × ((one_of msg.task_type leader_task_types ≡ true) × (not_none msg.task_type ≡ true))
        × (is_blank msg.task_text ≡ false))
unfolding check_run_worker
run_worker_tests msg = (λ h. ground arith, λ h. ground arith)

pub run_worker_iff : (msg : LeaderOutput) → (check_run_worker msg ≡ none) ↔ IsWorkerOrder msg
run_worker_iff msg = (to_spec, of_spec)
  where
    target :
        ((one_of msg.target leader_targets ≡ true) × (not_none msg.target ≡ true))
        ↔ OneOf msg.target (keep not_none leader_targets)
    target = one_of-keep_iff not_none msg.target leader_targets

    kind :
        ((one_of msg.task_type leader_task_types ≡ true) × (not_none msg.task_type ≡ true))
        ↔ OneOf msg.task_type (keep not_none leader_task_types)
    kind = one_of-keep_iff not_none msg.task_type leader_task_types

    to_spec : check_run_worker msg ≡ none → IsWorkerOrder msg
    to_spec h =
        let tests = (run_worker_tests msg).0 h in
        record { known_target = target.0 tests.0; known_type = kind.0 tests.1; has_text = tests.2 }

    of_spec : IsWorkerOrder msg → check_run_worker msg ≡ none
    of_spec h = (run_worker_tests msg).1 (target.1 h.known_target, kind.1 h.known_type, h.has_text)

task_tests :
    (seen : List String) (t : WorkerTask) (ts : List WorkerTask)
    → (check_tasks seen (t ∷ ts) ≡ none) ↔ (
        (one_of t.target worker_targets ≡ true)
        × (one_of t.target seen ≡ false)
        × (one_of t.task_type worker_task_types ≡ true)
        × (is_blank t.task_text ≡ false)
        × (check_tasks (t.target ∷ seen) ts ≡ none))
unfolding check_tasks
task_tests seen t ts = (λ h. ground arith, λ h. ground arith)

IsTask-iff :
    (t : WorkerTask)
    → IsTask t ↔ (
        (one_of t.target worker_targets ≡ true)
        × (one_of t.task_type worker_task_types ≡ true)
        × (is_blank t.task_text ≡ false))
IsTask-iff t = (
  (λ h. (
    (one_of_iff t.target worker_targets).1 h.known_target,
    (one_of_iff t.task_type worker_task_types).1 h.known_type,
    h.has_text,
  )),
  λ h. record {
    known_target = (one_of_iff t.target worker_targets).0 h.0;
    known_type = (one_of_iff t.task_type worker_task_types).0 h.1;
    has_text = h.2;
  },
)

nothing_seen : (x : String) → one_of x [] ≡ false
unfolding one_of
nothing_seen x = refl

seen_one : (x y : String) → (one_of x (y ∷ []) ≡ false) ↔ (y ≢ x)
unfolding one_of
seen_one x y = ((λ h. ground (arith, is_iff y x)), λ h. ground (arith, is_iff y x))

no_tasks : (seen : List String) → check_tasks seen [] ≡ none
unfolding check_tasks
no_tasks seen = refl

pub run_workers_iff : (ts : List WorkerTask) → (check_run_workers ts ≡ none) ↔ IsPair ts
unfolding check_run_workers
run_workers_iff [] = ((λ h. cc), λ h. elim h [ ])
run_workers_iff (a ∷ []) = ((λ h. cc), λ h. elim h [ ])
run_workers_iff (a ∷ b ∷ c ∷ ts) = ((λ h. absurd (ground arith)), λ h. elim h [ ])
run_workers_iff (a ∷ b ∷ []) = (to_spec, of_spec)
  where
    to_spec : check_tasks [] (a ∷ b ∷ []) ≡ none → IsPair (a ∷ b ∷ [])
    to_spec h =
        let first = (task_tests [] a (b ∷ [])).0 h in
        let second = (task_tests (a.target ∷ []) b []).0 first.4 in
        pair ((IsTask-iff a).1 (first.0, first.2, first.3))
          ((IsTask-iff b).1 (second.0, second.2, second.3))
          ((seen_one b.target a.target).0 second.1)

    of_spec : IsPair (a ∷ b ∷ []) → check_tasks [] (a ∷ b ∷ []) ≡ none
    of_spec (pair ta tb apart) =
        let first = (IsTask-iff a).0 ta in
        let second = (IsTask-iff b).0 tb in
        (task_tests [] a (b ∷ [])).1 (
          first.0,
          nothing_seen a.target,
          first.1,
          first.2,
          (task_tests (a.target ∷ []) b []).1 (
            second.0,
            (seen_one b.target a.target).1 apart,
            second.1,
            second.2,
            no_tasks (b.target ∷ a.target ∷ []),
          ),
        )

run_system_tests :
    (msg : LeaderOutput)
    → (check_run_system msg ≡ none) ↔ (
        ((msg.target is "SYS") ≡ true)
        × ((one_of msg.task_type leader_task_types ≡ true) × (for_system msg.task_type ≡ true))
        × ((a : SystemAction) × (msg.system_action ≡ some a)
            × (is_blank a.type ≡ false)
            × (is_blank a.command ≡ false)))
unfolding check_run_system
run_system_tests msg = ((λ h. to_spec msg.system_action refl h), λ h. ground arith)
  where
    to_spec :
        (o : Option SystemAction)
        → msg.system_action ≡ o
        → check_run_system msg ≡ none
        → ((msg.target is "SYS") ≡ true)
          × ((one_of msg.task_type leader_task_types ≡ true) × (for_system msg.task_type ≡ true))
          × ((a : SystemAction) × (msg.system_action ≡ some a)
              × (is_blank a.type ≡ false)
              × (is_blank a.command ≡ false))
    to_spec none e h = ground arith
    to_spec (some a) e h =
        (ground arith, (ground arith, ground arith), (a, e, ground arith, ground arith))

pub run_system_iff : (msg : LeaderOutput) → (check_run_system msg ≡ none) ↔ IsSystemOrder msg
run_system_iff msg = (to_spec, of_spec)
  where
    kind :
        ((one_of msg.task_type leader_task_types ≡ true) × (for_system msg.task_type ≡ true))
        ↔ OneOf msg.task_type (keep for_system leader_task_types)
    kind = one_of-keep_iff for_system msg.task_type leader_task_types

    to_spec : check_run_system msg ≡ none → IsSystemOrder msg
    to_spec h =
        let (target, known, (a, e, typed, commanded)) = (run_system_tests msg).0 h in
        record {
          to_system = (is_iff msg.target "SYS").0 target;
          known_type = kind.0 known;
          runnable = (a, e, record { has_type = typed; has_command = commanded });
        }

    of_spec : IsSystemOrder msg → check_run_system msg ≡ none
    of_spec h =
        let (a, e, ready) = h.runnable in
        (run_system_tests msg).1 (
          (is_iff msg.target "SYS").1 h.to_system,
          kind.1 h.known_type,
          (a, e, ready.has_type, ready.has_command),
        )
