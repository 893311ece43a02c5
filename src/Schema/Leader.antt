-- ===== src/Schema/Leader.antt =====
-- internal/schema/validate.go: which leader messages ValidateLeaderOutput accepts.
use gorchera.Base.{
  String, ◌≡◌, ◌≢◌, refl, ◌↔◌, ◌⊎◌, inl, inr, true, false, [], ◌∷◌, Option, none, some, arith,
  Bool-cases, Bool, ◌||◌, if◌then◌else◌,
}
use gorchera.Base.Text.{◌is◌, is_iff, is_blank, one_of, OneOf, one_of_iff, ◌or_else◌}
use gorchera.Domain.{LeaderOutput, SystemAction}
use gorchera.Schema.{
  leader_actions, check_run_worker, check_run_workers, check_run_system, clear_system_action,
  check_reason, check_action, validate_leader_output,
}
use gorchera.Schema.Orders.{
  HasText, IsWorkerOrder, IsPair, IsSystemOrder, run_worker_iff, run_workers_iff, run_system_iff,
}

-- What a leader message must be, action by action.
pub record IsWellFormed (msg : LeaderOutput) : Type 0 where
  pub known_action : OneOf msg.action leader_actions
  pub one_worker : msg.action ≡ "run_worker" → IsWorkerOrder msg
  pub two_workers : msg.action ≡ "run_workers" → IsPair msg.tasks
  pub system : msg.action ≡ "run_system" → IsSystemOrder msg
  pub explained : OneOf msg.action ("complete" ∷ "fail" ∷ "blocked" ∷ []) → HasText msg.reason

if_iff : (b : Bool) (o : Option String) → ((if b then o else none) ≡ none) ↔ (b ≡ true → o ≡ none)
if_iff true o = ((λ h _. h), λ h. h refl)
if_iff false o = ((λ h e. cc), λ h. refl)

or_else_iff : (a b : Option String) → ((a or_else b) ≡ none) ↔ ((a ≡ none) × (b ≡ none))
or_else_iff none b = ((λ h. (refl, h)), λ h. h.1)
or_else_iff (some e) b = ((λ h. cc), λ h. cc h.0)

check_action_iff :
    (msg : LeaderOutput)
    → (check_action msg ≡ none) ↔ (
        (one_of msg.action leader_actions ≡ true)
        × ((msg.action is "run_worker") ≡ true → check_run_worker msg ≡ none)
        × ((msg.action is "run_workers") ≡ true → check_run_workers msg.tasks ≡ none)
        × ((msg.action is "run_system") ≡ true → check_run_system msg ≡ none))
unfolding check_action
check_action_iff msg = elim (Bool-cases (one_of msg.action leader_actions)) [
  | inr unknown ↦ rw unknown ((λ h. cc), λ h. cc h.0)
  | inl known ↦ rw known (
    (λ h.
        let (worker, rest) = (or_else_iff _ _).0 h in
        let (workers, system) = (or_else_iff _ _).0 rest in
        (refl, (if_iff _ _).0 worker, (if_iff _ _).0 workers, (if_iff _ _).0 system)),
    λ h.
        (or_else_iff _ _).1
          ((if_iff _ _).1 h.1, (or_else_iff _ _).1 ((if_iff _ _).1 h.2, (if_iff _ _).1 h.3)),
  )
]

is_final : String → Bool
is_final a = a is "complete" || a is "fail" || a is "blocked"

is_final_iff : (a : String) → (is_final a ≡ true) ↔ OneOf a ("complete" ∷ "fail" ∷ "blocked" ∷ [])
unfolding is_final
is_final_iff a = (
  (λ h. ground (arith, is_iff a "complete", is_iff a "fail", is_iff a "blocked")),
  λ h. ground (arith, is_iff a "complete", is_iff a "fail", is_iff a "blocked"),
)

reason_tests :
    (msg : LeaderOutput)
    → (check_reason (clear_system_action msg) ≡ none)
      ↔ ((is_final msg.action ≡ false) ⊎ (is_blank msg.reason ≡ false))
unfolding check_reason clear_system_action is_final
reason_tests msg = ((λ h. ground arith), λ h. ground arith)

check_reason_iff :
    (msg : LeaderOutput)
    → (check_reason (clear_system_action msg) ≡ none)
      ↔ (OneOf msg.action ("complete" ∷ "fail" ∷ "blocked" ∷ []) → HasText msg.reason)
check_reason_iff msg = (to_spec, of_spec)
  where
    to_spec :
        check_reason (clear_system_action msg) ≡ none
        → OneOf msg.action ("complete" ∷ "fail" ∷ "blocked" ∷ [])
        → HasText msg.reason
    to_spec h final = elim ((reason_tests msg).0 h) [
      | inl other ↦ cc (other, (is_final_iff msg.action).1 final)
      | inr said ↦ said
    ]

    of_spec :
        (OneOf msg.action ("complete" ∷ "fail" ∷ "blocked" ∷ []) → HasText msg.reason)
        → check_reason (clear_system_action msg) ≡ none
    of_spec h = elim (Bool-cases (is_final msg.action)) [
      | inl final ↦ (reason_tests msg).1 (inr (h ((is_final_iff msg.action).0 final)))
      | inr other ↦ (reason_tests msg).1 (inl other)
    ]

accepts_iff :
    (msg : LeaderOutput)
    → ((validate_leader_output msg).1 ≡ none)
      ↔ ((check_action msg ≡ none) × (check_reason (clear_system_action msg) ≡ none))
unfolding validate_leader_output
accepts_iff msg = ((λ h. ground arith), λ h. ground arith)

-- ValidateLeaderOutput returns no error exactly for the messages that are well-formed, action by
-- action.
pub validate_leader_output-none_iff :
    (msg : LeaderOutput) → ((validate_leader_output msg).1 ≡ none) ↔ IsWellFormed msg
validate_leader_output-none_iff msg = (to_spec, of_spec)
  where
    to_spec : (validate_leader_output msg).1 ≡ none → IsWellFormed msg
    to_spec h =
        let both = (accepts_iff msg).0 h in
        let (known, worker, workers, system) = (check_action_iff msg).0 both.0 in
        record {
          known_action = (one_of_iff msg.action leader_actions).0 known;
          one_worker = λ e. (run_worker_iff msg).0 (worker ((is_iff msg.action "run_worker").1 e));
          two_workers =
              λ e. (run_workers_iff msg.tasks).0 (workers ((is_iff msg.action "run_workers").1 e));
          system = λ e. (run_system_iff msg).0 (system ((is_iff msg.action "run_system").1 e));
          explained = (check_reason_iff msg).0 both.1;
        }

    of_spec : IsWellFormed msg → (validate_leader_output msg).1 ≡ none
    of_spec h = (accepts_iff msg).1 (
      (check_action_iff msg).1 (
        (one_of_iff msg.action leader_actions).1 h.known_action,
        (λ t. (run_worker_iff msg).1 (h.one_worker ((is_iff msg.action "run_worker").0 t))),
        (λ t.
            (run_workers_iff msg.tasks).1 (h.two_workers ((is_iff msg.action "run_workers").0 t))),
        λ t. (run_system_iff msg).1 (h.system ((is_iff msg.action "run_system").0 t)),
      ),
      (check_reason_iff msg).1 h.explained,
    )

kept_of_system :
    (msg : LeaderOutput)
    → (validate_leader_output msg).1 ≡ none
    → (msg.action is "run_system") ≡ true
    → (validate_leader_output msg).0 ≡ msg
unfolding validate_leader_output clear_system_action
kept_of_system msg h e = ground arith

cleared :
    (msg : LeaderOutput)
    → (validate_leader_output msg).1 ≡ none
    → (msg.action is "run_system") ≡ false
    → (validate_leader_output msg).0 ≡ record msg { system_action = none }
unfolding validate_leader_output clear_system_action
cleared msg h e = ground arith

-- An accepted message comes back as it was, but that its system action is dropped unless the action
-- is run_system; with run_system it has one.
pub validate_leader_output-system_action :
    (msg : LeaderOutput)
    → (validate_leader_output msg).1 ≡ none
    → ((msg.action ≡ "run_system")
        × ((validate_leader_output msg).0 ≡ msg)
        × (a : SystemAction) × (msg.system_action ≡ some a))
      ⊎ ((msg.action ≢ "run_system")
          × ((validate_leader_output msg).0 ≡ record msg { system_action = none }))
validate_leader_output-system_action msg h = elim (Bool-cases (msg.action is "run_system")) [
  | inl system ↦
      let e = (is_iff msg.action "run_system").0 system in
      let order = ((validate_leader_output-none_iff msg).0 h).system e in
      inl (e, kept_of_system msg h system, order.runnable.0, order.runnable.1)
  | inr other ↦ inr ((λ e. cc (other, (is_iff msg.action "run_system").1 e)), cleared msg h other)
]
