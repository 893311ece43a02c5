-- ===== src/Loop/Started.antt =====
-- internal/orchestrator/service.go behind internal/policy/policy.go and internal/runtime/policy.go:
-- which commands a system step starts.
use gorchera.Base.{
  suc, ◌≡◌, refl, subst, ◌⊎◌, inl, inr, String, Bool, true, false, ◌&&◌, not, List, ◌∷◌, Option,
  none, some, arith, Bool-cases, Option-cases,
}
use gorchera.Base.Result.{ok, Result-cases}
use gorchera.Allowlist.{Request, allows, new_default_policy}
use gorchera.Policy.{evaluate, Decision}
use gorchera.Policy
use gorchera.Domain.{LeaderOutput}
use gorchera.Service.{Run, resume_with}
use gorchera.Loop.{
  World, at_turn, on_result, started, run_command, begin_step, after_system, start_system, decide,
  decide_system, SystemRequest, run_system_step_with_approval, build_system_request, is_block,
}
use gorchera.Loop.Quiet.{
  fail_job-Starts, begin_step-Starts, hold_system-Starts, after_system-Starts,
}

-- The command is on the allowlist of its category, and an operator has granted it or the policy allows
-- the action that it is a part of in this run.
pub record IsPermitted (w : World) (leader : LeaderOutput) (granted : Bool) (r : Run)
    (req : Request) : Type 0 where
  pub listed : allows new_default_policy req ≡ none
  pub request : SystemRequest
  pub made : build_system_request w.working_dir r.service.workspace_root r.job leader ≡ ok request
  pub command : request.0 ≡ req
  pub decided : (granted ≡ true) ⊎ ((evaluate Policy.new request.1).decision ≡ Decision.allow)

-- The commands that were started are those before, or one more that is permitted in the run `b`.
pub data StartsPermitted (w : World) (leader : LeaderOutput) (granted : Bool) (b : Run)
    (old new : List Request) : Type 0 where
  none_started : new ≡ old → StartsPermitted w leader granted b old new
  one_started :
      (req : Request)
      → new ≡ req ∷ old
      → IsPermitted w leader granted b req
      → StartsPermitted w leader granted b old new

allowed_of_not_blocked : (d : Decision) → is_block d ≡ false → d ≡ Decision.allow
allowed_of_not_blocked Decision.allow h = refl
allowed_of_not_blocked Decision.block h = absurd (ground (arith, h))

granted_or_allowed :
    (granted : Bool) (d : Decision)
    → (not granted && is_block d) ≡ false
    → (granted ≡ true) ⊎ (d ≡ Decision.allow)
granted_or_allowed true d h = inl refl
granted_or_allowed false d h = inr (allowed_of_not_blocked d h)

module _ (w : World) (leader : LeaderOutput) (granted : Bool) where
  abbrev Started : Run → List Request → List Request → Type 0
  Started b old new = StartsPermitted w leader granted b old new

  run_command-ran :
      (req : Request) (r : Run)
      → ((run_command w req (after_system w) r).0.service.ran ≡ r.service.ran)
        ⊎ (((run_command w req (after_system w) r).0.service.ran ≡ req ∷ r.service.ran)
            × (allows new_default_policy req ≡ none))
  unfolding run_command at_turn
  run_command-ran req r =
      let asked : Run = record r { service = record r.service { turn = suc r.service.turn } } in
      elim (Option-cases (allows new_default_policy req)) [
        | inl e ↦ inr (
          rw (e, run_command) ((after_system-Starts w r.service.turn _).same (started req asked)),
          e,
        )
        | inr (text, e) ↦
            inl (rw (e, run_command) ((after_system-Starts w r.service.turn _).same asked))
      ]

  decide-Started :
      (request : SystemRequest) (r : Run)
      → build_system_request w.working_dir r.service.workspace_root r.job leader ≡ ok request
      → Started r r.service.ran (decide w leader granted request r).0.service.ran
  unfolding decide start_system resume_with
  decide-Started request r made =
      elim (Bool-cases (not granted && is_block (evaluate Policy.new request.1).decision)) [
        | inl held ↦ none_started (rw (held, decide) ((hold_system-Starts w _ leader).same r))
        | inr free ↦
            elim (run_command-ran request.0
              (record r { job = record r.job { pending_approval = none } })) [
                | inl same ↦ none_started (rw (free, decide) same)
                | inr (one, listed) ↦ one_started request.0 (rw (free, decide) one) (record {
                  listed = listed;
                  request = request;
                  made = made;
                  command = refl;
                  decided = granted_or_allowed granted _ free;
                })
              ]
      ]

  decide_system-Started :
      (r : Run) → Started r r.service.ran (decide_system w leader granted r).0.service.ran
  unfolding decide_system on_result
  decide_system-Started r =
      elim (Result-cases
        (build_system_request w.working_dir r.service.workspace_root r.job leader)) [
          | inl (e, told) ↦
              none_started (rw (told, decide_system, on_result) ((fail_job-Starts w.env _).same r))
          | inr (request, told) ↦
              rw (told, decide_system, on_result) (decide-Started request r told)
        ]

  resumed-Started :
      (x : Run × Option String)
      → Started x.0 x.0.service.ran (resume_with (decide_system w leader granted) x).0.service.ran
  unfolding resume_with
  resumed-Started (r, none) = decide_system-Started r
  resumed-Started (r, some e) = none_started refl

  -- Whatever the command, the policy and the files answer: a system step starts at most one command.
  -- One that it starts is on the allowlist of its category, and unless the operator has granted the
  -- step, the policy allows the action that is built from the leader's message and the job with the new
  -- step.
  pub run_system_step-Started :
      (r : Run)
      → Started
          (begin_step w "system_requested" leader r).0
          r.service.ran
          (run_system_step_with_approval w leader granted r).0.service.ran
  unfolding run_system_step_with_approval
  run_system_step-Started r =
      let begun = begin_step w "system_requested" leader r in
      subst
        (λ old.
          Started begun.0 old (resume_with (decide_system w leader granted) begun).0.service.ran)
        ((begin_step-Starts w "system_requested" leader).same r) (resumed-Started begun)
