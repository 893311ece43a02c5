-- ===== src/Domain/Roles.antt =====
-- internal/domain/types.go: the provider and model of each role. `max_budget_usd` is scaled to a
-- whole number; it is only compared with 0.
use gorchera.Base.{ℕ, ◌==◌, String, Bool, ◌&&◌, List, [], ◌∷◌, if◌then◌else◌}
use gorchera.Base.Text.{◌is◌}

pub record ExecutionProfile : Type 0 where
  pub provider : String
  pub model : String
  pub effort : String
  pub tool_policy : String
  pub fallback_provider : String
  pub fallback_model : String
  pub max_budget_usd : ℕ

pub record RoleProfiles : Type 0 where
  pub director : ExecutionProfile
  pub planner : ExecutionProfile
  pub leader : ExecutionProfile
  pub executor : ExecutionProfile
  pub reviewer : ExecutionProfile
  pub tester : ExecutionProfile
  pub evaluator : ExecutionProfile

pub data RoleName : Type 0 where
  director planner leader executor reviewer tester evaluator : RoleName
  other : String → RoleName

abbrev pub zero_profile : ExecutionProfile
zero_profile = record {
  provider = "";
  model = "";
  effort = "";
  tool_policy = "";
  fallback_provider = "";
  fallback_model = "";
  max_budget_usd = 0;
}

unfoldable pub is_zero_execution_profile : ExecutionProfile → Bool
is_zero_execution_profile p =
    p.provider is ""
    && p.model is ""
    && p.effort is ""
    && p.tool_policy is ""
    && p.fallback_provider is ""
    && p.fallback_model is ""
    && p.max_budget_usd == 0

unfoldable pub first_non_zero_profile : List ExecutionProfile → ExecutionProfile
first_non_zero_profile [] = zero_profile
first_non_zero_profile (p ∷ ps) =
    let rest = first_non_zero_profile ps in if is_zero_execution_profile p then rest else p

unfoldable pub with_fallback : ExecutionProfile → String → ExecutionProfile
with_fallback p base = if p.provider is "" then record p { provider = base } else p

abbrev named : String → String → ExecutionProfile
named base model = record zero_profile { provider = base; model = model }

unfoldable pub default_role_profiles : String → RoleProfiles
default_role_profiles base = record {
  director = named base "opus";
  planner = named base "opus";
  leader = named base "opus";
  executor = named base "sonnet";
  reviewer = named base "sonnet";
  tester = named base "sonnet";
  evaluator = named base "opus";
}

-- The assignments of the source run in order: a later one reads the fields already set.
unfoldable pub normalize : RoleProfiles → String → RoleProfiles
normalize r base =
    let director' =
      with_fallback (first_non_zero_profile (r.director ∷ r.planner ∷ r.leader ∷ [])) base in
    let executor' = with_fallback r.executor base in
    record {
      director = director';
      planner = with_fallback (first_non_zero_profile (r.planner ∷ director' ∷ [])) base;
      leader = with_fallback (first_non_zero_profile (r.leader ∷ director' ∷ [])) base;
      executor = executor';
      reviewer = with_fallback r.reviewer base;
      tester =
          if is_zero_execution_profile r.tester then executor' else with_fallback r.tester base;
      evaluator = with_fallback r.evaluator base;
    }

unfoldable pub profile_for : RoleProfiles → RoleName → String → ExecutionProfile
profile_for r RoleName.director base =
    with_fallback (first_non_zero_profile (r.director ∷ r.leader ∷ r.planner ∷ [])) base
profile_for r RoleName.planner base =
    with_fallback (first_non_zero_profile (r.planner ∷ r.director ∷ r.leader ∷ [])) base
profile_for r RoleName.leader base =
    with_fallback (first_non_zero_profile (r.leader ∷ r.director ∷ r.planner ∷ [])) base
profile_for r RoleName.executor base = with_fallback r.executor base
profile_for r RoleName.reviewer base = with_fallback r.reviewer base
profile_for r RoleName.tester base =
    with_fallback (first_non_zero_profile (r.tester ∷ r.executor ∷ [])) base
profile_for r RoleName.evaluator base = with_fallback r.evaluator base
profile_for r (RoleName.other name) base = record zero_profile { provider = base }
