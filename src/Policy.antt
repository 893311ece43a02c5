-- ===== src/Policy.antt =====
-- internal/policy/policy.go: which system actions run without an operator's approval.
pub mod Gate
use gorchera.Base.{
  ℕ, ◌==◌, leb, String, Bool, true, false, ◌||◌, List, [], ◌∷◌, Option, none, some, if◌then◌else◌,
}
use gorchera.Base.Text.{is_blank, itoa, ◌^^◌}

pub data Decision : Type 0 where
  allow block : Decision

-- `other` is any text that is no constant of the source.
pub data ActionType : Type 0 where
  read_file write_file search build test lint diff delete deploy git_push : ActionType
  access_credential network_request command : ActionType
  other : String → ActionType

pub data ResourceScope : Type 0 where
  workspace_local workspace_outside unknown : ResourceScope
  other : String → ResourceScope

pub record Request : Type 0 where
  pub action : ActionType
  pub target_scopes : List ResourceScope
  pub delete_count : ℕ
  pub uses_network : Bool
  pub touches_credential : Bool
  pub command : String
  pub details : String

pub record Result : Type 0 where
  pub decision : Decision
  pub reason : String

pub record Policy : Type 0 where
  pub mass_delete_threshold : ℕ

abbrev pub new : Policy
new = record { mass_delete_threshold = 10 }

allowed : String → Result
allowed reason = record { decision = allow; reason = reason }

blocked : String → Result
blocked reason = record { decision = block; reason = reason }

unfoldable pub mass_delete_limit : Policy → ℕ
mass_delete_limit p = if p.mass_delete_threshold == 0 then 10 else p.mass_delete_threshold

abbrev is_outside : ResourceScope → Bool
is_outside ResourceScope.workspace_outside = true
is_outside ResourceScope.unknown = true
is_outside _ = false

unfoldable pub contains_outside_scope : List ResourceScope → Bool
contains_outside_scope [] = false
contains_outside_scope (s ∷ ss) =
    let rest = contains_outside_scope ss in if is_outside s then true else rest

-- The branches on the action, after those on the two flags.
unfoldable pub by_action : Policy → Request → ActionType → Result
unfolding allowed blocked mass_delete_limit
by_action p req ActionType.access_credential = blocked "credential access requires blocking"
by_action p req ActionType.network_request = blocked "network access requires blocking"
by_action p req ActionType.deploy = blocked "deploy requires blocking"
by_action p req ActionType.git_push = blocked "git push requires blocking"
by_action p req ActionType.delete =
    if leb (mass_delete_limit p) req.delete_count
    then blocked ("mass delete of " ^^ itoa req.delete_count ^^ " items requires blocking")
    else if contains_outside_scope req.target_scopes
    then blocked "workspace-external delete requires blocking"
    else allowed "local delete within workspace"
by_action p req ActionType.write_file =
    if contains_outside_scope req.target_scopes
    then blocked "workspace-external write requires blocking"
    else allowed "local write within workspace"
by_action p req ActionType.command =
    if contains_outside_scope req.target_scopes
    then blocked "workspace-external command target requires blocking"
    else allowed "local command within workspace"
by_action p req (ActionType.other text) = blocked "unknown action requires review"
by_action p req _ =
    if contains_outside_scope req.target_scopes
    then blocked "workspace-external target requires blocking"
    else allowed "safe workspace action"

abbrev pub is_access_credential : ActionType → Bool
is_access_credential ActionType.access_credential = true
is_access_credential _ = false

abbrev pub is_network_request : ActionType → Bool
is_network_request ActionType.network_request = true
is_network_request _ = false

unfoldable pub evaluate : Policy → Request → Result
unfolding by_action
evaluate p req =
    if req.touches_credential || is_access_credential req.action
    then blocked "credential access requires blocking"
    else if req.uses_network || is_network_request req.action
    then blocked "network access requires blocking"
    else by_action p req req.action

abbrev action_text : ActionType → String
action_text (ActionType.other text) = text
action_text _ = "a constant of the source, which is not blank"

-- `Request.Validate`.
unfoldable pub validate : Request → Option String
validate req = if is_blank (action_text req.action) then some "action is required" else none
