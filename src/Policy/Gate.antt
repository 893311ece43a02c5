-- ===== src/Policy/Gate.antt =====
-- internal/policy/policy.go: what the gate of the approval policy lets through.
use gorchera.Base.{ℕ, ◌<◌, ◌≡◌, ◌≢◌, ◌↔◌, refl, false, List, [], ◌∷◌, All, arith}
use gorchera.Policy.{
  Policy, Request, ActionType, ResourceScope, Decision, contains_outside_scope, mass_delete_limit,
  by_action, is_access_credential, is_network_request, evaluate,
}

-- The actions that may run without approval. A bulk delete is one only below the limit.
pub data IsLocalAction (p : Policy) (deletes : ℕ) : ActionType → Type 0 where
  read_file : IsLocalAction p deletes ActionType.read_file
  write_file : IsLocalAction p deletes ActionType.write_file
  search : IsLocalAction p deletes ActionType.search
  build : IsLocalAction p deletes ActionType.build
  test : IsLocalAction p deletes ActionType.test
  lint : IsLocalAction p deletes ActionType.lint
  diff : IsLocalAction p deletes ActionType.diff
  command : IsLocalAction p deletes ActionType.command
  delete : deletes < mass_delete_limit p → IsLocalAction p deletes ActionType.delete

-- The scope is not one of the two that lie outside the workspace.
abbrev pub IsInside : ResourceScope → Type 0
IsInside s = (s ≢ ResourceScope.workspace_outside) × (s ≢ ResourceScope.unknown)

-- What the policy promises, said without its code.
pub record IsPermitted (p : Policy) (req : Request) : Type 0 where
  pub no_credential : req.touches_credential ≡ false
  pub no_network : req.uses_network ≡ false
  pub local_action : IsLocalAction p req.delete_count req.action
  pub inside : All IsInside req.target_scopes

IsInside-of_scan : (ss : List ResourceScope) → contains_outside_scope ss ≡ false → All IsInside ss
unfolding contains_outside_scope
IsInside-of_scan [] h = tt
IsInside-of_scan (ResourceScope.workspace_local ∷ ss) h =
    (((λ e. cc), (λ e. cc)), IsInside-of_scan ss h)
IsInside-of_scan (ResourceScope.workspace_outside ∷ ss) h = cc
IsInside-of_scan (ResourceScope.unknown ∷ ss) h = cc
IsInside-of_scan (ResourceScope.other text ∷ ss) h = (((λ e. cc), (λ e. cc)), IsInside-of_scan ss h)

scan_of_inside : (ss : List ResourceScope) → All IsInside ss → contains_outside_scope ss ≡ false
unfolding contains_outside_scope
scan_of_inside [] h = refl
scan_of_inside (ResourceScope.workspace_local ∷ ss) h = scan_of_inside ss h.1
scan_of_inside (ResourceScope.workspace_outside ∷ ss) h = absurd (h.0.0 refl)
scan_of_inside (ResourceScope.unknown ∷ ss) h = absurd (h.0.1 refl)
scan_of_inside (ResourceScope.other text ∷ ss) h = scan_of_inside ss h.1

allow_of_local :
    (p : Policy) (req : Request) (a : ActionType)
    → IsLocalAction p req.delete_count a
    → contains_outside_scope req.target_scopes ≡ false
    → (by_action p req a).decision ≡ Decision.allow
unfolding by_action
allow_of_local p req a read_file h = rw h
allow_of_local p req a write_file h = rw h
allow_of_local p req a search h = rw h
allow_of_local p req a build h = rw h
allow_of_local p req a test h = rw h
allow_of_local p req a lint h = rw h
allow_of_local p req a diff h = rw h
allow_of_local p req a command h = rw h
allow_of_local p req a (delete few) h = ground arith

local_of_allow :
    (p : Policy) (req : Request) (a : ActionType)
    → (by_action p req a).decision ≡ Decision.allow
    → IsLocalAction p req.delete_count a × (contains_outside_scope req.target_scopes ≡ false)
unfolding by_action
local_of_allow p req ActionType.read_file h = (read_file, ground arith)
local_of_allow p req ActionType.write_file h = (write_file, ground arith)
local_of_allow p req ActionType.search h = (search, ground arith)
local_of_allow p req ActionType.build h = (build, ground arith)
local_of_allow p req ActionType.test h = (test, ground arith)
local_of_allow p req ActionType.lint h = (lint, ground arith)
local_of_allow p req ActionType.diff h = (diff, ground arith)
local_of_allow p req ActionType.command h = (command, ground arith)
local_of_allow p req ActionType.delete h = (delete (ground arith), ground arith)
local_of_allow p req ActionType.deploy h = cc
local_of_allow p req ActionType.git_push h = cc
local_of_allow p req ActionType.access_credential h = cc
local_of_allow p req ActionType.network_request h = cc
local_of_allow p req (ActionType.other text) h = cc

-- The action that passes is neither of the two that the flags' branches name.
flags_clear :
    (p : Policy) (req : Request)
    → (evaluate p req).decision ≡ Decision.allow
    → (req.touches_credential ≡ false)
      × (req.uses_network ≡ false)
      × ((by_action p req req.action).decision ≡ Decision.allow)
unfolding evaluate
flags_clear p req h = ground arith

allow_clear :
    (p : Policy) (req : Request) (a : ActionType)
    → IsLocalAction p req.delete_count a
    → (is_access_credential a ≡ false) × (is_network_request a ≡ false)
allow_clear p req a read_file = (refl, refl)
allow_clear p req a write_file = (refl, refl)
allow_clear p req a search = (refl, refl)
allow_clear p req a build = (refl, refl)
allow_clear p req a test = (refl, refl)
allow_clear p req a lint = (refl, refl)
allow_clear p req a diff = (refl, refl)
allow_clear p req a command = (refl, refl)
allow_clear p req a (delete few) = (refl, refl)

-- The policy lets a request run exactly when it touches no credential and no network, its action is
-- a local one (a delete only of fewer items than the limit), and every target scope lies inside the
-- workspace.
pub evaluate-allow_iff :
    (p : Policy) (req : Request) → ((evaluate p req).decision ≡ Decision.allow) ↔ IsPermitted p req
unfolding evaluate
evaluate-allow_iff p req = (to_spec, of_spec)
  where
    to_spec : (evaluate p req).decision ≡ Decision.allow → IsPermitted p req
    to_spec h =
        let (credential, network, passed) = flags_clear p req h in
        let (local, scan) = local_of_allow p req req.action passed in
        record {
          no_credential = credential;
          no_network = network;
          local_action = local;
          inside = IsInside-of_scan req.target_scopes scan;
        }

    of_spec : IsPermitted p req → (evaluate p req).decision ≡ Decision.allow
    of_spec h =
        let (credential, network) = allow_clear p req req.action h.local_action in
        simp (h.no_credential, h.no_network, credential, network)
          (allow_of_local p req req.action h.local_action
            (scan_of_inside req.target_scopes h.inside))
