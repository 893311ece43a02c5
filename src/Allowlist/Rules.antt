-- ===== src/Allowlist/Rules.antt =====
-- internal/runtime/policy.go: what an added rule changes, and what the default rules admit.
use gorchera.Base.{String, false, ◌≡◌, ◌↔◌, ◌⊎◌, List, [], ◌∷◌, none, some, arith, if◌then◌else◌}
use gorchera.Base.Text.{◌is◌, is_iff, is_blank, one_of}
use gorchera.Allowlist.{
  Policy, Request, normalize_executable, find_rules, add_rule, allows, allow, new_default_policy,
}

-- The rules that a category has after the addition.
find_rules-add_rule :
    (c k exe : String) (rules : List (String × List String))
    → find_rules k (add_rule c exe rules) ≡ (
        if c is k
        then some (exe ∷ elim (find_rules k rules) [ none ↦ [] | some old ↦ old ])
        else find_rules k rules)
unfolding find_rules add_rule
find_rules-add_rule c k exe [] = ground arith
find_rules-add_rule c k exe ((j, old) ∷ rules) =
    ground (arith, is_iff c k, is_iff j c, is_iff j k, find_rules-add_rule c k exe rules)

-- After `Allow(category, command)` a request passes exactly when it passed before, or its command is
-- not blank, it is of that category and it names the same executable.
pub allows-allow_iff :
    (p : Policy) (category command : String) (req : Request)
    → (allows (allow p category command) req ≡ none) ↔ (
        (allows p req ≡ none)
        ⊎ ((is_blank req.command ≡ false)
            × (category ≡ req.category)
            × (normalize_executable command ≡ normalize_executable req.command)))
unfolding allows allow one_of
allows-allow_iff p category command req = (to_old, of_old)
  where
    exe : String
    exe = normalize_executable req.command

    to_old :
        allows (allow p category command) req ≡ none
        → (allows p req ≡ none)
          ⊎ ((is_blank req.command ≡ false)
              × (category ≡ req.category)
              × (normalize_executable command ≡ exe))
    to_old h = ground (
      arith,
      find_rules-add_rule category req.category (normalize_executable command) p.rules,
      is_iff category req.category,
      is_iff (normalize_executable command) (normalize_executable req.command),
    )

    of_old :
        (allows p req ≡ none)
          ⊎ ((is_blank req.command ≡ false)
              × (category ≡ req.category)
              × (normalize_executable command ≡ exe))
        → allows (allow p category command) req ≡ none
    of_old h = ground (
      arith,
      find_rules-add_rule category req.category (normalize_executable command) p.rules,
      is_iff category req.category,
      is_iff (normalize_executable command) (normalize_executable req.command),
    )

-- Under the default rules a request of the category "command" passes exactly when its command is not
-- blank and names the executable go.
pub default-command_iff :
    (req : Request)
    → req.category ≡ "command"
    → (allows new_default_policy req ≡ none)
      ↔ ((is_blank req.command ≡ false) × ("go" ≡ normalize_executable req.command))
unfolding allows new_default_policy one_of normalize_executable
default-command_iff req h = rw h (ground (arith, is_iff "go" (normalize_executable req.command)))
