-- ===== src/Allowlist.antt =====
-- internal/runtime/policy.go: which executables each category of command may start, on a system
-- other than Windows.
pub mod Rules
use gorchera.Base.{
  String, Bool, true, false, List, [], ◌∷◌, Option, none, some, ◌≡◌, refl, if◌then◌else◌, not,
}
use gorchera.Base.FilePath.{base}
use gorchera.Base.Text.{◌is◌, ◌^^◌, to_lower, is_blank, quote, one_of}
use Prim.Native.Char.{Char, code}
use Prim.Native.String
use gorchera.Base.{◌==◌, ◌&&◌}

-- `rules`: the executables of a category. A category is its text.
pub record Policy : Type 0 where
  pub rules : List (String × List String)

pub record Request : Type 0 where
  pub category : String
  pub command : String
  pub args : List String
  pub dir : String

-- `strings.CutSuffix`: what stands before the suffix, if the text ends in it.
unfoldable pub cut_suffix : String → String → Option String
cut_suffix String.[] suffix = if suffix is "" then some "" else none
cut_suffix (String.◌∷◌ c s) suffix =
    let rest : Option String = elim (cut_suffix s suffix) [
      | none ↦ none
      | some t ↦ some (String.◌∷◌ c t)
    ] in
    if String.◌∷◌ c s is suffix then some "" else rest

unfoldable pub normalize_executable : String → String
unfolding base cut_suffix to_lower
normalize_executable command =
    let name = to_lower (base command) in
    elim (cut_suffix name ".exe") [
      | some cut ↦ cut
      | none ↦ elim (cut_suffix name ".cmd") [
        | some cut ↦ cut
        | none ↦ elim (cut_suffix name ".bat") [ some cut ↦ cut | none ↦ name ]
      ]
    ]

unfoldable pub find_rules : String → List (String × List String) → Option (List String)
find_rules c [] = none
find_rules c ((k, exes) ∷ rest) =
    let later = find_rules c rest in if k is c then some exes else later

-- `none` is the nil error.
unfoldable pub allows : Policy → Request → Option String
unfolding find_rules
allows p req =
    if is_blank req.command
    then some "command is required"
    else elim (find_rules req.category p.rules) [
      | none ↦ some ("unsupported category: " ^^ req.category)
      | some rules ↦
          let exe = normalize_executable req.command in
          if one_of exe rules
          then none
          else some ("command " ^^ quote exe ^^ " is not allowlisted for category " ^^ req.category)
    ]

-- The set of the category with one more executable; a new set where the category has none.
unfoldable pub add_rule :
    String → String → List (String × List String) → List (String × List String)
add_rule c exe [] = (c, exe ∷ []) ∷ []
add_rule c exe ((k, exes) ∷ rest) =
    if k is c then (k, exe ∷ exes) ∷ rest else (k, exes) ∷ add_rule c exe rest

-- `Policy.Allow`.
unfoldable pub allow : Policy → String → String → Policy
unfolding add_rule
allow p category command = record {
  rules = add_rule category (normalize_executable command) p.rules;
}

unfoldable pub new_rule_set : List String → List String
new_rule_set [] = []
new_rule_set (x ∷ xs) = normalize_executable x ∷ new_rule_set xs

unfoldable pub new_default_policy : Policy
unfolding new_rule_set
new_default_policy = record {
  rules =
      (
        "build",
        new_rule_set (
            "go" ∷ "cargo" ∷ "dotnet" ∷ "make" ∷ "cmake" ∷ "mvn" ∷ "gradle" ∷ "npm" ∷ "pnpm"
            ∷ "yarn" ∷ []),
      )
      ∷ (
        "test",
        new_rule_set
            ("go" ∷ "cargo" ∷ "dotnet" ∷ "pytest" ∷ "npm" ∷ "pnpm" ∷ "yarn" ∷ "python" ∷ []),
      )
      ∷ (
        "lint",
        new_rule_set (
            "go" ∷ "golangci-lint" ∷ "eslint" ∷ "prettier" ∷ "ruff" ∷ "black" ∷ "mypy" ∷ "flake8"
            ∷ "cargo" ∷ "dotnet" ∷ []),
      )
      ∷ ("search", new_rule_set ("rg" ∷ "grep" ∷ "git" ∷ "findstr" ∷ "select-string" ∷ []))
      ∷ ("command", new_rule_set ("go" ∷ []))
      ∷ [];
}
