-- ===== src/Domain/Levels.antt =====
-- internal/domain/types.go and internal/orchestrator/planning.go: the words of a request are
-- brought to one of a few levels, with a default for any other word.
use gorchera.Base.{String, if◌then◌else◌}
use gorchera.Base.Text.{◌is◌, fold_key}

unfoldable pub normalize_pipeline_mode : String → String
unfolding fold_key
normalize_pipeline_mode mode =
    let m = fold_key mode in
    if m is "light" then "light" else if m is "full" then "full" else "balanced"

unfoldable pub normalize_ambition_level : String → String
unfolding fold_key
normalize_ambition_level level =
    let l = fold_key level in
    if l is "low"
    then "low"
    else if l is "high"
    then "high"
    else if l is "extreme"
    then "extreme"
    else if l is "custom"
    then "custom"
    else "medium"

unfoldable pub normalize_strictness_level : String → String
unfolding fold_key
normalize_strictness_level level =
    let l = fold_key level in
    if l is "strict"
    then "strict"
    else if l is "lenient"
    then "lenient"
    else if l is "auto"
    then "auto"
    else "normal"

unfoldable pub normalize_context_mode : String → String
unfolding fold_key
normalize_context_mode mode =
    let m = fold_key mode in
    if m is "summary"
    then "summary"
    else if m is "minimal"
    then "minimal"
    else if m is "auto"
    then "auto"
    else "full"
