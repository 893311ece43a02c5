-- ===== src/Examples/Calls.antt =====
-- A provider that is rate limited once and then answers.
use gorchera.Base.{
  ℕ, zero, suc, ◌+◌, ◌≡◌, ◌↔◌, ◌⊎◌, ◌≤◌, length, String, true, false, Option, none, some,
}
use gorchera.Base.Text.{itoa}
use gorchera.Provider.{
  Answer, raw, failure, answered, ErrorAction, CommandResult, contains_any, normalized,
  rate_phrases, auth_phrases, billing_phrases, quota_phrases, session_phrases, network_phrases,
  classify_command_error, execute_provider_phase, provider_retry_limit,
}
use gorchera.Provider.Kinds.{classify_command_error-retry_iff}
use gorchera.Provider.Retry.{
  Answers, execute_provider_phase-answered_iff, execute_provider_phase-events,
}
use gorchera.Examples.Samples.{running, run}

abbrev limited : CommandResult
limited = record { exit_code = 1; stdout = ""; stderr = "HTTP 429: Too Many Requests" }

classify_command_error-retry_iff_example :
    ((classify_command_error "claude" "claude" limited none).recommended_action
      ≡ some ErrorAction.retry)
    ↔ ((contains_any (normalized limited none) rate_phrases ≡ true)
        ⊎ ((contains_any (normalized limited none) auth_phrases ≡ false)
            × (contains_any (normalized limited none) billing_phrases ≡ false)
            × (contains_any (normalized limited none) quota_phrases ≡ false)
            × (contains_any (normalized limited none) session_phrases ≡ false)
            × (contains_any (normalized limited none) network_phrases ≡ true)))
classify_command_error-retry_iff_example =
    classify_command_error-retry_iff "claude" "claude" limited none

abbrev flaky : ℕ → Answer
flaky zero = failure (record {
  text = "claude provider rate_limited";
  provider_error = some (classify_command_error "claude" "claude" limited none);
})
flaky (suc n) = raw "{}"

abbrev unbroken : ℕ → Option String
unbroken n = none

execute_provider_phase-answered_iff_example :
    ((execute_provider_phase flaky unbroken itoa "leader" (run running)).1 ≡ answered "{}")
    ↔ Answers flaky unbroken itoa "leader" "{}" 0 provider_retry_limit
execute_provider_phase-answered_iff_example =
    execute_provider_phase-answered_iff flaky unbroken itoa "leader" "{}" (run running)

execute_provider_phase-events_example :
    length (execute_provider_phase flaky unbroken itoa "leader" (run running)).0.job.events
    ≤ length running.events + provider_retry_limit
execute_provider_phase-events_example =
    execute_provider_phase-events flaky unbroken itoa "leader" (run running)
