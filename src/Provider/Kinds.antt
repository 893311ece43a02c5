-- ===== src/Provider/Kinds.antt =====
-- internal/provider/errors.go: which failures of a command are tried again.
use gorchera.Base.{◌≡◌, ap, ◌↔◌, ◌⊎◌, String, true, false, Option, some, arith}
use gorchera.Provider.{
  ErrorAction, CommandResult, contains_any, rate_phrases, auth_phrases, billing_phrases,
  quota_phrases, session_phrases, network_phrases, classify_text, normalized,
  recommended_action_for_kind, new_provider_error, classify_command_error,
}

retry_of_text :
    (text : String)
    → (recommended_action_for_kind (classify_text text) ≡ ErrorAction.retry) ↔ (
        (contains_any text rate_phrases ≡ true)
        ⊎ ((contains_any text auth_phrases ≡ false)
            × (contains_any text billing_phrases ≡ false)
            × (contains_any text quota_phrases ≡ false)
            × (contains_any text session_phrases ≡ false)
            × (contains_any text network_phrases ≡ true)))
unfolding recommended_action_for_kind classify_text
retry_of_text text = ((λ h. ground arith), λ h. ground arith)

-- A failed command is tried again exactly when its output, in small letters, has a phrase of a rate
-- limit, or a phrase of the network and none of authentication, billing, quota and session.
pub classify_command_error-retry_iff :
    (provider executable : String) (result : CommandResult) (cause : Option String)
    → let text = normalized result cause in
      ((classify_command_error provider executable result cause).recommended_action
        ≡ some ErrorAction.retry)
      ↔ ((contains_any text rate_phrases ≡ true)
          ⊎ ((contains_any text auth_phrases ≡ false)
              × (contains_any text billing_phrases ≡ false)
              × (contains_any text quota_phrases ≡ false)
              × (contains_any text session_phrases ≡ false)
              × (contains_any text network_phrases ≡ true)))
unfolding classify_command_error new_provider_error
classify_command_error-retry_iff provider executable result cause =
    let tests = retry_of_text (normalized result cause) in
    ((λ h. tests.0 (ground (arith, h))), λ h. ap some (tests.1 h))
