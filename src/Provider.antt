-- ===== src/Provider.antt =====
-- internal/provider/errors.go and the retries of internal/orchestrator/service.go: what kind of
-- failure a provider's command reports, and what the service does about it.
pub mod Retry
pub mod Kinds
use gorchera.Base.{
  ℕ, zero, suc, ◌*◌, ◌^◌, any, String, Bool, List, [], ◌∷◌, Option, none, some, if◌then◌else◌,
}
use gorchera.Base.Text.{◌is◌, ◌^^◌, trim_space, to_lower, contains, join, itoa}
use gorchera.Service.{Run, add_event}

pub data ErrorAction : Type 0 where
  retry block fail : ErrorAction

pub data ErrorKind : Type 0 where
  missing_executable probe_failed command_failed invalid_response unsupported_phase : ErrorKind
  auth_failure quota_exceeded rate_limited billing_required session_expired : ErrorKind
  network_error transport_error : ErrorKind

-- An `Err` is its text; an empty `RecommendedAction` is `none`.
pub record ProviderError : Type 0 where
  pub provider : String
  pub kind : ErrorKind
  pub recommended_action : Option ErrorAction
  pub executable : String
  pub detail : String
  pub cause : Option String

-- recommendedActionForKind.
unfoldable pub recommended_action_for_kind : ErrorKind → ErrorAction
recommended_action_for_kind ErrorKind.rate_limited = retry
recommended_action_for_kind ErrorKind.network_error = retry
recommended_action_for_kind ErrorKind.auth_failure = block
recommended_action_for_kind ErrorKind.billing_required = block
recommended_action_for_kind ErrorKind.session_expired = block
recommended_action_for_kind _ = fail

-- newProviderError.
unfoldable pub new_provider_error :
    String → ErrorKind → String → String → Option String → ProviderError
new_provider_error provider kind executable detail cause = record {
  provider = provider;
  kind = kind;
  recommended_action = some (recommended_action_for_kind kind);
  executable = executable;
  detail = detail;
  cause = cause;
}

pub record CommandResult : Type 0 where
  pub exit_code : ℕ
  pub stdout : String
  pub stderr : String

unfoldable pub contains_any : String → List String → Bool
contains_any text patterns = any (contains text) patterns

abbrev pub rate_phrases : List String
rate_phrases = "rate limit" ∷ "rate-limit" ∷ "too many requests" ∷ "429" ∷ []

abbrev pub auth_phrases : List String
auth_phrases = "authentication" ∷ "unauthorized" ∷ "invalid api key" ∷ "api key" ∷ "401" ∷ []

abbrev pub billing_phrases : List String
billing_phrases = "billing" ∷ "payment required" ∷ "402" ∷ "payment method" ∷ "credit balance" ∷ []

abbrev pub quota_phrases : List String
quota_phrases =
    "insufficient_quota" ∷ "quota exceeded" ∷ "quota" ∷ "usage limit" ∷ "credits exhausted" ∷ []

abbrev pub session_phrases : List String
session_phrases =
    "session expired" ∷ "session has expired" ∷ "login expired" ∷ "reauthenticate"
    ∷ "re-authenticate" ∷ []

abbrev pub network_phrases : List String
network_phrases =
    "timeout" ∷ "timed out" ∷ "connection reset" ∷ "connection refused" ∷ "network is unreachable"
    ∷ "temporary failure in name resolution" ∷ "no such host" ∷ "econnreset" ∷ "econnrefused"
    ∷ "tls handshake timeout" ∷ []

abbrev pub transport_phrases : List String
transport_phrases =
    "transport" ∷ "broken pipe" ∷ "unexpected eof" ∷ "stream closed" ∷ "protocol error"
    ∷ "connection closed unexpectedly" ∷ []

-- The switch of classifyCommandError on the text, in small letters.
unfoldable pub classify_text : String → ErrorKind
classify_text text =
    if contains_any text rate_phrases
    then ErrorKind.rate_limited
    else if contains_any text auth_phrases
    then ErrorKind.auth_failure
    else if contains_any text billing_phrases
    then ErrorKind.billing_required
    else if contains_any text quota_phrases
    then ErrorKind.quota_exceeded
    else if contains_any text session_phrases
    then ErrorKind.session_expired
    else if contains_any text network_phrases
    then ErrorKind.network_error
    else if contains_any text transport_phrases
    then ErrorKind.transport_error
    else ErrorKind.command_failed

-- The details that the constructors of errors.go give.
abbrev detail_of : ErrorKind → String
detail_of ErrorKind.rate_limited = "provider rate limited"
detail_of ErrorKind.auth_failure = "provider authentication failed"
detail_of ErrorKind.billing_required = "provider billing is required"
detail_of ErrorKind.quota_exceeded = "provider quota exceeded"
detail_of ErrorKind.session_expired = "provider session expired"
detail_of ErrorKind.network_error = "provider network error"
detail_of ErrorKind.transport_error = "provider transport error"
detail_of _ = "provider command failed"

-- errorString.
abbrev pub error_string : Option String → String
error_string none = ""
error_string (some e) = e

-- wrapCommandError.
unfoldable pub wrap_command_error : Option String → CommandResult → Option String
wrap_command_error cause result =
    let output = trim_space (join (result.stdout ∷ result.stderr ∷ []) "\n") in
    if output is ""
    then cause
    else elim cause [ none ↦ some output | some e ↦ some (e ^^ ": " ^^ output) ]

-- The text that is searched.
unfoldable pub normalized : CommandResult → Option String → String
normalized result cause =
    to_lower (trim_space (join (result.stderr ∷ result.stdout ∷ error_string cause ∷ []) "\n"))

-- classifyCommandError.
unfoldable pub classify_command_error :
    String → String → CommandResult → Option String → ProviderError
classify_command_error provider executable result cause =
    let kind = classify_text (normalized result cause) in
    new_provider_error provider kind executable (detail_of kind) (wrap_command_error cause result)

-- An error of a call: its text, and the ProviderError that `errors.As` finds in it.
pub record Failure : Type 0 where
  pub text : String
  pub provider_error : Option ProviderError

pub data Answer : Type 0 where
  raw : String → Answer
  failure : Failure → Answer

-- What executeProviderPhase returns.
pub data PhaseEnd : Type 0 where
  answered : String → PhaseEnd
  gave_up : ErrorAction → String → PhaseEnd

abbrev action_or_fail : Option ErrorAction → ErrorAction
action_or_fail none = fail
action_or_fail (some action) = action

-- providerActionForError.
unfoldable pub provider_action_for_error : Failure → ErrorAction
provider_action_for_error f = elim f.provider_error [
  | none ↦ fail
  | some e ↦ action_or_fail e.recommended_action
]

abbrev pub provider_retry_limit : ℕ
provider_retry_limit = 3

-- providerRetryBackoff, in milliseconds.
unfoldable pub provider_retry_backoff : ℕ → ℕ
provider_retry_backoff attempt = 250 * 2 ^ attempt

-- The answers of the calls, by their number, the error of the context in each wait, and the text of
-- a duration.
module _ (invoke : ℕ → Answer) (wait : ℕ → Option String) (format_duration : ℕ → String)
    (phase : String) where
  unfoldable pub retry_message : ℕ → Failure → String
  retry_message attempt f =
      phase
      ^^ " retry "
      ^^ itoa (suc attempt)
      ^^ "/"
      ^^ itoa provider_retry_limit
      ^^ " after "
      ^^ format_duration (provider_retry_backoff attempt)
      ^^ ": "
      ^^ f.text

  -- The loop of executeProviderPhase with a number of retries left.
  unfoldable pub execute_from : ℕ → ℕ → Run → Run × PhaseEnd
  unfolding retry_message
  execute_from zero attempt r = elim (invoke attempt) [
    | raw text ↦ (r, answered text)
    | failure f ↦ elim (provider_action_for_error f) [
      | retry ↦ (
        r,
        gave_up fail (
            phase
            ^^ " execution failed after "
            ^^ itoa provider_retry_limit
            ^^ " retries: "
            ^^ f.text),
      )
      | block ↦ (r, gave_up block f.text)
      | fail ↦ (r, gave_up fail f.text)
    ]
  ]
  execute_from (suc left) attempt r = elim (invoke attempt) [
    | raw text ↦ (r, answered text)
    | failure f ↦ elim (provider_action_for_error f) [
      | retry ↦
          let r' = (add_event "provider_retry" (retry_message attempt f) r).0 in
          let rest = execute_from left (suc attempt) r' in
          elim (wait attempt) [
            | some e ↦ (r', gave_up fail (phase ^^ " retry interrupted: " ^^ e))
            | none ↦ rest
          ]
      | block ↦ (r, gave_up block f.text)
      | fail ↦ (r, gave_up fail f.text)
    ]
  ]

  -- executeProviderPhase.
  unfoldable pub execute_provider_phase : Run → Run × PhaseEnd
  execute_provider_phase = execute_from provider_retry_limit 0
