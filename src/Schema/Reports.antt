-- ===== src/Schema/Reports.antt =====
-- internal/schema/validate.go: which worker outputs and verification reports are accepted.
use gorchera.Base.{◌≡◌, ◌≢◌, ◌↔◌, ◌⊎◌, true, false, [], ◌∷◌, none, arith}
use gorchera.Base.Text.{◌is◌, is_iff, is_blank, one_of, OneOf, one_of_iff}
use gorchera.Domain.{WorkerOutput, VerificationReport}
use gorchera.Schema.{
  worker_statuses, verification_statuses, validate_worker_output, validate_verification_report,
}

-- What a worker may report: success, a failure with its reason or a block with its reason.
pub record IsReport (msg : WorkerOutput) : Type 0 where
  pub known : OneOf msg.status ("success" ∷ "failed" ∷ "blocked" ∷ [])
  pub summarised : is_blank msg.summary ≡ false
  pub block_explained : msg.status ≡ "blocked" → is_blank msg.blocked_reason ≡ false
  pub failure_explained : msg.status ≡ "failed" → is_blank msg.error_reason ≡ false

worker_tests :
    (msg : WorkerOutput)
    → (validate_worker_output msg ≡ none) ↔ (
        (one_of msg.status worker_statuses ≡ true)
        × (is_blank msg.summary ≡ false)
        × (((msg.status is "blocked") ≡ false) ⊎ (is_blank msg.blocked_reason ≡ false))
        × (((msg.status is "failed") ≡ false) ⊎ (is_blank msg.error_reason ≡ false)))
unfolding validate_worker_output
worker_tests msg = ((λ h. ground arith), λ h. ground arith)

-- ValidateWorkerOutput returns no error exactly for a known status with a summary, where a block
-- and a failure give their reason.
pub validate_worker_output-none_iff :
    (msg : WorkerOutput) → (validate_worker_output msg ≡ none) ↔ IsReport msg
validate_worker_output-none_iff msg = (to_spec, of_spec)
  where
    to_spec : validate_worker_output msg ≡ none → IsReport msg
    to_spec h =
        let (known, said, blocked, failed) = (worker_tests msg).0 h in
        record {
          known = (one_of_iff msg.status worker_statuses).0 known;
          summarised = said;
          block_explained = λ e. ground (arith, is_iff msg.status "blocked");
          failure_explained = λ e. ground (arith, is_iff msg.status "failed");
        }

    of_spec : IsReport msg → validate_worker_output msg ≡ none
    of_spec h = (worker_tests msg).1 (
      (one_of_iff msg.status worker_statuses).1 h.known,
      h.summarised,
      ground (arith, is_iff msg.status "blocked"),
      ground (arith, is_iff msg.status "failed"),
    )

-- A verification report whose status and flag agree, with a reason and evidence.
pub record IsVerdict (msg : VerificationReport) : Type 0 where
  pub known : OneOf msg.status ("passed" ∷ "blocked" ∷ "failed" ∷ [])
  pub agrees : (msg.passed ≡ true) ↔ (msg.status ≡ "passed")
  pub explained : is_blank msg.reason ≡ false
  pub evident : msg.evidence ≢ []

-- ValidateVerificationReport returns no error exactly for a known status that agrees with the flag,
-- with a reason and some evidence.
pub validate_verification_report-none_iff :
    (msg : VerificationReport) → (validate_verification_report msg ≡ none) ↔ IsVerdict msg
unfolding validate_verification_report
validate_verification_report-none_iff msg = (to_spec, of_spec)
  where
    to_spec : validate_verification_report msg ≡ none → IsVerdict msg
    to_spec h = record {
      known = (one_of_iff msg.status verification_statuses).0 (ground arith);
      agrees = (
        (λ e. ground (arith, is_iff msg.status "passed")),
        λ e. ground (arith, is_iff msg.status "passed"),
      );
      explained = ground arith;
      evident = λ e. absurd (ground arith);
    }

    of_spec : IsVerdict msg → validate_verification_report msg ≡ none
    of_spec h = ground (
      arith,
      h.agrees,
      is_iff msg.status "passed",
      (one_of_iff msg.status verification_statuses).1 h.known,
    )
