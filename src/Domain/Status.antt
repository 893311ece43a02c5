-- ===== src/Domain/Status.antt =====
-- internal/domain/types.go: the statuses. The source's string constants are constructors. A status
-- that a stored file spells otherwise is outside the model.
use gorchera.Base.{Bool, true, false}

pub data JobStatus : Type 0 where
  queued starting planning running waiting_leader waiting_worker blocked failed done : JobStatus

pub data StepStatus : Type 0 where
  pending active succeeded blocked failed skipped : StepStatus

pub data ChainGoalStatus : Type 0 where
  pending running done failed skipped : ChainGoalStatus

pub data ChainStatus : Type 0 where
  running paused done failed cancelled : ChainStatus

-- isRecoverableJobStatus of internal/orchestrator/job_runtime.go.
abbrev pub is_recoverable_job_status : JobStatus → Bool
is_recoverable_job_status JobStatus.starting = true
is_recoverable_job_status JobStatus.planning = true
is_recoverable_job_status JobStatus.running = true
is_recoverable_job_status JobStatus.waiting_leader = true
is_recoverable_job_status JobStatus.waiting_worker = true
is_recoverable_job_status _ = false

-- `chain.Status` is done, failed or cancelled: the guard of the chain operations.
abbrev pub is_closed_chain : ChainStatus → Bool
is_closed_chain ChainStatus.running = false
is_closed_chain ChainStatus.paused = false
is_closed_chain _ = true

abbrev pub is_succeeded : StepStatus → Bool
is_succeeded StepStatus.succeeded = true
is_succeeded _ = false

abbrev pub is_active : StepStatus → Bool
is_active StepStatus.active = true
is_active _ = false
