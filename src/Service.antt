-- ===== src/Service.antt =====
-- internal/orchestrator/service.go and job_runtime.go: the service's state, the job store and the
-- ways a job comes to a stop.
mod State
mod Stop
mod Commands
unfoldable pub use State.*
unfoldable pub use Stop.*
unfoldable pub use Commands.*
pub mod Ending
pub mod Saved
pub mod Strikes
pub mod Budget
pub mod Operator
