-- ===== src/Loop.antt =====
-- internal/orchestrator/service.go, skip_leader.go, parallel.go, planning.go and evaluator.go: the
-- loops that drive a job and the steps that they take.
mod Answers
mod Engine
mod Checks
mod Worker
mod Fanout
mod System
mod Evaluate
mod Plan
mod Leader
mod SkipLeader
mod Run
pub mod Moves
pub mod Stops
pub mod Earned
pub mod Gate
pub mod Ends
pub mod Turns
pub mod Attempts
pub mod Quiet
pub mod Started
pub mod Closing
unfoldable pub use Answers.*
unfoldable pub use Engine.*
unfoldable pub use Checks.*
unfoldable pub use Worker.*
unfoldable pub use Fanout.*
unfoldable pub use System.*
unfoldable pub use Evaluate.*
unfoldable pub use Plan.*
unfoldable pub use Leader.*
unfoldable pub use SkipLeader.*
unfoldable pub use Run.*
