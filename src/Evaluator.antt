-- ===== src/Evaluator.antt =====
-- internal/orchestrator/evaluator.go and verification.go: the completion gate.
mod Coverage
mod Evidence
mod Merge
pub mod Score
pub mod Shown
pub mod Stages
pub mod Verdict
unfoldable pub use Coverage.*
unfoldable pub use Evidence.*
unfoldable pub use Merge.*
