-- ===== src/Domain.antt =====
-- internal/domain/types.go: the data that the components share.
mod Status
mod Records
pub mod Roles
pub mod Levels
pub use Status.*
pub use Records.*
